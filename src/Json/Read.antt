-- ===== src/Json/Read.antt =====
-- Reading of JSON values that come from outside: members by name.
use governance_seatbelt.Prelude.{
  ℕ, zero, suc, List, [], ◌∷◌, ◌≢◌, ap, none≢some, String, Option, none, some, Bool, true, false,
  ◌&&◌, ◌||◌, not, if◌then◌else◌, ◌==◌, string_eq, ◌≡◌, refl, arith, eq_iff,
}
use governance_seatbelt.Json.{
  Json, Items, Fields, null, bool, num, bigint, str, arr, obj, nil, cons, end, field,
}
use governance_seatbelt.Dedupe.{has}
use governance_seatbelt.Text.{is_blank}

-- `record[key]`
unfoldable pub member : String → Fields → Option Json
member key end = none
member key (field k value fields) = if k == key then some value else member key fields

-- `typeof value === 'string'`
abbrev pub as_string : Option Json → Option String
as_string (some (str s)) = some s
as_string _ = none

abbrev pub non_blank_text : Option String → Option String
non_blank_text none = none
non_blank_text (some s) = if is_blank s then none else some s

-- readOptionalString
unfoldable pub read_optional_string : Fields → String → Option String
unfolding member
read_optional_string fields key = non_blank_text (as_string (member key fields))

-- `if (value)`, for a value that may be missing.
unfoldable pub truthy : Option Json → Bool
truthy none = false
truthy (some null) = false
truthy (some (bool b)) = b
truthy (some (num n)) = not (n == "0" || n == "-0")
truthy (some (bigint n)) = not (n == "0")
truthy (some (str s)) = not (s == "")
truthy (some (arr items)) = true
truthy (some (obj fields)) = true

-- `record[key] = value`: in place if the member is there, at the end if not
unfoldable pub set_member : String → Json → Fields → Fields
set_member key value end = field key value end
set_member key value (field k old fields) =
    if k == key then field k value fields else field k old (set_member key value fields)

pub member-set_member :
    (key k : String) (value : Json) (fields : Fields)
    → member k (set_member key value fields) ≡ (if key == k then some value else member k fields)
unfolding member set_member
member-set_member key k value end = refl
member-set_member key k value (field j old fields) =
    ground (arith, eq_iff key k, eq_iff j key, eq_iff j k, member-set_member key k value fields)

abbrev pub as_items : Option Json → Option Items
as_items (some (arr items)) = some items
as_items _ = none

abbrev pub as_fields : Option Json → Option Fields
as_fields (some (obj fields)) = some fields
as_fields _ = none

-- `array.length`
unfoldable pub count_items : Items → ℕ
count_items nil = 0
count_items (cons x items) = suc (count_items items)

-- `array[index]`, and its assignment at an index that is there
unfoldable pub item_at : ℕ → Items → Option Json
item_at n nil = none
item_at zero (cons x items) = some x
item_at (suc n) (cons x items) = item_at n items

unfoldable pub set_item : ℕ → Json → Items → Items
set_item n value nil = nil
set_item zero value (cons x items) = cons value items
set_item (suc n) value (cons x items) = cons x (set_item n value items)

pub item_at-set_item :
    (n : ℕ) (value old : Json) (items : Items)
    → item_at n items ≡ some old
    → item_at n (set_item n value items) ≡ some value
unfolding item_at set_item
item_at-set_item n value old nil h = absurd (none≢some h)
item_at-set_item zero value old (cons x items) h = refl
item_at-set_item (suc n) value old (cons x items) h = item_at-set_item n value old items h

pub item_at-set_item_other :
    (m n : ℕ) (value : Json) (items : Items)
    → m ≢ n
    → item_at m (set_item n value items) ≡ item_at m items
unfolding item_at set_item
item_at-set_item_other m n value nil h = refl
item_at-set_item_other zero zero value (cons x items) h = absurd (h refl)
item_at-set_item_other zero (suc n) value (cons x items) h = refl
item_at-set_item_other (suc m) zero value (cons x items) h = refl
item_at-set_item_other (suc m) (suc n) value (cons x items) h =
    item_at-set_item_other m n value items (λ e. h (ap suc e))

-- zod's `.strict()`: no members but those of a list.
unfoldable pub only_members : List String → Fields → Bool
only_members names end = true
only_members names (field key value fields) = has key names && only_members names fields

-- The members of a list, in its order.
pub pick : List String → Fields → Fields
unfolding member
pick [] fields = end
pick (name ∷ names) fields =
    let rest = pick names fields in
    elim (member name fields) [ none ↦ rest | some value ↦ field name value rest ]
