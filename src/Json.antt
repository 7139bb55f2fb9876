-- ===== src/Json.antt =====
-- The machine-readable payloads of checks: JSON values, and the bigints that `JSON.stringify` is
-- given a replacer for.
pub mod Read
use governance_seatbelt.Prelude.{
  String, Bool, true, false, ◌&&◌, ◌≡◌, refl, ap, Eq, ◌==◌, eq_iff, eq_refl, string_eq, arith, sym,
  subst, false≢true,
}

mutual
  pub data Json : Type 0 where
    null : Json
    bool : Bool → Json
    -- a number and a bigint by their decimal texts
    num : String → Json
    bigint : String → Json
    str : String → Json
    arr : Items → Json
    obj : Fields → Json

  pub data Items : Type 0 where
    nil : Items
    cons : Json → Items → Items

  pub data Fields : Type 0 where
    end : Fields
    field : String → Json → Fields → Fields

abbrev bool_eq : Bool → Bool → Bool
bool_eq true b = b
bool_eq false true = false
bool_eq false false = true

-- The replacer: `typeof value === 'bigint' ? value.toString() : value`.
mutual
  pub replace_bigints : Json → Json
  replace_bigints null = null
  replace_bigints (bool b) = bool b
  replace_bigints (num n) = num n
  replace_bigints (bigint n) = str n
  replace_bigints (str s) = str s
  replace_bigints (arr xs) = arr (replace_items xs)
  replace_bigints (obj fs) = obj (replace_fields fs)

  replace_items : Items → Items
  replace_items nil = nil
  replace_items (cons x xs) = cons (replace_bigints x) (replace_items xs)

  replace_fields : Fields → Fields
  replace_fields end = end
  replace_fields (field k x fs) = field k (replace_bigints x) (replace_fields fs)

mutual
  pub json_beq : Json → Json → Bool
  json_beq null null = true
  json_beq (bool a) (bool b) = bool_eq a b
  json_beq (num a) (num b) = a == b
  json_beq (bigint a) (bigint b) = a == b
  json_beq (str a) (str b) = a == b
  json_beq (arr xs) (arr ys) = items_beq xs ys
  json_beq (obj fs) (obj gs) = fields_beq fs gs
  json_beq _ _ = false

  items_beq : Items → Items → Bool
  items_beq nil nil = true
  items_beq (cons x xs) (cons y ys) = json_beq x y && items_beq xs ys
  items_beq _ _ = false

  fields_beq : Fields → Fields → Bool
  fields_beq end end = true
  fields_beq (field j x fs) (field k y gs) = j == k && json_beq x y && fields_beq fs gs
  fields_beq _ _ = false

mutual
  unfolding json_beq

  json_beq_refl : (x : Json) → json_beq x x ≡ true
  json_beq_refl null = refl
  json_beq_refl (bool true) = refl
  json_beq_refl (bool false) = refl
  json_beq_refl (num a) = eq_refl a
  json_beq_refl (bigint a) = eq_refl a
  json_beq_refl (str a) = eq_refl a
  json_beq_refl (arr xs) = items_beq_refl xs
  json_beq_refl (obj fs) = fields_beq_refl fs

  items_beq_refl : (xs : Items) → items_beq xs xs ≡ true
  items_beq_refl nil = refl
  items_beq_refl (cons x xs) = ground (arith, json_beq_refl x, items_beq_refl xs)

  fields_beq_refl : (fs : Fields) → fields_beq fs fs ≡ true
  fields_beq_refl end = refl
  fields_beq_refl (field k x fs) = ground (arith, eq_refl k, json_beq_refl x, fields_beq_refl fs)

bool_eq_lem : (a b : Bool) → bool_eq a b ≡ true → a ≡ b
bool_eq_lem true b h = sym h
bool_eq_lem false false h = refl
bool_eq_lem false true h = absurd (false≢true h)

both : (a b : Bool) → (a && b) ≡ true → (a ≡ true) × (b ≡ true)
both true b h = (refl, h)
both false b h = absurd (false≢true h)

mutual
  unfolding json_beq

  json_beq-eq : (x y : Json) → json_beq x y ≡ true → x ≡ y
  json_beq-eq null null h = refl
  json_beq-eq (bool a) (bool b) h = ap bool (bool_eq_lem a b h)
  json_beq-eq (num a) (num b) h = ap num ((eq_iff a b).0 h)
  json_beq-eq (bigint a) (bigint b) h = ap bigint ((eq_iff a b).0 h)
  json_beq-eq (str a) (str b) h = ap str ((eq_iff a b).0 h)
  json_beq-eq (arr xs) (arr ys) h = ap arr (items_beq-eq xs ys h)
  json_beq-eq (obj fs) (obj gs) h = ap obj (fields_beq-eq fs gs h)
  json_beq-eq _ _ h = absurd (false≢true h)

  items_beq-eq : (xs ys : Items) → items_beq xs ys ≡ true → xs ≡ ys
  items_beq-eq nil nil h = refl
  items_beq-eq (cons x xs) (cons y ys) h =
      let (p, q) = both (json_beq x y) (items_beq xs ys) h in
      let e = json_beq-eq x y p in let es = items_beq-eq xs ys q in cc (e, es)
  items_beq-eq _ _ h = absurd (false≢true h)

  fields_beq-eq : (fs gs : Fields) → fields_beq fs gs ≡ true → fs ≡ gs
  fields_beq-eq end end h = refl
  fields_beq-eq (field j x fs) (field k y gs) h =
      let (pq, r) = both (j == k && json_beq x y) (fields_beq fs gs) h in
      let (p, q) = both (j == k) (json_beq x y) pq in
      let k_same = (eq_iff j k).0 p in
      let e = json_beq-eq x y q in let es = fields_beq-eq fs gs r in cc (k_same, e, es)
  fields_beq-eq _ _ h = absurd (false≢true h)

-- Two values have the same text exactly if they are the same once bigints are texts.
instance pub json_eq : Eq Json
json_eq = record {
  beq = json_beq;
  beq_iff = λ x y. (json_beq-eq x y, λ e. subst (λ z. json_beq x z ≡ true) e (json_beq_refl x));
}
