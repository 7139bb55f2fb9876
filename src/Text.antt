-- ===== src/Text.antt =====
-- What the code uses of JavaScript's strings: `trim`, to see whether a text has anything but white
-- space, template literals and the decimal text of a number.
use Prim.Native.Char.{Char, code}
use Prim.Native.String.{[], ◌∷◌, ◌++◌ as append, slice}
use governance_seatbelt.Prelude.{
  ℕ, zero, suc, ◌/◌, ◌%◌, String, Option, none, some, Bool, true, ◌&&◌, ◌||◌, leb, nat_beq, ltb,
  if◌then◌else◌, ◌==◌, string_eq,
}

-- The white space and line ends of ECMAScript, which `trim` removes.
pub is_space : Char → Bool
is_space c =
    (leb 9 (code c) && leb (code c) 13)
    || nat_beq (code c) 32
    || nat_beq (code c) 160
    || nat_beq (code c) 0x1680
    || (leb 0x2000 (code c) && leb (code c) 0x200A)
    || nat_beq (code c) 0x2028
    || nat_beq (code c) 0x2029
    || nat_beq (code c) 0x202F
    || nat_beq (code c) 0x205F
    || nat_beq (code c) 0x3000
    || nat_beq (code c) 0xFEFF

-- `s.trim().length === 0`
unfoldable pub is_blank : String → Bool
unfolding is_space
is_blank [] = true
is_blank (c ∷ s) = is_space c && is_blank s

-- `s && s.trim().length > 0`
unfoldable pub non_blank : Option String → Option String
unfolding is_blank
non_blank none = none
non_blank (some s) = if is_blank s then none else some s

unfoldable pub trim_start : String → String
unfolding is_space
trim_start [] = ""
trim_start (c ∷ s) = let rest = trim_start s in if is_space c then rest else c ∷ s

unfoldable pub trim_end : String → String
unfolding is_space
trim_end [] = ""
trim_end (c ∷ s) = let rest = trim_end s in if is_space c && rest == "" then "" else c ∷ rest

-- `s.trim()`
unfoldable pub trim : String → String
unfolding trim_start trim_end
trim s = trim_end (trim_start s)

-- `${a}${b}`
abbrev pub concat : String → String → String
concat a b = append a b

digit : ℕ → String
digit n = slice "0123456789" n (suc n)

-- By fuel; a number has fewer digits than its successor.
decimal_from : ℕ → ℕ → String
unfolding digit
decimal_from zero n = ""
decimal_from (suc fuel) n =
    let rest = decimal_from fuel (n / 10) in
    if ltb n 10 then digit n else append rest (digit (n % 10))

unfoldable pub to_decimal : ℕ → String
unfolding decimal_from
to_decimal n = decimal_from (suc n) n
