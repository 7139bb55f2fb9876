-- ===== src/Prelude/Lists.antt =====
-- Lists measured by native numbers, and predicates on lists and options by recursion.
use Prim.Native.Nat.{ℕ, zero, suc, ◌+◌, ◌≤◌, ◌<◌}
use mathlib.Core.Path.{◌≡◌, refl}
use mathlib.Core.Bool.{Bool, true, false, ◌&&◌, ◌||◌, cond}
use mathlib.Core.Logic.{◌⊎◌, ◌↔◌, inl}
use mathlib.Core.List.{List, [], ◌∷◌, ◌++◌}
use mathlib.Core.Option.{Option, none, some}
use native.Mathlib.Omega.{arith}

module _ {ℓ} {A : Type ℓ} where
  abbrev pub length : List A → ℕ
  length [] = 0
  length (x ∷ xs) = suc (length xs)

  abbrev pub drop : ℕ → List A → List A
  drop zero xs = xs
  drop (suc n) [] = []
  drop (suc n) (x ∷ xs) = drop n xs

  -- `a ?? b`
  abbrev pub or_else : Option A → Option A → Option A
  or_else (some a) o = some a
  or_else none o = o

  pub or_else_assoc : (a b c : Option A) → or_else (or_else a b) c ≡ or_else a (or_else b c)
  or_else_assoc (some a) b c = refl
  or_else_assoc none b c = refl

  pub or_else-none : (a : Option A) → or_else a none ≡ a
  or_else-none (some a) = refl
  or_else-none none = refl

  abbrev pub from_option : A → Option A → A
  from_option d (some a) = a
  from_option d none = d

  abbrev pub is_some : Option A → Bool
  is_some (some a) = true
  is_some none = false

  pub length-append : (xs ys : List A) → length (xs ++ ys) ≡ length xs + length ys
  length-append [] ys = omega arith
  length-append (x ∷ xs) ys = omega (arith, length-append xs ys)

  -- `xs.filter(p)`
  abbrev pub filter_by : (A → Bool) → List A → List A
  filter_by p [] = []
  filter_by p (x ∷ xs) = cond (p x) (x ∷ filter_by p xs) (filter_by p xs)

  -- `xs.some(p)`
  abbrev pub any : (A → Bool) → List A → Bool
  any p [] = false
  any p (x ∷ xs) = p x || any p xs

  -- `xs.every(p)`
  abbrev pub all : (A → Bool) → List A → Bool
  all p [] = true
  all p (x ∷ xs) = p x && all p xs

module _ {ℓ κ} {A : Type ℓ} (P : A → Type κ) where
  abbrev pub All : List A → Type κ
  All [] = Unit
  All (x ∷ xs) = P x × All xs

module _ {ℓ} {A : Type ℓ} (P : A → Type 0) where
  abbrev pub Some : List A → Type 0
  Some [] = ⊥
  Some (x ∷ xs) = P x ⊎ Some xs

module _ {ℓ} {A : Type ℓ} where
  abbrev pub count : (A → Bool) → List A → ℕ
  count p [] = 0
  count p (x ∷ xs) = cond (p x) (suc (count p xs)) (count p xs)

  pub count-le-length : (p : A → Bool) (xs : List A) → count p xs ≤ length xs
  count-le-length p [] = omega arith
  count-le-length p (x ∷ xs) = ground (arith, count-le-length p xs)

  -- Fewer than all pass a test exactly when one fails it.
  pub count-lt-length_iff :
      (p : A → Bool) (xs : List A) → (count p xs < length xs) ↔ Some (λ x. p x ≡ false) xs
  count-lt-length_iff p [] = (λ h. elim h [ ], λ h. absurd h)
  count-lt-length_iff p (x ∷ xs) = ground (arith, count-lt-length_iff p xs, count-le-length p xs)

  pub All-or-Some :
      (p : A → Bool) (xs : List A) → All (λ x. p x ≡ false) xs ⊎ Some (λ x. p x ≡ true) xs
  All-or-Some p [] = inl tt
  All-or-Some p (x ∷ xs) = ground (arith, All-or-Some p xs)

pub some-injective {ℓ} : {A : Type ℓ} {a b : A} → some a ≡ some b → a ≡ b
some-injective h = cc

pub none≢some {ℓ} : {A : Type ℓ} {a : A} → ¬ (none ≡ some a)
none≢some h = cc
