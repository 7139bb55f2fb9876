-- ===== src/Dedupe.antt =====
-- The members of a list at their first places: a loop over a `seen` set, or `new Set(…)`.
pub mod Laws
use governance_seatbelt.Prelude.{List, [], ◌∷◌, Bool, true, false, ◌||◌, Eq, ◌==◌}

module _ {A : Type 0} ⦃e : Eq A⦄ where
  -- `seen.has(x)`
  abbrev pub has : A → List A → Bool
  has x [] = false
  has x (y ∷ ys) = y == x || has x ys

  unfoldable pub dedupe_from : List A → List A → List A
  dedupe_from seen [] = []
  dedupe_from seen (x ∷ xs) = elim (has x seen) [
    | true ↦ dedupe_from seen xs
    | false ↦ x ∷ dedupe_from (x ∷ seen) xs
  ]

  unfoldable pub dedupe : List A → List A
  unfolding dedupe_from
  dedupe xs = dedupe_from [] xs
