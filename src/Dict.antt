-- ===== src/Dict.antt =====
-- JavaScript objects and `Map`s: keys in insertion order, each at most once.
pub mod Laws
use governance_seatbelt.Prelude.{
  Option, none, some, List, [], ◌∷◌, Eq, ◌==◌, if◌then◌else◌, ◌≡◌, map,
}

abbrev pub Dict : Type 0 → Type 0 → Type 0
Dict K V = List (K × V)

module _ {K V : Type 0} where
  abbrev pub keys : Dict K V → List K
  keys m = map (λ e. e.0) m

  abbrev pub values : Dict K V → List V
  values m = map (λ e. e.1) m

module _ {K V : Type 0} ⦃e : Eq K⦄ where
  -- `m[k]`
  unfoldable pub lookup : K → Dict K V → Option V
  lookup k [] = none
  lookup k ((j, v) ∷ m) = if j == k then some v else lookup k m

  -- `m[k] = v`: in place if the key is there, at the end if not
  unfoldable pub put : K → V → Dict K V → Dict K V
  put k v [] = (k, v) ∷ []
  put k v ((j, w) ∷ m) = if j == k then (j, v) ∷ m else (j, w) ∷ put k v m

  -- `delete m[k]`
  unfoldable pub remove : K → Dict K V → Dict K V
  remove k [] = []
  remove k ((j, w) ∷ m) = let rest = remove k m in if j == k then rest else (j, w) ∷ rest

  -- `{ ...a, ...b }`
  unfoldable pub spread : Dict K V → Dict K V → Dict K V
  unfolding put
  spread a [] = a
  spread a ((k, v) ∷ b) = spread (put k v a) b

  -- What every object satisfies.
  abbrev pub IsDistinct : Dict K V → Type 0
  IsDistinct [] = Unit
  IsDistinct ((k, v) ∷ m) = (lookup k m ≡ none) × IsDistinct m
