-- ===== src/Relay/Bounded.antt =====
-- relay/server.ts: `Map`s that forget their oldest key once they hold too many.
pub mod Laws
use governance_seatbelt.Prelude.{ℕ, List, [], ◌∷◌, leb, if◌then◌else◌, length, Eq}
use governance_seatbelt.Dict.{Dict, put}

module _ {K V : Type 0} where
  -- `map.delete(map.keys().next().value)`
  abbrev pub delete_first : Dict K V → Dict K V
  delete_first [] = []
  delete_first (entry ∷ m) = m

module _ {K V : Type 0} ⦃e : Eq K⦄ where
  -- `map.set(key, value); if (map.size > limit) …`
  unfoldable pub set_bounded : ℕ → K → V → Dict K V → Dict K V
  set_bounded limit k v m =
      let next = put k v m in if leb (length next) limit then next else delete_first next
