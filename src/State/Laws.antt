-- ===== src/State/Laws.antt =====
-- What `mergeStateObjects` promises, for any two sets of overrides.
use governance_seatbelt.Prelude.{
  String, Option, none, some, [], ◌≡◌, refl, or_else, from_option, ok, ◌∙◌, string_eq, ◌↔◌,
  or_else-none, >>=-eq-ok, ok-injective, subst,
}
use governance_seatbelt.Dict.{lookup, IsDistinct}
use governance_seatbelt.State.{
  StateObjects, normalize_from, normalize_state_objects, merge_normalized, merge_state_objects,
}
use governance_seatbelt.State.View.{Field, view, last_write, HasDistinctSlots}
use governance_seatbelt.State.Merge.{
  AllValid, normalize_from_lem, normalize_from-IsDistinct, normalize_from_total,
  normalize_from_valid, view_of_fresh, view-merge_from,
}

abbrev objects : Option StateObjects → StateObjects
objects = from_option []

view-merge_normalized :
    (f : Field) (address : String) (base overrides : Option StateObjects)
    → HasDistinctSlots (objects base)
    → HasDistinctSlots (objects overrides)
    → IsDistinct (objects overrides)
    → view f address (objects (merge_normalized base overrides))
      ≡ or_else (view f address (objects overrides)) (view f address (objects base))
unfolding merge_normalized
view-merge_normalized f address none none db dv h =
    rw (view_of_fresh f address [] (unfold lookup in refl))
view-merge_normalized f address none (some o) db dv h =
    rw (view_of_fresh f address [] (unfold lookup in refl), or_else-none)
view-merge_normalized f address (some b) none db dv h =
    rw (view_of_fresh f address [] (unfold lookup in refl))
view-merge_normalized f address (some b) (some o) db dv h = view-merge_from f address b o db dv h

module _ (get_address : String → Option String) where
  record IsNormalOf (f : Field) (address : String) (o n : Option StateObjects) : Type 0 where
    slots : HasDistinctSlots (objects n)
    distinct : IsDistinct (objects n)
    viewed : view f address (objects n) ≡ last_write get_address f address (objects o)

  normalize_state_objects_lem :
      (f : Field) (address : String) (o : Option StateObjects) {n : Option StateObjects}
      → HasDistinctSlots (objects o)
      → normalize_state_objects get_address o ≡ ok n
      → IsNormalOf f address o n
  unfolding normalize_state_objects
  normalize_state_objects_lem f address none d e =
      subst (IsNormalOf f address none) (ok-injective e) (record {
        slots = tt;
        distinct = tt;
        viewed = unfold last_write in view_of_fresh f address [] (unfold lookup in refl);
      })
  normalize_state_objects_lem f address (some l) d e =
      let (s, done, e') = >>=-eq-ok (normalize_from get_address [] l) _ e in
      let (slots, viewed) = normalize_from_lem get_address f address [] l tt d done in
      subst (IsNormalOf f address (some l)) (ok-injective e') (record {
        slots = slots;
        distinct = normalize_from-IsDistinct get_address [] l tt done;
        viewed = viewed ∙ rw (view_of_fresh f address [] (unfold lookup in refl)) (or_else-none _);
      })

  -- Whenever a merge succeeds, each field of each account reads as the last override of it that
  -- `overrides` writes under any spelling of the address, and as the last that `base` writes where
  -- `overrides` writes none; an empty balance counts as no write. The inputs are JavaScript objects:
  -- no account lists a storage slot twice.
  pub view-merge_state_objects :
      (f : Field) (address : String) (base overrides : Option StateObjects)
      {m : Option StateObjects}
      → HasDistinctSlots (from_option [] base)
      → HasDistinctSlots (from_option [] overrides)
      → merge_state_objects get_address base overrides ≡ ok m
      → view f address (from_option [] m)
        ≡ or_else
            (last_write get_address f address (from_option [] overrides))
            (last_write get_address f address (from_option [] base))
  unfolding merge_state_objects
  view-merge_state_objects f address base overrides {m} db dv e =
      let (b, eb, e') = >>=-eq-ok (normalize_state_objects get_address base) _ e in
      let (o, eo, e'') = >>=-eq-ok (normalize_state_objects get_address overrides) _ e' in
      let nb = normalize_state_objects_lem f address base {n = b} db eb in
      let no' = normalize_state_objects_lem f address overrides {n = o} dv eo in
      rw (← ok-injective e'') (
        view-merge_normalized f address b o nb.slots no'.slots no'.distinct
        ∙ rw (nb.viewed, no'.viewed))

  normalize_state_objects_valid :
      (o : Option StateObjects) {n : Option StateObjects}
      → normalize_state_objects get_address o ≡ ok n
      → AllValid get_address (objects o)
  unfolding normalize_state_objects
  normalize_state_objects_valid none e = tt
  normalize_state_objects_valid (some l) e =
      normalize_from_valid get_address [] l (>>=-eq-ok (normalize_from get_address [] l) _ e).1

  normalize_state_objects_total :
      (o : Option StateObjects)
      → AllValid get_address (objects o)
      → (n : Option StateObjects) × (normalize_state_objects get_address o ≡ ok n)
  unfolding normalize_state_objects
  normalize_state_objects_total none h = (none, refl)
  normalize_state_objects_total (some l) h =
      let (s, e) = normalize_from_total get_address [] l h in (some s, rw e)

  -- A merge succeeds exactly when every address of both arguments is valid.
  pub merge_state_objects_iff :
      (base overrides : Option StateObjects)
      → ((m : Option StateObjects) × (merge_state_objects get_address base overrides ≡ ok m)) ↔ (
          AllValid get_address (from_option [] base)
          × AllValid get_address (from_option [] overrides))
  unfolding merge_state_objects
  merge_state_objects_iff base overrides = (
    λ r.
        let (b, eb, e') = >>=-eq-ok (normalize_state_objects get_address base) _ r.1 in
        let (o, eo, e'') = >>=-eq-ok (normalize_state_objects get_address overrides) _ e' in
        (normalize_state_objects_valid base eb, normalize_state_objects_valid overrides eo),
    λ v.
        let (b, eb) = normalize_state_objects_total base v.0 in
        let (o, eo) = normalize_state_objects_total overrides v.1 in
        (merge_normalized b o, rw (eb, eo)),
  )
