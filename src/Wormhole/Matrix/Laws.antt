-- ===== src/Wormhole/Matrix/Laws.antt =====
-- A support matrix has no issue exactly if it is sound.
use governance_seatbelt.Prelude.{
  ℕ, String, Option, none, some, List, [], ◌∷◌, ◌++◌, Bool, true, false, not, ◌==◌, nat_eq, eq_iff,
  string_eq, length, ◌≡◌, refl, ◌↔◌, All, arith, map, ◌≢◌,
}
use governance_seatbelt.Dedupe.{has}
use governance_seatbelt.Dedupe.Laws.{IsDeduped}
use governance_seatbelt.Wormhole.Lane.{
  LaneKey, Lane, ExecutionMode, direct, receiver_modern, receiver_legacy,
}
use governance_seatbelt.Wormhole.Matrix.{
  Kind, Issue, issue_if, is_given, is_valid_address, is_bad, sender_issues, address_issues,
  mode_issues, matrix_issues, get_wormhole_support_matrix_issues,
}

append-nil_iff : (xs ys : List Issue) → (xs ++ ys ≡ []) ↔ ((xs ≡ []) × (ys ≡ []))
append-nil_iff [] ys = ((λ h. (refl, h)), λ h. h.1)
append-nil_iff (x ∷ xs) ys = ((λ h. cc), λ h. cc)

issue_if-nil : (b : Bool) (key : LaneKey) (kind : Kind) → (issue_if b key kind ≡ []) ↔ (b ≡ false)
unfolding issue_if
issue_if-nil true key kind = ((λ h. cc), λ h. cc)
issue_if-nil false key kind = ((λ h. refl), λ h. refl)

issue_if-not-nil :
    (b : Bool) (key : LaneKey) (kind : Kind) → (issue_if (not b) key kind ≡ []) ↔ (b ≡ true)
issue_if-not-nil b key kind = ground (arith, issue_if-nil (not b) key kind)

-- Two parts of the issues are empty exactly if each is.
part :
    {xs ys : List Issue} {P Q : Type 0} → (xs ≡ []) ↔ P → (ys ≡ []) ↔ Q → (xs ++ ys ≡ []) ↔ (P × Q)
part {xs} {ys} f g = (
  λ h. let (p, q) = (append-nil_iff xs ys).0 h in (f.0 p, g.0 q),
  λ h. (append-nil_iff xs ys).1 (f.1 h.0, g.1 h.1),
)

has_member-length : (xs : List String) → ((length xs == 0) ≡ false) ↔ (xs ≢ [])
has_member-length [] = ((λ h. cc), λ h. absurd (h refl))
has_member-length (x ∷ xs) = ((λ h e. cc), λ h. ground arith)

differ_iff : (a b : String) → ((a == b) ≡ false) ↔ (a ≢ b)
differ_iff a b = ground (arith, eq_iff a b)

-- Distinct ids, none of which has been seen.
abbrev IsFresh : List ℕ → List ℕ → Type 0
IsFresh seen ids = All (λ x. has x seen ≡ false) ids × IsDeduped ids

unseen : (ids : List ℕ) → All (λ x. has x [] ≡ false) ids
unseen [] = tt
unseen (x ∷ ids) = (refl, unseen ids)

unseen-cons :
    (x : ℕ) (seen ids : List ℕ)
    → All (λ y. has y (x ∷ seen) ≡ false) ids
      ↔ ((has x ids ≡ false) × All (λ y. has y seen ≡ false) ids)
unseen-cons x seen [] = ((λ _. (refl, tt)), λ _. tt)
unseen-cons x seen (y ∷ ids) = ground (arith, unseen-cons x seen ids, eq_iff x y, eq_iff y x)

IsFresh-cons :
    (x : ℕ) (seen ids : List ℕ)
    → IsFresh seen (x ∷ ids) ↔ ((has x seen ≡ false) × IsFresh (x ∷ seen) ids)
IsFresh-cons x seen ids = ground (arith, unseen-cons x seen ids)

module _ (get_address : String → Option String) where
  -- A text that is given is an address.
  abbrev pub IsAddressIfGiven : Option String → Type 0
  IsAddressIfGiven none = Unit
  IsAddressIfGiven (some a) = is_valid_address get_address a ≡ true

  abbrev pub FitsMode : ExecutionMode → Lane → Type 0
  FitsMode direct lane =
      (lane.wormhole_receiver_core_address ≡ none)
      × (lane.legacy_payload_version ≡ none)
      × (lane.legacy_next_sequence_storage_slot ≡ none)
  FitsMode receiver_modern lane =
      (is_given lane.wormhole_receiver_core_address ≡ true)
      × (lane.legacy_payload_version ≡ none)
      × (lane.legacy_next_sequence_storage_slot ≡ none)
  FitsMode receiver_legacy lane =
      (is_given lane.wormhole_receiver_core_address ≡ true)
      × (is_given lane.legacy_payload_version ≡ true)
      × (is_given lane.legacy_next_sequence_storage_slot ≡ true)

  pub record IsSoundLane (lane : Lane) : Type 0 where
    pub has_sender : lane.sender_targets ≢ []
    pub l2_from : is_valid_address get_address lane.l2_from_address ≡ true
    pub senders : All (λ a. is_valid_address get_address a ≡ true) lane.sender_targets
    pub v2_given : lane.validation_targets.v2_factory ≢ ""
    pub v2 : is_valid_address get_address lane.validation_targets.v2_factory ≡ true
    pub v3 : IsAddressIfGiven lane.validation_targets.v3_factory
    pub v4 : IsAddressIfGiven lane.validation_targets.v4_pool_manager
    pub core : IsAddressIfGiven lane.wormhole_receiver_core_address
    pub fits : FitsMode lane.execution_mode lane

  is_bad_iff : (o : Option String) → (is_bad get_address o ≡ false) ↔ IsAddressIfGiven o
  is_bad_iff none = ((λ _. tt), λ _. refl)
  is_bad_iff (some a) = ground arith

  issue_if_bad-nil :
      (o : Option String) (key : LaneKey) (kind : Kind)
      → (issue_if (is_bad get_address o) key kind ≡ []) ↔ IsAddressIfGiven o
  issue_if_bad-nil o key kind =
      ground (arith, is_bad_iff o, issue_if-nil (is_bad get_address o) key kind)

  sender_issues-nil_iff :
      (key : LaneKey) (targets : List String)
      → (sender_issues get_address key targets ≡ [])
        ↔ All (λ a. is_valid_address get_address a ≡ true) targets
  unfolding sender_issues issue_if
  sender_issues-nil_iff key [] = ((λ _. tt), λ _. refl)
  sender_issues-nil_iff key (target ∷ targets) = ground (arith, sender_issues-nil_iff key targets)

  mode_issues-nil_iff :
      (mode : ExecutionMode) (lane : Lane)
      → (mode_issues get_address mode lane ≡ []) ↔ FitsMode mode lane
  unfolding mode_issues issue_if
  mode_issues-nil_iff direct lane = ground arith
  mode_issues-nil_iff receiver_modern lane = ground arith
  mode_issues-nil_iff receiver_legacy lane = ground arith

  -- In the order of the issues, `++` to the left.
  abbrev AddressesSound : Lane → Type 0
  AddressesSound lane =
      ((((((((length lane.sender_targets == 0) ≡ false)
                  × (is_valid_address get_address lane.l2_from_address ≡ true))
                × All (λ a. is_valid_address get_address a ≡ true) lane.sender_targets)
              × ((lane.validation_targets.v2_factory == "") ≡ false))
            × (is_valid_address get_address lane.validation_targets.v2_factory ≡ true))
          × IsAddressIfGiven lane.validation_targets.v3_factory)
        × IsAddressIfGiven lane.validation_targets.v4_pool_manager)

  address_issues-nil_iff :
      (lane : Lane) → (address_issues get_address lane ≡ []) ↔ AddressesSound lane
  unfolding address_issues
  address_issues-nil_iff lane =
      part
        (part
          (part
            (part
              (part (part (issue_if-nil _ _ _) (issue_if-not-nil _ _ _))
                (sender_issues-nil_iff lane.key lane.sender_targets))
              (issue_if-nil _ _ _))
            (issue_if-not-nil _ _ _))
          (issue_if_bad-nil lane.validation_targets.v3_factory _ _))
        (issue_if_bad-nil lane.validation_targets.v4_pool_manager _ _)

  -- The lanes from some point on, after lanes with the ids seen.
  abbrev SoundFrom : List ℕ → List ℕ → List Lane → Type 0
  SoundFrom seen_wormhole seen_destination [] = Unit
  SoundFrom seen_wormhole seen_destination (lane ∷ lanes) =
      (((((has lane.wormhole_chain_id seen_wormhole ≡ false)
              × (has lane.destination_chain_id seen_destination ≡ false))
            × AddressesSound lane)
          × FitsMode lane.execution_mode lane)
        × IsAddressIfGiven lane.wormhole_receiver_core_address)
      × SoundFrom (lane.wormhole_chain_id ∷ seen_wormhole)
          (lane.destination_chain_id ∷ seen_destination) lanes

  matrix_issues-nil_iff :
      (seen_wormhole seen_destination : List ℕ) (lanes : List Lane)
      → (matrix_issues get_address seen_wormhole seen_destination lanes ≡ [])
        ↔ SoundFrom seen_wormhole seen_destination lanes
  unfolding matrix_issues
  matrix_issues-nil_iff seen_wormhole seen_destination [] = ((λ _. tt), λ _. refl)
  matrix_issues-nil_iff seen_wormhole seen_destination (lane ∷ lanes) =
      part
        (part
          (part
            (part (part (issue_if-nil _ _ _) (issue_if-nil _ _ _)) (address_issues-nil_iff lane))
            (mode_issues-nil_iff lane.execution_mode lane))
          (issue_if_bad-nil lane.wormhole_receiver_core_address _ _))
        (matrix_issues-nil_iff (lane.wormhole_chain_id ∷ seen_wormhole)
          (lane.destination_chain_id ∷ seen_destination) lanes)

  IsSoundLane-iff :
      (lane : Lane)
      → ((AddressesSound lane × FitsMode lane.execution_mode lane)
          × IsAddressIfGiven lane.wormhole_receiver_core_address)
        ↔ IsSoundLane lane
  IsSoundLane-iff lane = (sound, unsound)
    where
      sound :
          (AddressesSound lane × FitsMode lane.execution_mode lane)
            × IsAddressIfGiven lane.wormhole_receiver_core_address
          → IsSoundLane lane
      sound ((((((((n, l), s), g), v2), v3), v4), f), c) = record {
        has_sender = (has_member-length lane.sender_targets).0 n;
        l2_from = l;
        senders = s;
        v2_given = (differ_iff lane.validation_targets.v2_factory "").0 g;
        v2 = v2;
        v3 = v3;
        v4 = v4;
        core = c;
        fits = f;
      }

      unsound :
          IsSoundLane lane
          → (AddressesSound lane × FitsMode lane.execution_mode lane)
            × IsAddressIfGiven lane.wormhole_receiver_core_address
      unsound r =
          let n = (has_member-length lane.sender_targets).1 r.has_sender in
          let g = (differ_iff lane.validation_targets.v2_factory "").1 r.v2_given in
          ((((((((n, r.l2_from), r.senders), g), r.v2), r.v3), r.v4), r.fits), r.core)

  SoundFrom-iff :
      (seen_wormhole seen_destination : List ℕ) (lanes : List Lane)
      → SoundFrom seen_wormhole seen_destination lanes ↔ (
          All IsSoundLane lanes
          × IsFresh seen_wormhole (map (λ l. l.wormhole_chain_id) lanes)
          × IsFresh seen_destination (map (λ l. l.destination_chain_id) lanes))
  SoundFrom-iff seen_wormhole seen_destination [] = ((λ _. (tt, (tt, tt), (tt, tt))), λ _. tt)
  SoundFrom-iff seen_wormhole seen_destination (lane ∷ lanes) = (
    λ (((((w, d), a), f), c), r).
        let (s, ws, ds) =
          (SoundFrom-iff (lane.wormhole_chain_id ∷ seen_wormhole)
              (lane.destination_chain_id ∷ seen_destination) lanes).0
            r in
        (
          ((IsSoundLane-iff lane).0 ((a, f), c), s),
          (IsFresh-cons lane.wormhole_chain_id seen_wormhole
                (map (λ l. l.wormhole_chain_id) lanes)).1
              (w, ws),
          (IsFresh-cons lane.destination_chain_id seen_destination
                (map (λ l. l.destination_chain_id) lanes)).1
              (d, ds),
        ),
    λ ((l, s), ws, ds).
        let (w, ws') =
          (IsFresh-cons lane.wormhole_chain_id seen_wormhole
              (map (λ l. l.wormhole_chain_id) lanes)).0
            ws in
        let (d, ds') =
          (IsFresh-cons lane.destination_chain_id seen_destination
              (map (λ l. l.destination_chain_id) lanes)).0
            ds in
        let ((a, f), c) = (IsSoundLane-iff lane).1 l in
        (
          ((((w, d), a), f), c),
          (SoundFrom-iff (lane.wormhole_chain_id ∷ seen_wormhole)
                (lane.destination_chain_id ∷ seen_destination) lanes).1
              (s, ws', ds'),
        ),
  )

  -- A support matrix has no issue exactly if no two lanes share a Wormhole chain id or a destination
  -- chain id and each lane is sound: it has sender targets, all its addresses are accepted by
  -- `getAddress`, and its receiver and legacy fields are those that its execution mode needs and no
  -- others.
  pub get_wormhole_support_matrix_issues-nil_iff :
      (lanes : List Lane)
      → (get_wormhole_support_matrix_issues get_address lanes ≡ []) ↔ (
          All IsSoundLane lanes
          × IsDeduped (map (λ l. l.wormhole_chain_id) lanes)
          × IsDeduped (map (λ l. l.destination_chain_id) lanes))
  unfolding get_wormhole_support_matrix_issues
  get_wormhole_support_matrix_issues-nil_iff lanes = (
    λ h.
        let (s, (_, w), (_, d)) =
          (SoundFrom-iff [] [] lanes).0 ((matrix_issues-nil_iff [] [] lanes).0 h) in
        (s, w, d),
    λ (s, w, d).
        (matrix_issues-nil_iff [] [] lanes).1
          ((SoundFrom-iff [] [] lanes).1 (s, (unseen _, w), (unseen _, d))),
  )
