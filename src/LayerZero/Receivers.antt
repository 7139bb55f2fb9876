-- ===== src/LayerZero/Receivers.antt =====
-- utils/bridges/layerzero.ts: the receivers that the calls of a proposal set.
use governance_seatbelt.Prelude.{
  ◌⊎◌, Exception, ℕ, suc, String, Option, none, some, List, [], ◌∷◌, ◌&&◌, if◌then◌else◌, ◌==◌,
  nat_eq, leb, ◌≡◌, ◌≢◌, refl, ◌∙◌, sym, ap, arith, Bool-cases, Option-cases, inl, inr, or_else,
  is_some, Result, ok, throw, or_throw, >>=-eq-ok, ok-injective,
}
use governance_seatbelt.Dict.{Dict, lookup, put}
use governance_seatbelt.Dict.Laws.{lookup-put}
use governance_seatbelt.CrossChain.{Call, Job}
use governance_seatbelt.Viem.{Viem}
use governance_seatbelt.LayerZero.{
  some_calls, Lane, job_list, get_layer_zero_lane_by_remote_chain_id,
  decode_layer_zero_remote_address, Kind, other, set_trusted_remote, execute, kind_of,
  set_active_receiver,
}

pub Kind-cases : (k : Kind) → (k ≡ other) ⊎ ((k ≡ set_trusted_remote) ⊎ (k ≡ execute))
Kind-cases other = inl refl
Kind-cases set_trusted_remote = inr (inl refl)
Kind-cases execute = inr (inr refl)

pub or_throw-eq-ok :
    {A : Type 0} (e : Exception) (o : Option A) {a : A} → or_throw e o ≡ ok a → o ≡ some a
or_throw-eq-ok e none h = cc
or_throw-eq-ok e (some b) h = ap some (ok-injective h)

pub job_list-eq-ok :
    (job : Job) (r : Result (List Job)) {jobs : List Job}
    → job_list job r ≡ ok jobs
    → (rest : List Job) × (r ≡ ok rest) × (job ∷ rest ≡ jobs)
job_list-eq-ok job (throw e) h = cc
job_list-eq-ok job (ok rest) h = (rest, refl, ok-injective h)

module _ (viem : Viem) where
  pub some_calls-present :
      (chain_id i : ℕ) (calls given : List Call)
      → some_calls viem chain_id i calls ≡ ok given
      → given ≢ []
  unfolding some_calls
  some_calls-present chain_id i [] given h = cc
  some_calls-present chain_id i (call ∷ calls) given h = λ e. cc (h, e)

  -- The receiver that a decoded `setTrustedRemoteAddress` call sets for a remote chain.
  abbrev pub sets : ℕ × String → ℕ → Option String
  sets (chain_id, remote) c =
      if is_some (get_layer_zero_lane_by_remote_chain_id viem chain_id) && chain_id == c
      then viem.get_address remote
      else none

  -- The receiver that a call of the proposal sets, if it sets one.
  abbrev pub set_here : String → String → ℕ → Option String
  set_here target calldata c = elim (kind_of viem target calldata) [
    | set_trusted_remote ↦ elim (viem.decode_set_trusted_remote calldata) [
      | none ↦ none
      | some decoded ↦ sets decoded c
    ]
    | other ↦ none
    | execute ↦ none
  ]

  pub set_here_of_set :
      (target calldata : String) (c : ℕ) (decoded : ℕ × String)
      → kind_of viem target calldata ≡ set_trusted_remote
      → viem.decode_set_trusted_remote calldata ≡ some decoded
      → set_here target calldata c ≡ sets decoded c
  set_here_of_set target calldata c decoded is_set read = rw (is_set, set_here) (rw read refl)

  -- The last receiver that the calls before index `n` set, where the first call has index `i`.
  abbrev pub last_set : ℕ → List String → List String → ℕ → ℕ → Option String
  last_set i [] calldatas n c = none
  last_set i (target ∷ targets) [] n c = none
  last_set i (target ∷ targets) (calldata ∷ calldatas) n c =
      let later = last_set (suc i) targets calldatas n c in
      if leb n i then none else or_else later (set_here target calldata c)

  decoded_address :
      (remote : String) (i : ℕ) {address : String}
      → decode_layer_zero_remote_address viem remote i ≡ ok address
      → viem.get_address remote ≡ some address
  unfolding decode_layer_zero_remote_address
  decoded_address remote i h = elim (Option-cases (viem.get_address remote)) [
    | inl bad ↦ ground arith
    | inr (a, good) ↦ ground arith
  ]

  put_sets :
      (chain_id c : ℕ) (remote address : String) (lane : Lane) (active : Dict ℕ String)
      → get_layer_zero_lane_by_remote_chain_id viem chain_id ≡ some lane
      → viem.get_address remote ≡ some address
      → (if chain_id == c then some address else lookup c active)
        ≡ or_else (sets (chain_id, remote) c) (lookup c active)
  put_sets chain_id c remote address lane active known good = elim (Bool-cases (chain_id == c)) [
    | inl same ↦ rw (known, same, good) refl
    | inr differs ↦ rw (known, differs) refl
  ]

  pub set_active_receiver-lookup :
      (i : ℕ) (decoded : ℕ × String) (active : Dict ℕ String) {next : Dict ℕ String}
      → set_active_receiver viem i decoded active ≡ ok next
      → (c : ℕ) → lookup c next ≡ or_else (sets decoded c) (lookup c active)
  unfolding set_active_receiver decode_layer_zero_remote_address
  set_active_receiver-lookup i (chain_id, remote) active h c =
      elim (Option-cases (get_layer_zero_lane_by_remote_chain_id viem chain_id)) [
        | inl unknown ↦
            rw unknown (ap (lookup c) (sym (ok-injective (rw (unknown, set_active_receiver) at h))))
        | inr (lane, known) ↦
            let (address, decoded, h') =
              >>=-eq-ok (decode_layer_zero_remote_address viem remote i)
                (λ address. ok (put chain_id address active))
                (rw (known, set_active_receiver) at h) in
            ap (lookup c) (sym (ok-injective h'))
            ∙ lookup-put chain_id c address active
            ∙ put_sets chain_id c remote address lane active known
                (decoded_address remote i decoded)
      ]
