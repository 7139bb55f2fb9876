-- ===== src/Wormhole/Parser/Laws.antt =====
-- Which jobs the Wormhole parser extracts, and when it throws.
use governance_seatbelt.Prelude.{
  eq_iff, eq_refl, subst, ℕ, suc, String, Option, none, some, List, [], ◌∷◌, false, ◌==◌, nat_eq,
  if◌then◌else◌, ◌≡◌, ◌≢◌, refl, ◌∙◌, sym, ap, ok, throw, Result, filter_by, ◌<◌, arith, Bool-cases,
  inl, inr, Option-cases, ok-injective,
}
use governance_seatbelt.CrossChain.{Job}
use governance_seatbelt.Viem.{Viem}
use governance_seatbelt.Wormhole.Parser.{
  Batch, BatchDecodeResult, supported, unsupported, batch_job, cons_job, decode_call,
  extract_wormhole_from, extract_wormhole_execution_jobs_from_proposal,
}

differs : (i n : ℕ) → (n == i) ≡ false → (i == n) ≡ false
differs i n h = ground (arith, eq_iff n i, eq_iff i n)

cons_job-eq-ok :
    (job : Job) (r : Result (List Job)) {jobs : List Job}
    → cons_job job r ≡ ok jobs
    → (rest : List Job) × (r ≡ ok rest) × (job ∷ rest ≡ jobs)
cons_job-eq-ok job (ok rest) h = (rest, refl, ok-injective h)
cons_job-eq-ok job (throw e) h = cc

module _ (viem : Viem) where
  -- What the call of index `n` is decoded to, where the first call has index `i`.
  abbrev pub decoded_at : ℕ → List String → List String → ℕ → Option BatchDecodeResult
  decoded_at i [] calldatas n = none
  decoded_at i (target ∷ targets) [] n = none
  decoded_at i (target ∷ targets) (calldata ∷ calldatas) n =
      let rest = decoded_at (suc i) targets calldatas n in
      if n == i then decode_call viem target calldata else rest

  decoded_at-before :
      (i n : ℕ) (targets calldatas : List String) → n < i → decoded_at i targets calldatas n ≡ none
  decoded_at-before i n [] calldatas h = refl
  decoded_at-before i n (target ∷ targets) [] h = refl
  decoded_at-before i n (target ∷ targets) (calldata ∷ calldatas) h =
      ground (arith, decoded_at-before (suc i) n targets calldatas)

  abbrev pub jobs_at : ℕ → Option BatchDecodeResult → List Job
  jobs_at n none = []
  jobs_at n (some (unsupported chain_id)) = []
  jobs_at n (some (supported batch)) = batch_job viem n batch ∷ []

  pub record IsExtraction (i : ℕ) (targets calldatas : List String) (jobs : List Job) : Type 0 where
    pub jobs_of :
        (n : ℕ)
        → filter_by (λ j. j.source_order == n) jobs ≡ jobs_at n (decoded_at i targets calldatas n)
    pub all_supported :
        (n chain_id : ℕ) → decoded_at i targets calldatas n ≢ some (unsupported chain_id)

  IsExtraction-skip :
      (i : ℕ) (target calldata : String) (targets calldatas : List String) (jobs : List Job)
      → decode_call viem target calldata ≡ none
      → IsExtraction (suc i) targets calldatas jobs
      → IsExtraction i (target ∷ targets) (calldata ∷ calldatas) jobs
  IsExtraction-skip i target calldata targets calldatas jobs undecoded rest =
      let same : (n : ℕ)
          → decoded_at (suc i) targets calldatas n
            ≡ decoded_at i (target ∷ targets) (calldata ∷ calldatas) n =
        λ n. ground (arith, undecoded, decoded_at-before (suc i) n targets calldatas) in
      record {
        jobs_of = λ n. rest.jobs_of n ∙ ap (jobs_at n) (same n);
        all_supported = λ n chain_id e. rest.all_supported n chain_id (same n ∙ e);
      }

  IsExtraction-batch :
      (i : ℕ) (target calldata : String) (targets calldatas : List String) (jobs : List Job)
      (batch : Batch)
      → decode_call viem target calldata ≡ some (supported batch)
      → IsExtraction (suc i) targets calldatas jobs
      → IsExtraction i (target ∷ targets) (calldata ∷ calldatas) (batch_job viem i batch ∷ jobs)
  IsExtraction-batch i target calldata targets calldatas jobs batch decoded rest = record {
    jobs_of = λ n. elim (Bool-cases (n == i)) [
      | inl same ↦
          let at_i = (eq_iff n i).0 same in
          let none_later =
            rest.jobs_of i
            ∙ ap (jobs_at i) (decoded_at-before (suc i) i targets calldatas (omega arith)) in
          subst
            (λ m.
              filter_by (λ j. j.source_order == m) (batch_job viem i batch ∷ jobs)
              ≡ jobs_at m (decoded_at i (target ∷ targets) (calldata ∷ calldatas) m))
            (sym at_i) (rw (eq_refl i, decoded) (ap (λ js. batch_job viem i batch ∷ js) none_later))
      | inr other ↦ rw (other, differs i n other) (rest.jobs_of n)
    ];
    all_supported = λ n chain_id e. elim (Bool-cases (n == i)) [
      | inl same ↦ cc (decoded, rw same at e)
      | inr other ↦ rest.all_supported n chain_id (rw other at e)
    ];
  }

  extract_wormhole_from-IsExtraction :
      (i : ℕ) (targets calldatas : List String) (jobs : List Job)
      → extract_wormhole_from viem i targets calldatas ≡ ok jobs
      → IsExtraction i targets calldatas jobs
  unfolding extract_wormhole_from
  extract_wormhole_from-IsExtraction i [] calldatas jobs h =
      subst (IsExtraction i [] calldatas) (ok-injective h)
        (record { jobs_of = λ n. refl; all_supported = λ n chain_id e. cc })
  extract_wormhole_from-IsExtraction i (target ∷ targets) [] jobs h =
      subst (IsExtraction i (target ∷ targets) []) (ok-injective h)
        (record { jobs_of = λ n. refl; all_supported = λ n chain_id e. cc })
  extract_wormhole_from-IsExtraction i (target ∷ targets) (calldata ∷ calldatas) jobs h =
      elim (Option-cases (decode_call viem target calldata)) [
        | inl undecoded ↦ IsExtraction-skip i target calldata targets calldatas jobs undecoded (
            extract_wormhole_from-IsExtraction (suc i) targets calldatas jobs
              (rw (undecoded, extract_wormhole_from) at h))
        | inr (unsupported chain_id, decoded) ↦ cc (h, decoded)
        | inr (supported batch, decoded) ↦
            let (rest, extracted, same) =
              cons_job-eq-ok (batch_job viem i batch)
                (extract_wormhole_from viem (suc i) targets calldatas)
                (rw (decoded, extract_wormhole_from) at h) in
            subst (IsExtraction i (target ∷ targets) (calldata ∷ calldatas)) same (
              IsExtraction-batch i target calldata targets calldatas rest batch decoded
                (extract_wormhole_from-IsExtraction (suc i) targets calldatas rest extracted))
      ]

  -- Whenever the Wormhole parser returns, no call is decoded to an unsupported Wormhole chain, and for
  -- each index there is exactly one job with that source order if the proposal's call of that index is
  -- decoded to a supported batch, the job of that batch, and none if not.
  pub extract_wormhole_execution_jobs_from_proposal-IsExtraction :
      (targets calldatas : List String) (jobs : List Job)
      → extract_wormhole_execution_jobs_from_proposal viem targets calldatas ≡ ok jobs
      → IsExtraction 0 targets calldatas jobs
  unfolding extract_wormhole_execution_jobs_from_proposal
  extract_wormhole_execution_jobs_from_proposal-IsExtraction targets calldatas jobs h =
      extract_wormhole_from-IsExtraction 0 targets calldatas jobs h
