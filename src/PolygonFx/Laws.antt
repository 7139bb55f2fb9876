-- ===== src/PolygonFx/Laws.antt =====
-- utils/bridges/polygon-fx.ts: each call of a proposal has the job that is its own.
use governance_seatbelt.Prelude.{
  ℕ, zero, suc, String, Option, none, some, List, [], ◌∷◌, ◌+◌, ◌≤◌, ◌<◌, ◌≡◌, refl, arith, ◌==◌,
  nat_eq, eq_iff, eq_refl, if◌then◌else◌, Bool-cases, inl, inr, ap, ◌∙◌,
}
use governance_seatbelt.CrossChain.{Call, Job}
use governance_seatbelt.Viem.{Viem}
use governance_seatbelt.PolygonFx.{FxCodec, fx_job, with_job, polygon_call, jobs_from}

-- The first job of an order.
pub job_of_order : ℕ → List Job → Option Job
job_of_order order [] = none
job_of_order order (job ∷ jobs) =
    if job.source_order == order then some job else job_of_order order jobs

-- Orders that rise, from some number on.
pub IsRising : ℕ → List Job → Type 0
IsRising from_ [] = Unit
IsRising from_ (job ∷ jobs) = (from_ ≤ job.source_order) × IsRising (suc job.source_order) jobs

IsRising-le : (m n : ℕ) (jobs : List Job) → m ≤ n → IsRising n jobs → IsRising m jobs
unfolding IsRising
IsRising-le m n [] h r = tt
IsRising-le m n (job ∷ jobs) h r = (omega (arith, h, r.0), r.1)

job_of_order-IsRising :
    (order from_ : ℕ) (jobs : List Job)
    → order < from_
    → IsRising from_ jobs
    → job_of_order order jobs ≡ none
unfolding job_of_order IsRising
job_of_order-IsRising order from_ [] h r = refl
job_of_order-IsRising order from_ (job ∷ jobs) h r = elim (Bool-cases (job.source_order == order)) [
  | inl same ↦ absurd (ground (arith, h, r.0, (eq_iff job.source_order order).0 same))
  | inr other ↦
      rw other (job_of_order-IsRising order (suc job.source_order) jobs (omega (arith, h, r.0)) r.1)
]

plus_zero : (n : ℕ) → n + 0 ≡ n
plus_zero n = omega arith

plus_suc : (m n : ℕ) → m + suc n ≡ suc m + n
plus_suc m n = omega arith

abbrev pub job_for : Viem → ℕ → Option Call → Option Job
job_for viem index none = none
job_for viem index (some call) = some (fx_job viem index call)

module _ (viem : Viem) (codec : FxCodec) (sender : String) where
  -- The job of the call at some position, when the first one has an index.
  pub own_job : ℕ → ℕ → List String → List String → Option Job
  own_job index position [] calldatas = none
  own_job index position (target ∷ targets) [] = none
  own_job index zero (target ∷ targets) (calldata ∷ calldatas) =
      job_for viem index (polygon_call viem codec sender index target calldata)
  own_job index (suc position) (target ∷ targets) (calldata ∷ calldatas) =
      own_job (suc index) position targets calldatas

  with_job-IsRising :
      (index : ℕ) (o : Option Call) (jobs : List Job)
      → IsRising (suc index) jobs
      → IsRising index (with_job viem index o jobs)
  unfolding IsRising
  with_job-IsRising index none jobs r = IsRising-le index (suc index) jobs (omega arith) r
  with_job-IsRising index (some call) jobs r = (omega arith, r)

  jobs_from-IsRising :
      (index : ℕ) (targets calldatas : List String)
      → IsRising index (jobs_from viem codec sender index targets calldatas)
  unfolding jobs_from IsRising
  jobs_from-IsRising index [] calldatas = tt
  jobs_from-IsRising index (target ∷ targets) [] = tt
  jobs_from-IsRising index (target ∷ targets) (calldata ∷ calldatas) =
      with_job-IsRising index (polygon_call viem codec sender index target calldata) _
        (jobs_from-IsRising (suc index) targets calldatas)

  job_of_order-first :
      (index : ℕ) (o : Option Call) (jobs : List Job)
      → IsRising (suc index) jobs
      → job_of_order index (with_job viem index o jobs) ≡ job_for viem index o
  unfolding job_of_order
  job_of_order-first index none jobs r =
      job_of_order-IsRising index (suc index) jobs (omega arith) r
  job_of_order-first index (some call) jobs r = rw (eq_refl index) refl

  job_of_order-later :
      (index order : ℕ) (o : Option Call) (jobs : List Job)
      → index < order
      → job_of_order order (with_job viem index o jobs) ≡ job_of_order order jobs
  unfolding job_of_order
  job_of_order-later index order none jobs h = refl
  job_of_order-later index order (some call) jobs h = elim (Bool-cases (index == order)) [
    | inl same ↦ absurd (ground (arith, h, (eq_iff index order).0 same))
    | inr other ↦ rw other refl
  ]

  find :
      (index position : ℕ) (targets calldatas : List String)
      → job_of_order (index + position) (jobs_from viem codec sender index targets calldatas)
        ≡ own_job index position targets calldatas
  unfolding jobs_from own_job job_of_order
  find index position [] calldatas = refl
  find index position (target ∷ targets) [] = refl
  find index zero (target ∷ targets) (calldata ∷ calldatas) = rw (plus_zero index) (
      job_of_order-first index (polygon_call viem codec sender index target calldata) _
        (jobs_from-IsRising (suc index) targets calldatas))
  find index (suc position) (target ∷ targets) (calldata ∷ calldatas) =
      job_of_order-later index (index + suc position)
        (polygon_call viem codec sender index target calldata) _ (omega arith)
      ∙ ap (λ order. job_of_order order (jobs_from viem codec sender (suc index) targets calldatas))
          (plus_suc index position)
      ∙ find (suc index) position targets calldatas

  -- The jobs of a proposal, from the call of some index on: their orders rise, and the job of an order is
  -- the one of the call at that position, so that no call changes the job of another.
  pub jobs_from-IsRising-own_job :
      (index : ℕ) (targets calldatas : List String)
      → IsRising index (jobs_from viem codec sender index targets calldatas)
        × ((position : ℕ)
            → job_of_order (index + position) (jobs_from viem codec sender index targets calldatas)
              ≡ own_job index position targets calldatas)
  jobs_from-IsRising-own_job index targets calldatas = (
    jobs_from-IsRising index targets calldatas,
    λ position. find index position targets calldatas,
  )
