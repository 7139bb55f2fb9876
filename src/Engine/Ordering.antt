-- ===== src/Engine/Ordering.antt =====
-- The order in which destination jobs run.
use governance_seatbelt.Prelude.{
  ℕ, suc, List, [], ◌∷◌, Bool, true, ◌≡◌, refl, All, arith, filter_by, ◌⊎◌, ap, ◌∙◌, map, ◌==◌,
  nat_eq, ◌≤◌, ◌<◌, sym,
}
use governance_seatbelt.CrossChain.{Job}
use governance_seatbelt.Engine.Sorting.{
  sort, IsSorted, Keeps, AllKept, sort-IsSorted, filter_by-sort,
}
use governance_seatbelt.Engine.Run.{OrderedJob, number_from, comes_before, order_jobs}

comes_before_total : (a b : OrderedJob) → (comes_before a b ≡ true) ⊎ (comes_before b a ≡ true)
unfolding comes_before
comes_before_total a b = ground arith

comes_before_trans :
    (a b c : OrderedJob)
    → comes_before a b ≡ true
    → comes_before b c ≡ true
    → comes_before a c ≡ true
unfolding comes_before
comes_before_trans a b c p q = ground arith

abbrev at_order : ℕ → OrderedJob → Bool
at_order n o = o.job.source_order == n

All-number_from :
    (i j : ℕ) (jobs : List Job) → i ≤ j → All (λ o. i ≤ o.extraction_index) (number_from j jobs)
unfolding number_from
All-number_from i j [] h = tt
All-number_from i j (job ∷ jobs) h = (h, All-number_from i (suc j) jobs (ground arith))

number_from-Keeps :
    (n i j : ℕ) (x : Job) (jobs : List Job)
    → i < j
    → All
        (Keeps comes_before (at_order n) (record { extraction_index = i; job = x }))
        (number_from j jobs)
unfolding number_from comes_before
number_from-Keeps n i j x [] h = tt
number_from-Keeps n i j x (job ∷ jobs) h =
    (ground arith, number_from-Keeps n i (suc j) x jobs (ground arith))

number_from-AllKept :
    (n i : ℕ) (jobs : List Job) → AllKept comes_before (at_order n) (number_from i jobs)
unfolding number_from
number_from-AllKept n i [] = tt
number_from-AllKept n i (job ∷ jobs) =
    (number_from-Keeps n i (suc i) job jobs (ground arith), number_from-AllKept n (suc i) jobs)

abbrev job_at_order : ℕ → Job → Bool
job_at_order n job = job.source_order == n

filter_by-map :
    (n : ℕ) (os : List OrderedJob)
    → filter_by (job_at_order n) (map (λ o. o.job) os)
      ≡ map (λ o. o.job) (filter_by (at_order n) os)
filter_by-map n [] = refl
filter_by-map n (o ∷ os) = ground (arith, filter_by-map n os)

map-number_from : (i : ℕ) (jobs : List Job) → map (λ o. o.job) (number_from i jobs) ≡ jobs
unfolding number_from
map-number_from i [] = refl
map-number_from i (job ∷ jobs) = ap (λ js. job ∷ js) (map-number_from (suc i) jobs)

-- By source order.
abbrev pub IsOrdered : List Job → Type 0
IsOrdered [] = Unit
IsOrdered (job ∷ jobs) = All (λ k. job.source_order ≤ k.source_order) jobs × IsOrdered jobs

All-IsOrdered :
    (o : OrderedJob) (os : List OrderedJob)
    → All (λ k. comes_before o k ≡ true) os
    → All (λ k. o.job.source_order ≤ k.source_order) (map (λ k. k.job) os)
unfolding comes_before
All-IsOrdered o [] h = tt
All-IsOrdered o (k ∷ os) (p, h) = (ground arith, All-IsOrdered o os h)

IsSorted-IsOrdered :
    (os : List OrderedJob) → IsSorted comes_before os → IsOrdered (map (λ o. o.job) os)
IsSorted-IsOrdered [] h = tt
IsSorted-IsOrdered (o ∷ os) (p, h) = (All-IsOrdered o os p, IsSorted-IsOrdered os h)

-- The jobs run by the index of the proposal call that they stem from, and the jobs of one call in the
-- order of their extraction; no job is lost, added or repeated.
pub order_jobs_lem :
    (jobs : List Job)
    → IsOrdered (order_jobs jobs)
      × ((n : ℕ)
          → filter_by (λ job. job.source_order == n) (order_jobs jobs)
            ≡ filter_by (λ job. job.source_order == n) jobs)
unfolding order_jobs
order_jobs_lem jobs = (
  IsSorted-IsOrdered _
      (sort-IsSorted comes_before comes_before_total comes_before_trans (number_from 0 jobs)),
  λ n.
      filter_by-map n (sort comes_before (number_from 0 jobs))
      ∙ ap (map (λ o. o.job)) (
          filter_by-sort comes_before (at_order n) (number_from 0 jobs)
            (number_from-AllKept n 0 jobs))
      ∙ sym (filter_by-map n (number_from 0 jobs))
      ∙ ap (filter_by (job_at_order n)) (map-number_from 0 jobs),
)
