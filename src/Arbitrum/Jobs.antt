-- ===== src/Arbitrum/Jobs.antt =====
-- utils/bridges/arbitrum.ts: jobs by their target, chain and calldata.
use governance_seatbelt.Prelude.{
  ℕ, String, Option, none, some, List, [], ◌∷◌, Bool, true, false, ◌&&◌, ◌≡◌, refl, if◌then◌else◌,
  ◌==◌, nat_eq, string_eq, or_else, Bool-cases, inl, inr, sym, subst, eq_iff, ◌∙◌, All, false≢true,
  none≢some,
}
use governance_seatbelt.Dict.{Dict, lookup, put, values, IsDistinct}
use governance_seatbelt.CrossChain.{Job, Call}
use governance_seatbelt.Arbitrum.{Message, job_of}
use governance_seatbelt.Arbitrum.Keys.{IsKeyed, is_message_to, same_key, same_answer}

-- The last of some messages to a target on a chain, with a calldata.
unfoldable pub last_to : ℕ → String → String → List Message → Option Message
last_to chain target input [] = none
last_to chain target input (m ∷ messages) =
    or_else (last_to chain target input messages)
      (if is_message_to chain target input m then some m else none)

-- A job of one call, to a target on a chain and with a calldata.
abbrev only_to : String → String → List Call → Bool
only_to target input (c ∷ []) = c.l2_target_address == target && c.l2_input_data == input
only_to target input _ = false

abbrev pub is_job_to : ℕ → String → String → Job → Bool
is_job_to chain target input job =
    job.destination_chain_id == chain && only_to target input job.calls

-- The first such job.
unfoldable pub job_to : ℕ → String → String → List Job → Option Job
job_to chain target input [] = none
job_to chain target input (job ∷ jobs) =
    if is_job_to chain target input job then some job else job_to chain target input jobs

-- No two jobs are to the same target on the same chain with the same calldata.
abbrev pub AreApart : List Job → Type 0
AreApart [] = Unit
AreApart (job ∷ jobs) =
    ((chain : ℕ) (target input : String)
      → is_job_to chain target input job ≡ true
      → job_to chain target input jobs ≡ none)
    × AreApart jobs

-- A job against the message that it is for.
abbrev pub IsJobOf : Option Job → Option Message → Type 0
IsJobOf none none = Unit
IsJobOf (some job) (some m) = (order : ℕ) × (job ≡ job_of order m)
IsJobOf (some job) none = ⊥
IsJobOf none (some m) = ⊥

-- What a dictionary of jobs holds.
abbrev IsEntry : String × Job → Type 0
IsEntry (key, job) =
    (order : ℕ) × (m : Message) × IsKeyed m × (key ≡ m.key) × (job ≡ job_of order m)

abbrev pub AreEntries : Dict String Job → Type 0
AreEntries = All IsEntry

module _ (chain : ℕ) (target input : String) where
  -- A write replaces the job that is to the same, if there is one.
  pub job_to-put :
      (order : ℕ) (m : Message) (jobs : Dict String Job)
      → IsKeyed m
      → AreEntries jobs
      → job_to chain target input (values (put m.key (job_of order m) jobs)) ≡ (
          if is_message_to chain target input m
          then some (job_of order m)
          else job_to chain target input (values jobs))
  unfolding put job_to
  job_to-put order m [] keyed entries = refl
  job_to-put order m ((k, j) ∷ jobs) keyed ((o, n, keyed', same, is), entries) =
      elim (Bool-cases (k == m.key)) [
        | inl hit ↦
            let answer =
              same_answer chain target input keyed' keyed (sym same ∙ (eq_iff k m.key).0 hit) in
            rw (hit, is)
              (elim (Bool-cases (is_message_to chain target input m)) [
                | inl to_it ↦ rw to_it refl
                | inr elsewhere ↦ rw (answer, elsewhere) refl
              ])
        | inr miss ↦
            rw (miss, is)
              (elim (Bool-cases (is_message_to chain target input n)) [
                | inl to_it ↦ elim (Bool-cases (is_message_to chain target input m)) [
                  | inl also ↦ absurd (
                      false≢true (
                        sym miss
                        ∙ (eq_iff k m.key).1
                            (same ∙ same_key chain target input keyed' keyed to_it also)))
                  | inr elsewhere ↦ rw (to_it, elsewhere) refl
                ]
                | inr elsewhere ↦ rw elsewhere (job_to-put order m jobs keyed entries)
              ])
      ]

  -- A message whose key is not there has no job.
  job_to-none :
      (m : Message) (jobs : Dict String Job)
      → IsKeyed m
      → is_message_to chain target input m ≡ true
      → AreEntries jobs
      → lookup m.key jobs ≡ none
      → job_to chain target input (values jobs) ≡ none
  unfolding job_to lookup
  job_to-none m [] keyed to_it entries h = refl
  job_to-none m ((k, j) ∷ jobs) keyed to_it ((o, n, keyed', same, is), entries) h =
      elim (Bool-cases (k == m.key)) [
        | inl hit ↦ absurd (none≢some (sym (rw (hit, lookup) at h)))
        | inr miss ↦ elim (Bool-cases (is_message_to chain target input n)) [
          | inl also ↦ absurd (
              false≢true (
                sym miss
                ∙ (eq_iff k m.key).1 (same ∙ same_key chain target input keyed' keyed also to_it)))
          | inr elsewhere ↦
              rw (is, elsewhere) (job_to-none m jobs keyed to_it entries (rw (miss, lookup) at h))
        ]
      ]

pub put-AreEntries :
    (order : ℕ) (m : Message) (jobs : Dict String Job)
    → IsKeyed m
    → AreEntries jobs
    → AreEntries (put m.key (job_of order m) jobs)
unfolding put
put-AreEntries order m [] keyed entries = ((order, m, keyed, refl, refl), tt)
put-AreEntries order m ((k, j) ∷ jobs) keyed (entry, entries) = elim (Bool-cases (k == m.key)) [
  | inl hit ↦ rw hit ((order, m, keyed, (eq_iff k m.key).0 hit, refl), entries)
  | inr miss ↦ rw miss (entry, put-AreEntries order m jobs keyed entries)
]

pub AreApart-entries :
    (jobs : Dict String Job) → AreEntries jobs → IsDistinct jobs → AreApart (values jobs)
AreApart-entries [] entries distinct = tt
AreApart-entries ((k, j) ∷ jobs) ((o, n, keyed, same, is), entries) (new, distinct) = (
  (λ chain target input to_it.
      job_to-none chain target input n jobs keyed
        (subst (λ j. is_job_to chain target input j ≡ true) is to_it) entries
        (subst (λ k. lookup k jobs ≡ none) same new)),
  AreApart-entries jobs entries distinct,
)
