-- ===== src/Jobs/Live.antt =====
-- The live list of src/workers/job_manager.py.
use mathlib.Core.List.{Memᴰ}
use mqs_backtest_visualizer.Prelude.{
  ℕ, ◌≡◌, ◌≤◌, refl, sym, ap, subst, true, false, Option, none, List, [], ◌∷◌, arith, Bool-cases,
  Option-cases, not, inl, inr,
}
use mqs_backtest_visualizer.Prelude.Dict.{Dict, keep}
use mqs_backtest_visualizer.Prelude.Sort.{
  IsSorted, IsTotal, sort, sort-IsSorted, Memᴰ-sort, sort-Memᴰ,
}
use mqs_backtest_visualizer.Jobs.State.{Job, Manager, Purpose, user, validation, owner_is}
use mqs_backtest_visualizer.Jobs.Manager.{
  Summary, prune, expired, is_user, is_live, live_in, newer, live_summaries,
}
use mqs_backtest_visualizer.Jobs.Views.{owner_is_eq, owner_is_refl}

-- An unfinished run of the user, not a validation, that has not been saved.
abbrev pub Live : Option ℕ → Job → Type 0
Live owner job =
    (job.spec.owner ≡ owner)
    × (job.spec.purpose ≡ user)
    × (job.finished_at ≡ none)
    × (job.saved ≡ false)

-- The line of a job.
abbrev pub line_of : Job → Summary
line_of job = record {
  id = job.spec.id;
  owner = job.spec.owner;
  status = job.state.status;
  progress = job.state.progress_pct;
  created_at = job.spec.created_at;
}

abbrev pub NewestFirst : List Summary → Type 0
NewestFirst [] = Unit
NewestFirst (a ∷ []) = Unit
NewestFirst (a ∷ b ∷ lines) = (b.created_at ≤ a.created_at) × NewestFirst (b ∷ lines)

newer-IsTotal : IsTotal newer
newer-IsTotal a b h = ground arith

IsSorted-NewestFirst : (lines : List Summary) → IsSorted newer lines → NewestFirst lines
IsSorted-NewestFirst [] h = tt
IsSorted-NewestFirst (a ∷ []) h = tt
IsSorted-NewestFirst (a ∷ b ∷ lines) h = (ground arith, IsSorted-NewestFirst (b ∷ lines) h.1)

is_user_eq : (p : Purpose) → is_user p ≡ true → p ≡ user
is_user_eq user e = refl
is_user_eq validation e = cc

is_live-Live : (owner : Option ℕ) (job : Job) → is_live owner job ≡ true → Live owner job
is_live-Live owner job h =
    let own : owner_is job.spec.owner owner ≡ true = ground (arith, h) in
    let by_user : is_user job.spec.purpose ≡ true = ground (arith, h) in
    elim (Option-cases job.finished_at) [
      | inl e ↦ (
        owner_is_eq job.spec.owner owner own,
        is_user_eq job.spec.purpose by_user,
        e,
        ground (arith, h),
      )
      | inr (t, e) ↦ absurd (ground (arith, h, e))
    ]

Live-is_live : (owner : Option ℕ) (job : Job) → Live owner job → is_live owner job ≡ true
Live-is_live owner job (own, by_user, unfinished, unsaved) =
    rw (own, by_user, unfinished, unsaved, owner_is_refl owner) refl

live_in-taken :
    (owner : Option ℕ) (key : ℕ) (job : Job) (jobs : Dict Job)
    → is_live owner job ≡ true
    → live_in owner ((key, job) ∷ jobs) ≡ line_of job ∷ live_in owner jobs
live_in-taken owner key job jobs e = rw e refl

live_in-left :
    (owner : Option ℕ) (key : ℕ) (job : Job) (jobs : Dict Job)
    → is_live owner job ≡ false
    → live_in owner ((key, job) ∷ jobs) ≡ live_in owner jobs
live_in-left owner key job jobs e = rw e refl

-- The pruning takes finished jobs only, so that it leaves the live ones.
live_in-keep :
    (owner : Option ℕ) (now : ℕ) (jobs : Dict Job)
    → live_in owner (keep (λ job. not (expired now job)) jobs) ≡ live_in owner jobs
live_in-keep owner now [] = refl
live_in-keep owner now ((key, job) ∷ jobs) = elim (Bool-cases (expired now job)) [
  | inl old ↦ elim (Bool-cases (is_live owner job)) [
    | inl l ↦
        let unfinished = (is_live-Live owner job l).2 in absurd (ground (arith, old, unfinished))
    | inr d ↦ rw (old, live_in-left owner key job jobs d) (live_in-keep owner now jobs)
  ]
  | inr fresh ↦ elim (Bool-cases (is_live owner job)) [
    | inl l ↦ rw (fresh, l, live_in-keep owner now jobs) refl
    | inr d ↦ rw (fresh, d) (live_in-keep owner now jobs)
  ]
]

abbrev pub Listed : Option ℕ → Summary → Dict Job → Type 0
Listed owner line jobs =
    (key : ℕ) × (job : Job) × Memᴰ (key, job) jobs × Live owner job × (line ≡ line_of job)

Listed-tail :
    (owner : Option ℕ) (line : Summary) (entry : ℕ × Job) (jobs : Dict Job)
    → Listed owner line jobs
    → Listed owner line (entry ∷ jobs)
Listed-tail owner line entry jobs (key, job, m, l, e) = (key, job, Memᴰ.tail m, l, e)

live_in-head :
    (owner : Option ℕ) (line : Summary) (key : ℕ) (job : Job) (jobs : Dict Job)
    → is_live owner job ≡ true
    → (Memᴰ line (live_in owner jobs) → Listed owner line jobs)
    → Memᴰ line (line_of job ∷ live_in owner jobs)
    → Listed owner line ((key, job) ∷ jobs)
live_in-head owner line key job jobs l h (Memᴰ.head e) =
    (key, job, Memᴰ.head refl, is_live-Live owner job l, e)
live_in-head owner line key job jobs l h (Memᴰ.tail m) =
    Listed-tail owner line (key, job) jobs (h m)

live_in-Listed :
    (owner : Option ℕ) (line : Summary) (jobs : Dict Job)
    → Memᴰ line (live_in owner jobs)
    → Listed owner line jobs
live_in-Listed owner line [] m = elim m [ ]
live_in-Listed owner line ((key, job) ∷ jobs) m = elim (Bool-cases (is_live owner job)) [
  | inl l ↦
      live_in-head owner line key job jobs l (live_in-Listed owner line jobs)
        (subst (λ x. Memᴰ line x) (live_in-taken owner key job jobs l) m)
  | inr d ↦
      Listed-tail owner line (key, job) jobs
        (live_in-Listed owner line jobs
          (subst (λ x. Memᴰ line x) (live_in-left owner key job jobs d) m))
]

Live-live_in :
    (owner : Option ℕ) (key : ℕ) (job : Job) (jobs : Dict Job)
    → Memᴰ (key, job) jobs
    → Live owner job
    → Memᴰ (line_of job) (live_in owner jobs)
Live-live_in owner key job [] m l = elim m [ ]
Live-live_in owner key job ((k, j) ∷ jobs) (Memᴰ.head e) l =
    let same : job ≡ j = ap (λ x. x.1) e in
    let t : is_live owner j ≡ true =
      subst (λ x. is_live owner x ≡ true) same (Live-is_live owner job l) in
    subst (λ x. Memᴰ (line_of job) x) (sym (live_in-taken owner k j jobs t))
      (Memᴰ.head (ap line_of same))
Live-live_in owner key job ((k, j) ∷ jobs) (Memᴰ.tail m) l =
    let rest = Live-live_in owner key job jobs m l in
    elim (Bool-cases (is_live owner j)) [
      | inl t ↦
          subst (λ x. Memᴰ (line_of job) x) (sym (live_in-taken owner k j jobs t)) (Memᴰ.tail rest)
      | inr d ↦ subst (λ x. Memᴰ (line_of job) x) (sym (live_in-left owner k j jobs d)) rest
    ]

-- The live list of a user has a line for exactly the jobs that are the user's own, unfinished, not
-- saved and no validations, each line with what the job holds, and no line was created after the
-- line before it.
pub live_summaries_lem :
    (owner : Option ℕ) (m : Manager)
    → ((line : Summary) → Memᴰ line (live_summaries owner m).1 → Listed owner line m.jobs)
      × ((key : ℕ) (job : Job)
          → Memᴰ (key, job) m.jobs
          → Live owner job
          → Memᴰ (line_of job) (live_summaries owner m).1)
      × NewestFirst (live_summaries owner m).1
unfolding live_summaries prune
live_summaries_lem owner m =
    let lines = live_in owner (prune m).jobs in
    let same = live_in-keep owner m.now m.jobs in
    (
      λ line h.
          live_in-Listed owner line m.jobs
            (subst (λ l. Memᴰ line l) same (Memᴰ-sort newer line lines h)),
      λ key job h l.
          sort-Memᴰ newer (line_of job) lines
            (subst (λ x. Memᴰ (line_of job) x) (sym same) (Live-live_in owner key job m.jobs h l)),
      IsSorted-NewestFirst (sort newer lines) (sort-IsSorted newer newer-IsTotal lines),
    )
