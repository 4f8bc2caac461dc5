-- ===== src/Jobs/Views.antt =====
-- What a signed-in user sees of the jobs of src/workers/job_manager.py.
use mqs_backtest_visualizer.Prelude.{
  ℕ, ◌≡◌, ◌⊎◌, refl, sym, ap, subst, ◌∙◌, Bool, true, false, Option, none, some, arith, Bool-cases,
  Option-cases, not, inl, inr, if◌then◌else◌,
}
use mqs_backtest_visualizer.Prelude.Dict.{lookup, Unique, keep_if, lookup-keep}
use mqs_backtest_visualizer.Jobs.State.{Job, Manager, Detail, owner_is, empty_detail}
use mqs_backtest_visualizer.Jobs.Callbacks.{Backend}
use mqs_backtest_visualizer.Jobs.Manager.{
  CancelReply, not_found, saved, deleted, cancel_requested, prune, expired, is_finished, get_detail,
  cancel, cancel_job,
}

-- Two managers at one time that hold the same jobs of an owner, whatever they hold of others.
abbrev pub SameFor : Option ℕ → Manager → Manager → Type 0
SameFor owner m n =
    (m.now ≡ n.now)
    × ((key : ℕ) (job : Job)
        → job.spec.owner ≡ owner
        → (lookup key m.jobs ≡ some job → lookup key n.jobs ≡ some job)
          × (lookup key n.jobs ≡ some job → lookup key m.jobs ≡ some job))

pub owner_is_eq : (a b : Option ℕ) → owner_is a b ≡ true → a ≡ b
owner_is_eq none none e = refl
owner_is_eq none (some b) e = cc
owner_is_eq (some a) none e = cc
owner_is_eq (some a) (some b) e = let same : a ≡ b = ground (arith, e) in ap some same

pub owner_is_refl : (a : Option ℕ) → owner_is a a ≡ true
owner_is_refl none = refl
owner_is_refl (some a) = ground arith

-- The answers to the owner of a job.
abbrev own_detail : Job → Option Detail
own_detail job = if job.saved then none else elim job.detail [
  | some d ↦ some d
  | none ↦ some (empty_detail job.state.status job.state.progress_pct job.state.error_message)
]

abbrev own_reply : Job → CancelReply
own_reply job = if job.saved then saved else if is_finished job then deleted else cancel_requested

some_inj : (a b : Job) {o : Option Job} → o ≡ some a → o ≡ some b → a ≡ b
some_inj a b e f = cc

module _ (key : ℕ) (owner : Option ℕ) (m : Manager) where
  abbrev Mine : Type 0
  Mine =
      (job : Job) × (lookup key (prune m).jobs ≡ some job) × (owner_is job.spec.owner owner ≡ true)

  abbrev NotMine : Type 0
  NotMine =
      (job : Job) → lookup key (prune m).jobs ≡ some job → owner_is job.spec.owner owner ≡ false

  mine_or_not : Mine ⊎ NotMine
  mine_or_not = elim (Option-cases (lookup key (prune m).jobs)) [
    | inl missing ↦ inr (λ job found. cc)
    | inr (job, found) ↦ elim (Bool-cases (owner_is job.spec.owner owner)) [
      | inl own ↦ inl (job, found, own)
      | inr other ↦
          inr
            (λ j f. subst (λ x. owner_is x.spec.owner owner ≡ false) (some_inj job j found f) other)
    ]
  ]

module _ (backend : Backend) (key : ℕ) (owner : Option ℕ) (m : Manager) where
  -- To a user who does not own it, a run is as if it did not exist.
  stranger-unanswered :
      NotMine key owner m
      → ((get_detail key owner m).1 ≡ none) × ((cancel backend key owner m).1 ≡ not_found)
  unfolding get_detail cancel
  stranger-unanswered h = elim (Option-cases (lookup key (prune m).jobs)) [
    | inl missing ↦ (rw (missing, get_detail), rw (missing, cancel))
    | inr (job, found) ↦
        let own = h job found in (rw (found, get_detail, own), rw (found, cancel, own))
  ]

  owner-answered :
      (job : Job)
      → lookup key (prune m).jobs ≡ some job
      → owner_is job.spec.owner owner ≡ true
      → ((get_detail key owner m).1 ≡ own_detail job)
        × ((cancel backend key owner m).1 ≡ own_reply job)
  unfolding get_detail cancel cancel_job
  owner-answered job found own = elim (Bool-cases job.saved) [
    | inl s ↦ (rw (get_detail, found, own, s) refl, rw (cancel, found, own, cancel_job, s) refl)
    | inr s ↦ (
      elim (Option-cases job.detail) [
        | inl d ↦ rw (get_detail, found, own, s, d) refl
        | inr (detail, d) ↦ rw (get_detail, found, own, s, d) refl
      ],
      elim (Bool-cases (is_finished job)) [
        | inl e ↦ rw (cancel, found, own, cancel_job, s, e) refl
        | inr e ↦ rw (cancel, found, own, cancel_job, s, e) refl
      ],
    )
  ]

keep_if-some :
    (p : Job → Bool) (o : Option Job) (job : Job)
    → keep_if p o ≡ some job
    → (o ≡ some job) × (p job ≡ true)
keep_if-some p none job e = cc
keep_if-some p (some j) job e = elim (Bool-cases (p j)) [
  | inl t ↦
      let same : j ≡ job = some_inj j job {o = keep_if p (some j)} (rw t refl) e in
      (ap some same, subst (λ x. p x ≡ true) same t)
  | inr f ↦ absurd (ground (arith, e, f))
]

-- A job that survives the pruning of one manager survives that of another at the same time.
mine-same :
    (key : ℕ) (owner : Option ℕ) (m n : Manager)
    → Unique m.jobs
    → Unique n.jobs
    → SameFor owner m n
    → (job : Job) → lookup key (prune m).jobs ≡ some job
    → owner_is job.spec.owner owner ≡ true
    → lookup key (prune n).jobs ≡ some job
unfolding prune
mine-same key owner m n u v (now, same) job found own =
    let (there, fresh) =
      keep_if-some (λ j. not (expired m.now j)) (lookup key m.jobs) job
        (sym (lookup-keep (λ j. not (expired m.now j)) key m.jobs u) ∙ found) in
    let here = (same key job (owner_is_eq job.spec.owner owner own)).0 there in
    let fresh' : not (expired n.now job) ≡ true =
      subst (λ t. not (expired t job) ≡ true) now fresh in
    lookup-keep (λ j. not (expired n.now j)) key n.jobs v
    ∙ ap (keep_if (λ j. not (expired n.now j))) here
    ∙ rw fresh' refl

SameFor-sym : (owner : Option ℕ) (m n : Manager) → SameFor owner m n → SameFor owner n m
SameFor-sym owner m n (now, same) =
    (sym now, λ key job own. ((same key job own).1, (same key job own).0))

-- What a user is told of a run, its detail and the answer to a cancel, does not depend on the jobs
-- of others: two managers that list no job twice and hold, at the same time, the same jobs of the
-- user answer alike.
pub others_unseen :
    (backend : Backend) (key : ℕ) (owner : Option ℕ) (m n : Manager)
    → Unique m.jobs
    → Unique n.jobs
    → SameFor owner m n
    → ((get_detail key owner m).1 ≡ (get_detail key owner n).1)
      × ((cancel backend key owner m).1 ≡ (cancel backend key owner n).1)
others_unseen backend key owner m n u v same = elim (mine_or_not key owner m) [
  | inl (job, found, own) ↦
      let (d, c) = owner-answered backend key owner m job found own in
      let found' = mine-same key owner m n u v same job found own in
      let (d', c') = owner-answered backend key owner n job found' own in (d ∙ sym d', c ∙ sym c')
  | inr none_m ↦
      let none_n : NotMine key owner n = λ job found.
        elim (Bool-cases (owner_is job.spec.owner owner)) [
          | inl own ↦
              let there = mine-same key owner n m v u (SameFor-sym owner m n same) job found own in
              none_m job there
          | inr other ↦ other
        ] in
      let (d, c) = stranger-unanswered backend key owner m none_m in
      let (d', c') = stranger-unanswered backend key owner n none_n in (d ∙ sym d', c ∙ sym c')
]
