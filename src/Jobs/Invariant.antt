-- ===== src/Jobs/Invariant.antt =====
-- The invariant of the job manager (src/workers/job_manager.py): what is true of every job between any
-- two steps.
use mqs_backtest_visualizer.Prelude.{
  ℕ, ◌≡◌, refl, Bool, true, false, Option, none, some, List, [], ◌∷◌, arith, ◌==◌, ◌&&◌, ◌||◌, not,
  Bool-cases, inl, inr, ok, Result-cases,
}
use mqs_backtest_visualizer.Jobs.State.{
  Spec, Status, queued, running, completed, failed, Future, pending, executing, done, Job,
  SavedReport, Database, Message, owner_is,
}
use mqs_backtest_visualizer.Jobs.Callbacks.{
  Outcome, report, is_cancelled, Backend, fail, settle_validation, save, end_failed, end_completed,
  end_reported, end_with, on_done,
}
use mqs_backtest_visualizer.Jobs.Manager.{is_finished, lacks_owner}

abbrev pub is_terminal : Status → Bool
is_terminal queued = false
is_terminal running = false
is_terminal completed = true
is_terminal failed = true

abbrev pub is_completed : Status → Bool
is_completed completed = true
is_completed _ = false

abbrev pub future_is_live : Option Future → Bool
future_is_live none = false
future_is_live (some pending) = true
future_is_live (some executing) = true
future_is_live (some done) = false

abbrev pub future_is_done : Option Future → Bool
future_is_done (some done) = true
future_is_done _ = false

-- A report of this id stands in the table under this owner.
abbrev pub is_stored : Spec → List SavedReport → Bool
is_stored spec [] = false
is_stored spec (r ∷ rs) =
    ((r.id == spec.id) && owner_is spec.owner (some r.owner)) || is_stored spec rs

abbrev pub implies : Bool → Bool → Bool
implies a b = not a || b

pub record SoundJob (reports : List SavedReport) (key : ℕ) (job : Job) : Type 0 where
  -- a job is listed under its own id, and a user's run has an owner
  pub own_key : job.spec.id ≡ key
  pub owned : lacks_owner job.spec ≡ false
  -- the job ends exactly when its future does
  pub live : future_is_live job.future && is_finished job ≡ false
  pub settled : implies (future_is_done job.future) (is_finished job) ≡ true
  -- the shared status says so
  pub status : is_terminal job.state.status ≡ is_finished job
  -- a saved report is that of a completed run that nobody cancelled, and stands in the table
  pub completes : implies job.saved (is_completed job.state.status) ≡ true
  pub not_cancelled : job.saved && job.state.cancel_requested ≡ false
  pub stored : implies job.saved (is_stored job.spec reports) ≡ true

pub reports-settle :
    (settles : Bool) (spec : Spec) (passed : Bool) (db : Database)
    → (settle_validation settles spec passed db).reports ≡ db.reports
unfolding settle_validation
reports-settle settles spec passed db = ground arith

-- A failed job is sound whatever the table holds.
fail-SoundJob :
    (reports : List SavedReport) (key now : ℕ) (message : Message) (job : Job)
    → job.spec.id ≡ key
    → lacks_owner job.spec ≡ false
    → future_is_live job.future ≡ false
    → job.saved ≡ false
    → SoundJob reports key (fail now message job)
unfolding fail
fail-SoundJob reports key now message job k o f s = ground arith

stored_more :
    (spec : Spec) (r : SavedReport) (rs : List SavedReport)
    → is_stored spec rs ≡ true
    → is_stored spec (r ∷ rs) ≡ true
stored_more spec r rs h = ground arith

-- An unfinished job whose future has just ended.
pub record Ended (key : ℕ) (job : Job) : Type 0 where
  pub own_key : job.spec.id ≡ key
  pub owned : lacks_owner job.spec ≡ false
  pub future_ended : future_is_live job.future ≡ false
  pub not_saved : job.saved ≡ false

pub end_failed-SoundJob :
    (backend : Backend) (key now : ℕ) (message : Message) (job : Job) (db : Database)
    → Ended key job
    → SoundJob
        (end_failed backend now message job db).db.reports
        key
        (end_failed backend now message job db).job
unfolding end_failed
end_failed-SoundJob backend key now message job db h =
    fail-SoundJob _ key now message job h.own_key h.owned h.future_ended h.not_saved

end_completed-SoundJob :
    (backend : Backend) (key now : ℕ) (job : Job) (db : Database)
    → job.spec.id ≡ key
    → lacks_owner job.spec ≡ false
    → future_is_live job.future ≡ false
    → job.saved && job.state.cancel_requested ≡ false
    → implies job.saved (is_stored job.spec db.reports) ≡ true
    → SoundJob
        (end_completed backend now job db).db.reports
        key
        (end_completed backend now job db).job
unfolding end_completed
end_completed-SoundJob backend key now job db k o f c s = rw reports-settle (ground arith)

saved_is_stored :
    (backend : Backend) (spec : Spec) (owner body : ℕ) (db db' : Database)
    → spec.owner ≡ some owner
    → save backend spec.id owner body db ≡ ok db'
    → is_stored spec db'.reports ≡ true
unfolding save
saved_is_stored backend spec owner body db db' o h = ground arith

end_reported-SoundJob :
    (backend : Backend) (key now body : ℕ) (job : Job) (db : Database) (owner : Option ℕ)
    → job.spec.owner ≡ owner
    → Ended key job
    → job.state.cancel_requested ≡ false
    → SoundJob
        (end_reported backend now body job db owner).db.reports
        key
        (end_reported backend now body job db owner).job
unfolding end_reported
end_reported-SoundJob backend key now body job db none o h c =
    end_completed-SoundJob backend key now _ db h.own_key h.owned h.future_ended (ground arith)
      (ground arith)
end_reported-SoundJob backend key now body job db (some owner) o h c =
    elim (Result-cases (save backend job.spec.id owner body db)) [
      | inl (db', s) ↦
          rw (s, end_reported)
            (end_completed-SoundJob backend key now _ db' h.own_key h.owned h.future_ended c
              (saved_is_stored backend job.spec owner body db db' o s))
      | inr (f, s) ↦ rw (s, end_reported) (end_failed-SoundJob backend key now _ job db h)
    ]

end_with-SoundJob :
    (backend : Backend) (key now : ℕ) (outcome : Outcome) (job : Job) (db : Database)
    → Ended key job
    → job.state.cancel_requested ≡ false
    → SoundJob
        (end_with backend now outcome job db).db.reports
        key
        (end_with backend now outcome job db).job
unfolding end_with
end_with-SoundJob backend key now (report body) job db h c =
    end_reported-SoundJob backend key now body job db job.spec.owner refl h c
end_with-SoundJob backend key now outcome job db h c =
    end_failed-SoundJob backend key now _ job db h

-- However the future ends, its job is sound.
pub on_done-SoundJob :
    (backend : Backend) (closed : Bool) (key now : ℕ) (outcome : Outcome) (job : Job)
    (db : Database)
    → Ended key job
    → SoundJob
        (on_done backend closed now outcome job db).db.reports
        key
        (on_done backend closed now outcome job db).job
unfolding on_done
on_done-SoundJob backend closed key now outcome job db h =
    elim (Bool-cases (closed || job.state.cancel_requested || is_cancelled outcome)) [
      | inl stop ↦ rw stop (end_failed-SoundJob backend key now _ job db h)
      | inr go ↦ rw go (end_with-SoundJob backend key now outcome job db h (ground arith))
    ]

-- Reports are only added.
abbrev pub Grows : List SavedReport → List SavedReport → Type 0
Grows old new = (spec : Spec) → is_stored spec old ≡ true → is_stored spec new ≡ true

SoundJob-implies : (a b c : Bool) → (b ≡ true → c ≡ true) → implies a b ≡ true → implies a c ≡ true
SoundJob-implies true b c f h = f h
SoundJob-implies false b c f h = refl

pub SoundJob-Grows :
    (old new : List SavedReport) (key : ℕ) (job : Job)
    → Grows old new
    → SoundJob old key job
    → SoundJob new key job
SoundJob-Grows old new key job g h = record {
  own_key = h.own_key;
  owned = h.owned;
  live = h.live;
  settled = h.settled;
  status = h.status;
  completes = h.completes;
  not_cancelled = h.not_cancelled;
  stored = SoundJob-implies job.saved _ _ (g job.spec) h.stored;
}

Grows-settle :
    (settles : Bool) (spec : Spec) (passed : Bool) (db : Database) (old : List SavedReport)
    → Grows old db.reports
    → Grows old (settle_validation settles spec passed db).reports
Grows-settle settles spec passed db old g s h = rw reports-settle (g s h)

pub end_failed-Grows :
    (backend : Backend) (now : ℕ) (message : Message) (job : Job) (db : Database)
    → Grows db.reports (end_failed backend now message job db).db.reports
unfolding end_failed
end_failed-Grows backend now message job db =
    Grows-settle backend.settles job.spec false db _ (λ s h. h)

save-Grows :
    (backend : Backend) (id owner body : ℕ) (db db' : Database)
    → save backend id owner body db ≡ ok db'
    → Grows db.reports db'.reports
unfolding save
save-Grows backend id owner body db db' h s g = ground arith

end_reported-Grows :
    (backend : Backend) (now body : ℕ) (job : Job) (db : Database) (owner : Option ℕ)
    → Grows db.reports (end_reported backend now body job db owner).db.reports
unfolding end_reported end_completed
end_reported-Grows backend now body job db none =
    Grows-settle backend.settles job.spec true db _ (λ s h. h)
end_reported-Grows backend now body job db (some owner) =
    elim (Result-cases (save backend job.spec.id owner body db)) [
      | inl (db', s) ↦
          rw (s, end_reported)
            (Grows-settle backend.settles job.spec true db' _
              (save-Grows backend job.spec.id owner body db db' s))
      | inr (f, s) ↦ rw (s, end_reported) (end_failed-Grows backend now _ job db)
    ]

end_with-Grows :
    (backend : Backend) (now : ℕ) (outcome : Outcome) (job : Job) (db : Database)
    → Grows db.reports (end_with backend now outcome job db).db.reports
unfolding end_with
end_with-Grows backend now (report body) job db =
    end_reported-Grows backend now body job db job.spec.owner
end_with-Grows backend now outcome job db = end_failed-Grows backend now _ job db

pub on_done-Grows :
    (backend : Backend) (closed : Bool) (now : ℕ) (outcome : Outcome) (job : Job) (db : Database)
    → Grows db.reports (on_done backend closed now outcome job db).db.reports
unfolding on_done
on_done-Grows backend closed now outcome job db =
    elim (Bool-cases (closed || job.state.cancel_requested || is_cancelled outcome)) [
      | inl stop ↦ rw stop (end_failed-Grows backend now _ job db)
      | inr go ↦ rw go (end_with-Grows backend now outcome job db)
    ]
