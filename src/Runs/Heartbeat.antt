-- ===== src/Runs/Heartbeat.antt =====
-- `_RunHeartbeat` of src/workers/run_job.py: the callbacks of the engine, which share one throttled
-- visit to the run's row. Times are numbers of a clock that does not go back; `none` is the poll
-- before all.
use mqs_backtest_visualizer.Prelude.{
  ℕ, ◌+◌, ◌-◌, ◌≤◌, ◌≡◌, refl, min, Bool, true, false, Option, none, some, List, [], ◌∷◌, arith,
  ltb, if◌then◌else◌, ◌||◌, Bool-cases, subst, inl, inr,
}

-- what the database answers: an error before its statement is done, an error of the commit after it, no
-- row, or the row's cancel flag
pub data Answer : Type 0 where
  db_error commit_error no_row : Answer
  flag : Bool → Answer

pub record Heartbeat : Type 0 where
  pub interval : ℕ
  pub pending_pct : ℕ
  pub written_pct : Option ℕ
  pub cancelled : Bool
  pub last_poll : Option ℕ

abbrev pub new_heartbeat : ℕ → Heartbeat
new_heartbeat interval = record {
  interval = interval;
  pending_pct = 0;
  written_pct = none;
  cancelled = false;
  last_poll = none;
}

-- `now - self._last_poll < self._interval`
abbrev pub too_soon : ℕ → ℕ → Option ℕ → Bool
too_soon now interval none = false
too_soon now interval (some last) = ltb (now - last) interval

-- the part of `_poll` after the visit; the progress counts as written before the commit
abbrev pub answered : Answer → Heartbeat → Heartbeat
answered db_error h = h
answered commit_error h = record h { written_pct = some h.pending_pct }
answered no_row h = record h { written_pct = some h.pending_pct }
answered (flag asked) h = record h { written_pct = some h.pending_pct; cancelled = asked }

-- `_poll`; the second result says whether the database was visited
unfoldable pub poll : ℕ → Answer → Heartbeat → Heartbeat × Bool
poll now answer h =
    if h.cancelled || too_soon now h.interval h.last_poll
    then (h, false)
    else (answered answer (record h { last_poll = some now }), true)

-- `on_progress`; a negative `pct` counts as 0
unfoldable pub on_progress : ℕ → ℕ → Answer → Heartbeat → Heartbeat × Bool
unfolding poll
on_progress pct now answer h = poll now answer (record h { pending_pct = min 100 pct })

unfoldable pub should_cancel : ℕ → Answer → Heartbeat → (Heartbeat × Bool) × Bool
unfolding poll
should_cancel now answer h = (poll now answer h, (poll now answer h).0.cancelled)

-- A call of the engine, so long after the call before it.
pub data Call : Type 0 where
  progress : ℕ → ℕ → Answer → Call
  asks : ℕ → Answer → Call

-- The times at which the calls visit the database, if the first comes after `now`.
abbrev pub visits : ℕ → Heartbeat → List Call → List ℕ
visits now h [] = []
visits now h (progress wait pct answer ∷ calls) =
    let (next, visited) = on_progress pct (now + wait) answer h in
    let rest = visits (now + wait) next calls in if visited then (now + wait) ∷ rest else rest
visits now h (asks wait answer ∷ calls) =
    let ((next, visited), cancel) = should_cancel (now + wait) answer h in
    let rest = visits (now + wait) next calls in if visited then (now + wait) ∷ rest else rest

-- Each time is so much later than the one before, and the first than `last`.
abbrev pub Spaced : ℕ → Option ℕ → List ℕ → Type 0
Spaced interval last [] = Unit
Spaced interval none (t ∷ ts) = Spaced interval (some t) ts
Spaced interval (some last) (t ∷ ts) = (last + interval ≤ t) × Spaced interval (some t) ts

abbrev pub Past : ℕ → Option ℕ → Type 0
Past now none = Unit
Past now (some last) = last ≤ now

Spaced-next :
    (interval now : ℕ) (last : Option ℕ) (ts : List ℕ)
    → too_soon now interval last ≡ false
    → Past now last
    → Spaced interval (some now) ts
    → Spaced interval last (now ∷ ts)
Spaced-next interval now none ts h p s = s
Spaced-next interval now (some last) ts h p s = (ground arith, s)

Past-later : (now wait : ℕ) (last : Option ℕ) → Past now last → Past (now + wait) last
Past-later now wait none p = tt
Past-later now wait (some last) p = omega arith

answered-last : (answer : Answer) (h : Heartbeat) → (answered answer h).last_poll ≡ h.last_poll
answered-last db_error h = refl
answered-last commit_error h = refl
answered-last no_row h = refl
answered-last (flag b) h = refl

answered-Spaced :
    (answer : Answer) (h : Heartbeat) (ts : List ℕ)
    → Spaced (answered answer h).interval (answered answer h).last_poll ts
    → Spaced h.interval h.last_poll ts
answered-Spaced db_error h ts s = s
answered-Spaced commit_error h ts s = s
answered-Spaced no_row h ts s = s
answered-Spaced (flag b) h ts s = s

visited-Spaced :
    (at : ℕ) (answer : Answer) (h polled : Heartbeat) (ts : List ℕ)
    → h.cancelled || too_soon at h.interval h.last_poll ≡ false
    → Past at h.last_poll
    → polled.interval ≡ h.interval
    → polled.last_poll ≡ some at
    → Spaced (answered answer polled).interval (answered answer polled).last_poll ts
    → Spaced h.interval h.last_poll (at ∷ ts)
visited-Spaced at answer h polled ts e p i l s =
    Spaced-next h.interval at h.last_poll ts (ground arith) p (
      subst (λ n. Spaced n (some at) ts) i
        (subst (λ o. Spaced polled.interval o ts) l (answered-Spaced answer polled ts s)))

-- If the last poll is not later than `now`, the visits to the database are an interval apart, however
-- often the engine calls.
pub visits-Spaced :
    (now : ℕ) (h : Heartbeat) (calls : List Call)
    → Past now h.last_poll
    → Spaced h.interval h.last_poll (visits now h calls)
unfolding on_progress should_cancel poll
visits-Spaced now h [] p = tt
visits-Spaced now h (progress wait pct answer ∷ calls) p =
    let at = now + wait in
    let asked : Heartbeat = record h { pending_pct = min 100 pct } in
    let polled : Heartbeat = record asked { last_poll = some at } in
    let later = Past-later now wait h.last_poll p in
    elim (Bool-cases (h.cancelled || too_soon at h.interval h.last_poll)) [
      | inl e ↦ rw e (visits-Spaced at asked calls later)
      | inr e ↦
          let rest =
            visits-Spaced at (answered answer polled) calls
              (rw (answered-last answer polled) (omega arith)) in
          rw e (
            visited-Spaced at answer h polled (visits at (answered answer polled) calls) e later
              refl refl rest)
    ]
visits-Spaced now h (asks wait answer ∷ calls) p =
    let at = now + wait in
    let polled : Heartbeat = record h { last_poll = some at } in
    let later = Past-later now wait h.last_poll p in
    elim (Bool-cases (h.cancelled || too_soon at h.interval h.last_poll)) [
      | inl e ↦ rw (e, poll) (visits-Spaced at h calls later)
      | inr e ↦
          let rest =
            visits-Spaced at (answered answer polled) calls
              (rw (answered-last answer polled) (omega arith)) in
          rw (e, poll)
            (visited-Spaced at answer h polled (visits at (answered answer polled) calls) e later
              refl refl rest)
    ]
