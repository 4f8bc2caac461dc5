-- ===== src/Runs/Wanted.antt =====
-- The filters of `list_runs`, one by one (src/repositories/runs.py, `_apply_filters`).
use mqs_backtest_visualizer.Prelude.{
  ℕ, ◌≡◌, refl, subst, Bool, true, Option, none, some, arith, ◌==◌,
}
use mqs_backtest_visualizer.Jobs.State.{
  Purpose, user, validation, Status, queued, running, completed, failed,
}
use mqs_backtest_visualizer.Jobs.Views.{owner_is_eq}
use mqs_backtest_visualizer.Runs.Table.{
  Run, RunFilters, passes, if_set, same_status, same_purpose, for_user,
}

-- A row that every filter that is set asks for.
abbrev pub Wanted : RunFilters → Run → Type 0
Wanted f r =
    ((s : Status) → f.status ≡ some s → r.status ≡ s)
    × ((k : ℕ) → f.strategy_key ≡ some k → r.strategy_key ≡ k)
    × ((p : Purpose) → f.purpose ≡ some p → r.purpose ≡ p)
    × ((m : Run → Bool) → f.search ≡ some m → m r ≡ true)
    × ((o : ℕ) → f.owner_id ≡ some o → r.owner ≡ some o)

same_status_eq : (a b : Status) → same_status a b ≡ true → a ≡ b
same_status_eq queued queued e = refl
same_status_eq running running e = refl
same_status_eq completed completed e = refl
same_status_eq failed failed e = refl
same_status_eq _ _ e = cc

same_status_refl : (a : Status) → same_status a a ≡ true
same_status_refl queued = refl
same_status_refl running = refl
same_status_refl completed = refl
same_status_refl failed = refl

same_purpose_eq : (a b : Purpose) → same_purpose a b ≡ true → a ≡ b
same_purpose_eq user user e = refl
same_purpose_eq validation validation e = refl
same_purpose_eq _ _ e = cc

same_purpose_refl : (a : Purpose) → same_purpose a a ≡ true
same_purpose_refl user = refl
same_purpose_refl validation = refl

if_set-asks {ℓ} :
    {A : Type ℓ} (o : Option A) (test : A → Bool)
    → if_set o test ≡ true
    → (a : A) → o ≡ some a
    → test a ≡ true
if_set-asks o test h a e = subst (λ x. if_set x test ≡ true) e h

asks-if_set {ℓ} :
    {A : Type ℓ} (o : Option A) (test : A → Bool)
    → ((a : A) → o ≡ some a → test a ≡ true)
    → if_set o test ≡ true
asks-if_set none test h = refl
asks-if_set (some a) test h = h a refl

for_user-owner :
    (r : Run) (owner : Option ℕ)
    → for_user owner r ≡ true
    → (o : ℕ) → owner ≡ some o
    → r.owner ≡ some o
for_user-owner r owner h o e = owner_is_eq r.owner (some o) (subst (λ x. for_user x r ≡ true) e h)

owner-for_user :
    (r : Run) (owner : Option ℕ)
    → ((o : ℕ) → owner ≡ some o → r.owner ≡ some o)
    → for_user owner r ≡ true
owner-for_user r none h = refl
owner-for_user r (some o) h = rw (h o refl) (ground arith)

pub passes-Wanted : (f : RunFilters) (r : Run) → passes f r ≡ true → Wanted f r
passes-Wanted f r h =
    let s : if_set f.status (λ a. same_status r.status a) ≡ true = ground (arith, h) in
    let k : if_set f.strategy_key (λ a. r.strategy_key == a) ≡ true = ground (arith, h) in
    let p : if_set f.purpose (λ a. same_purpose r.purpose a) ≡ true = ground (arith, h) in
    let m : if_set f.search (λ a. a r) ≡ true = ground (arith, h) in
    let o : for_user f.owner_id r ≡ true = ground (arith, h) in
    (
      λ a e. same_status_eq r.status a (if_set-asks f.status (λ x. same_status r.status x) s a e),
      λ a e.
          let t : (r.strategy_key == a) ≡ true =
            if_set-asks f.strategy_key (λ x. r.strategy_key == x) k a e in
          ground (arith, t),
      λ a e.
          same_purpose_eq r.purpose a (if_set-asks f.purpose (λ x. same_purpose r.purpose x) p a e),
      λ a e. if_set-asks f.search (λ x. x r) m a e,
      for_user-owner r f.owner_id o,
    )

pub Wanted-passes : (f : RunFilters) (r : Run) → Wanted f r → passes f r ≡ true
Wanted-passes f r (s, k, p, m, o) =
    let s' : if_set f.status (λ a. same_status r.status a) ≡ true =
      asks-if_set f.status _ (λ a e. rw (s a e) (same_status_refl a)) in
    let k' : if_set f.strategy_key (λ a. r.strategy_key == a) ≡ true =
      asks-if_set f.strategy_key _ (λ a e. rw (k a e) (ground arith)) in
    let p' : if_set f.purpose (λ a. same_purpose r.purpose a) ≡ true =
      asks-if_set f.purpose _ (λ a e. rw (p a e) (same_purpose_refl a)) in
    let m' : if_set f.search (λ a. a r) ≡ true = asks-if_set f.search _ m in
    rw (s', k', p', m') (owner-for_user r f.owner_id o)
