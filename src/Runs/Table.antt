-- ===== src/Runs/Table.antt =====
-- src/repositories/runs.py: the table `app.backtest_runs` and the statements of the API on it. Ids,
-- owners, strategies and times are numbers; `now` is the database's clock. What a search matches is
-- a parameter, since `LIKE` on three columns is the database's.
use mqs_backtest_visualizer.Prelude.{
  ℕ, zero, suc, ◌-◌, ◌*◌, max, Bool, true, false, Option, none, some, List, [], ◌∷◌, ◌++◌, leb, ltb,
  ◌==◌, ◌&&◌, ◌||◌, if◌then◌else◌, length,
}
use mqs_backtest_visualizer.Prelude.Sort.{sort}
use mqs_backtest_visualizer.Prelude.Text.{Text, take}
use mqs_backtest_visualizer.Jobs.State.{
  Purpose, user, validation, Status, queued, running, completed, failed, owner_is,
}

-- a row of the table, without the columns that no statement here reads or writes
pub record Run : Type 0 where
  pub id : ℕ
  pub owner : Option ℕ
  pub purpose : Purpose
  pub strategy_key : ℕ
  pub status : Status
  pub progress_pct : ℕ
  pub cancel_requested : Bool
  pub error_message : Option Text
  pub created_at : ℕ
  pub heartbeat_at : Option ℕ
  pub finished_at : Option ℕ

abbrev pub RunTable : Type 0
RunTable = List Run

abbrev pub error_message_limit : ℕ
error_message_limit = 2000

abbrev pub same_status : Status → Status → Bool
same_status queued queued = true
same_status running running = true
same_status completed completed = true
same_status failed failed = true
same_status _ _ = false

-- `for_user`: without an owner every row is in scope
abbrev pub for_user : Option ℕ → Run → Bool
for_user none run = true
for_user owner run = owner_is run.owner owner

-- `UPDATE ... WHERE`, with the count of the rows that it matched
abbrev pub update_where : (Run → Bool) → (Run → Run) → RunTable → RunTable × ℕ
update_where test change [] = ([], 0)
update_where test change (run ∷ runs) =
    let rest = update_where test change runs in
    if test run then (change run ∷ rest.0, suc rest.1) else (run ∷ rest.0, rest.1)

-- `DELETE ... WHERE`
abbrev pub delete_where : (Run → Bool) → RunTable → RunTable × ℕ
delete_where test [] = ([], 0)
delete_where test (run ∷ runs) =
    let rest = delete_where test runs in
    if test run then (rest.0, suc rest.1) else (run ∷ rest.0, rest.1)

-- `SELECT ... WHERE id = :id`
abbrev pub find_run : ℕ → RunTable → Option Run
find_run key [] = none
find_run key (run ∷ runs) = if run.id == key then some run else find_run key runs

-- the row that a `WHERE id = :id AND status = :status` matches
abbrev pub is_at : ℕ → Status → Run → Bool
is_at key status run = (run.id == key) && same_status run.status status

-- `create_run`: the database gives the id and its clock; a taken id is refused
unfoldable pub create_run : ℕ → ℕ → Option ℕ → Purpose → ℕ → RunTable → Option RunTable
create_run now key owner purpose strategy runs = elim (find_run key runs) [
  | some run ↦ none
  | none ↦ some (
      runs
      ++ record {
        id = key;
        owner = owner;
        purpose = purpose;
        strategy_key = strategy;
        status = queued;
        progress_pct = 0;
        cancel_requested = false;
        error_message = none;
        created_at = now;
        heartbeat_at = none;
        finished_at = none;
      }
        ∷ [])
]

-- `get_run` and the first half of `delete_run` and `request_cancel`
unfoldable pub get_run : ℕ → Option ℕ → RunTable → Option Run
get_run key owner runs = elim (find_run key runs) [
  | none ↦ none
  | some run ↦ if for_user owner run then some run else none
]

unfoldable pub delete_run : ℕ → Option ℕ → RunTable → RunTable × Bool
unfolding get_run
delete_run key owner runs = elim (get_run key owner runs) [
  | none ↦ (runs, false)
  | some run ↦ ((delete_where (λ r. r.id == key) runs).0, true)
]

unfoldable pub request_cancel : ℕ → Option ℕ → RunTable → RunTable × Bool
unfolding get_run
request_cancel key owner runs = elim (get_run key owner runs) [
  | none ↦ (runs, false)
  | some run ↦
      ((update_where (λ r. r.id == key) (λ r. record r { cancel_requested = true }) runs).0, true)
]

unfoldable pub delete_unclaimed_run : ℕ → Option ℕ → RunTable → RunTable × Bool
delete_unclaimed_run key owner runs =
    let (left, count) = delete_where (λ r. is_at key queued r && for_user owner r) runs in
    (left, ltb 0 count)

-- the row that a failure leaves
abbrev pub failed_row : ℕ → Text → Run → Run
failed_row now message run = record run {
  status = failed;
  error_message = some (take error_message_limit message);
  finished_at = some now;
}

unfoldable pub fail_unclaimed_run : ℕ → ℕ → Text → Option ℕ → RunTable → RunTable × Bool
fail_unclaimed_run now key message owner runs =
    let (next, count) =
      update_where (λ r. is_at key queued r && for_user owner r) (failed_row now message) runs in
    (next, ltb 0 count)

-- `RunFilters`; `search` says which rows the text matches
pub record RunFilters : Type 0 where
  pub search : Option (Run → Bool)
  pub status : Option Status
  pub strategy_key : Option ℕ
  pub purpose : Option Purpose
  pub owner_id : Option ℕ

abbrev pub same_purpose : Purpose → Purpose → Bool
same_purpose user user = true
same_purpose validation validation = true
same_purpose _ _ = false

-- one `where` of `_apply_filters`, left out if its filter is not set
abbrev pub if_set {ℓ} : {A : Type ℓ} → Option A → (A → Bool) → Bool
if_set none test = true
if_set (some a) test = test a

-- `_apply_filters`
abbrev pub passes : RunFilters → Run → Bool
passes f run =
    if_set f.status (λ s. same_status run.status s)
    && if_set f.strategy_key (λ k. run.strategy_key == k)
    && if_set f.purpose (λ p. same_purpose run.purpose p)
    && if_set f.search (λ matches. matches run)
    && for_user f.owner_id run

abbrev pub select_where : (Run → Bool) → RunTable → RunTable
select_where test [] = []
select_where test (run ∷ runs) =
    if test run then run ∷ select_where test runs else select_where test runs

-- `ORDER BY created_at DESC, id`
abbrev pub listed_before : Run → Run → Bool
listed_before a b =
    ltb b.created_at a.created_at || ((a.created_at == b.created_at) && leb a.id b.id)

-- `OFFSET`
abbrev pub drop {ℓ} : {A : Type ℓ} → ℕ → List A → List A
drop n [] = []
drop zero (x ∷ xs) = x ∷ xs
drop (suc n) (x ∷ xs) = drop n xs

-- `list_runs`: one page, and how many rows there are in all
unfoldable pub list_runs : RunFilters → ℕ → ℕ → RunTable → RunTable × ℕ
list_runs f page page_size runs =
    let found = sort listed_before (select_where (passes f) runs) in
    (
      take page_size (drop (max (page - 1) 0 * page_size) found),
      length (select_where (passes f) runs),
    )
