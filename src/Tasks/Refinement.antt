-- ===== src/Tasks/Refinement.antt =====
-- The abstract table of tasks, a map from ids to tasks, and the operations of Tasks/Rows on it.
pub mod Proof
use saturnus.Base.{
  String, ℕ, Bool, true, Option, none, some, List, [], ◌∷◌, ◌==◌, ◌≡◌, if◌then◌else◌, touch,
  or_number, Result, ok, err, constraint, not_found, Keyed,
}
use mathlib.Core.Option
use saturnus.Store.Types.{Env}
use saturnus.Tasks.Types.{Task, Tables}
use saturnus.Tasks.Rows.{
  get_task, fill_task, create_task, accepts, unarchived, close_row, update_task, close_task,
  save_task_refresh, patch_task, bind_task_issue, coalesce,
}

abbrev pub Spec : Type 0
Spec = String → Option Task

-- one operation on a task, with what it reads from outside
pub data Call : Type 0 where
  creates : Env → Task → Call
  updates : Env → Task → Call
  closes : Env → String → Call
  refreshes : Env → Task → Bool → Call
  patches : Env → String → Option String → Option String → Option String → Call
  binds : Env → String → String → ℕ → String → String → String → Call

-- the operation on the tables
unfoldable pub run : Call → Tables → Tables × Result Task
run (creates env task) s = create_task env task s
run (updates env task) s = let (t, new) = update_task env task s in (t, ok new)
run (closes env id) s = close_task env id s
run (refreshes env task active_only) s = save_task_refresh env task active_only s
run (patches env id title status description) s = patch_task env id title status description s
run (binds env id repo number url title state) s =
    bind_task_issue env id repo number url title state s

-- the map changed at one id, where the task there meets the condition
abbrev pub amend : String → (Task → Bool) → (Task → Task) → Spec → Spec
amend id p f m i = if i == id then Option.map (touch p f) (m i) else m i

abbrev pub answer : (Task → Bool) → (Task → Task) → Option Task → Result Task
answer p f none = err not_found
answer p f (some t) = if p t then ok (f t) else err not_found

-- a change that answers `ErrNotFound` unless a task is there and meets the condition
abbrev pub change : String → (Task → Bool) → (Task → Task) → Spec → Spec × Result Task
change id p f m = (amend id p f m, answer p f (m id))

abbrev pub always : Task → Bool
always t = true

abbrev pub insert : Env → Task → Spec → Option Task → Spec × Result Task
insert env task m (some t) = (m, err constraint)
insert env task m none =
    let filled = fill_task env task in
    (
      (λ i.
          if filled.id == i
          then some
              (record filled { refresh_attempted_at = 0; refreshed_at = 0; refresh_error = "" })
          else m i),
      ok filled,
    )

abbrev pub found : (Task → Task) → Option Task → Result Task
found f none = err not_found
found f (some t) = ok (f t)

-- The operation on the map: an independent description, without tables, counts or transactions.
unfoldable pub spec : Call → Spec → Spec × Result Task
spec (creates env task) m = insert env task m (m (fill_task env task).id)
spec (updates env task) m = (
  amend task.id always
      (λ t. record task {
        id = t.id;
        created_at = t.created_at;
        updated_at = env.now;
        refresh_attempted_at = t.refresh_attempted_at;
        refreshed_at = t.refreshed_at;
        refresh_error = t.refresh_error;
      })
      m,
  ok (record task { updated_at = env.now }),
)
spec (closes env id) m =
    (amend id unarchived (close_row env) m, found (touch unarchived (close_row env)) (m id))
spec (refreshes env task active_only) m =
    change task.id (accepts active_only)
      (λ t. record t {
        issue_title = task.issue_title;
        issue_state = task.issue_state;
        issue_url = task.issue_url;
        refresh_attempted_at = task.refresh_attempted_at;
        refreshed_at = or_number task.refreshed_at t.refreshed_at;
        refresh_error = task.refresh_error;
        updated_at = env.now;
      })
      m
spec (patches env id title status description) m =
    change id always
      (λ t. record t {
        title = coalesce title t.title;
        status = coalesce status t.status;
        description = coalesce description t.description;
        updated_at = env.now;
      })
      m
spec (binds env id repo number url title state) m =
    change id unarchived
      (λ t. record t {
        issue_repo = repo;
        issue_number = number;
        issue_url = url;
        issue_title = title;
        issue_state = state;
        updated_at = env.now;
      })
      m

-- a sequence of operations and their answers
unfoldable pub replay {ℓ} :
    {S : Type ℓ} → (Call → S → S × Result Task) → List Call → S → S × List (Result Task)
replay step [] s = (s, [])
replay step (c ∷ cs) s = let (t, r) = step c s in let (u, rs) = replay step cs t in (u, r ∷ rs)

-- What the tables and the map have in common: the ids are unique, and both give the same task.
pub record Agrees (s : Tables) (m : Spec) : Type 0 where
  pub keyed : Keyed (λ t. t.id) s.tasks
  pub same : (i : String) → get_task i s ≡ m i
