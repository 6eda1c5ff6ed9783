-- ===== src/Tasks/Refinement/Proof.antt =====
-- The tables of tasks implement the map from ids to tasks.
use saturnus.Base.{
  find-append_some, find-append_none, find_some-any, eqb, find_none-any, or_fail, not_found,
  count-find_none, subst, err, eq_refl, String, Bool, true, Option, none, some, List, [], ◌∷◌, ◌++◌,
  ◌==◌, ◌&&◌, ◌≡◌, refl, sym, ap, ◌∙◌, inl, inr, arith, touch, Result, Keyed, Keyed-update,
  Keyed-append, find_row, find-update, find_row_holds, count_by_key, eq_iff, Bool-cases,
  Option-cases, if◌then◌else◌,
}
use mathlib.Core.Option
use saturnus.Store.Types.{Env}
use saturnus.Tasks.Types.{Task, Tables, empty_tables}
use saturnus.Tasks.Rows.{
  audit_task, get_task, fill_task, create_task, set_task, hits, change_task, accepts, unarchived,
  close_row, update_task, close_task, save_task_refresh, patch_task, bind_task_issue,
}
use saturnus.Tasks.Refinement.{
  Spec, Call, creates, updates, closes, refreshes, patches, binds, run, amend, answer, change,
  always, insert, found, spec, replay, Agrees,
}

module _ (id : String) (p : Task → Bool) (f : Task → Task) (keeps : (t : Task) → (f t).id ≡ t.id)
    (s : Tables) (m : Spec) (ag : Agrees s m) where
  open ag use {keyed, same}

  at_key : Task → Bool
  at_key t = t.id == id && p t

  amended :
      (i : String) (o : Option Task)
      → find_row (λ t. t.id == i) s.tasks ≡ o
      → Option.map (touch (λ t. t.id == id && p t) f) o
        ≡ (if i == id then Option.map (touch p f) o else o)
  amended i none e = ground arith
  amended i (some t) e =
      let k = find_row_holds (λ x. x.id == i) s.tasks t e in
      ground (arith, k, eq_iff t.id i, eq_iff t.id id, eq_iff i id)

  set-Agrees : Agrees (set_task id p f s) (amend id p f m)
  unfolding get_task
  set-Agrees = record {
    keyed = Keyed-update (λ t. t.id) (λ t. t.id == id && p t) f s.tasks keeps keyed;
    same = λ i.
        find-update (λ t. t.id == id && p t) f (λ t. t.id == i) s.tasks
          (λ t. ap (λ j. j == i) (keeps t))
        ∙ amended i _ refl
        ∙ rw (same i) refl;
  }

  hits_by_key : (t : Task) → m id ≡ some t → hits id p s ≡ (if p t then 1 else 0)
  unfolding get_task
  hits_by_key t e = count_by_key (λ t. t.id) id p s.tasks t keyed (same id ∙ e)

  hits-none : m id ≡ none → hits id p s ≡ 0
  unfolding get_task
  hits-none e = count-find_none p (λ t. t.id == id) s.tasks (same id ∙ e)

  -- Where the condition fails, the map stays as it is.
  unchanged : answer p f (m id) ≡ err not_found → (i : String) → m i ≡ amend id p f m i
  unchanged e i = elim (Bool-cases (i == id)) [
    | inr k ↦ rw k refl
    | inl k ↦ rw (k, (eq_iff i id).0 k) (kept (m id) e)
  ]
    where
      kept : (o : Option Task) → answer p f o ≡ err not_found → o ≡ Option.map (touch p f) o
      kept none e = refl
      kept (some t) e = elim (Bool-cases (p t)) [ inl k ↦ absurd (cc (e, k)) | inr k ↦ rw k refl ]

abbrev Refines : Tables × Result Task → Spec × Result Task → Type 0
Refines (t, r) (n, q) = Agrees t n × (r ≡ q)

-- Fields of the tables other than the tasks do not matter.
same-Agrees : (s t : Tables) (m : Spec) → t.tasks ≡ s.tasks → Agrees s m → Agrees t m
unfolding get_task
same-Agrees s t m e ag = record {
  keyed = subst (Keyed (λ t. t.id)) (sym e) ag.keyed;
  same = λ i. ap (find_row (λ x. x.id == i)) e ∙ ag.same i;
}

module _ (id : String) (p : Task → Bool) (f : Task → Task) (keeps : (t : Task) → (f t).id ≡ t.id)
    (after : Tables → Tables) (quiet : (u : Tables) → (after u).tasks ≡ u.tasks) (s : Tables)
    (m : Spec) (ag : Agrees s m) where
  refused :
      hits id p s ≡ 0
      → answer p f (m id) ≡ err not_found
      → Refines (change_task id p f after s) (change id p f m)
  refused z e =
      rw (change_task, z, e)
        (
          record { keyed = ag.keyed; same = λ i. ag.same i ∙ unchanged id p f keeps s m ag e i },
          refl,
        )

  amended_row : (t : Task) → m id ≡ some t → p t ≡ true → amend id p f m id ≡ some (f t)
  amended_row t e k = rw (eq_refl id, e, k) refl

  accepted :
      (t : Task)
      → m id ≡ some t
      → p t ≡ true
      → Refines (change_task id p f after s) (change id p f m)
  accepted t e k =
      let set = set-Agrees id p f keeps s m ag in
      let done = same-Agrees (set_task id p f s) (after (set_task id p f s)) _ (quiet _) set in
      let row = done.same id ∙ amended_row t e k in
      rw (change_task, hits_by_key id p f keeps s m ag t e, k, row, e, k) (done, refl)

  change-Refines : Refines (change_task id p f after s) (change id p f m)
  change-Refines = elim (Option-cases (m id)) [
    | inl e ↦ refused (hits-none id p f keeps s m ag e) (rw e refl)
    | inr (t, e) ↦ elim (Bool-cases (p t)) [
      | inl k ↦ accepted t e k
      | inr k ↦ refused (hits_by_key id p f keeps s m ag t e ∙ rw k refl) (rw (e, k) refl)
    ]
  ]

-- Appending a row with an id that the table lacks is setting the map there.
append-Agrees :
    (row : Task) (s t : Tables) (m : Spec)
    → Agrees s m
    → m row.id ≡ none
    → t.tasks ≡ s.tasks ++ row ∷ []
    → Agrees t (λ i. if row.id == i then some row else m i)
unfolding get_task
append-Agrees row s t m ag e grown = record {
  keyed =
      subst (Keyed (λ t. t.id)) (sym grown)
        (Keyed-append (λ t. t.id) s.tasks row ag.keyed (ag.same row.id ∙ e));
  same = λ i. ap (find_row (λ x. x.id == i)) grown ∙ looked_up i;
}
  where
    looked_up :
        (i : String)
        → find_row (λ x. x.id == i) (s.tasks ++ row ∷ []) ≡ (if row.id == i then some row else m i)
    looked_up i = elim (Option-cases (m i)) [
      | inl n ↦ find-append_none _ s.tasks row (ag.same i ∙ n) ∙ rw n refl
      | inr (x, n) ↦
          find-append_some _ s.tasks row x (ag.same i ∙ n) ∙ ground (arith, n, e, eq_iff row.id i)
    ]

create-Refines :
    (env : Env) (task : Task) (s : Tables) (m : Spec)
    → Agrees s m
    → Refines (create_task env task s) (insert env task m (m (fill_task env task).id))
unfolding create_task get_task audit_task
create-Refines env task s m ag =
    let filled = fill_task env task in
    let key : Task → Bool = λ t. t.id == filled.id in
    elim (Option-cases (m filled.id)) [
      | inl e ↦
          rw (e, find_none-any key s.tasks (ag.same filled.id ∙ e))
            (append-Agrees _ s _ m ag e refl, refl)
      | inr (t, e) ↦ rw (e, find_some-any key s.tasks t (ag.same filled.id ∙ e)) (ag, refl)
    ]

found-map : (f : Task → Task) (o : Option Task) → or_fail (Option.map f o) not_found ≡ found f o
found-map f none = refl
found-map f (some t) = refl

close-Refines :
    (env : Env) (id : String) (s : Tables) (m : Spec)
    → Agrees s m
    → Refines (close_task env id s) (spec (closes env id) m)
unfolding close_task spec audit_task get_task
close-Refines env id s m ag =
    let set = set-Agrees id unarchived (close_row env) (λ t. refl) s m ag in
    let row : get_task id (set_task id unarchived (close_row env) s)
        ≡ Option.map (touch unarchived (close_row env)) (m id) =
      set.same id ∙ rw (eq_refl id) refl in
    let answered = ap (λ o. or_fail o not_found) row ∙ found-map _ (m id) in
    elim (Bool-cases (eqb (hits id unarchived s) 0)) [
      | inl k ↦ rw k (set, answered)
      | inr k ↦ rw k (same-Agrees _ _ _ refl set, answered)
    ]

-- Where the tables agree with a map, an operation gives the answer that the map gives, and leaves
-- tables that agree with the map after it.
run-Refines : (c : Call) (s : Tables) (m : Spec) → Agrees s m → Refines (run c s) (spec c m)
unfolding run spec update_task close_task save_task_refresh patch_task bind_task_issue audit_task
run-Refines (creates env task) s m ag = create-Refines env task s m ag
run-Refines (updates env task) s m ag =
    (same-Agrees _ _ _ refl (set-Agrees task.id always _ (λ t. refl) s m ag), refl)
run-Refines (closes env id) s m ag = close-Refines env id s m ag
run-Refines (refreshes env task active_only) s m ag =
    change-Refines task.id (accepts active_only) _ (λ t. refl) (λ u. u) (λ u. refl) s m ag
run-Refines (patches env id title status description) s m ag =
    change-Refines id always _ (λ t. refl) (audit_task env "task.update" id) (λ u. refl) s m ag
run-Refines (binds env id repo number url title state) s m ag =
    change-Refines id unarchived _ (λ t. refl) (λ u. u) (λ u. refl) s m ag

replay-Agrees :
    (cs : List Call) (s : Tables) (m : Spec)
    → Agrees s m
    → Agrees (replay run cs s).0 (replay spec cs m).0 × ((replay run cs s).1 ≡ (replay spec cs m).1)
unfolding replay
replay-Agrees [] s m ag = (ag, refl)
replay-Agrees (c ∷ cs) s m ag =
    let (now, answered) = run-Refines c s m ag in
    let (later, rest) = replay-Agrees cs _ _ now in (later, rw (answered, rest) refl)

-- Whatever sequence of creations, updates, closings, refreshes, patches and issue bindings runs on
-- empty tables, every answer, errors included, is the one that the map from ids to tasks gives, and
-- afterwards every id looks up the same task in both.
pub tables_refine_map :
    (cs : List Call)
    → ((replay run cs empty_tables).1 ≡ (replay spec cs (λ i. none)).1)
      × ((i : String)
          → get_task i (replay run cs empty_tables).0 ≡ (replay spec cs (λ i. none)).0 i)
unfolding get_task
tables_refine_map cs =
    let (ag, answers) =
      replay-Agrees cs empty_tables (λ i. none) (record { keyed = tt; same = λ i. refl }) in
    (answers, ag.same)
