-- ===== src/Tasks/Archived.antt =====
-- What an archived task refuses.
use saturnus.Base.{
  find_row, Option-cases, count-find_none, eq_iff, eq_false→ne, failure, if◌then◌else◌, ◌≢◌, ◌⊎◌,
  inl, inr, ◌||◌, Bool-cases, count_false, count_zero-any, ℕ, String, Bool, true, false, ◌&&◌, some,
  ◌==◌, ◌≡◌, refl, ◌∙◌, arith, any, ok, err, not_found, Keyed, count_by_key, update_none,
}
use saturnus.Store.Types.{Env}
use saturnus.Tasks.Types.{Task, TaskPr, TaskRef, TaskSession, Tables}
use saturnus.Tasks.Rows.{
  close_row, get_task, archived, accepts, unarchived, hits, close_task, save_task_refresh,
  bind_task_issue,
}
use saturnus.Tasks.Prs.{fill_pr, accepting, write_pr, add_task_pr, get_task_pr, update_task_pr}
use saturnus.Tasks.Links.{
  is_open, add_task_ref, remove_task_ref, add_task_session, remove_task_session, drops_ref,
  drops_session,
}

module _ (s : Tables) (id : String) (t : Task) (keyed : Keyed (λ t. t.id) s.tasks)
    (here : get_task id s ≡ some t) (gone : archived t ≡ true) where
  no_hits : (p : Task → Bool) → p t ≡ false → hits id p s ≡ 0
  unfolding get_task
  no_hits p e = count_by_key (λ t. t.id) id p s.tasks t keyed here ∙ rw e refl

  none_open : (p : Task → Bool) → p t ≡ false → any (λ t. t.id == id && p t) s.tasks ≡ false
  none_open p e = count_zero-any (λ t. t.id == id && p t) s.tasks (no_hits p e)

  not_open : unarchived t ≡ false
  not_open = rw gone refl

  not_accepting : (b : Bool) → accepting b id s ≡ false
  not_accepting b = none_open (accepts b) (rw gone refl)

  add_pr_refused :
      (env : Env) (pr : TaskPr) (b : Bool)
      → add_task_pr env (record pr { task_id = id }) b s ≡ (s, err not_found)
  unfolding add_task_pr write_pr fill_pr
  add_pr_refused env pr b = rw (not_accepting b) refl

  -- The row of the id is refused where it is of the task, and there is none of another task only
  -- where there is none at all.
  update_pr_refused :
      (env : Env) (pr : TaskPr) (b : Bool)
      → Keyed (λ p. p.id) s.prs
      → (update_task_pr env pr b s ≡ (s, err not_found))
        ⊎ ((stored : TaskPr) × (get_task_pr pr.id s ≡ some stored) × (stored.task_id ≢ id))
  unfolding update_task_pr get_task_pr
  update_pr_refused env pr b u = elim (Option-cases (find_row (λ p. p.id == pr.id) s.prs)) [
    | inl e ↦
        inl (rw (count-find_none (λ p. accepting b p.task_id s) (λ p. p.id == pr.id) s.prs e) refl)
    | inr (p, e) ↦ elim (Bool-cases (p.task_id == id)) [
      | inl k ↦
          let n = count_by_key (λ p. p.id) pr.id (λ p. accepting b p.task_id s) s.prs p u e in
          inl (rw (n, (eq_iff p.task_id id).0 k, not_accepting b) refl)
      | inr k ↦ inr (p, e, eq_false→ne p.task_id id k)
    ]
  ]

  refresh_refused :
      (env : Env) (task : Task) (b : Bool)
      → save_task_refresh env (record task { id = id }) b s ≡ (s, err not_found)
  unfolding save_task_refresh
  refresh_refused env task b = rw (no_hits (accepts b) (rw gone refl)) refl

  bind_refused :
      (env : Env) (repo : String) (number : ℕ) (url title state : String)
      → bind_task_issue env id repo number url title state s ≡ (s, err not_found)
  unfolding bind_task_issue
  bind_refused env repo number url title state = rw (no_hits unarchived not_open) refl

  close_again : (env : Env) → close_task env id s ≡ (s, ok t)
  unfolding close_task
  close_again env =
      let z = no_hits unarchived not_open in
      rw (z, update_none _ (close_row env) s.tasks z, here) refl

  add_ref_refused :
      (env : Env) (ref : TaskRef)
      → add_task_ref env (record ref { task_id = id }) s ≡ (s, err not_found)
  unfolding add_task_ref
  add_ref_refused env ref = rw (none_open unarchived not_open) refl

  closed_row : (a b : Bool) → (a && (b && is_open id s)) ≡ false
  closed_row a b = ground (arith, none_open unarchived not_open)

  remove_ref_refused : (ref : String) → remove_task_ref id ref s ≡ (s, err not_found)
  unfolding remove_task_ref
  remove_ref_refused ref = rw (count_false (drops_ref id ref s) s.refs (λ r. closed_row _ _)) refl

  remove_session_refused : (link : String) → remove_task_session id link s ≡ (s, err not_found)
  unfolding remove_task_session
  remove_session_refused link =
      rw (count_false (drops_session id link s) s.sessions (λ l. closed_row _ _)) refl

  add_session_refused :
      (to_lower trim_space : String → String) (env : Env) (link : TaskSession)
      → let incomplete =
          to_lower (trim_space link.tool) == "" || trim_space link.session_id == "" in
        add_task_session to_lower trim_space env (record link { task_id = id }) s
        ≡ (s, err (if incomplete then failure "tool and session_id are required" else not_found))
  unfolding add_task_session
  add_session_refused to_lower trim_space env link =
      elim (Bool-cases
        (to_lower (trim_space link.tool) == "" || trim_space link.session_id == "")) [
          | inl e ↦ rw e refl
          | inr e ↦ rw (e, none_open unarchived not_open) refl
        ]

-- Where the ids of tasks and of linked pull requests are unique: adding any pull request, reference
-- or tool session to an archived task, removing a reference or a session, refreshing the task,
-- binding it to an issue and updating a pull request, unless the stored one is of another task,
-- leave the tables as they are and answer `ErrNotFound`, but that adding a session without a tool
-- or a session id answers that first. Closing the task again changes nothing and answers the task.
pub archived_task_frozen :
    (env : Env) (to_lower trim_space : String → String) (s : Tables) (id : String) (t : Task)
    (pr : TaskPr) (task : Task) (ref : TaskRef) (link : TaskSession) (item : String)
    (active_only : Bool)
    → Keyed (λ t. t.id) s.tasks
    → Keyed (λ p. p.id) s.prs
    → get_task id s ≡ some t
    → archived t ≡ true
    → let incomplete = to_lower (trim_space link.tool) == "" || trim_space link.session_id == "" in
      (add_task_pr env (record pr { task_id = id }) active_only s ≡ (s, err not_found))
      × ((update_task_pr env pr active_only s ≡ (s, err not_found))
          ⊎ ((stored : TaskPr) × (get_task_pr pr.id s ≡ some stored) × (stored.task_id ≢ id)))
      × (save_task_refresh env (record task { id = id }) active_only s ≡ (s, err not_found))
      × (bind_task_issue env id task.issue_repo task.issue_number task.issue_url task.issue_title
            task.issue_state s
          ≡ (s, err not_found))
      × (add_task_ref env (record ref { task_id = id }) s ≡ (s, err not_found))
      × (remove_task_ref id item s ≡ (s, err not_found))
      × (add_task_session to_lower trim_space env (record link { task_id = id }) s
          ≡ (s, err (if incomplete then failure "tool and session_id are required" else not_found)))
      × (remove_task_session id item s ≡ (s, err not_found))
      × (close_task env id s ≡ (s, ok t))
archived_task_frozen env to_lower trim_space s id t pr task ref link item active_only keyed prs here
      gone =
    (
      add_pr_refused s id t keyed here gone env pr active_only,
      update_pr_refused s id t keyed here gone env pr active_only prs,
      refresh_refused s id t keyed here gone env task active_only,
      bind_refused s id t keyed here gone env task.issue_repo task.issue_number task.issue_url
          task.issue_title task.issue_state,
      add_ref_refused s id t keyed here gone env ref,
      remove_ref_refused s id t keyed here gone item,
      add_session_refused s id t keyed here gone to_lower trim_space env link,
      remove_session_refused s id t keyed here gone item,
      close_again s id t keyed here gone env,
    )
