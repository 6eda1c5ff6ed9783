-- ===== src/WorkerMonitor/Reminders.antt =====
-- How often the monitor reminds of one credential of one worker.
use saturnus.Base.{
  ltb, ℕ, ◌+◌, ◌-◌, ◌≤◌, ◌<◌, ◌≡◌, refl, sym, ap, ◌∙◌, subst, ◌⊎◌, inl, inr, arith, String, Bool,
  true, false, not, ◌&&◌, ◌||◌, ◌==◌, Option, none, some, List, [], ◌∷◌, ◌++◌, eqb, leb, Bool-cases,
  Option-cases, any, find_row, select_rows, count_rows, update_rows, eq_refl, eq_iff, and_left,
  and_right, All, find-append_some, find-append_none, find_some-any, All-map,
}
use saturnus.Store.Types.{Time, Agent, TokenAlert, Store}
use saturnus.Store.Workers.{
  is_worker, alert_of, list_workers, worker_token_alert_sent_at, mark_worker_token_alert_sent,
}
use saturnus.ReviewWorker.{Info}
use saturnus.WorkerMonitor.{
  notice, warning_window, Monitor, Account, Message, repeat_after, reminder, is_recent, remind,
  check_loop, check_tokens, message_of,
}

abbrev worker_in : String → Option Message → String
worker_in d none = d
worker_in d (some m) = m.worker_id

-- the time of a row that is found
abbrev sent_in : Option TokenAlert → Time
sent_in none = 0
sent_in (some a) = a.sent_at

module _ (w k : String) where
  sent_lem :
      (s : Store)
      → worker_token_alert_sent_at w k s ≡ sent_in (find_row (alert_of w k) s.token_alerts)
  unfolding worker_token_alert_sent_at
  sent_lem s = elim (Option-cases (find_row (alert_of w k) s.token_alerts)) [
    | inl e ↦ rw (worker_token_alert_sent_at, e) refl
    | inr (a, e) ↦ rw (worker_token_alert_sent_at, e) refl
  ]

  abbrev stamp : Time → TokenAlert → TokenAlert
  stamp t a = record a { sent_at = t }

  stamped :
      (t : Time) (rows : List TokenAlert)
      → any (alert_of w k) rows ≡ true
      → sent_in (find_row (alert_of w k) (update_rows (alert_of w k) (stamp t) rows)) ≡ t
  stamped t [] h = absurd (cc h)
  stamped t (x ∷ xs) h = elim (Bool-cases (alert_of w k x)) [
    | inl e ↦ rw (e, e) refl
    | inr e ↦ rw (e, e) (stamped t xs (rw e at h))
  ]

  stamped_other :
      (v j : String) (t : Time) (rows : List TokenAlert)
      → (v == w && j == k) ≡ false
      → find_row (alert_of w k) (update_rows (alert_of v j) (stamp t) rows)
        ≡ find_row (alert_of w k) rows
  stamped_other v j t [] n = refl
  stamped_other v j t (x ∷ xs) n = ground (
    arith,
    stamped_other v j t xs n,
    eq_iff x.worker_id v,
    eq_iff x.worker_id w,
    eq_iff v w,
    eq_iff x.alert_key j,
    eq_iff x.alert_key k,
    eq_iff j k,
  )

  abbrev row : String → String → Time → TokenAlert
  row v j t = record { worker_id = v; alert_key = j; sent_at = t }

  unfound :
      (s : Store)
      → any (alert_of w k) s.token_alerts ≡ false
      → find_row (alert_of w k) s.token_alerts ≡ none
  unfound s h = elim (Option-cases (find_row (alert_of w k) s.token_alerts)) [
    | inl e ↦ e
    | inr (a, e) ↦ absurd (cc (h, find_some-any (alert_of w k) s.token_alerts a e))
  ]

  appended_other :
      (v j : String) (t : Time) (rows : List TokenAlert)
      → (v == w && j == k) ≡ false
      → find_row (alert_of w k) (rows ++ row v j t ∷ []) ≡ find_row (alert_of w k) rows
  appended_other v j t rows n = elim (Option-cases (find_row (alert_of w k) rows)) [
    | inl e ↦ find-append_none (alert_of w k) rows (row v j t) e ∙ rw (n, e) refl
    | inr (a, e) ↦ find-append_some (alert_of w k) rows (row v j t) a e ∙ sym e
  ]

  appended :
      (t : Time) (s : Store)
      → any (alert_of w k) s.token_alerts ≡ false
      → sent_in (find_row (alert_of w k) (s.token_alerts ++ row w k t ∷ [])) ≡ t
  appended t s h =
      rw
        (
          find-append_none (alert_of w k) s.token_alerts (row w k t) (unfound s h),
          eq_refl w,
          eq_refl k,
        )
        refl

  marked_self :
      (t : Time) (s : Store)
      → any (λ a. a.id == w) s.agents ≡ true
      → worker_token_alert_sent_at w k (mark_worker_token_alert_sent w k t s).0 ≡ t
  unfolding mark_worker_token_alert_sent
  marked_self t s known =
      sent_lem (mark_worker_token_alert_sent w k t s).0
      ∙ elim (Bool-cases (any (alert_of w k) s.token_alerts)) [
        | inl e ↦ rw (known, e) (stamped t s.token_alerts e)
        | inr e ↦ rw (known, e) (appended t s e)
      ]

  marked_find :
      (v j : String) (t : Time) (s : Store)
      → (v == w && j == k) ≡ false
      → find_row (alert_of w k) (mark_worker_token_alert_sent v j t s).0.token_alerts
        ≡ find_row (alert_of w k) s.token_alerts
  unfolding mark_worker_token_alert_sent
  marked_find v j t s n = elim (Bool-cases (any (λ a. a.id == v) s.agents)) [
    | inr e ↦ rw e refl
    | inl e ↦ elim (Bool-cases (any (alert_of v j) s.token_alerts)) [
      | inl f ↦ rw (e, f) (stamped_other v j t s.token_alerts n)
      | inr f ↦ rw (e, f) (appended_other v j t s.token_alerts n)
    ]
  ]

  marked_other :
      (v j : String) (t : Time) (s : Store)
      → (v == w && j == k) ≡ false
      → worker_token_alert_sent_at w k (mark_worker_token_alert_sent v j t s).0
        ≡ worker_token_alert_sent_at w k s
  marked_other v j t s n =
      sent_lem (mark_worker_token_alert_sent v j t s).0
      ∙ rw (marked_find v j t s n) (sym (sent_lem s))

registered : (agents : List Agent) → All (λ x. any (λ a. a.id == x.id) agents ≡ true) agents
registered [] = tt
registered (x ∷ xs) =
    (rw (eq_refl x.id) refl, All-map _ _ xs (λ y r. ground (arith, r)) (registered xs))

select-All :
    (P : Agent → Type 0) (p : Agent → Bool) (xs : List Agent) → All P xs → All P (select_rows p xs)
select-All P p [] h = tt
select-All P p (x ∷ xs) h = elim (Bool-cases (p x)) [
  | inl e ↦ rw e (h.0, select-All P p xs h.1)
  | inr e ↦ rw e (select-All P p xs h.1)
]

registered_workers :
    (agents : List Agent)
    → All (λ x. any (λ a. a.id == x.id) agents ≡ true) (select_rows is_worker agents)
registered_workers agents =
    select-All (λ x. any (λ a. a.id == x.id) agents ≡ true) is_worker agents (registered agents)

marked_agents :
    (v j : String) (t : Time) (s : Store)
    → (mark_worker_token_alert_sent v j t s).0.agents ≡ s.agents
unfolding mark_worker_token_alert_sent
marked_agents v j t s = elim (Bool-cases (any (λ a. a.id == v) s.agents)) [
  | inr e ↦ rw e refl
  | inl e ↦ rw e refl
]

module _ (account : String → Option Account) (time_text : Time → String) (delivers : Message → Bool)
    (monitor : Monitor) where
  -- The checks one after the other, each at its time and with the agents that there are then.
  abbrev pub all_sent : List (Time × List Agent) → Store → List Message
  all_sent [] s = []
  all_sent ((now, agents) ∷ later) s =
      let (t, sent, e) =
        check_tokens account time_text delivers monitor now (record s { agents = agents }) in
      sent ++ all_sent later t

-- Of two times of one day the later is not long after the earlier.
recent_lem :
    (first now last : Time)
    → 1 ≤ first
    → (first ≤ last) × (last < first + repeat_after)
    → (first ≤ now) × (now < first + repeat_after)
    → (not (eqb last 0) && ltb (now - last) repeat_after) ≡ true
recent_lem first now last set a b = ground (arith, a.0, a.1, b.0, b.1, set)

module _ (w k : String) where
  -- the messages for the credential
  abbrev pub messages_for : List Message → ℕ
  messages_for = count_rows (λ m. m.worker_id == w && m.key == k)

  messages_for-append :
      (xs ys : List Message) → messages_for (xs ++ ys) ≡ messages_for xs + messages_for ys
  messages_for-append [] ys = omega arith
  messages_for-append (x ∷ xs) ys = ground (arith, messages_for-append xs ys)

  module _ (first : Time) (set : 1 ≤ first) where
    abbrev Within : Time → Type 0
    Within t = (first ≤ t) × (t < first + repeat_after)

    abbrev Marked : Store → Type 0
    Marked s = Within (worker_token_alert_sent_at w k s)

    -- Sending leaves a mark, which stays and keeps from sending.
    abbrev Once : Store → List Message → Store → Type 0
    Once s sent t =
        (Marked s → Marked t × (messages_for sent ≡ 0))
        × ((messages_for sent ≡ 0) ⊎ (Marked t × (messages_for sent ≤ 1)))

    Once-append :
        (s t u : Store) (xs ys : List Message) → Once s xs t → Once t ys u → Once s (xs ++ ys) u
    Once-append s t u xs ys (a, b) (c, d) = (
      (λ p.
          let (q, x) = a p in
          let (r, y) = c q in (r, omega (arith, messages_for-append xs ys, x, y))),
      elim b [
        | inl x ↦ elim d [
          | inl y ↦ inl (omega (arith, messages_for-append xs ys, x, y))
          | inr (r, y) ↦ inr (r, omega (arith, messages_for-append xs ys, x, y))
        ]
        | inr (q, x) ↦ let (r, y) = c q in inr (r, omega (arith, messages_for-append xs ys, x, y))
      ],
    )

    module _ (account : String → Option Account) (time_text : Time → String)
        (delivers : Message → Bool) (monitor : Monitor) where
      sent-Once :
          (now : Time) (m : Message) (s : Store)
          → Within now
          → any (λ a. a.id == m.worker_id) s.agents ≡ true
          → is_recent now m.worker_id m.key s ≡ false
          → Once s (m ∷ []) (mark_worker_token_alert_sent m.worker_id m.key now s).0
      sent-Once now m s at known old = elim (Bool-cases (m.worker_id == w && m.key == k)) [
        | inl e ↦
            let same_worker : m.worker_id ≡ w =
              (eq_iff m.worker_id w).0 (and_left (m.worker_id == w) (m.key == k) e) in
            let same_key : m.key ≡ k =
              (eq_iff m.key k).0 (and_right (m.worker_id == w) (m.key == k) e) in
            let t = (mark_worker_token_alert_sent m.worker_id m.key now s).0 in
            let self : worker_token_alert_sent_at w k t ≡ now =
              subst (λ v. worker_token_alert_sent_at v k t ≡ now) same_worker
                (subst (λ j. worker_token_alert_sent_at m.worker_id j t ≡ now) same_key
                  (marked_self m.worker_id m.key now s known)) in
            let last : worker_token_alert_sent_at m.worker_id m.key s
                ≡ worker_token_alert_sent_at w k s =
              ap (λ v. worker_token_alert_sent_at v m.key s) same_worker
              ∙ ap (λ j. worker_token_alert_sent_at w j s) same_key in
            (
              (λ p. absurd (cc (old, last, recent_lem first now _ set p at))),
              inr (rw self at, rw e (omega arith)),
            )
        | inr e ↦
            let kept = marked_other w k m.worker_id m.key now s e in
            ((λ p. (rw kept p, rw e refl)), inl (rw e refl))
      ]

      remind-Once :
          (now : Time) (m : Message) (s : Store)
          → Within now
          → any (λ a. a.id == m.worker_id) s.agents ≡ true
          → let (t, sent, e) = remind account time_text delivers monitor now m s in
            Once s sent t × (t.agents ≡ s.agents)
      unfolding remind
      remind-Once now m s at known = elim (Bool-cases (is_recent now m.worker_id m.key s)) [
        | inl e ↦ rw e (((λ p. (p, refl)), inl refl), refl)
        | inr old ↦ elim (Bool-cases (not monitor.sender_enabled || m.receive_id == "")) [
          | inl e ↦ rw (old, e) (((λ p. (p, refl)), inl refl), refl)
          | inr able ↦ elim (Bool-cases (delivers m)) [
            | inr e ↦ rw (old, able, e) (((λ p. (p, refl)), inl refl), refl)
            | inl e ↦
                rw (old, able, e)
                  (sent-Once now m s at known old, marked_agents m.worker_id m.key now s)
          ]
        ]
      ]

      notice-worker :
          (now : Time) (x : Agent) (info : Info) (kind : String) (expiry : Option Time)
          (m : Message)
          → notice account time_text delivers monitor now x info kind expiry ≡ some m
          → m.worker_id ≡ x.id
      unfolding notice message_of
      notice-worker now x info kind none m h = absurd (cc h)
      notice-worker now x info kind (some at) m h =
          elim (Bool-cases (eqb at 0 || leb warning_window (at - now))) [
            | inl e ↦ absurd (cc (h, e))
            | inr e ↦ sym (ap (worker_in x.id) (rw e at h))
          ]

      reminder-worker :
          (now : Time) (x : Agent) (m : Message)
          → reminder account time_text delivers monitor now x ≡ some m
          → m.worker_id ≡ x.id
      unfolding reminder message_of
      reminder-worker now x m h = elim (Option-cases (account x.capabilities)) [
        | inl e ↦ absurd (cc (rw (reminder, e) at h))
        | inr (a, e) ↦ elim (Option-cases a.github) [
          | inl f ↦ absurd (cc (rw (reminder, e, f) at h))
          | inr (info, f) ↦ elim (Bool-cases a.gh) [
            | inr g ↦ absurd (cc (rw (reminder, e, f, g) at h))
            | inl g ↦ elim (Bool-cases info.refreshable) [
              | inl r ↦
                  notice-worker now x info "refresh token" info.refresh_token_expires_at m
                    (rw (reminder, e, f, g, r) at h)
              | inr r ↦
                  notice-worker now x info "access token" info.token_expires_at m
                    (rw (reminder, e, f, g, r) at h)
            ]
          ]
        ]
      ]

      abbrev Registered : Store → Agent → Type 0
      Registered s x = any (λ a. a.id == x.id) s.agents ≡ true

      loop-Once :
          (now : Time) (workers : List Agent) (s : Store)
          → Within now
          → All (Registered s) workers
          → let (t, sent, e) = check_loop account time_text delivers monitor now workers s in
            Once s sent t
      unfolding check_loop
      loop-Once now [] s at known = ((λ p. (p, refl)), inl refl)
      loop-Once now (x ∷ xs) s at known =
          elim (Option-cases (reminder account time_text delivers monitor now x)) [
            | inl e ↦ rw (check_loop, e) (loop-Once now xs s at known.1)
            | inr (m, e) ↦
                let t = (remind account time_text delivers monitor now m s).0 in
                let named = reminder-worker now x m e in
                let (once, same) =
                  remind-Once now m s at
                    (subst (λ i. any (λ a. a.id == i) s.agents ≡ true) (sym named) known.0) in
                let rest : All (Registered t) xs =
                  All-map _ _ xs
                    (λ y r. subst (λ agents. any (λ a. a.id == y.id) agents ≡ true) (sym same) r)
                    known.1 in
                rw (check_loop, e) (Once-append s t _ _ _ once (loop-Once now xs t at rest))
          ]

      check-Once :
          (now : Time) (s : Store)
          → Within now
          → let (t, sent, e) = check_tokens account time_text delivers monitor now s in
            Once s sent t
      unfolding check_tokens list_workers
      check-Once now s at = loop-Once now (list_workers s) s at (registered_workers s.agents)

      all_sent-once :
          (cs : List (Time × List Agent)) (s : Store)
          → All (λ c. Within c.0) cs
          → (Marked s → messages_for (all_sent account time_text delivers monitor cs s) ≡ 0)
            × (messages_for (all_sent account time_text delivers monitor cs s) ≤ 1)
      unfolding worker_token_alert_sent_at
      all_sent-once [] s h = ((λ p. refl), omega arith)
      all_sent-once ((now, agents) ∷ later) s h =
          let (t, sent, e) =
            check_tokens account time_text delivers monitor now (record s { agents = agents }) in
          let (a, b) = check-Once now (record s { agents = agents }) h.0 in
          let (quiet, most) = all_sent-once later t h.1 in
          let split =
            messages_for-append sent (all_sent account time_text delivers monitor later t) in
          (
            (λ p. let (q, x) = a p in omega (arith, split, x, quiet q)),
            elim b [
              | inl x ↦ omega (arith, split, x, most)
              | inr (q, x) ↦ omega (arith, split, x, quiet q)
            ],
          )

-- In any sequence of checks whose times lie within one day, the first not being the zero time,
-- whatever agents are registered at each, at most one message is sent for a worker and a key, that
-- is for a credential, its expiry and whether it has expired.
pub one_reminder_a_day :
    (account : String → Option Account) (time_text : Time → String) (delivers : Message → Bool)
    (monitor : Monitor) (w k : String) (first : Time) (cs : List (Time × List Agent)) (s : Store)
    → 1 ≤ first
    → All (λ c. (first ≤ c.0) × (c.0 < first + repeat_after)) cs
    → messages_for w k (all_sent account time_text delivers monitor cs s) ≤ 1
one_reminder_a_day account time_text delivers monitor w k first cs s set h =
    (all_sent-once w k first set account time_text delivers monitor cs s h).1
