-- ===== src/WorkerMonitor.antt =====
-- Reminders of worker credentials that expire, internal/workermonitor/monitor.go. A check holds the
-- monitor's mutex and is one step. The JSON of capabilities, the text of a time and whether Lark
-- takes a message are parameters; the wording of messages and log lines are left out.
pub mod Reminders
use saturnus.Base.{
  ℕ, ◌*◌, ◌-◌, String, ◌+++◌, Bool, true, false, not, ◌&&◌, ◌||◌, Option, none, some, List, [], ◌∷◌,
  ◌++◌, ◌==◌, eqb, leb, ltb, if◌then◌else◌, Result, ok, err, Error, failure,
}
use saturnus.Store.Types.{Time, Agent, Store}
use saturnus.Store.Approvals.{minute}
use saturnus.Store.Workers.{list_workers, worker_token_alert_sent_at, mark_worker_token_alert_sent}
use saturnus.ReviewWorker.{Info}

abbrev pub repeat_after : Time
repeat_after = 24 * 60 * minute

abbrev pub warning_window : Time
warning_window = 7 * repeat_after

pub record Monitor : Type 0 where
  pub reviewer_open_id : String
  pub reviewer_chat_id : String
  -- whether there is a sender that is enabled
  pub sender_enabled : Bool

-- what the JSON of capabilities says of the account
pub record Account : Type 0 where
  pub gh : Bool
  pub github : Option Info

pub record Message : Type 0 where
  pub receive_id_type : String
  pub receive_id : String
  pub worker_id : String
  pub key : String
  pub credential : String
  pub expiry : Time
  pub phase : String

abbrev pub is_recent : Time → String → String → Store → Bool
is_recent now worker_id key s =
    let last = worker_token_alert_sent_at worker_id key s in
    not (eqb last 0) && ltb (now - last) repeat_after

module _ (account : String → Option Account) (time_text : Time → String) (delivers : Message → Bool)
    (monitor : Monitor) where
  unfoldable pub message_of : Time → Agent → Info → String → Time → Message
  message_of now agent info kind at =
      let phase = if leb at now then "expired" else "expiring" in
      let by_chat = monitor.reviewer_open_id == "" in
      record {
        receive_id_type = if by_chat then "chat_id" else "open_id";
        receive_id = if by_chat then monitor.reviewer_chat_id else monitor.reviewer_open_id;
        worker_id = agent.id;
        key = info.host +++ "|" +++ kind +++ "|" +++ time_text at +++ "|" +++ phase;
        credential = kind;
        expiry = at;
        phase = phase;
      }

  -- none where the expiry is not known, or not within the window
  unfoldable pub notice : Time → Agent → Info → String → Option Time → Option Message
  notice now agent info kind none = none
  notice now agent info kind (some at) =
      if eqb at 0 || leb warning_window (at - now)
      then none
      else some (message_of now agent info kind at)

  unfoldable pub reminder : Time → Agent → Option Message
  unfolding notice
  reminder now agent = elim (account agent.capabilities) [
    | none ↦ none
    | some a ↦ elim a.github [
      | none ↦ none
      | some info ↦
          let found =
            if info.refreshable
            then notice now agent info "refresh token" info.refresh_token_expires_at
            else notice now agent info "access token" info.token_expires_at in
          if a.gh then found else none
    ]
  ]

  error_of : Result (Unit {0}) → Option Error
  error_of (ok u) = none
  error_of (err e) = some e

  -- The store after it, the messages sent, and the first error.
  unfoldable pub remind : Time → Message → Store → Store × List Message × Option Error
  unfolding error_of
  remind now m s =
      let (t, marked) = mark_worker_token_alert_sent m.worker_id m.key now s in
      if is_recent now m.worker_id m.key s
      then (s, [], none)
      else if not monitor.sender_enabled || m.receive_id == ""
      then (s, [], none)
      else if delivers m
      then (t, m ∷ [], error_of marked)
      else (s, [], some (failure "notify reviewer"))

  abbrev pub first_error : Option Error → Option Error → Option Error
  first_error none f = f
  first_error (some e) f = some e

  unfoldable pub check_loop : Time → List Agent → Store → Store × List Message × Option Error
  check_loop now [] s = (s, [], none)
  check_loop now (a ∷ workers) s = elim (reminder now a) [
    | none ↦ check_loop now workers s
    | some m ↦
        let (t, sent, e) = remind now m s in
        let (u, rest, f) = check_loop now workers t in (u, sent ++ rest, first_error e f)
  ]

  unfoldable pub check_tokens : Time → Store → Store × List Message × Option Error
  check_tokens now s = check_loop now (list_workers s) s
