-- ===== src/Store/Workers.antt =====
-- Review workers, internal/store/workers.go and worker_alerts.go: RegisterWorker, SetWorkerToken,
-- ListWorkers, ListOnlineWorkers, UpdateWorkerGitHub and the alerts of expiring tokens. The JSON of
-- the capabilities is a parameter.
use saturnus.Base.{
  ◌-◌, String, ◌+++◌, Bool, false, not, ◌&&◌, ◌||◌, Option, none, some, List, [], ◌∷◌, ◌++◌, ◌==◌,
  or_text, eqb, leb, ltb, if◌then◌else◌, any, Result, ok, constraint, failure, not_found, commit,
  check, or_fail, affected, find_row, select_rows, count_rows, update_rows, ◌>>=◌, ◌>>◌,
}
use saturnus.Store.Types.{Time, Env, Agent, TokenAlert, Store}
use saturnus.Store.Approvals.{audit}
use saturnus.Store.Sessions.{agent_by, agent_created, get_created_at, upsert_agent}

abbrev pub is_worker : Agent → Bool
is_worker a = a.role == "review-worker"

unfoldable pub get_worker : String → Store → Option Agent
get_worker id s = elim (find_row (λ a. a.id == id) s.agents) [
  | none ↦ none
  | some a ↦ if a.role == "review-worker" then some a else none
]

abbrev pub worker_row : Env → Agent → String → Store → Agent
worker_row env agent capabilities s =
    let id = or_text agent.id ("wrk_" +++ env.new_id 0) in
    record agent {
      id = id;
      role = "review-worker";
      last_seen = env.now;
      capabilities = capabilities;
      type = or_text agent.type "review-worker";
      created_at = get_created_at env.now (agent_created (agent_by id s));
    }

-- The capabilities come encoded; their encoding does not fail.
unfoldable pub register_worker : Env → Agent → String → Store → Store × Result Agent
register_worker env agent capabilities s = commit s do
  let row = worker_row env agent capabilities s
  let t = upsert_agent row s
  stored ← or_fail (agent_by row.id t) not_found
  let answered : Agent = record row { worker_token = stored.worker_token }
  ok (audit env ("worker:" +++ row.id) "worker.register" row.id t, answered)

unfoldable pub set_worker_token : String → String → Store → Store × Result (Unit {0})
set_worker_token id token s = commit s do
  check (not (id == "" || token == "")) (failure "empty worker id or token")
  affected (count_rows (λ a. a.id == id && is_worker a) s.agents)
  let agents =
      update_rows (λ a. a.id == id && is_worker a) (λ a. record a { worker_token = token }) s.agents
  ok (record s { agents = agents }, tt)

-- The order, by the stored text of `last_seen`, is left out.
unfoldable pub list_workers : Store → List Agent
list_workers s = select_rows is_worker s.agents

unfoldable pub worker_online : Time → Time → Agent → Bool
worker_online now window a = not (eqb a.last_seen 0) && ltb (now - a.last_seen) window

-- What the JSON of the capabilities says of GitHub: unreadable, or when the account was checked.
pub record GitHubJson : Type 0 where
  pub checked_at : String → Option (Option Time)
  -- the text with the account's information replaced
  pub with_github : String → String → String

-- whether the account's information was checked no earlier before
abbrev pub not_after : Time → Option Time → Bool
not_after at none = false
not_after at (some t) = leb at t

-- A heartbeat with account information checked at `at`. The write is conditional on the
-- capabilities that were read.
unfoldable pub update_worker_github :
    GitHubJson → String → Option (String × Time) → Store → Store × Result Bool
update_worker_github json id none s = (s, ok false)
update_worker_github json id (some (info, at)) s = commit s do
  agent ← or_fail (get_worker id s) not_found
  known ← or_fail (json.checked_at agent.capabilities) (failure "capabilities")
  let stale = not_after at known
  let p : Agent → Bool = λ a. a.id == id && (is_worker a && a.capabilities == agent.capabilities)
  let agents =
      update_rows p (λ a. record a { capabilities = json.with_github info agent.capabilities })
        s.agents
  ok (if stale then (s, false) else (record s { agents = agents }, eqb (count_rows p s.agents) 1))

abbrev pub alert_of : String → String → TokenAlert → Bool
alert_of worker_id key a = a.worker_id == worker_id && a.alert_key == key

-- the zero time where none was sent
unfoldable pub worker_token_alert_sent_at : String → String → Store → Time
worker_token_alert_sent_at worker_id key s =
    elim (find_row (alert_of worker_id key) s.token_alerts) [ none ↦ 0 | some a ↦ a.sent_at ]

unfoldable pub mark_worker_token_alert_sent :
    String → String → Time → Store → Store × Result (Unit {0})
mark_worker_token_alert_sent worker_id key at s = commit s do
  let alert : TokenAlert = record { worker_id = worker_id; alert_key = key; sent_at = at }
  check (any (λ a. a.id == worker_id) s.agents) constraint
  ok (
    record s {
      token_alerts =
          if any (alert_of worker_id key) s.token_alerts
          then update_rows (alert_of worker_id key) (λ a. record a { sent_at = at }) s.token_alerts
          else s.token_alerts ++ alert ∷ [];
    },
    tt,
  )
