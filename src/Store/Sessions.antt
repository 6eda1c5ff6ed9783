-- ===== src/Store/Sessions.antt =====
-- Agents, their sessions and events, internal/store/store.go: RegisterAgentSession, Heartbeat,
-- ListSessions, GetSession, UpdateAutoPass and AddEvent.
use saturnus.Base.{
  ◌+◌, ◌*◌, String, ◌+++◌, Bool, ◌&&◌, Option, none, some, List, [], ◌∷◌, ◌++◌, ◌==◌, or_text,
  or_number, if◌then◌else◌, any, Result, ok, not_found, commit, or_fail, affected, insert_row,
  find_row, select_rows, count_rows, update_rows, ◌>>=◌, ◌>>◌,
}
use saturnus.Store.Types.{Time, Env, Agent, Session, Event, Store}
use saturnus.Store.Approvals.{audit, session_by, minute}

abbrev pub agent_by : String → Store → Option Agent
agent_by id s = find_row (λ a. a.id == id) s.agents

-- ON CONFLICT(id) DO UPDATE: an empty token leaves the stored one, and the time of creation stays.
abbrev pub merge_agent : Agent → Agent → Agent
merge_agent new a = record new {
  id = a.id;
  worker_token = or_text new.worker_token a.worker_token;
  created_at = a.created_at;
}

-- internal/store/workers.go, upsertAgentTx, and the same statement in RegisterAgentSession
unfoldable pub upsert_agent : Agent → Store → Store
upsert_agent agent s = record s {
  agents =
      if any (λ a. a.id == agent.id) s.agents
      then update_rows (λ a. a.id == agent.id) (merge_agent agent) s.agents
      else s.agents ++ agent ∷ [];
}

-- the stored time of creation, or the zero time, for which the call takes the present
unfoldable pub get_created_at : Time → Option Time → Time
get_created_at now none = now
get_created_at now (some t) = or_number t now

abbrev pub agent_created : Option Agent → Option Time
agent_created none = none
agent_created (some a) = some a.created_at

abbrev pub session_created : Option Session → Option Time
session_created none = none
session_created (some x) = some x.created_at

unfoldable pub fill_agent : Env → Agent → Store → Agent
fill_agent env agent s =
    let id = or_text agent.id ("agt_" +++ env.new_id 0) in
    record agent {
      id = id;
      created_at = get_created_at env.now (agent_created (agent_by id s));
      last_seen = env.now;
      role = or_text agent.role "codex";
    }

-- The random id of the session is the first that is drawn where the agent has one.
unfoldable pub fill_session : Env → Bool → String → Session → Store → Session
fill_session env drawn agent_id session s =
    let id = or_text session.id ("ses_" +++ env.new_id (if drawn then 1 else 0)) in
    record session {
      id = id;
      agent_id = agent_id;
      created_at = get_created_at env.now (session_created (session_by id s));
      status = or_text session.status "active";
      auto_pass_until =
          if session.auto_pass
          then or_number session.auto_pass_until (env.now + 30 * minute)
          else session.auto_pass_until;
      updated_at = env.now;
      last_heartbeat_at = env.now;
    }

unfoldable pub upsert_session : Session → Store → Store
upsert_session session s = record s {
  sessions =
      if any (λ x. x.id == session.id) s.sessions
      then update_rows (λ x. x.id == session.id)
          (λ x. record session { id = x.id; created_at = x.created_at }) s.sessions
      else s.sessions ++ session ∷ [];
}

unfoldable pub register_agent_session : Env → Agent → Session → Store → Store × Agent × Session
register_agent_session env agent session s =
    let a = fill_agent env agent s in
    let x = fill_session env (agent.id == "") a.id session s in
    (
      audit env ("agent:" +++ a.id) "session.register" x.id (upsert_session x (upsert_agent a s)),
      a,
      x,
    )

unfoldable pub heartbeat : Env → String → Store → Store × Result (Unit {0})
heartbeat env agent_id s = commit s do
  affected (count_rows (λ a. a.id == agent_id) s.agents)
  ok (
    record s {
      agents = update_rows (λ a. a.id == agent_id) (λ a. record a { last_seen = env.now }) s.agents;
      sessions =
          update_rows (λ x. x.agent_id == agent_id && x.status == "active")
            (λ x. record x { last_heartbeat_at = env.now; updated_at = env.now }) s.sessions;
    },
    tt,
  )

-- The order, by the stored text of `updated_at`, is left out.
unfoldable pub list_sessions : Store → List Session
list_sessions s = s.sessions

-- The order of the events, by the stored text of `created_at`, is left out.
unfoldable pub get_session : String → Store → Result (Session × List Event)
get_session id s = do
  session ← or_fail (session_by id s) not_found
  ok (session, select_rows (λ e. e.session_id == id) s.events)

-- UPDATE sessions SET f WHERE id
abbrev pub set_session : String → (Session → Session) → Store → Store
set_session id f s = record s { sessions = update_rows (λ x. x.id == id) f s.sessions }

unfoldable pub update_auto_pass :
    Env → String → Bool → Time → String → String → Store → Store × Result Session
update_auto_pass env id enabled ttl scope actor s = commit s do
  session ← or_fail (session_by id s) not_found
  let until = if enabled then env.now + ttl else 0
  let change : Session → Session = λ x. record x {
    auto_pass = enabled;
    auto_pass_until = until;
    auto_pass_scope = scope;
    updated_at = env.now;
  }
  ok (audit env actor "session.autopass" id (set_session session.id change s), change session)

unfoldable pub fill_event : Env → Event → Event
fill_event env event = record event {
  id = or_text event.id ("evt_" +++ env.new_id 0);
  created_at = or_number event.created_at env.now;
  payload = or_text event.payload "{}";
}

unfoldable pub add_event : Env → Event → Store → Store × Result Event
add_event env event s = commit s do
  session ← or_fail (session_by event.session_id s) not_found
  let filled = fill_event env event
  events ← insert_row (λ e. e.id == filled.id) filled s.events
  let status = if filled.type == "stop" then "stopped" else session.status
  ok (
    audit env ("agent:" +++ session.agent_id) "event.add" filled.id (
        set_session session.id (λ x. record x { status = status; updated_at = filled.created_at })
          (record s { events = events })),
    filled,
  )
