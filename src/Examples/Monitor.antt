-- ===== src/Examples/Monitor.antt =====
-- The reminders of a credential that expires, on concrete rows.
use saturnus.Base.{Bool, ◌≤◌, String, true, none, some, List, [], ◌∷◌, Option, arith, ◌≡◌, refl}
use saturnus.Store.Types.{Time, Agent, empty_store}
use saturnus.Store.Workers.{list_workers, worker_token_alert_sent_at, mark_worker_token_alert_sent}
use saturnus.WorkerMonitor.{
  Monitor, Account, check_tokens, check_loop, reminder, notice, message_of, remind,
}
use saturnus.WorkerMonitor.Reminders.{messages_for, all_sent, one_reminder_a_day}

abbrev monitor : Monitor
monitor = record { reviewer_open_id = "ou_boss"; reviewer_chat_id = ""; sender_enabled = true }

abbrev account : String → Option Account
account json = some (record {
  gh = true;
  github = some (record {
    version = "2";
    host = "github.com";
    checked_at = 1;
    auth_status = "ok";
    expiry_status = "known";
    token_expires_at = some 2000;
    refreshable = Bool.false;
    refresh_token_expires_at = none;
    expiry_source = "header";
  });
})

abbrev worker : Agent
worker = record {
  id = "wrk_1";
  name = "one";
  type = "review-worker";
  host = "h1";
  version = "1";
  role = "review-worker";
  capabilities = "{}";
  worker_token = "";
  last_seen = 0;
  created_at = 0;
}

-- two checks before the credential expires
abbrev checks : List (Time × List Agent)
checks = (1000, worker ∷ []) ∷ (1500, worker ∷ []) ∷ []

one_reminder_a_day_example :
    messages_for "wrk_1" "github.com|access token|t|expiring"
      (all_sent account (λ t. "t") (λ m. true) monitor checks empty_store)
    ≤ 1
one_reminder_a_day_example =
    one_reminder_a_day account (λ t. "t") (λ m. true) monitor "wrk_1"
      "github.com|access token|t|expiring" 1000 checks empty_store (omega arith)
      ((omega arith, omega arith), ((omega arith, omega arith), tt))

-- The first check sends the reminder, the second does not repeat it.
reminds_once :
    messages_for "wrk_1" "github.com|access token|t|expiring" (
      all_sent account
        (λ t. "t")
        (λ m. true)
        monitor
        checks
        (record empty_store { agents = worker ∷ [] }))
    ≡ 1
unfolding check_tokens check_loop reminder notice message_of remind list_workers
    worker_token_alert_sent_at mark_worker_token_alert_sent
reminds_once = refl
