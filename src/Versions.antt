-- ===== src/Versions.antt =====
-- The limits of packages/cli/src/versions.ts that the store uses.
use agentis.Prelude.{ℕ}
use agentis.Prelude.{◌*◌}
use Prim.Native.String.{String}

abbrev pub run_deadline_ms : ℕ
run_deadline_ms = 15 * 60 * 1000

abbrev pub max_active_runs : ℕ
max_active_runs = 2

abbrev pub max_active_runs_per_bot : ℕ
max_active_runs_per_bot = 1

abbrev pub max_actions_per_run : ℕ
max_actions_per_run = 20

abbrev pub max_actions_per_task : ℕ
max_actions_per_task = 40

abbrev pub approval_ttl_ms : ℕ
approval_ttl_ms = 5 * 60 * 1000

abbrev pub browser_bootstrap_ttl_ms : ℕ
browser_bootstrap_ttl_ms = 60 * 1000

abbrev pub browser_session_ttl_ms : ℕ
browser_session_ttl_ms = 60 * 60 * 1000

abbrev pub event_replay_limit : ℕ
event_replay_limit = 128

abbrev pub event_subscriber_queue_limit : ℕ
event_subscriber_queue_limit = 32

abbrev pub codex_cli_pin : String
codex_cli_pin = "0.153.4"

abbrev pub claude_cli_pin : String
claude_cli_pin = "2.1.263"

abbrev pub codex_transport : String
codex_transport = "app-server-v2-jsonl-stdio"

abbrev pub codex_auth_mode : String
codex_auth_mode = "chatgpt-login"
