-- ===== src/Profile.antt =====
-- packages/cli/src/provider-profile.ts: the configuration that is frozen into a run.
use Prim.Native.String.{String}
use agentis.Prelude.{ℕ, List, [], ◌∷◌, Option, some, none, or_else}
use agentis.Schema.{Bot, Role, Mode, ProviderKind, ExecutionBoundary, FrozenConfig}
use agentis.Versions.{
  claude_cli_pin, codex_auth_mode, codex_cli_pin, codex_transport, max_actions_per_run,
  run_deadline_ms,
}

pub record ProviderProfile : Type 0 where
  pub model : String
  pub auth_mode : String
  pub transport : String
  pub executable_version : String
  pub effort : Option String

-- PROFILES.
abbrev pub provider_profile : ProviderKind → ProviderProfile
provider_profile ProviderKind.codex = record {
  model = "gpt-5.6-sol";
  auth_mode = codex_auth_mode;
  transport = codex_transport;
  executable_version = codex_cli_pin;
  effort = some "medium";
}
provider_profile ProviderKind.claude = record {
  model = "claude-sonnet-5";
  auth_mode = "api-key";
  transport = "claude-sdk-jsonl-stdio";
  executable_version = claude_cli_pin;
  effort = some "medium";
}
provider_profile ProviderKind.fake = record {
  model = "fake";
  auth_mode = "none";
  transport = "fake-in-process";
  executable_version = "fake-1";
  effort = none;
}

-- LOCATIONS.
abbrev pub execution_location : ExecutionBoundary → String
execution_location ExecutionBoundary.docker_fixture_container = "isolated fixture container"
execution_location ExecutionBoundary.docker_desktop_run_container = "local provider container"
execution_location ExecutionBoundary.unverified_host_scratch = "local daemon scratch"

-- BOTS, its two fields apart.
abbrev pub bot_role : Bot → Role
bot_role Bot.mara = Role.coordinator
bot_role Bot.ivo = Role.specialist

abbrev pub bot_skills : Bot → List String
bot_skills Bot.mara = "coordinate" ∷ "business-brief" ∷ []
bot_skills Bot.ivo = "specialist-draft" ∷ []

pub record FrozenInput : Type 0 where
  pub bot : Bot
  pub provider : ProviderKind
  pub execution_boundary : ExecutionBoundary
  pub workspace_id : String
  pub mode : Option Mode
  pub deadline_ms : Option ℕ
  pub action_budget : Option ℕ

abbrev pub frozen_config : FrozenInput → FrozenConfig
frozen_config input = record {
  bot = input.bot;
  role = bot_role input.bot;
  mode = or_else input.mode Mode.agent;
  provider = input.provider;
  transport = profile.transport;
  executable_version = profile.executable_version;
  model = profile.model;
  effort = profile.effort;
  skills = bot_skills input.bot;
  grants = "read:provided-source" ∷ "write:task-artifact" ∷ [];
  public_config = ("sourceMode", "materialized-read-only") ∷ [];
  execution_boundary = input.execution_boundary;
  execution_location = execution_location input.execution_boundary;
  auth_mode = profile.auth_mode;
  workspace_id = input.workspace_id;
  deadline_ms = or_else input.deadline_ms run_deadline_ms;
  action_budget = or_else input.action_budget max_actions_per_run;
}
  where
    profile : ProviderProfile
    profile = provider_profile input.provider
