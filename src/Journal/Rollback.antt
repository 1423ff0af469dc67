-- ===== src/Journal/Rollback.antt =====
-- What a failed call of `applyCommand` of packages/cli/src/store.ts leaves: ROLLBACK, and `rmSync` of `stagedPaths`.
use text.Mathlib.Text.{◌==◌ as str_eq}
use agentis.Schema.{CommandReceipt}
use agentis.Commands.Submit.{Staged}
use agentis.Commands.Dispatch.{Store}
use agentis.Prelude.{◌==◌, ok, err, Result, any_by, Bool, String, ◌≡◌, false}

abbrev File : Type 0
File = String × String

-- A file at the path of a staged one.
abbrev is_staged : Staged → File → Bool
is_staged staged f = any_by (λ g. str_eq f.0 g.0) staged

-- Of a call that throws.
abbrev Undone : (File → Bool) → Store → Store × Result CommandReceipt → Type 0
Undone q s (s', ok receipt) = Unit {0}
Undone q s (s', err e) = (s'.db ≡ s.db) × (any_by q s'.files ≡ false)
