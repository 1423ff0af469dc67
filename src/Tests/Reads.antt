-- ===== src/Tests/Reads.antt =====
-- The theorems on verified reads, on what the owner is asked and on browser sessions.
use Prim.Native.String.{String}
use text.Mathlib.Text.{◌==◌ as str_eq}
use agentis.Prompt.Questions.{public_pending_prompt_total, IsAskable}
use agentis.Browser.Bootstrap.{exchange_bootstrap-browser_session, exchange_bootstrap_once}
use agentis.VerifiedFile.Reads.{read_verified_file_sound, read_verified_file_complete, Serves}
use agentis.Browser.Setup.{SetUp, acknowledge_setup_lem, acknowledge_setup_again}
use agentis.Browser.{
  acknowledge, acknowledge_setup, add_sources, ExchangeInput, browser_session, new_session,
  exchange_bootstrap,
}
use agentis.Prompt.{
  plain_question, structured_prompt, public_pending_prompt, PendingQuestion, is_empty,
}
use agentis.VerifiedFile.{
  read_all, read_opened, read_placed, OpenFile, read_verified_file, within, VerifiedFile,
}
use agentis.Prelude.{
  sym, ℕ, ◌≡◌, ◌<◌, refl, arith, List, [], ◌∷◌, some, none, true, false, ok, length, ◌||◌, All, ap,
  if◌then◌else◌, ◌==◌, length-append,
}
use agentis.Schema.{SourceKind, BrowserSessionRow, Ident, ProviderKind}
use agentis.StoreDb.{emit, Db, empty_db}
use agentis.Tests.{test_env, test_fs}

abbrev small_file : OpenFile
small_file = record { is_file = true; size = 1; read = λ o r. some (7 ∷ []) }

abbrev recorded : VerifiedFile
recorded = record { path = "root/draft.md"; root = "root"; byte_size = 1; sha256 = 5 }

small_file-Serves : Serves small_file (7 ∷ [])
small_file-Serves [] after requested e p q = (7, [], [], refl, sym e)
small_file-Serves (x ∷ before) after requested e p q =
    absurd (omega (arith, ap length e, length-append before after))

recorded_read : read_verified_file test_fs recorded ≡ some (7 ∷ [])
unfolding read_verified_file read_placed read_opened read_all within
recorded_read = refl

inside : (within test_fs "root" "root" || str_eq "root" "root") ≡ true
unfolding within
inside = refl

branch_nonempty : is_empty "Which branch?" ≡ false
unfolding is_empty
branch_nonempty = refl

read_verified_file_sound_example :
    (length {A = ℕ} (7 ∷ []) ≡ 1)
    × (test_fs.sha256 (7 ∷ []) ≡ recorded.sha256)
    × ((root : String) × (parent : String) × (some "root" ≡ some root)
        × (some "root" ≡ some parent)
        × ((within test_fs root parent || str_eq parent root) ≡ true))
read_verified_file_sound_example = read_verified_file_sound test_fs recorded (7 ∷ []) recorded_read

read_verified_file_complete_example : read_verified_file test_fs recorded ≡ some (7 ∷ [])
read_verified_file_complete_example =
    read_verified_file_complete test_fs recorded small_file (7 ∷ []) "root" "root" refl refl inside
      (omega arith) refl refl refl refl refl small_file-Serves

public_pending_prompt_total_example :
    (qs : List PendingQuestion) × (public_pending_prompt (λ t. none) true (some "Which branch?")
      ≡ some qs)
    × All IsAskable qs
    × (0 < length qs)
public_pending_prompt_total_example =
    public_pending_prompt_total (λ t. none) "Which branch?" branch_nonempty

branch_asked :
    public_pending_prompt (λ t. none) true (some "Which branch?")
    ≡ some (plain_question "Which branch?" ∷ [])
unfolding public_pending_prompt is_empty structured_prompt
branch_asked = refl

abbrev exchange : ExchangeInput
exchange = record {
  code_hash = 5;
  token_hash = 6;
  csrf_hash = 7;
  provider = ProviderKind.codex;
  now_ms = 10;
  expires_at = 100;
}

abbrev issued : Db
issued = record empty_db {
  bootstraps =
      record { code_hash = 5; owner_session = 500; expires_at = 20; consumed_at = none } ∷ [];
}

abbrev exchanged : Db
exchanged = record empty_db {
  bootstraps =
      record { code_hash = 5; owner_session = 500; expires_at = 20; consumed_at = some 10 } ∷ [];
  sessions = new_session exchange 500 ∷ [];
}

exchanged_ok : exchange_bootstrap exchange issued ≡ ok (true, exchanged)
unfolding exchange_bootstrap
exchanged_ok = refl

exchange_bootstrap_once_example :
    exchange_bootstrap (record exchange { now_ms = 11; token_hash = 8 }) exchanged
    ≡ ok (false, exchanged)
exchange_bootstrap_once_example =
    exchange_bootstrap_once exchange (record exchange { now_ms = 11; token_hash = 8 }) issued
      exchanged exchanged_ok refl (omega arith)

exchange_bootstrap-browser_session_example :
    (owner : Ident) × (browser_session 6 (some 7) 50 exchanged
      ≡ (if 7 == 7 then some (new_session exchange owner) else none))
exchange_bootstrap-browser_session_example =
    exchange_bootstrap-browser_session exchange 7 50 issued exchanged exchanged_ok (omega arith)

abbrev both_kinds : List SourceKind
both_kinds = SourceKind.github_briefing ∷ SourceKind.pasted ∷ []

abbrev set_up : Db
set_up = acknowledge test_env 6 ProviderKind.codex (add_sources 20 both_kinds []) 20 exchanged

set_up_ok : acknowledge_setup test_env 6 ProviderKind.codex both_kinds 20 exchanged ≡ (true, set_up)
unfolding acknowledge_setup browser_session
set_up_ok = refl

acknowledge_setup_lem_example :
    (s : BrowserSessionRow) × (browser_session 6 none 20 set_up ≡ some s)
    × SetUp ProviderKind.codex both_kinds s
acknowledge_setup_lem_example =
    acknowledge_setup_lem test_env 6 ProviderKind.codex both_kinds 20 exchanged set_up set_up_ok

still_set_up : browser_session 6 none 90 set_up ≡ browser_session 6 none 20 set_up
unfolding browser_session acknowledge emit
still_set_up = refl

acknowledge_setup_again_example :
    acknowledge_setup test_env 6 ProviderKind.codex both_kinds 90 set_up ≡ (true, set_up)
acknowledge_setup_again_example =
    acknowledge_setup_again test_env 6 ProviderKind.codex both_kinds 20 90 exchanged set_up
      set_up_ok still_set_up
