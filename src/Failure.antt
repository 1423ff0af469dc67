-- ===== src/Failure.antt =====
-- `classifyFailure` of packages/cli/src/provider-contract.ts: the class of a provider's error text.
use Prim.Native.Char.{code}
use Prim.Native.String.{String}
use agentis.Prelude.{
  ◌+◌, not, false, ◌||◌, ◌&&◌, leb, refl, any_by, ◌∷◌, ◌==◌, true, [], if◌then◌else◌, Bool, ℕ, ◌≡◌,
  List,
}
use agentis.Schema.{ProviderFailure}

abbrev codes : String → List ℕ
codes String.[] = []
codes (String.◌∷◌ c s) = code c ∷ codes s

-- The flag `i`: letters of ASCII are compared in lower case.
abbrev lower : ℕ → ℕ
lower c = if leb 65 c && leb c 90 then c + 32 else c

-- A dot of a pattern fits every code point but the line terminators.
abbrev fits : (pattern c : ℕ) → Bool
fits pattern c =
    if pattern == 46 then not (c == 10 || c == 13 || c == 8232 || c == 8233) else pattern == lower c

unfoldable pub begins : (pattern text : List ℕ) → Bool
begins [] text = true
begins (p ∷ ps) [] = false
begins (p ∷ ps) (c ∷ cs) = fits p c && begins ps cs

unfoldable pub occurs : (pattern text : List ℕ) → Bool
unfolding begins
occurs pattern [] = begins pattern []
occurs pattern (c ∷ cs) = begins pattern (c ∷ cs) || occurs pattern cs

-- One of the alternatives of a regular expression occurs in the text.
unfoldable pub mentions : List String → String → Bool
unfolding occurs
mentions alternatives text = any_by (λ a. occurs (codes a) (codes text)) alternatives

unfoldable pub classify_failure : String → ProviderFailure
unfolding mentions
classify_failure error =
    if mentions ("auth" ∷ "credential" ∷ "api.key" ∷ "login" ∷ []) error
    then ProviderFailure.auth_unavailable
    else if mentions ("quota" ∷ "rate.limit" ∷ "usagelimit" ∷ "429" ∷ []) error
    then ProviderFailure.quota
    else if mentions ("exit" ∷ "closed" ∷ "crash" ∷ []) error
    then ProviderFailure.crash
    else if mentions ("json" ∷ "parse" ∷ "malformed" ∷ "invalid" ∷ []) error
    then ProviderFailure.malformed_response
    else if mentions ("unsupported" ∷ []) error
    then ProviderFailure.unsupported_capability
    else ProviderFailure.provider_error

quota_text : classify_failure "HTTP 429: Rate-Limit reached" ≡ ProviderFailure.quota
unfolding classify_failure
quota_text = refl
