-- ===== src/Browser/Setup.antt =====
-- What the setup acknowledgement leaves, `acknowledgeBrowserSetup` of packages/cli/src/store.ts.
use agentis.Prelude.{
  ℕ, Bool, true, false, not, ◌&&◌, ◌||◌, if◌then◌else◌, List, [], ◌∷◌, Option, some, none, ◌≡◌,
  refl, sym, subst, ◌∙◌, ◌==◌, ltb, arith, find_by, any_by, insert_row, is_some, any_by-insert_row,
  find_by-update_where, find_by_sound, coalesce, Bool-cases, Option-cases, inl, inr,
}
use agentis.Schema.{
  Ident, ProviderKind, SourceKind, BrowserSessionRow, SourceAcknowledgement, same_provider,
  same_source,
}
use agentis.StoreDb.{Db, Env, emit}
use agentis.Browser.{
  has_source, add_sources, acknowledged_row, is_changed, is_nil, acknowledge, acknowledge_setup,
  browser_session,
}

same_source_refl : (k : SourceKind) → same_source k k ≡ true
same_source_refl SourceKind.pasted = refl
same_source_refl SourceKind.github_briefing = refl

has_source-insert_row :
    (r : SourceAcknowledgement) (k : SourceKind) (rows : List SourceAcknowledgement)
    → has_source (insert_row r rows) k ≡ (has_source rows k || same_source r.source k)
has_source-insert_row r k rows = any_by-insert_row (λ a. same_source a.source k) r rows

-- The rows to which one kind was added.
abbrev with_kind : ℕ → SourceKind → List SourceAcknowledgement → List SourceAcknowledgement
with_kind now k rows =
    if has_source rows k
    then rows
    else insert_row (record { source = k; acknowledged_at = now }) rows

with_kind-has_source :
    (now : ℕ) (k : SourceKind) (rows : List SourceAcknowledgement)
    → has_source (with_kind now k rows) k ≡ true
with_kind-has_source now k rows = elim (Bool-cases (has_source rows k)) [
  | inl h ↦ ground (arith)
  | inr h ↦ ground (
    arith,
    has_source-insert_row (record { source = k; acknowledged_at = now }) k rows,
    same_source_refl k,
  )
]

with_kind_keeps :
    (now : ℕ) (k j : SourceKind) (rows : List SourceAcknowledgement)
    → has_source rows j ≡ true
    → has_source (with_kind now k rows) j ≡ true
with_kind_keeps now k j rows h =
    ground (arith, has_source-insert_row (record { source = k; acknowledged_at = now }) j rows)

add_sources_keeps :
    (now : ℕ) (kinds : List SourceKind) (j : SourceKind) (rows : List SourceAcknowledgement)
    → has_source rows j ≡ true
    → has_source (add_sources now kinds rows) j ≡ true
add_sources_keeps now [] j rows h = h
add_sources_keeps now (k ∷ kinds) j rows h =
    add_sources_keeps now kinds j (with_kind now k rows) (with_kind_keeps now k j rows h)

abbrev lacks : List SourceAcknowledgement → List SourceKind → Bool
lacks rows = any_by (λ k. not (has_source rows k))

add_sources-lacks :
    (now : ℕ) (kinds : List SourceKind) (rows : List SourceAcknowledgement)
    → lacks (add_sources now kinds rows) kinds ≡ false
add_sources-lacks now [] rows = refl
add_sources-lacks now (k ∷ kinds) rows =
    rw
      (
        add_sources_keeps now kinds k (with_kind now k rows) (with_kind-has_source now k rows),
        add_sources-lacks now kinds (with_kind now k rows),
      )
      refl

abbrev is_current : Ident → ℕ → BrowserSessionRow → Bool
is_current token_hash now s = s.token_hash == token_hash && ltb now s.expires_at

browser_session-find_by :
    (token_hash : Ident) (now : ℕ) (db : Db)
    → browser_session token_hash none now db ≡ find_by (is_current token_hash now) db.sessions
unfolding browser_session
browser_session-find_by token_hash now db =
    elim (Option-cases (find_by (is_current token_hash now) db.sessions)) [
      | inl h ↦ rw (browser_session, h) refl
      | inr (s, h) ↦ rw (browser_session, h) refl
    ]

browser_session-acknowledge :
    (env : Env) (token_hash : Ident) (provider : ProviderKind)
    (acknowledged : List SourceAcknowledgement) (now : ℕ) (db : Db) (s : BrowserSessionRow)
    → browser_session token_hash none now db ≡ some s
    → browser_session token_hash none now (acknowledge env token_hash provider acknowledged now db)
      ≡ some (acknowledged_row now acknowledged s)
unfolding browser_session acknowledge emit
browser_session-acknowledge env token_hash provider acknowledged now db s h =
    let f : find_by (is_current token_hash now) db.sessions ≡ some s =
      sym (browser_session-find_by token_hash now db) ∙ h in
    browser_session-find_by token_hash now (acknowledge env token_hash provider acknowledged now db)
    ∙ find_by-update_where (is_current token_hash now) (is_current token_hash now)
        (acknowledged_row now acknowledged) db.sessions (λ x. refl)
    ∙ rw (f, find_by_sound (is_current token_hash now) db.sessions s f) refl

-- A session that has acknowledged a provider and these kinds of source.
pub record SetUp (provider : ProviderKind) (kinds : List SourceKind) (s : BrowserSessionRow)
    : Type 0 where
  pub same : same_provider s.provider provider ≡ true
  pub acknowledged : is_some s.provider_acknowledged_at ≡ true
  pub sources : any_by (λ k. not (has_source s.sources k)) kinds ≡ false
  pub named : is_nil kinds ≡ false

acknowledge_setup-SetUp :
    (env : Env) (token_hash : Ident) (provider : ProviderKind) (kinds : List SourceKind) (later : ℕ)
    (db : Db) (s : BrowserSessionRow)
    → SetUp provider kinds s
    → browser_session token_hash none later db ≡ some s
    → acknowledge_setup env token_hash provider kinds later db ≡ (true, db)
unfolding acknowledge_setup
acknowledge_setup-SetUp env token_hash provider kinds later db s u h =
    rw (acknowledge_setup, h, u.same, u.named, u.acknowledged, u.sources) refl

not_changed :
    (s : BrowserSessionRow) (provider : ProviderKind) (kinds : List SourceKind)
    → (not (same_provider s.provider provider) || is_nil kinds) ≡ false
    → is_changed s kinds ≡ false
    → SetUp provider kinds s
not_changed s provider kinds g h = record {
  same = ground arith;
  acknowledged = ground arith;
  sources = ground arith;
  named = ground arith;
}

coalesced : (o : Option ℕ) (now : ℕ) → is_some (coalesce o (some now)) ≡ true
coalesced none now = refl
coalesced (some x) now = refl

now_acknowledged :
    (s : BrowserSessionRow) (provider : ProviderKind) (kinds : List SourceKind) (now : ℕ)
    → (not (same_provider s.provider provider) || is_nil kinds) ≡ false
    → SetUp provider kinds (acknowledged_row now (add_sources now kinds s.sources) s)
now_acknowledged s provider kinds now g = record {
  same = ground arith;
  acknowledged = coalesced s.provider_acknowledged_at now;
  sources = add_sources-lacks now kinds s.sources;
  named = ground arith;
}

-- What an acknowledgement that was taken leaves.
abbrev AcknowledgedBy : Ident → ProviderKind → List SourceKind → ℕ → Bool × Db → Type 0
AcknowledgedBy token_hash provider kinds now (done, db') =
    done ≡ true
    → (s : BrowserSessionRow) × (browser_session token_hash none now db' ≡ some s)
      × SetUp provider kinds s

acknowledge_setup-AcknowledgedBy :
    (env : Env) (token_hash : Ident) (provider : ProviderKind) (kinds : List SourceKind) (now : ℕ)
    (db : Db)
    → AcknowledgedBy token_hash provider kinds now
        (acknowledge_setup env token_hash provider kinds now db)
unfolding acknowledge_setup
acknowledge_setup-AcknowledgedBy env token_hash provider kinds now db =
    elim (Option-cases (browser_session token_hash none now db)) [
      | inl e ↦ rw (acknowledge_setup, e) (λ d. cc)
      | inr (s, e) ↦ elim (Bool-cases (not (same_provider s.provider provider) || is_nil kinds)) [
        | inl g ↦ rw (acknowledge_setup, e, g) (λ d. cc)
        | inr g ↦ elim (Bool-cases (is_changed s kinds)) [
          | inl c ↦
              rw (acknowledge_setup, e, g, c)
                (λ d. (
                  acknowledged_row now (add_sources now kinds s.sources) s,
                  browser_session-acknowledge env token_hash provider
                      (add_sources now kinds s.sources) now db s e,
                  now_acknowledged s provider kinds now g,
                ))
          | inr c ↦ rw (acknowledge_setup, e, g, c) (λ d. (s, e, not_changed s provider kinds g c))
        ]
      ]
    ]

-- After an acknowledgement that was taken, the token leads to a session for that provider which has
-- acknowledged it and every kind of source that was named, at least one.
pub acknowledge_setup_lem :
    (env : Env) (token_hash : Ident) (provider : ProviderKind) (kinds : List SourceKind) (now : ℕ)
    (db db' : Db)
    → acknowledge_setup env token_hash provider kinds now db ≡ (true, db')
    → (s : BrowserSessionRow) × (browser_session token_hash none now db' ≡ some s)
      × SetUp provider kinds s
acknowledge_setup_lem env token_hash provider kinds now db db' h =
    subst (AcknowledgedBy token_hash provider kinds now) h
      (acknowledge_setup-AcknowledgedBy env token_hash provider kinds now db) refl

-- An acknowledgement that was taken is taken again later, as long as the token leads to the same
-- session, and then changes nothing and writes no event.
pub acknowledge_setup_again :
    (env : Env) (token_hash : Ident) (provider : ProviderKind) (kinds : List SourceKind)
    (now later : ℕ) (db db' : Db)
    → acknowledge_setup env token_hash provider kinds now db ≡ (true, db')
    → browser_session token_hash none later db' ≡ browser_session token_hash none now db'
    → acknowledge_setup env token_hash provider kinds later db' ≡ (true, db')
acknowledge_setup_again env token_hash provider kinds now later db db' h same =
    let (s, e, u) = acknowledge_setup_lem env token_hash provider kinds now db db' h in
    acknowledge_setup-SetUp env token_hash provider kinds later db' s u (same ∙ e)
