-- ===== src/Journal/Sweeps.antt =====
-- The extension of the journal by the sweeps, by a restart and by the browser's setup.
use agentis.Commands.Control.{fail_loading}
use agentis.Journal.Finish.{finish_run-Logged, reject_handoff-Logged}
use agentis.Commands.Approval.{expire_tables, expiry, expire_approval_and_run}
use agentis.Journal.Base.{
  Extends-trans, message-Extends, emit-Extends, log_of, Extends-refl, Logged-trans, LoggedWith,
  Logged,
}
use agentis.Sweep.{
  interrupted_row, overdue, expired_approvals, overdue_ids, active_runs, interrupt_one,
  SweepEffects, note_restart, interrupt_active, interrupt_runs, sweep_overdue, sweep_run_timeouts,
  sweep_handoffs, sweep_approvals,
}
use agentis.Browser.{
  add_sources, acknowledged_row, is_changed, is_nil, is_usable, browser_session, is_spent,
  acknowledge, ExchangeInput, acknowledge_setup, exchange_bootstrap, issue_bootstrap,
}
use agentis.Prelude.{
  ltb, Bool-cases, inr, update_where, count_by, inl, none, find_by, Ensures-option, Ensures-map,
  Option-cases, filter_by, Ensures-bind, Ensures-if, ℕ, not, ◌==◌, leb, any_by, ◌||◌, ◌&&◌, List,
  [], ◌∷◌, Ensures, holds, threw,
}
use agentis.Schema.{
  Ident, HandoffRow, RunRow, ApprovalRow, ProviderKind, SourceKind, is_proposed, same_provider,
}
use agentis.StoreDb.{Db, Env}

sweep_handoffs-Logged :
    (env : Env) (now : ℕ) (hs : List HandoffRow) (effects : SweepEffects) (db : Db)
    → Ensures (LoggedWith db) (sweep_handoffs env now hs (effects, db))
unfolding sweep_handoffs
sweep_handoffs-Logged env now [] effects db = holds (Extends-refl (log_of db))
sweep_handoffs-Logged env now (h ∷ hs) effects db =
    Ensures-bind
      (Ensures-if {P = LoggedWith db} (is_proposed h.state && leb h.expires_at now)
        (λ _.
          Ensures-bind (reject_handoff-Logged env h.recipient_run_id _ _ _ now db) (λ r v. holds v))
        (λ _. holds (Extends-refl (log_of db))))
      λ s v.
        Ensures-map (λ t w. Logged-trans db s.1 t.1 v w) (sweep_handoffs-Logged env now hs s.0 s.1)

sweep_overdue-Logged :
    (env : Env) (now : ℕ) (ids : List Ident) (effects : SweepEffects) (db : Db)
    → Ensures (LoggedWith db) (sweep_overdue env now ids (effects, db))
unfolding sweep_overdue
sweep_overdue-Logged env now [] effects db = holds (Extends-refl (log_of db))
sweep_overdue-Logged env now (id ∷ ids) effects db =
    Ensures-bind (finish_run-Logged env (overdue id now) db) λ db' v.
      Ensures-map (λ t w. Logged-trans db db' t.1 v w) (sweep_overdue-Logged env now ids _ db')

sweep_approvals-Logged :
    (env : Env) (now : ℕ) (as' : List ApprovalRow) (effects : SweepEffects) (db : Db)
    → Ensures (LoggedWith db) (sweep_approvals env now as' (effects, db))
unfolding sweep_approvals expire_approval_and_run
sweep_approvals-Logged env now [] effects db = holds (Extends-refl (log_of db))
sweep_approvals-Logged env now (a ∷ as') effects db =
    Ensures-bind (finish_run-Logged env (expiry a now none) (expire_tables a.id db)) λ db' v.
      Ensures-map (λ t w. Logged-trans db db' t.1 v w) (sweep_approvals-Logged env now as' _ db')

pub sweep_run_timeouts-Logged :
    (env : Env) (now : ℕ) (db : Db) → Ensures (LoggedWith db) (sweep_run_timeouts env now db)
unfolding sweep_run_timeouts
sweep_run_timeouts-Logged env now db =
    Ensures-bind (sweep_handoffs-Logged env now db.handoffs [] db) λ s v.
      Ensures-bind (sweep_overdue-Logged env now (overdue_ids now s.1) s.0 s.1) λ t w.
        Ensures-map (λ u x. Logged-trans db s.1 u.1 v (Logged-trans s.1 t.1 u.1 w x))
          (sweep_approvals-Logged env now (expired_approvals now t.1) t.0 t.1)

interrupt_runs-Logged :
    (env : Env) (now : ℕ) (rs : List RunRow) (db : Db) → Logged db (interrupt_runs env now rs db)
unfolding interrupt_runs interrupt_one
interrupt_runs-Logged env now [] db = Extends-refl (log_of db)
interrupt_runs-Logged env now (r ∷ rs) db =
    Extends-trans (log_of db) (log_of (interrupt_one env now r db)) _
      (message-Extends env _
        (record db { runs = update_where (λ x. x.id == r.id) interrupted_row db.runs }))
      (interrupt_runs-Logged env now rs (interrupt_one env now r db))

note_restart-Logged :
    (env : Env) (now : ℕ) (rs : List RunRow) (db : Db) → Logged db (note_restart env now rs db)
note_restart-Logged env now [] db = Extends-refl (log_of db)
note_restart-Logged env now (r ∷ rs) db = emit-Extends env _ _ now db

pub interrupt_active-Logged :
    (env : Env) (now : ℕ) (db : Db) → LoggedWith db (interrupt_active env now db)
unfolding interrupt_active
interrupt_active-Logged env now db =
    Extends-trans (log_of db) (log_of (interrupt_runs env now (active_runs db) db)) _
      (interrupt_runs-Logged env now (active_runs db) db)
      (note_restart-Logged env now (active_runs db)
        (fail_loading (interrupt_runs env now (active_runs db) db)))

pub exchange_bootstrap-Logged :
    (input : ExchangeInput) (db : Db) → Ensures (LoggedWith db) (exchange_bootstrap input db)
unfolding exchange_bootstrap
exchange_bootstrap-Logged input db =
    let same = Extends-refl (log_of db) in
    Ensures-option (find_by (is_usable input.code_hash input.now_ms) db.bootstraps)
      (λ _. holds same)
      λ b _.
        Ensures-if (not (count_by (is_usable input.code_hash input.now_ms) db.bootstraps == 1))
          (λ _. holds same)
          λ _.
            Ensures-if (any_by (λ s. s.token_hash == input.token_hash) db.sessions) (λ _. threw)
              (λ _. holds same)

pub issue_bootstrap-Logged :
    (code_hash owner_session : Ident) (now expires_at : ℕ) (db : Db)
    → Ensures (LoggedWith db) (issue_bootstrap code_hash owner_session now expires_at db)
unfolding issue_bootstrap
issue_bootstrap-Logged code_hash owner_session now expires_at db =
    Ensures-if
      (any_by (λ b. b.code_hash == code_hash) (filter_by (λ b. not (is_spent now b)) db.bootstraps))
      (λ _. threw) (λ _. holds (Extends-refl (log_of db)))

pub acknowledge_setup-Logged :
    (env : Env) (token_hash : Ident) (provider : ProviderKind) (kinds : List SourceKind) (now : ℕ)
    (db : Db)
    → LoggedWith db (acknowledge_setup env token_hash provider kinds now db)
unfolding acknowledge_setup acknowledge
acknowledge_setup-Logged env token_hash provider kinds now db =
    let same = Extends-refl (log_of db) in
    elim (Option-cases (browser_session token_hash none now db)) [
      | inl e ↦ rw (acknowledge_setup, e) same
      | inr (s, e) ↦
          rw (acknowledge_setup, e)
            (elim (Bool-cases (not (same_provider s.provider provider) || is_nil kinds)) [
              | inl t ↦ rw t same
              | inr t ↦ rw t (elim (Bool-cases (not (is_changed s kinds))) [
                | inl u ↦ rw u same
                | inr u ↦ rw u (
                    emit-Extends env _ _ now (record db {
                      sessions =
                          update_where (λ x. x.token_hash == token_hash && ltb now x.expires_at)
                            (acknowledged_row now (add_sources now kinds s.sources)) db.sessions;
                    }))
              ])
            ])
    ]
