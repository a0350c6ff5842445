-- ===== src/Payroll/Run/Reachable.antt =====
-- The stores that the operations of PayrollRunService can reach:
-- apps/api/src/modules/payroll/services/payroll-run.service.ts.
use openlms.Base.{
  ◌≡◌, refl, ◌≢◌, false, List, [], ◌∷◌, ◌++◌, map, Option, none, some, String, ℕ, take, arith,
  map-append, Bool-cases, inl, inr, All, All-append, find-eq-none, ◌=ₛ◌, eq_iff,
}
use openlms.Base.Dict
use openlms.Base.Dict.{Dict, text_keys}
use openlms.Base.Action.{
  Keeps-gets, Keeps-modify, Keeps-returns, Keeps-at, Keeps, Keeps->>=, Keeps->>, Keeps-throw_when,
  Keeps-need, gets, need, modify, throw_when,
}
use openlms.Payroll.Store.{
  Store, Error, calculated, validated, approved_keuangan, rekap_kepsek, paid, create_payslips,
  PayrollComponentRecord, SalaryStructureRecord, PayrollPeriodConfigRecord, PayrollRunRecord,
  get_run, get_period_config, find_run_by_period, create_run, update_run, set_run_items,
  config_missing, bad_status, run_not_found, checked, made, append_audit_log,
}
use openlms.Payroll.Items.{Database, RunVariableHours, items_of}
use openlms.Payroll.Run.{
  get, created_or_found, no_runs, transition, calculate, validate, approve_by_keuangan,
  approve_by_kepsek, create, is_state, warnings_of, missing_payslips,
}
use openlms.Payroll.Run.Ledger.{
  IsLedger, IsSummed, AllDiffer, periods, IsAllowed, update_run-IsLedger, set_run_items-IsLedger,
  append_audit_log-IsLedger, transition-IsLedger,
}

Keeps-get : (run_id : String) → Keeps IsLedger (get run_id)
unfolding Keeps
Keeps-get run_id store h =
    Keeps-at IsLedger (need (get_run run_id store) run_not_found) store
      (Keeps-need IsLedger (get_run run_id store) run_not_found) h

calculate-IsLedger :
    (db : Database) (run_id : String) (hours : List RunVariableHours)
    → Keeps IsLedger (calculate db run_id hours)
unfolding calculate
calculate-IsLedger db run_id hours = Keeps->>= IsLedger (get run_id) _ (Keeps-get run_id) (λ run.
    Keeps->> IsLedger (throw_when _ (bad_status run.status)) _ (Keeps-throw_when IsLedger _ _) (
      Keeps->>= IsLedger (gets (get_period_config run.period)) _ (Keeps-gets Error IsLedger _)
        (λ found.
          Keeps->>= IsLedger (need found config_missing) _
            (Keeps-need IsLedger found config_missing)
            (λ config.
              Keeps->>= IsLedger (gets (items_of db run config hours)) _
                (Keeps-gets Error IsLedger _)
                (λ items.
                  Keeps->>= IsLedger (set_run_items run.id items) _
                    (set_run_items-IsLedger run.id items)
                    (λ updated. transition-IsLedger updated calculated run.created_by))))))

validate-IsLedger : (run_id actor : String) → Keeps IsLedger (validate run_id actor)
unfolding validate
validate-IsLedger run_id actor = Keeps->>= IsLedger (get run_id) _ (Keeps-get run_id) (λ run.
    Keeps->> IsLedger (throw_when _ (bad_status run.status)) _ (Keeps-throw_when IsLedger _ _) (
      Keeps->> IsLedger
        (modify (append_audit_log actor run_id (checked (take 20 (warnings_of run.items))))) _
        (Keeps-modify Error IsLedger _
          (append_audit_log-IsLedger actor run_id (checked (take 20 (warnings_of run.items))) tt))
        (transition-IsLedger run validated actor)))

approve_by_keuangan-IsLedger :
    (run_id actor : String) → Keeps IsLedger (approve_by_keuangan run_id actor)
unfolding approve_by_keuangan
approve_by_keuangan-IsLedger run_id actor =
    Keeps->>= IsLedger (get run_id) _ (Keeps-get run_id) (λ run.
      Keeps->> IsLedger (throw_when _ (bad_status run.status)) _ (Keeps-throw_when IsLedger _ _) (
        Keeps->>= IsLedger (update_run run.id (λ r. record r { approved_by_keuangan = some actor }))
          _
          (update_run-IsLedger run.id (λ r. record r { approved_by_keuangan = some actor })
            (λ r. refl) (λ r s. s))
          (λ updated. transition-IsLedger updated approved_keuangan actor)))

approve_by_kepsek-IsLedger :
    (now : ℕ) (run_id actor : String) → Keeps IsLedger (approve_by_kepsek now run_id actor)
unfolding approve_by_kepsek
approve_by_kepsek-IsLedger now run_id actor =
    let patch : PayrollRunRecord → PayrollRunRecord =
      λ r. record r { approved_by_kepsek = some actor; paid_at = some now } in
    Keeps->>= IsLedger (get run_id) _ (Keeps-get run_id) (λ run.
      Keeps->> IsLedger (throw_when _ (bad_status run.status)) _ (Keeps-throw_when IsLedger _ _) (
        Keeps->>= IsLedger (update_run run.id patch) _
          (update_run-IsLedger run.id patch (λ r. refl) (λ r s. s))
          (λ updated.
            Keeps->>= IsLedger (transition updated rekap_kepsek actor) _
              (transition-IsLedger updated rekap_kepsek actor)
              (λ rekap.
                Keeps->>= IsLedger (transition rekap paid actor) _
                  (transition-IsLedger rekap paid actor)
                  (λ done.
                    Keeps->>= IsLedger (gets (λ store. store.payslips)) _
                      (Keeps-gets Error IsLedger _)
                      (λ existing.
                        Keeps->> IsLedger
                          (modify (create_payslips (missing_payslips now done existing))) _
                          (Keeps-modify Error IsLedger _ (λ s i. i))
                          (Keeps-returns Error IsLedger done)))))))

AllDiffer-snoc :
    (ps : List String) (p : String) → AllDiffer ps → All (λ q. q ≢ p) ps → AllDiffer (ps ++ p ∷ [])
AllDiffer-snoc [] p h k = (tt, tt)
AllDiffer-snoc (q ∷ ps) p h k =
    (All-append (λ r. q ≢ r) ps (p ∷ []) h.0 (k.0, tt), AllDiffer-snoc ps p h.1 k.1)

periods-differ :
    (period : String) (runs : List PayrollRunRecord)
    → All (λ r. (r.period =ₛ period) ≡ false) runs
    → All (λ q. q ≢ period) (map (λ r. r.period) runs)
periods-differ period [] h = tt
periods-differ period (r ∷ runs) h =
    ((λ e. ground (arith, h.0, (eq_iff r.period period).1 e)), periods-differ period runs h.1)

created-IsLedger :
    (id period created_by : String) (store : Store)
    → find_run_by_period period store ≡ none
    → get_run id store ≡ none
    → IsLedger store
    → IsLedger (append_audit_log created_by id made (create_run id period created_by store).1)
unfolding create_run find_run_by_period
created-IsLedger id period created_by store f g (h, d, a) =
    let run = (create_run id period created_by store).0 in
    (
      Dict.All-insert IsSummed id run store.runs h (refl, refl, refl, refl, refl),
      rw
          (
            Dict.values-insert_new id run store.runs g,
            map-append (λ r. r.period) (Dict.values store.runs) (run ∷ []),
          )
          (AllDiffer-snoc (periods store) period d (
            periods-differ period (Dict.values store.runs)
              (find-eq-none (λ r. r.period =ₛ period) (Dict.values store.runs) f))),
      All-append (λ x. IsAllowed x.note) store.audit_logs (_ ∷ []) a (tt, tt),
    )

create-IsLedger :
    (id period created_by : String) (store : Store)
    → get_run id store ≡ none
    → IsLedger store
    → IsLedger (create id period created_by store).1
unfolding create create_run
create-IsLedger id period created_by store g h = go (find_run_by_period period store) refl
  where
    go :
        (o : Option PayrollRunRecord)
        → find_run_by_period period store ≡ o
        → IsLedger (created_or_found id period created_by o store).1
    go none e = created-IsLedger id period created_by store e g h
    go (some run) e = elim (Bool-cases (is_state run.status paid)) [
      | inl t ↦ rw t h
      | inr t ↦ rw t h
    ]

-- The stores that the service reaches from one without runs, by calls that return or throw.
pub data Reachable : Store → Type 0 where
  start :
      (components : List PayrollComponentRecord) (structures : List SalaryStructureRecord)
      (configs : Dict String PayrollPeriodConfigRecord)
      → Reachable (no_runs components structures configs)
  after_create :
      (id period created_by : String) {store : Store}
      → Reachable store
      → get_run id store ≡ none
      → Reachable (create id period created_by store).1
  after_calculate :
      (db : Database) (run_id : String) (hours : List RunVariableHours) {store : Store}
      → Reachable store
      → Reachable (calculate db run_id hours store).1
  after_validate :
      (run_id actor : String) {store : Store}
      → Reachable store
      → Reachable (validate run_id actor store).1
  after_approve_by_keuangan :
      (run_id actor : String) {store : Store}
      → Reachable store
      → Reachable (approve_by_keuangan run_id actor store).1
  after_approve_by_kepsek :
      (now : ℕ) (run_id actor : String) {store : Store}
      → Reachable store
      → Reachable (approve_by_kepsek now run_id actor store).1

-- In every store that calls of the service reach from one without runs, whether they return or
-- throw, and where each new run gets an id that no run has: each run's head count and its three
-- totals are those of its items, no two runs have the same period, and every move in the audit log
-- is one of the allowed transitions.
pub Reachable-IsLedger : (store : Store) → Reachable store → IsLedger store
Reachable-IsLedger _ (start components structures configs) = (tt, tt, tt)
Reachable-IsLedger _ (after_create id period created_by {store} r new) =
    create-IsLedger id period created_by store new (Reachable-IsLedger store r)
Reachable-IsLedger _ (after_calculate db run_id hours {store} r) =
    Keeps-at IsLedger (calculate db run_id hours) store (calculate-IsLedger db run_id hours)
      (Reachable-IsLedger store r)
Reachable-IsLedger _ (after_validate run_id actor {store} r) =
    Keeps-at IsLedger (validate run_id actor) store (validate-IsLedger run_id actor)
      (Reachable-IsLedger store r)
Reachable-IsLedger _ (after_approve_by_keuangan run_id actor {store} r) =
    Keeps-at IsLedger (approve_by_keuangan run_id actor) store
      (approve_by_keuangan-IsLedger run_id actor) (Reachable-IsLedger store r)
Reachable-IsLedger _ (after_approve_by_kepsek now run_id actor {store} r) =
    Keeps-at IsLedger (approve_by_kepsek now run_id actor) store
      (approve_by_kepsek-IsLedger now run_id actor) (Reachable-IsLedger store r)
