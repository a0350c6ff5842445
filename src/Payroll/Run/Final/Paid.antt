-- ===== src/Payroll/Run/Final/Paid.antt =====
-- A paid run stays as it is: PayrollRunService in
-- apps/api/src/modules/payroll/services/payroll-run.service.ts.
use openlms.Base.{
  ◌≡◌, refl, ap, sym, subst, ◌∙◌, false, List, [], Option, none, some, String, ℕ, take, Bool-cases,
  inl, inr, ◌=ₛ◌, eq_iff,
}
use openlms.Base.Dict
use openlms.Base.Dict.{Dict, text_keys}
use openlms.Base.Result.{err}
use openlms.Base.Action.{Action, gets, need, modify, throw_when}
use openlms.Payroll.Store.{
  Store, Error, PayrollRunRecord, get_run, update_run, set_run_items, create_run,
  find_run_by_period, create_payslips, get_period_config, append_audit_log, calculated, validated,
  approved_keuangan, rekap_kepsek, paid, bad_status, config_missing, checked,
}
use openlms.Payroll.Items.{Database, RunVariableHours, items_of}
use openlms.Payroll.Run.{
  get, transition, calculate, validate, approve_by_keuangan, approve_by_kepsek, create,
  created_or_found, is_state, warnings_of, missing_payslips,
}
use openlms.Payroll.Run.Workflow.{paid_refuses}
use openlms.Payroll.Run.Final.{
  Later, now_here, then_create, then_calculate, then_validate, then_approve_by_keuangan,
  then_approve_by_kepsek, HasOwnKeys, Nothing, IsThere, IsOther, Leaves, Leaves->>=, Leaves->>,
  Leaves-throw_when, Leaves-need, Leaves-gets, Leaves-modify, Leaves-returns, Leaves-at, get-Leaves,
  update_run-Leaves, set_run_items-Leaves, transition-Leaves,
}

module _ (id : String) (run : PayrollRunRecord) where
  calculate-Leaves :
      (db : Database) (run_id : String) (hours : List RunVariableHours)
      → (run_id =ₛ id) ≡ false
      → Leaves id run (IsOther id run) (calculate db run_id hours)
  unfolding calculate
  calculate-Leaves db run_id hours apart =
      Leaves->>= id run (IsOther id run) (IsOther id run) (get run_id) _
        (get-Leaves id run run_id apart)
        (λ r other.
          Leaves->> id run (IsOther id run) (throw_when _ (bad_status r.status)) _
            (Leaves-throw_when id run _ _)
            (Leaves->>= id run Nothing (IsOther id run) (gets (get_period_config r.period)) _
              (Leaves-gets id run (get_period_config r.period))
              (λ found _.
                Leaves->>= id run Nothing (IsOther id run) (need found config_missing) _
                  (Leaves-need id run found config_missing)
                  (λ config _.
                    Leaves->>= id run Nothing (IsOther id run) (gets (items_of db r config hours)) _
                      (Leaves-gets id run (items_of db r config hours))
                      (λ items _.
                        Leaves->>= id run (IsOther id run) (IsOther id run)
                          (set_run_items r.id items) _
                          (set_run_items-Leaves id run r.id items other)
                          (λ updated same.
                            transition-Leaves id run updated calculated r.created_by same))))))

  validate-Leaves :
      (run_id actor : String)
      → (run_id =ₛ id) ≡ false
      → Leaves id run (IsOther id run) (validate run_id actor)
  unfolding validate
  validate-Leaves run_id actor apart =
      Leaves->>= id run (IsOther id run) (IsOther id run) (get run_id) _
        (get-Leaves id run run_id apart)
        (λ r other.
          Leaves->> id run (IsOther id run) (throw_when _ (bad_status r.status)) _
            (Leaves-throw_when id run _ _)
            (Leaves->> id run (IsOther id run)
              (modify (append_audit_log actor run_id (checked (take 20 (warnings_of r.items))))) _
              (Leaves-modify id run
                (append_audit_log actor run_id (checked (take 20 (warnings_of r.items))))
                (λ s. refl))
              (transition-Leaves id run r validated actor other)))

  approve_by_keuangan-Leaves :
      (run_id actor : String)
      → (run_id =ₛ id) ≡ false
      → Leaves id run (IsOther id run) (approve_by_keuangan run_id actor)
  unfolding approve_by_keuangan
  approve_by_keuangan-Leaves run_id actor apart =
      Leaves->>= id run (IsOther id run) (IsOther id run) (get run_id) _
        (get-Leaves id run run_id apart)
        (λ r other.
          Leaves->> id run (IsOther id run) (throw_when _ (bad_status r.status)) _
            (Leaves-throw_when id run _ _)
            (Leaves->>= id run (IsOther id run) (IsOther id run)
              (update_run r.id (λ q. record q { approved_by_keuangan = some actor })) _
              (update_run-Leaves id run r.id (λ q. record q { approved_by_keuangan = some actor })
                other (λ q. refl))
              (λ updated same. transition-Leaves id run updated approved_keuangan actor same)))

  approve_by_kepsek-Leaves :
      (now : ℕ) (run_id actor : String)
      → (run_id =ₛ id) ≡ false
      → Leaves id run (IsOther id run) (approve_by_kepsek now run_id actor)
  unfolding approve_by_kepsek
  approve_by_kepsek-Leaves now run_id actor apart =
      let patch : PayrollRunRecord → PayrollRunRecord =
        λ q. record q { approved_by_kepsek = some actor; paid_at = some now } in
      Leaves->>= id run (IsOther id run) (IsOther id run) (get run_id) _
        (get-Leaves id run run_id apart)
        (λ r other.
          Leaves->> id run (IsOther id run) (throw_when _ (bad_status r.status)) _
            (Leaves-throw_when id run _ _)
            (Leaves->>= id run (IsOther id run) (IsOther id run) (update_run r.id patch) _
              (update_run-Leaves id run r.id patch other (λ q. refl))
              (λ updated same.
                Leaves->>= id run (IsOther id run) (IsOther id run)
                  (transition updated rekap_kepsek actor) _
                  (transition-Leaves id run updated rekap_kepsek actor same)
                  (λ rekap same2.
                    Leaves->>= id run (IsOther id run) (IsOther id run)
                      (transition rekap paid actor) _
                      (transition-Leaves id run rekap paid actor same2)
                      (λ done same3.
                        Leaves->>= id run Nothing (IsOther id run) (gets (λ store. store.payslips))
                          _ (Leaves-gets id run (λ store. store.payslips))
                          (λ existing _.
                            Leaves->> id run (IsOther id run)
                              (modify (create_payslips (missing_payslips now done existing))) _
                              (Leaves-modify id run
                                (create_payslips (missing_payslips now done existing)) (λ s. refl))
                              (Leaves-returns id run (IsOther id run) done same3)))))))

  create-IsThere :
      (new_id period created_by : String) (s : Store)
      → get_run new_id s ≡ none
      → IsThere id run s
      → IsThere id run (create new_id period created_by s).1
  unfolding create create_run
  create-IsThere new_id period created_by s free there = go (find_run_by_period period s)
    where
      apart : (new_id =ₛ id) ≡ false
      apart = elim (Bool-cases (new_id =ₛ id)) [
        | inl e ↦
            let clash : none ≡ some run =
              sym free ∙ ap (λ z. get_run z s) ((eq_iff new_id id).0 e) ∙ there.1 in
            cc
        | inr e ↦ e
      ]

      go :
          (o : Option PayrollRunRecord)
          → IsThere id run (created_or_found new_id period created_by o s).1
      go none = (
        Dict.All-insert (λ e. e.1.id ≡ e.0) new_id _ s.runs there.0 refl,
        Dict.lookup-insert_other new_id id _ s.runs apart ∙ there.1,
      )
      go (some old) = elim (Bool-cases (is_state old.status paid)) [
        | inl t ↦ rw t there
        | inr t ↦ rw t there
      ]

  module _ (is_paid : run.status ≡ paid) where
    -- A call on a run leaves the paid one as it is: on the paid run itself it throws.
    whichever :
        (call : String → Action Store Error PayrollRunRecord) (run_id : String) (s : Store)
        → ((s : Store) → get_run id s ≡ some run → call id s ≡ (err (bad_status paid), s))
        → ((run_id =ₛ id) ≡ false → Leaves id run (IsOther id run) (call run_id))
        → IsThere id run s
        → IsThere id run (call run_id s).1
    whichever call run_id s refuses leaves there = elim (Bool-cases (run_id =ₛ id)) [
      | inl e ↦
          let refused : call run_id s ≡ (err (bad_status paid), s) =
            ap (λ z. call z s) ((eq_iff run_id id).0 e) ∙ refuses s there.1 in
          subst (IsThere id run) (sym (ap (λ z. z.1) refused)) there
      | inr e ↦ Leaves-at id run (IsOther id run) (call run_id) s (leaves e) there
    ]

    stays-IsThere : {s t : Store} → IsThere id run s → Later s t → IsThere id run t
    stays-IsThere h now_here = h
    stays-IsThere h (then_create new_id period created_by {t} free l) =
        create-IsThere new_id period created_by t free (stays-IsThere h l)
    stays-IsThere h (then_calculate db run_id hours {t} l) =
        whichever (λ z. calculate db z hours) run_id t
          (λ u e. (paid_refuses db id "" hours 0 u e is_paid).0) (calculate-Leaves db run_id hours)
          (stays-IsThere h l)
    stays-IsThere h (then_validate run_id actor {t} l) =
        whichever (λ z. validate z actor) run_id t
          (λ u e.
            (paid_refuses (record { active_staff = []; attendances = λ _. [] }) id actor [] 0 u e
              is_paid).1)
          (validate-Leaves run_id actor) (stays-IsThere h l)
    stays-IsThere h (then_approve_by_keuangan run_id actor {t} l) =
        whichever (λ z. approve_by_keuangan z actor) run_id t
          (λ u e.
            (paid_refuses (record { active_staff = []; attendances = λ _. [] }) id actor [] 0 u e
              is_paid).2)
          (approve_by_keuangan-Leaves run_id actor) (stays-IsThere h l)
    stays-IsThere h (then_approve_by_kepsek now run_id actor {t} l) =
        whichever (λ z. approve_by_kepsek now z actor) run_id t
          (λ u e.
            (paid_refuses (record { active_staff = []; attendances = λ _. [] }) id actor [] now u e
              is_paid).3)
          (approve_by_kepsek-Leaves now run_id actor) (stays-IsThere h l)

-- A paid run is final: in every store that calls of the service reach from one in which each run
-- stands under its id, whether they return or throw, and where each new run gets an id that no run
-- has, the run is stored with the same status, items, totals and approvals.
pub paid_is_final :
    (id : String) {run : PayrollRunRecord} {s t : Store}
    → HasOwnKeys s
    → get_run id s ≡ some run
    → run.status ≡ paid
    → Later s t
    → get_run id t ≡ some run
paid_is_final id {run} own found is_paid l = (stays-IsThere id run is_paid (own, found) l).1
