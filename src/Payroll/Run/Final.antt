-- ===== src/Payroll/Run/Final.antt =====
-- A paid run among later calls: PayrollRunService in
-- apps/api/src/modules/payroll/services/payroll-run.service.ts.
pub mod Paid
use openlms.Base.{
  ◌≡◌, ◌≢◌, refl, ap, sym, subst, ◌∙◌, Bool, true, false, not, ◌&&◌, List, Option, none, some,
  String, ℕ, take, All, Bool-cases, inl, inr, ◌=ₛ◌, eq_iff,
}
use openlms.Base.Dict
use openlms.Base.Dict.{Dict, text_keys}
use openlms.Base.Result.{Result, ok, err}
use openlms.Base.Action.{
  Action, ◌>>=◌, ◌>>◌, continue_with, gets, need, modify, returns, throw_when,
}
use openlms.Payroll.Store.{
  Store, Error, PayrollRunState, PayrollRunRecord, PayrollRunItemRecord, get_run, set_run, replaced,
  update_run, set_run_items, with_items, create_run, find_run_by_period, create_payslips,
  get_period_config, append_audit_log, AuditNote, moved, calculated, validated, approved_keuangan,
  rekap_kepsek, paid, bad_status, run_not_found, config_missing, checked, made,
}
use openlms.Payroll.Items.{Database, RunVariableHours, items_of}
use openlms.Payroll.Run.{
  get, move, transition, calculate, validate, approve_by_keuangan, approve_by_kepsek, create,
  created_or_found, is_state, warnings_of, missing_payslips,
}
use openlms.Payroll.Run.Workflow.{paid_refuses}

-- The stores that any calls reach from a store, whether they return or throw.
pub data Later (s : Store) : Store → Type 0 where
  now_here : Later s s
  then_create :
      (id period created_by : String) {t : Store}
      → get_run id t ≡ none
      → Later s t
      → Later s (create id period created_by t).1
  then_calculate :
      (db : Database) (run_id : String) (hours : List RunVariableHours) {t : Store}
      → Later s t
      → Later s (calculate db run_id hours t).1
  then_validate :
      (run_id actor : String) {t : Store} → Later s t → Later s (validate run_id actor t).1
  then_approve_by_keuangan :
      (run_id actor : String) {t : Store}
      → Later s t
      → Later s (approve_by_keuangan run_id actor t).1
  then_approve_by_kepsek :
      (now : ℕ) (run_id actor : String) {t : Store}
      → Later s t
      → Later s (approve_by_kepsek now run_id actor t).1

-- each run stands under its id
abbrev pub HasOwnKeys : Store → Type 0
HasOwnKeys s = All (λ e. e.1.id ≡ e.0) s.runs

abbrev pub OkIs : {A : Type 0} → (A → Type 0) → Result Error A → Type 0
OkIs Q (ok a) = Q a
OkIs Q (err e) = Unit

abbrev pub Nothing : {A : Type 0} → A → Type 0
Nothing a = Unit

module _ (id : String) (run : PayrollRunRecord) where
  abbrev pub IsThere : Store → Type 0
  IsThere s = HasOwnKeys s × (get_run id s ≡ some run)

  abbrev pub IsOther : PayrollRunRecord → Type 0
  IsOther r = (r.id =ₛ id) ≡ false

  -- The call leaves the run as it is, and what it returns satisfies the predicate.
  unfoldable pub Leaves : {A : Type 0} → (A → Type 0) → Action Store Error A → Type 0
  Leaves Q call = (s : Store) → IsThere s → IsThere (call s).1 × OkIs Q (call s).0

  next-Leaves :
      {A B : Type 0} (P : A → Type 0) (Q : B → Type 0) (next : A → Action Store Error B)
      → ((a : A) → P a → Leaves Q (next a))
      → (r : Result Error A × Store) → IsThere r.1 × OkIs P r.0
      → IsThere (continue_with next r).1 × OkIs Q (continue_with next r).0
  unfolding Leaves
  next-Leaves P Q next k (ok a, s) h = k a h.1 s h.0
  next-Leaves P Q next k (err e, s) h = (h.0, tt)

  pub Leaves->>= :
      {A B : Type 0} (P : A → Type 0) (Q : B → Type 0) (call : Action Store Error A)
      (next : A → Action Store Error B)
      → Leaves P call
      → ((a : A) → P a → Leaves Q (next a))
      → Leaves Q (call >>= next)
  unfolding Leaves
  Leaves->>= P Q call next h k s there = next-Leaves P Q next k (call s) (h s there)

  pub Leaves->> :
      {B : Type 0} (Q : B → Type 0) (call : Action Store Error (Unit {0}))
      (next : Action Store Error B)
      → Leaves Nothing call
      → Leaves Q next
      → Leaves Q (call >> next)
  unfolding Leaves
  Leaves->> Q call next h k s there =
      next-Leaves Nothing Q (λ _. next) (λ _ _. k) (call s) (h s there)

  pub Leaves-throw_when : (b : Bool) (e : Error) → Leaves Nothing (throw_when b e)
  unfolding Leaves
  Leaves-throw_when true e s there = (there, tt)
  Leaves-throw_when false e s there = (there, tt)

  pub Leaves-need : {A : Type 0} (o : Option A) (e : Error) → Leaves Nothing (need o e)
  unfolding Leaves
  Leaves-need none e s there = (there, tt)
  Leaves-need (some a) e s there = (there, tt)

  pub Leaves-gets : {A : Type 0} (f : Store → A) → Leaves Nothing (gets {E = Error} f)
  unfolding Leaves
  Leaves-gets f s there = (there, tt)

  pub Leaves-modify :
      (write : Store → Store)
      → ((s : Store) → (write s).runs ≡ s.runs)
      → Leaves Nothing (modify {E = Error} write)
  unfolding Leaves
  Leaves-modify write same s there = (
    subst (λ z. All (λ e. e.1.id ≡ e.0) z × (Dict.lookup id z ≡ some run)) (sym (same s)) there,
    tt,
  )

  pub Leaves-returns :
      {A : Type 0} (Q : A → Type 0) (a : A) → Q a → Leaves Q (returns {E = Error} a)
  unfolding Leaves
  Leaves-returns Q a q s there = (there, q)

  pub Leaves-at :
      {A : Type 0} (Q : A → Type 0) (call : Action Store Error A) (s : Store)
      → Leaves Q call
      → IsThere s
      → IsThere (call s).1
  unfolding Leaves
  Leaves-at Q call s h there = (h s there).0

  found-IsOther :
      (run_id : String) (s : Store) {r : PayrollRunRecord}
      → (run_id =ₛ id) ≡ false
      → IsThere s
      → get_run run_id s ≡ some r
      → IsOther r
  found-IsOther run_id s apart there e =
      ap (λ z. z =ₛ id) (Dict.All-lookup (λ e. e.1.id ≡ e.0) run_id s.runs there.0 e) ∙ apart

  pub get-Leaves : (run_id : String) → (run_id =ₛ id) ≡ false → Leaves IsOther (get run_id)
  unfolding Leaves
  get-Leaves run_id apart s there = go (get_run run_id s) refl
    where
      go :
          (o : Option PayrollRunRecord)
          → get_run run_id s ≡ o
          → IsThere (need {E = Error} o run_not_found s).1 × OkIs IsOther (need o run_not_found s).0
      go none e = (there, tt)
      go (some r) e = (there, found-IsOther run_id s apart there e)

  replaced-Leaves :
      (run_id : String) (patch : PayrollRunRecord → PayrollRunRecord)
      → (run_id =ₛ id) ≡ false
      → ((r : PayrollRunRecord) → (patch r).id ≡ r.id)
      → (s : Store) (o : Option PayrollRunRecord) → get_run run_id s ≡ o
      → IsThere s
      → IsThere (replaced run_id patch o s).1 × OkIs IsOther (replaced run_id patch o s).0
  replaced-Leaves run_id patch apart k s none e there = (there, tt)
  replaced-Leaves run_id patch apart k s (some r) e there = (
    (
      Dict.All-insert (λ e. e.1.id ≡ e.0) run_id (patch r) s.runs there.0
          (k r ∙ Dict.All-lookup (λ e. e.1.id ≡ e.0) run_id s.runs there.0 e),
      Dict.lookup-insert_other run_id id (patch r) s.runs apart ∙ there.1,
    ),
    ap (λ z. z =ₛ id) (k r) ∙ found-IsOther run_id s apart there e,
  )

  pub update_run-Leaves :
      (run_id : String) (patch : PayrollRunRecord → PayrollRunRecord)
      → (run_id =ₛ id) ≡ false
      → ((r : PayrollRunRecord) → (patch r).id ≡ r.id)
      → Leaves IsOther (update_run run_id patch)
  unfolding Leaves update_run
  update_run-Leaves run_id patch apart k s there =
      replaced-Leaves run_id patch apart k s (get_run run_id s) refl there

  pub set_run_items-Leaves :
      (run_id : String) (items : List PayrollRunItemRecord)
      → (run_id =ₛ id) ≡ false
      → Leaves IsOther (set_run_items run_id items)
  unfolding Leaves set_run_items
  set_run_items-Leaves run_id items apart s there =
      replaced-Leaves run_id (with_items items) apart (λ r. refl) s (get_run run_id s) refl there

  pub transition-Leaves :
      (r : PayrollRunRecord) (target : PayrollRunState) (actor : String)
      → IsOther r
      → Leaves IsOther (transition r target actor)
  unfolding transition
  transition-Leaves r target actor other =
      Leaves->> IsOther (throw_when _ _) (move r target actor) (Leaves-throw_when _ _) (
        Leaves->>= IsOther IsOther (update_run r.id (λ q. record q { status = target })) _
          (update_run-Leaves r.id (λ q. record q { status = target }) other (λ q. refl))
          (λ updated same.
            Leaves->> IsOther (modify (append_audit_log actor r.id (moved r.status target)))
              (returns updated)
              (Leaves-modify (append_audit_log actor r.id (moved r.status target)) (λ s. refl))
              (Leaves-returns IsOther updated same)))
