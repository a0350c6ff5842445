-- ===== src/Payroll/Run/Ledger.antt =====
-- What stays true of the payroll store: PayrollRunService in
-- apps/api/src/modules/payroll/services/payroll-run.service.ts.
use openlms.Base.{
  ◌≡◌, refl, ◌≢◌, sym, subst, Bool, not, true, false, List, [], ◌∷◌, map, any, Option, none, some,
  String, length, All, All-append,
}
use openlms.Base.Dict
use openlms.Base.Dict.{Dict, text_keys}
use openlms.Base.Int.{sum}
use openlms.Base.Action.{
  Keeps-at, Keeps->>, Keeps-modify, Keeps-returns, Keeps, Keeps->>=, ◌>>◌, throw_when, modify,
  returns,
}
use openlms.Payroll.Store.{
  PayrollRunState, Store, AuditNote, made, moved, checked, PayrollRunRecord, with_items, Error,
  get_run, set_run, replaced, not_allowed, PayrollRunItemRecord, update_run, set_run_items,
  append_audit_log,
}
use openlms.Payroll.Run.{is_state, valid_transitions, move, transition}

-- The totals of a run are those of its items, and it stands under its id.
abbrev pub IsSummed : String × PayrollRunRecord → Type 0
IsSummed (id, run) =
    (run.id ≡ id)
    × (run.staff_count ≡ length run.items)
    × (run.total_gross ≡ sum (map (λ i. i.gross) run.items))
    × (run.total_deductions ≡ sum (map (λ i. i.total_deductions) run.items))
    × (run.total_net ≡ sum (map (λ i. i.net) run.items))

abbrev pub AllDiffer : List String → Type 0
AllDiffer [] = Unit
AllDiffer (p ∷ ps) = All (λ q. p ≢ q) ps × AllDiffer ps

abbrev pub periods : Store → List String
periods store = map (λ r. r.period) (Dict.values store.runs)

-- A recorded move is one of the allowed transitions.
abbrev pub IsAllowed : AuditNote → Type 0
IsAllowed made = Unit
IsAllowed (checked ws) = Unit
IsAllowed (moved from to) = any (is_state to) (valid_transitions from) ≡ true

-- Every run is summed up, no two runs have one period, and the log has allowed moves only.
abbrev pub IsLedger : Store → Type 0
IsLedger store =
    All IsSummed store.runs
    × AllDiffer (periods store)
    × All (λ a. IsAllowed a.note) store.audit_logs

set_run-IsLedger :
    (id : String) (run old : PayrollRunRecord) (store : Store)
    → get_run id store ≡ some old
    → run.period ≡ old.period
    → IsSummed (id, run)
    → IsLedger store
    → IsLedger (set_run id run store)
set_run-IsLedger id run old store l p s (h, d, a) = (
  Dict.All-insert IsSummed id run store.runs h s,
  subst AllDiffer (sym (Dict.map-values-insert (λ r. r.period) id run store.runs l p)) d,
  a,
)

replaced-IsLedger :
    (id : String) (patch : PayrollRunRecord → PayrollRunRecord)
    → ((r : PayrollRunRecord) → (patch r).period ≡ r.period)
    → ((r : PayrollRunRecord) → IsSummed (id, r) → IsSummed (id, patch r))
    → (store : Store) (o : Option PayrollRunRecord) → get_run id store ≡ o
    → IsLedger store
    → IsLedger (replaced id patch o store).1
replaced-IsLedger id patch p s store none e h = h
replaced-IsLedger id patch p s store (some old) e h =
    set_run-IsLedger id (patch old) old store e (p old)
      (s old (Dict.All-lookup IsSummed id store.runs h.0 e)) h

pub update_run-IsLedger :
    (id : String) (patch : PayrollRunRecord → PayrollRunRecord)
    → ((r : PayrollRunRecord) → (patch r).period ≡ r.period)
    → ((r : PayrollRunRecord) → IsSummed (id, r) → IsSummed (id, patch r))
    → Keeps IsLedger (update_run id patch)
unfolding update_run Keeps
update_run-IsLedger id patch p s store h =
    replaced-IsLedger id patch p s store (get_run id store) refl h

pub set_run_items-IsLedger :
    (id : String) (items : List PayrollRunItemRecord) → Keeps IsLedger (set_run_items id items)
unfolding set_run_items Keeps
set_run_items-IsLedger id items store h =
    replaced-IsLedger id (with_items items) (λ r. refl) (λ r s. (s.0, refl, refl, refl, refl)) store
      (get_run id store) refl h

pub append_audit_log-IsLedger :
    (actor id : String) (note : AuditNote)
    → IsAllowed note
    → (store : Store) → IsLedger store
    → IsLedger (append_audit_log actor id note store)
append_audit_log-IsLedger actor id note ok store (h, d, a) =
    (h, d, All-append (λ x. IsAllowed x.note) store.audit_logs (_ ∷ []) a (ok, tt))

moved-IsLedger :
    (run : PayrollRunRecord) (target : PayrollRunState) (actor : String) (b : Bool)
    → any (is_state target) (valid_transitions run.status) ≡ b
    → Keeps IsLedger (throw_when (not b) (not_allowed run.status target) >> move run target actor)
unfolding Keeps
moved-IsLedger run target actor false e store h = h
moved-IsLedger run target actor true e store h =
    Keeps-at IsLedger (move run target actor) store
      (Keeps->>= IsLedger (update_run run.id (λ r. record r { status = target }))
        (λ updated.
          modify (append_audit_log actor run.id (moved run.status target)) >> returns updated)
        (update_run-IsLedger run.id (λ r. record r { status = target }) (λ r. refl) (λ r s. s))
        (λ updated.
          Keeps->> {E = Error} IsLedger
            (modify (append_audit_log actor run.id (moved run.status target))) (returns updated)
            (Keeps-modify Error IsLedger (append_audit_log actor run.id (moved run.status target))
              (append_audit_log-IsLedger actor run.id (moved run.status target) e))
            (Keeps-returns Error IsLedger updated)))
      h

pub transition-IsLedger :
    (run : PayrollRunRecord) (target : PayrollRunState) (actor : String)
    → Keeps IsLedger (transition run target actor)
unfolding transition
transition-IsLedger run target actor =
    moved-IsLedger run target actor (any (is_state target) (valid_transitions run.status)) refl
