-- ===== src/Payroll/Items/Newest.antt =====
-- The salary structure that a run uses: `listActiveSalaryStructures` of
-- apps/api/src/modules/payroll/payroll.store.ts and the loop over its result in `calculate`.
use openlms.Base.{
  any_of_In, ◌≡◌, refl, sym, ◌∙◌, ap, ℕ, Bool, true, false, not, ◌&&◌, List, [], ◌∷◌, Option, none,
  some, String, arith, any, filter, In, inl, inr, ◌⊎◌, In-filter, filter-In, Bool-cases, ◌=ₛ◌,
  eq_iff, if◌then◌else◌,
}
use openlms.Base.Dict
use openlms.Base.Dict.{Dict, text_keys}
use openlms.Base.Texts.{codes, before_codes, text_before}
use openlms.Payroll.Store.{Store, SalaryStructureRecord}
use openlms.Payroll.Items.{
  sorts_before, insert_sorted, sorted, list_active_salary_structures, keep_newer, newest,
}

before_codes_trans :
    (s t u : List ℕ) → before_codes s t ≡ true → before_codes t u ≡ true → before_codes s u ≡ true
before_codes_trans s t [] h k = ground arith
before_codes_trans s [] (c ∷ u) h k = ground arith
before_codes_trans [] (b ∷ t) (c ∷ u) h k = refl
before_codes_trans (a ∷ s) (b ∷ t) (c ∷ u) h k = ground (arith, before_codes_trans s t u)

before_codes_irrefl : (s : List ℕ) → before_codes s s ≡ false
before_codes_irrefl [] = refl
before_codes_irrefl (a ∷ s) = ground (arith, before_codes_irrefl s)

-- What is not before the older is not before the newer.
not_before_newer :
    (old new other : List ℕ)
    → before_codes old other ≡ false
    → before_codes old new ≡ true
    → before_codes new other ≡ false
not_before_newer old new other h k = elim (Bool-cases (before_codes new other)) [
  | inl t ↦ let far = before_codes_trans old new other k t in ground arith
  | inr f ↦ f
]

module _ (staff_id : String) where
  -- The loop of `calculate` for one member of staff.
  pick_step : SalaryStructureRecord → Option SalaryStructureRecord → Option SalaryStructureRecord
  pick_step s none = if s.staff_id =ₛ staff_id then some s else none
  pick_step s (some c) =
      if s.staff_id =ₛ staff_id && text_before c.effective_from s.effective_from
      then some s
      else some c

  pick : List SalaryStructureRecord → Option SalaryStructureRecord → Option SalaryStructureRecord
  pick [] o = o
  pick (s ∷ ss) o = pick ss (pick_step s o)

  lookup-keep_newer :
      (s : SalaryStructureRecord) (m : Dict String SalaryStructureRecord)
      → Dict.lookup staff_id (keep_newer s m) ≡ pick_step s (Dict.lookup staff_id m)
  unfolding keep_newer pick_step
  lookup-keep_newer s m = elim (Bool-cases (s.staff_id =ₛ staff_id)) [
    | inl t ↦
        let same : s.staff_id ≡ staff_id = (eq_iff s.staff_id staff_id).0 t in
        ground (
          arith,
          ap (λ k. Dict.lookup k m) same,
          eq_iff staff_id s.staff_id,
          Dict.lookup-insert s.staff_id staff_id s m,
        )
    | inr f ↦ ground (
      arith,
      eq_iff staff_id s.staff_id,
      eq_iff s.staff_id staff_id,
      Dict.lookup-insert s.staff_id staff_id s m,
    )
  ]

  lookup-newest :
      (ss : List SalaryStructureRecord) (m : Dict String SalaryStructureRecord)
      → Dict.lookup staff_id (newest ss m) ≡ pick ss (Dict.lookup staff_id m)
  unfolding newest pick
  lookup-newest [] m = refl
  lookup-newest (s ∷ ss) m =
      lookup-newest ss (keep_newer s m) ∙ ap (pick ss) (lookup-keep_newer s m)

  -- What was picked so far is only given up for something newer.
  pick-newer :
      (ss : List SalaryStructureRecord) (current : SalaryStructureRecord)
      (t : SalaryStructureRecord)
      → text_before current.effective_from t.effective_from ≡ false
      → (s : SalaryStructureRecord) × (pick ss (some current) ≡ some s)
        × (text_before s.effective_from t.effective_from ≡ false)
  unfolding pick pick_step
  pick-newer [] current t h = (current, refl, h)
  pick-newer (s ∷ ss) current t h =
      elim (Bool-cases
        (s.staff_id =ₛ staff_id && text_before current.effective_from s.effective_from)) [
          | inl e ↦ rw e (
              pick-newer ss s t (
                not_before_newer (codes current.effective_from) (codes s.effective_from)
                  (codes t.effective_from) h (ground arith)))
          | inr e ↦ rw e (pick-newer ss current t h)
        ]

  pick_step_self :
      (t : SalaryStructureRecord) (o : Option SalaryStructureRecord)
      → t.staff_id ≡ staff_id
      → (c : SalaryStructureRecord) × (pick_step t o ≡ some c)
        × (text_before c.effective_from t.effective_from ≡ false)
  unfolding pick_step
  pick_step_self t none e = (
    t,
    ground (arith, (eq_iff t.staff_id staff_id).1 e),
    before_codes_irrefl (codes t.effective_from),
  )
  pick_step_self t (some c) e = elim (Bool-cases (text_before c.effective_from t.effective_from)) [
    | inl b ↦ (
      t,
      ground (arith, (eq_iff t.staff_id staff_id).1 e),
      before_codes_irrefl (codes t.effective_from),
    )
    | inr b ↦ (c, ground (arith, (eq_iff t.staff_id staff_id).1 e), b)
  ]

  pick-newest :
      (ss : List SalaryStructureRecord) (o : Option SalaryStructureRecord)
      (t : SalaryStructureRecord)
      → In t ss
      → t.staff_id ≡ staff_id
      → (s : SalaryStructureRecord) × (pick ss o ≡ some s)
        × (text_before s.effective_from t.effective_from ≡ false)
  unfolding pick
  pick-newest [] o t m e = absurd m
  pick-newest (s ∷ ss) o t (inr m) e = pick-newest ss (pick_step s o) t m e
  pick-newest (s ∷ ss) o t (inl same) e =
      let (c, picked, fresh) = pick_step_self t o e in
      rw (sym same, picked) (pick-newer ss c t fresh)

  pick_step-In :
      (s : SalaryStructureRecord) (o : Option SalaryStructureRecord) {c : SalaryStructureRecord}
      → pick_step s o ≡ some c
      → ((c ≡ s) × (s.staff_id ≡ staff_id)) ⊎ (o ≡ some c)
  unfolding pick_step
  pick_step-In s none h = ground (arith, eq_iff s.staff_id staff_id)
  pick_step-In s (some d) h = ground (arith, eq_iff s.staff_id staff_id)

  pick-In :
      (ss : List SalaryStructureRecord) (o : Option SalaryStructureRecord)
      {c : SalaryStructureRecord}
      → pick ss o ≡ some c
      → (In c ss × (c.staff_id ≡ staff_id)) ⊎ (o ≡ some c)
  unfolding pick
  pick-In [] o h = inr h
  pick-In (s ∷ ss) o h = elim (pick-In ss (pick_step s o) h) [
    | inl (m, e) ↦ inl (inr m, e)
    | inr p ↦ elim (pick_step-In s o p) [
      | inl (same, e) ↦ inl (inl same, ap (λ r. r.staff_id) same ∙ e)
      | inr q ↦ inr q
    ]
  ]

In-insert_sorted :
    (c s : SalaryStructureRecord) (ss : List SalaryStructureRecord)
    → (In c (insert_sorted s ss) → (c ≡ s) ⊎ In c ss)
      × ((c ≡ s) ⊎ In c ss → In c (insert_sorted s ss))
unfolding insert_sorted
In-insert_sorted c s [] = ((λ m. m), (λ m. m))
In-insert_sorted c s (t ∷ ts) = elim (Bool-cases (sorts_before s t)) [
  | inl e ↦ rw e ((λ m. m), (λ m. m))
  | inr e ↦
      let (from, to) = In-insert_sorted c s ts in
      rw e ((λ m. swap_first from m), (λ m. swap_back to m))
]
  where
    swap_first :
        (In c (insert_sorted s ts) → (c ≡ s) ⊎ In c ts)
        → (c ≡ t) ⊎ In c (insert_sorted s ts)
        → (c ≡ s) ⊎ ((c ≡ t) ⊎ In c ts)
    swap_first from (inl e) = inr (inl e)
    swap_first from (inr m) = elim (from m) [ inl e ↦ inl e | inr k ↦ inr (inr k) ]

    swap_back :
        ((c ≡ s) ⊎ In c ts → In c (insert_sorted s ts))
        → (c ≡ s) ⊎ ((c ≡ t) ⊎ In c ts)
        → (c ≡ t) ⊎ In c (insert_sorted s ts)
    swap_back to (inl e) = inr (to (inl e))
    swap_back to (inr (inl e)) = inl e
    swap_back to (inr (inr m)) = inr (to (inr m))

In-sorted :
    (c : SalaryStructureRecord) (ss : List SalaryStructureRecord)
    → (In c (sorted ss) → In c ss) × (In c ss → In c (sorted ss))
unfolding sorted
In-sorted c [] = ((λ m. m), (λ m. m))
In-sorted c (s ∷ ss) =
    let (from, to) = In-insert_sorted c s (sorted ss) in
    let (below, above) = In-sorted c ss in
    (
      (λ m. elim (from m) [ inl e ↦ inl e | inr k ↦ inr (below k) ]),
      (λ m. to (elim m [ inl e ↦ inl e | inr k ↦ inr (above k) ])),
    )

-- Where a member of staff among those asked for has a salary structure that is in force in the
-- period, the run uses one: it is a stored structure of this member, in force in the period, and
-- the given one did not start later.
pub active_structure_newest :
    (staff_ids : List String) (staff_id period : String) (store : Store) (t : SalaryStructureRecord)
    → In staff_id staff_ids
    → In t store.salary_structures
    → t.staff_id ≡ staff_id
    → text_before period t.effective_from ≡ false
    → (s : SalaryStructureRecord) × (Dict.lookup staff_id
          (newest (list_active_salary_structures staff_ids period store) [])
        ≡ some s)
      × In s store.salary_structures
      × (s.staff_id ≡ staff_id)
      × (text_before period s.effective_from ≡ false)
      × (text_before s.effective_from t.effective_from ≡ false)
unfolding list_active_salary_structures Dict.lookup
active_structure_newest staff_ids staff_id period store t asked m e active =
    let test : SalaryStructureRecord → Bool =
      λ s. any (λ id. id =ₛ s.staff_id) staff_ids && not (text_before period s.effective_from) in
    let rows = filter test store.salary_structures in
    let known : any (λ id. id =ₛ t.staff_id) staff_ids ≡ true =
      any_of_In (λ id. id =ₛ t.staff_id) staff_id staff_ids asked
        ((eq_iff staff_id t.staff_id).1 (sym e)) in
    let found = filter-In test t store.salary_structures m (ground (arith, known, active)) in
    let (s, picked, newer) =
      pick-newest staff_id (sorted rows) none t ((In-sorted t rows).1 found) e in
    let chosen = lookup-newest staff_id (sorted rows) [] ∙ picked in
    elim (pick-In staff_id (sorted rows) none picked) [
      | inl (k, own) ↦
          let (stored, ok) = In-filter test s store.salary_structures ((In-sorted s rows).0 k) in
          (s, chosen, stored, own, ground (arith, ok), newer)
      | inr clash ↦ cc
    ]
