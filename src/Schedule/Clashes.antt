-- ===== src/Schedule/Clashes.antt =====
-- Which slots `find_conflicts` reports, against a description of a clash by shared periods.
use openlms.Base.{
  ℕ, ◌≤◌, ◌<◌, ◌≡◌, ◌≢◌, refl, sym, ap, subst, ◌∙◌, ◌↔◌, ◌⊎◌, inl, inr, Bool, true, false, List, [],
  ◌∷◌, ◌++◌, Option, none, some, String, arith, eq_iff, leb, if◌then◌else◌, Bool-cases, In,
  In-append, In-append_left, In-append_right, not, ◌==◌, ◌=ₛ◌, ◌&&◌,
}
use openlms.Schedule.{
  PeriodRange, periods_overlap, ScheduleSlot, ScheduleConflict, ScheduleConflictType, teacher, room,
  class, same_id, same_room, text_or_empty, range, push_if, conflicts_with, find_conflicts,
}

abbrev pub Covers : PeriodRange → ℕ → Type 0
Covers a p = (a.start ≤ p) × (p < a.end)

abbrev pub IsProper : PeriodRange → Type 0
IsProper a = a.start < a.end

abbrev pub Meet : PeriodRange → PeriodRange → Type 0
Meet a b = (p : ℕ) × Covers a p × Covers b p

-- Two ranges that hold at least one period each overlap exactly if some period lies in both.
pub periods_overlap_iff :
    (a b : PeriodRange) → IsProper a → IsProper b → (periods_overlap a b ≡ true) ↔ Meet a b
unfolding periods_overlap
periods_overlap_iff a b ha hb = (
  λ h. (
    if leb a.start b.start then b.start else a.start,
    (ground arith, ground arith),
    (ground arith, ground arith),
  ),
  λ (p, ca, cb). ground arith,
)

-- The slot with this id is the candidate itself, as stored.
abbrev pub SameSlot : ScheduleSlot → ScheduleSlot → Type 0
SameSlot e c = (i : String) × (e.id ≡ some i) × (c.id ≡ some i)

-- The slot needs the teacher, the named room or the class `r`.
abbrev pub Uses : ScheduleConflictType → String → ScheduleSlot → Type 0
Uses teacher r s = s.teacher_id ≡ r
Uses room r s = (s.room ≡ some r) × (r ≢ "")
Uses class r s = s.class_id ≡ r

-- Slots of one day, not one and the same, that share a period.
pub record Coincide (c e : ScheduleSlot) : Type 0 where
  pub other : ¬ SameSlot e c
  pub day : e.day_of_week ≡ c.day_of_week
  pub period : Meet (range e) (range c)

pub record Clash (c e : ScheduleSlot) (k : ScheduleConflict) : Type 0 where
  pub coincide : Coincide c e
  pub stored : Uses k.type k.ref_id e
  pub wanted : Uses k.type k.ref_id c
  pub named : k.conflict_id ≡ text_or_empty e.id

same_id_iff :
    (i j : Option String) → (same_id i j ≡ true) ↔ ((a : String) × (i ≡ some a) × (j ≡ some a))
same_id_iff none none = (λ h. cc, λ h. cc)
same_id_iff none (some b) = (λ h. cc, λ (a, p, q). cc)
same_id_iff (some a) none = (λ h. cc, λ (a, p, q). cc)
same_id_iff (some a) (some b) =
    (λ h. (a, refl, ground (arith, eq_iff a b)), λ (x, p, q). (eq_iff a b).1 (ground arith))

same_room_iff :
    (i j : Option String)
    → (same_room i j ≡ true) ↔ ((a : String) × (j ≡ some a) × (i ≡ some a) × (a ≢ ""))
same_room_iff none none = (λ h. cc, λ (a, p, q, n). cc)
same_room_iff none (some b) = (λ h. cc, λ (a, p, q, n). cc)
same_room_iff (some a) none = (λ h. cc, λ (a, p, q, n). cc)
same_room_iff (some c) (some e) = (
  λ h. (c, ground (arith, eq_iff e c), refl, ground (arith, eq_iff c "")),
  λ (x, p, q, n). ground (arith, eq_iff e c, eq_iff c "", eq_iff x ""),
)

-- The three tests that a pair of slots passes before its resources are compared.
abbrev coincides : ScheduleSlot → ScheduleSlot → Bool
coincides c e =
    not (same_id e.id c.id)
    && (e.day_of_week == c.day_of_week && periods_overlap (range e) (range c))

module _ (c e : ScheduleSlot) (pc : IsProper (range c)) (pe : IsProper (range e)) where
  coincides_iff : (coincides c e ≡ true) ↔ Coincide c e
  coincides_iff = (
    λ h. record {
      other = λ s. let t : same_id e.id c.id ≡ true = (same_id_iff e.id c.id).1 s in ground arith;
      day = ground arith;
      period = (periods_overlap_iff (range e) (range c) pe pc).0 (ground arith);
    },
    λ k. pass k (Bool-cases (same_id e.id c.id)),
  )
    where
      pass :
          Coincide c e
          → (same_id e.id c.id ≡ true) ⊎ (same_id e.id c.id ≡ false)
          → coincides c e ≡ true
      pass k (inl s) = absurd (k.other ((same_id_iff e.id c.id).0 s))
      pass k (inr s) =
          ground (arith, k.day, (periods_overlap_iff (range e) (range c) pe pc).1 k.period)

abbrev by_teacher : ScheduleSlot → ScheduleSlot → List ScheduleConflict
by_teacher c e = push_if (e.teacher_id =ₛ c.teacher_id) teacher e.teacher_id e

abbrev by_room : ScheduleSlot → ScheduleSlot → List ScheduleConflict
by_room c e = push_if (same_room c.room e.room) room (text_or_empty e.room) e

abbrev by_class : ScheduleSlot → ScheduleSlot → List ScheduleConflict
by_class c e = push_if (e.class_id =ₛ c.class_id) class e.class_id e

module _ (c e : ScheduleSlot) (k : ScheduleConflict) where
  In-push_if :
      (test : Bool) (t : ScheduleConflictType) (r : String)
      → In k (push_if test t r e)
      → (test ≡ true) × (k.type ≡ t) × (k.ref_id ≡ r) × (k.conflict_id ≡ text_or_empty e.id)
  In-push_if true t r (inl m) = ground arith
  In-push_if true t r (inr m) = absurd m
  In-push_if false t r m = absurd m

  push_if-In :
      (test : Bool) (t : ScheduleConflictType) (r : String)
      → test ≡ true
      → k.type ≡ t
      → k.ref_id ≡ r
      → k.conflict_id ≡ text_or_empty e.id
      → In k (push_if test t r e)
  push_if-In true t r h p q n = inl (λ i. record { type = p i; ref_id = q i; conflict_id = n i })
  push_if-In false t r h p q n = cc

  Listed : Type 0
  Listed = Uses k.type k.ref_id e × Uses k.type k.ref_id c × (k.conflict_id ≡ text_or_empty e.id)

  -- The resources that two slots share, as the code compares them.
  shared : List ScheduleConflict
  shared = by_teacher c e ++ (by_room c e ++ by_class c e)

  shared-Listed : In k shared → Listed
  unfolding shared Listed
  shared-Listed m = elim (In-append k (by_teacher c e) _ m) [
    | inl m1 ↦
        let (t, p, q, n) = In-push_if (e.teacher_id =ₛ c.teacher_id) teacher e.teacher_id m1 in
        rw (p, q) (refl, sym ((eq_iff _ _).0 t), n)
    | inr m' ↦ elim (In-append k (by_room c e) _ m') [
      | inl m2 ↦
          let (t, p, q, n) = In-push_if (same_room c.room e.room) room _ m2 in
          let (a, x, y, z) = (same_room_iff c.room e.room).0 t in
          let r : k.ref_id ≡ a = q ∙ ap text_or_empty x in rw (p, r) ((x, z), (y, z), n)
      | inr m3 ↦
          let (t, p, q, n) = In-push_if (e.class_id =ₛ c.class_id) class e.class_id m3 in
          rw (p, q) (refl, sym ((eq_iff _ _).0 t), n)
    ]
  ]

  Listed-shared : Listed → In k shared
  unfolding shared Listed
  Listed-shared (u, v, n) = go k.type refl u v
    where
      go :
          (t : ScheduleConflictType)
          → k.type ≡ t
          → Uses t k.ref_id e
          → Uses t k.ref_id c
          → In k (by_teacher c e ++ (by_room c e ++ by_class c e))
      go teacher p x y =
          let same : (e.teacher_id =ₛ c.teacher_id) ≡ true = (eq_iff _ _).1 (x ∙ sym y) in
          In-append_left k (by_teacher c e) _
            (push_if-In (e.teacher_id =ₛ c.teacher_id) teacher e.teacher_id same p (sym x) n)
      go room p (x, z) (y, _) =
          let same : same_room c.room e.room ≡ true =
            (same_room_iff c.room e.room).1 (k.ref_id, x, y, z) in
          In-append_right k (by_teacher c e) _ (
            In-append_left k (by_room c e) _ (
              push_if-In (same_room c.room e.room) room (text_or_empty e.room) same p
                (sym (ap text_or_empty x)) n))
      go class p x y =
          let same : (e.class_id =ₛ c.class_id) ≡ true = (eq_iff _ _).1 (x ∙ sym y) in
          In-append_right k (by_teacher c e) _ (
            In-append_right k (by_room c e) _
              (push_if-In (e.class_id =ₛ c.class_id) class e.class_id same p (sym x) n))

  conflicts_with-eq_if : conflicts_with c e ≡ (if coincides c e then shared else [])
  unfolding conflicts_with shared
  conflicts_with-eq_if = elim (Bool-cases (same_id e.id c.id)) [
    | inl s ↦ rw s
    | inr s ↦ rw s (elim (Bool-cases (e.day_of_week == c.day_of_week)) [
      | inl d ↦
          rw d (elim (Bool-cases (periods_overlap (range e) (range c))) [
            | inl o ↦ rw o
            | inr o ↦ rw o
          ])
      | inr d ↦ rw d
    ])
  ]

  -- The pair adds a conflict exactly where it is a clash.
  conflicts_with_iff :
      IsProper (range c) → IsProper (range e) → In k (conflicts_with c e) ↔ Clash c e k
  unfolding Listed
  conflicts_with_iff pc pe = (
    λ m. elim (Bool-cases (coincides c e)) [
      | inl t ↦
          let (u, v, n) = shared-Listed (rw (conflicts_with-eq_if, t) at m) in
          record { coincide = (coincides_iff c e pc pe).0 t; stored = u; wanted = v; named = n }
      | inr t ↦ absurd (rw (conflicts_with-eq_if, t) at m)
    ],
    λ h.
        rw (conflicts_with-eq_if, (coincides_iff c e pc pe).1 h.coincide)
          (Listed-shared (h.stored, h.wanted, h.named)),
  )

abbrev pub AllProper : List ScheduleSlot → Type 0
AllProper [] = Unit
AllProper (e ∷ es) = IsProper (range e) × AllProper es

-- `find_conflicts` reports exactly the clashes: for slots that hold at least one period each, a
-- conflict is in the list if and only if some stored slot, other than the candidate itself, shares
-- a day and a period with it, and both need the teacher, the named room or the class it names.
pub find_conflicts_iff :
    (entries : List ScheduleSlot) (c : ScheduleSlot) (k : ScheduleConflict)
    → AllProper entries
    → IsProper (range c)
    → In k (find_conflicts entries c) ↔ ((e : ScheduleSlot) × In e entries × Clash c e k)
unfolding find_conflicts
find_conflicts_iff [] c k pes pc = (λ m. absurd m, λ (e, m, h). absurd m)
find_conflicts_iff (e ∷ es) c k (pe, pes) pc = (
  λ m. elim (In-append k (conflicts_with c e) (find_conflicts es c) m) [
    | inl here ↦ (e, inl refl, (conflicts_with_iff c e k pc pe).0 here)
    | inr later ↦ let (f, i, h) = (find_conflicts_iff es c k pes pc).0 later in (f, inr i, h)
  ],
  λ (f, i, h). elim i [
    | inl same ↦
        In-append_left k (conflicts_with c e) _
          ((conflicts_with_iff c e k pc pe).1 (subst (λ x. Clash c x k) same h))
    | inr later ↦
        In-append_right k (conflicts_with c e) _
          ((find_conflicts_iff es c k pes pc).1 (f, later, h))
  ],
)
