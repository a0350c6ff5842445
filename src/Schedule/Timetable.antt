-- ===== src/Schedule/Timetable.antt =====
-- Every operation of the schedule service keeps the stored timetable free of clashes.
use openlms.Base.{
  ℕ, ◌<◌, ◌≡◌, ◌≢◌, refl, sym, ap, subst, ◌∙◌, ◌⊎◌, inl, inr, not, List, [], ◌∷◌, ◌++◌, map, none,
  some, String, arith, ==_iff, ◌==◌, ◌=ₛ◌, filter, In, In-append, In-filter, filter-In, In-map,
  map-In,
}
use openlms.Base.Result.{ok}
use openlms.Roles.{RequestContext}
use openlms.Schedule.{
  ScheduleSlot, ScheduleConflict, ScheduleConflictType, teacher, room, class, range, find_conflicts,
}
use openlms.Schedule.Clashes.{IsProper, Meet, SameSlot, Uses, AllProper, find_conflicts_iff}
use openlms.Schedule.Service.{
  ScheduleEntry, CreateScheduleDto, Masters, Store, slot_of, to_slot, assert_period_order,
  load_day_entries, new_entry, create_schedule, remove_schedule,
}

-- Two slots of one day that share a period and a teacher, a named room or a class.
pub record Clashing (a b : ScheduleSlot) : Type 0 where
  pub day : a.day_of_week ≡ b.day_of_week
  pub period : Meet (range a) (range b)
  pub type : ScheduleConflictType
  pub resource : String
  pub left : Uses type resource a
  pub right : Uses type resource b

pub Clashing-symm : {a b : ScheduleSlot} → Clashing a b → Clashing b a
Clashing-symm c = record {
  day = sym c.day;
  period = (c.period.0, c.period.2, c.period.1);
  type = c.type;
  resource = c.resource;
  left = c.right;
  right = c.left;
}

pub Uses_transfer :
    (t : ScheduleConflictType) (r : String) (a b : ScheduleSlot)
    → a.teacher_id ≡ b.teacher_id
    → a.class_id ≡ b.class_id
    → (a.room ≡ some r → r ≢ "" → b.room ≡ some r)
    → Uses t r a
    → Uses t r b
Uses_transfer teacher r a b p q s u = sym p ∙ u
Uses_transfer room r a b p q s (u, n) = (s u n, n)
Uses_transfer class r a b p q s u = sym q ∙ u

-- Rows with at least one period each, of distinct ids, no two of which clash.
pub record IsTimetable (es : List ScheduleEntry) : Type 0 where
  pub proper : (e : ScheduleEntry) → In e es → e.start_period < e.end_period
  pub unique : (e f : ScheduleEntry) → In e es → In f es → e.id ≡ f.id → e ≡ f
  pub clear :
      (e f : ScheduleEntry) → In e es → In f es → e.id ≢ f.id → ¬ Clashing (slot_of e) (slot_of f)

AllProper-of_In :
    (ss : List ScheduleSlot) → ((s : ScheduleSlot) → In s ss → IsProper (range s)) → AllProper ss
AllProper-of_In [] h = tt
AllProper-of_In (s ∷ ss) h = (h s (inl refl), AllProper-of_In ss (λ x m. h x (inr m)))

module _ (store : Store) (day : ℕ) (v : IsTimetable store.entries) where
  load_day_entries-AllProper : AllProper (load_day_entries day store)
  unfolding load_day_entries
  load_day_entries-AllProper =
      AllProper-of_In (map slot_of (filter (λ e. e.day_of_week == day) store.entries)) λ s m.
        let (e, i, same) = In-map slot_of s (filter (λ e. e.day_of_week == day) store.entries) m in
        subst (λ x. IsProper (range x)) (sym same)
          (v.proper e (In-filter (λ e. e.day_of_week == day) e store.entries i).0)

  load_day_entries-In :
      (e : ScheduleEntry)
      → In e store.entries
      → e.day_of_week ≡ day
      → In (slot_of e) (load_day_entries day store)
  unfolding load_day_entries
  load_day_entries-In e m d =
      map-In slot_of e (filter (λ f. f.day_of_week == day) store.entries)
        (filter-In (λ f. f.day_of_week == day) e store.entries m ((==_iff e.day_of_week day).1 d))

  -- A candidate without conflicts on its day clashes with no other stored row.
  pub no_conflicts-clear :
      (c : ScheduleSlot)
      → IsProper (range c)
      → c.day_of_week ≡ day
      → find_conflicts (load_day_entries day store) c ≡ []
      → (e : ScheduleEntry) → In e store.entries
      → ¬ SameSlot (slot_of e) c
      → ¬ Clashing (slot_of e) c
  no_conflicts-clear c pc d free e m other clash =
      let k : ScheduleConflict = record {
        type = clash.type;
        ref_id = clash.resource;
        conflict_id = e.id;
      } in
      subst (In k) free (
        (find_conflicts_iff (load_day_entries day store) c k load_day_entries-AllProper pc).1 (
          slot_of e,
          load_day_entries-In e m (clash.day ∙ d),
          record {
            coincide = record { other = other; day = clash.day; period = clash.period };
            stored = clash.left;
            wanted = clash.right;
            named = refl;
          },
        ))

module _ (masters : Masters) (dto : CreateScheduleDto) (ctx : RequestContext) (id : String) where
  create_schedule-eq-ok :
      (store : Store) {e : ScheduleEntry} {after : Store}
      → create_schedule masters dto ctx id store ≡ ok (e, after)
      → (dto.start_period < dto.end_period)
        × (find_conflicts (load_day_entries dto.day_of_week store) (to_slot dto none) ≡ [])
        × (after.entries ≡ store.entries ++ new_entry masters dto id ∷ [])
  unfolding create_schedule assert_period_order
  create_schedule-eq-ok store h = ground arith

-- A row joins the timetable: its id is new, and it clashes with no row that is there.
IsTimetable-append :
    (es : List ScheduleEntry) (n : ScheduleEntry)
    → IsTimetable es
    → n.start_period < n.end_period
    → ((e : ScheduleEntry) → In e es → e.id ≢ n.id)
    → ((e : ScheduleEntry) → In e es → ¬ Clashing (slot_of e) (slot_of n))
    → IsTimetable (es ++ n ∷ [])
IsTimetable-append es n v pn fresh free = record {
  proper = λ e m. elim (member e m) [ inl old ↦ v.proper e old | inr same ↦ rw same pn ];
  unique = λ e f m k s. elim (member e m) [
    | inl old ↦ elim (member f k) [
      | inl old' ↦ v.unique e f old old' s
      | inr new ↦ absurd (fresh e old (s ∙ ap (λ x. x.id) new))
    ]
    | inr new ↦ elim (member f k) [
      | inl old ↦ absurd (fresh f old (sym s ∙ ap (λ x. x.id) new))
      | inr new' ↦ new ∙ sym new'
    ]
  ];
  clear = λ e f m k d c. elim (member e m) [
    | inl old ↦ elim (member f k) [
      | inl old' ↦ v.clear e f old old' d c
      | inr new ↦ free e old (subst (λ x. Clashing (slot_of e) (slot_of x)) new c)
    ]
    | inr new ↦ elim (member f k) [
      | inl old ↦ free f old (Clashing-symm (subst (λ x. Clashing (slot_of x) (slot_of f)) new c))
      | inr new' ↦ d (ap (λ x. x.id) (new ∙ sym new'))
    ]
  ];
}
  where
    member : (e : ScheduleEntry) → In e (es ++ n ∷ []) → In e es ⊎ (e ≡ n)
    member e m = elim (In-append e es (n ∷ []) m) [
      | inl old ↦ inl old
      | inr (inl new) ↦ inr new
      | inr (inr nowhere) ↦ absurd nowhere
    ]

-- Creating a slot keeps the timetable free of clashes, whenever it succeeds and the id that the
-- database draws is new.
pub create_schedule-IsTimetable :
    (masters : Masters) (dto : CreateScheduleDto) (ctx : RequestContext) (id : String)
    (store : Store) {e : ScheduleEntry} {after : Store}
    → IsTimetable store.entries
    → ((f : ScheduleEntry) → In f store.entries → f.id ≢ id)
    → create_schedule masters dto ctx id store ≡ ok (e, after)
    → IsTimetable after.entries
create_schedule-IsTimetable masters dto ctx id store v fresh h =
    let (order, free, rows) = create_schedule-eq-ok masters dto ctx id store h in
    rw rows (
      IsTimetable-append store.entries (new_entry masters dto id) v order fresh λ e m c.
        no_conflicts-clear store dto.day_of_week v (to_slot dto none) order refl free e m
          (λ (i, p, q). cc)
          (record {
            day = c.day;
            period = c.period;
            type = c.type;
            resource = c.resource;
            left = c.left;
            right =
                Uses_transfer c.type c.resource (slot_of (new_entry masters dto id))
                  (to_slot dto none) refl refl (λ p _. p) c.right;
          }))

-- Removing a slot keeps the timetable free of clashes.
remove_schedule-IsTimetable :
    (id : String) (ctx : RequestContext) (store : Store) {i : String} {after : Store}
    → IsTimetable store.entries
    → remove_schedule id ctx store ≡ ok (i, after)
    → IsTimetable after.entries
unfolding remove_schedule
remove_schedule-IsTimetable id ctx store {after} v h = rw rows (record {
  proper = λ e m. v.proper e (kept e m);
  unique = λ e f m k. v.unique e f (kept e m) (kept f k);
  clear = λ e f m k. v.clear e f (kept e m) (kept f k);
})
  where
    rows : after.entries ≡ filter (λ e. not (e.id =ₛ id)) store.entries
    rows = ground arith

    kept :
        (e : ScheduleEntry)
        → In e (filter (λ f. not (f.id =ₛ id)) store.entries)
        → In e store.entries
    kept e m = (In-filter (λ f. not (f.id =ₛ id)) e store.entries m).0
