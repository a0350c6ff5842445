-- ===== src/Schedule/Update.antt =====
-- Updating a slot: `update` of apps/api/src/modules/lms/classes/schedules.service.ts.
use openlms.Base.{
  ◌<◌, ◌≡◌, ◌≢◌, refl, sym, ap, subst, ◌∙◌, ◌⊎◌, inl, inr, List, [], some, String, arith, eq_iff,
  ◌=ₛ◌, if◌then◌else◌, Bool-cases, Option-cases, In, In-map, find-eq-some,
}
use openlms.Base.Result.{ok}
use openlms.Roles.{RequestContext}
use openlms.Schedule.{find_conflicts}
use openlms.Schedule.Service.{
  ScheduleEntry, UpdateScheduleDto, Masters, Store, slot_of, to_slot, assert_period_order,
  load_day_entries, find_unique, merge, patch, update_where, update_schedule,
}
use openlms.Schedule.Timetable.{
  Clashing, Clashing-symm, Uses_transfer, IsTimetable, no_conflicts-clear,
}

module _ (id : String) (dto : UpdateScheduleDto) (ctx : RequestContext) (masters : Masters) where
  update_schedule-eq-ok :
      (store : Store) {e : ScheduleEntry} {after : Store}
      → update_schedule masters id dto ctx store ≡ ok (e, after)
      → (old : ScheduleEntry) × (find_unique id store ≡ some old)
        × ((merge dto old).start_period < (merge dto old).end_period)
        × (find_conflicts
              (load_day_entries (merge dto old).day_of_week store)
              (to_slot (merge dto old) (some id))
            ≡ [])
        × (after.entries ≡ update_where id dto store.entries)
  unfolding update_schedule assert_period_order
  update_schedule-eq-ok store h = elim (Option-cases (find_unique id store)) [
    | inl missing ↦ absurd (ground arith)
    | inr (old, found) ↦ (old, found, ground arith, ground arith, ground arith)
  ]

module _ (id : String) (dto : UpdateScheduleDto) (old : ScheduleEntry) where
  new_room-eq-some : (r : String) → (patch dto old).room ≡ some r → (merge dto old).room ≡ some r
  new_room-eq-some r h = ground arith

  Clashing-patch :
      (f : ScheduleEntry)
      → Clashing (slot_of f) (slot_of (patch dto old))
      → Clashing (slot_of f) (to_slot (merge dto old) (some id))
  Clashing-patch f c = record {
    day = c.day;
    period = c.period;
    type = c.type;
    resource = c.resource;
    left = c.left;
    right =
        Uses_transfer c.type c.resource (slot_of (patch dto old))
          (to_slot (merge dto old) (some id)) refl refl (λ p _. new_room-eq-some c.resource p)
          c.right;
  }

  -- The row of this id is replaced, and every other row stays.
  IsTimetable-update :
      (es : List ScheduleEntry)
      → IsTimetable es
      → In old es
      → old.id ≡ id
      → (patch dto old).start_period < (patch dto old).end_period
      → ((e : ScheduleEntry)
          → In e es
          → e.id ≢ id
          → ¬ Clashing (slot_of e) (slot_of (patch dto old)))
      → IsTimetable (update_where id dto es)
  IsTimetable-update es v mo eo po free = record {
    proper = λ e m. elim (member e m) [ inl (i, d) ↦ v.proper e i | inr same ↦ rw same po ];
    unique = λ e f m k s. elim (member e m) [
      | inl (i, d) ↦ elim (member f k) [
        | inl (j, _) ↦ v.unique e f i j s
        | inr new ↦ absurd (d (s ∙ ap (λ x. x.id) new ∙ eo))
      ]
      | inr new ↦ elim (member f k) [
        | inl (j, d) ↦ absurd (d (sym s ∙ ap (λ x. x.id) new ∙ eo))
        | inr new' ↦ new ∙ sym new'
      ]
    ];
    clear = λ e f m k d c. elim (member e m) [
      | inl (i, n) ↦ elim (member f k) [
        | inl (j, _) ↦ v.clear e f i j d c
        | inr new ↦ free e i n (subst (λ x. Clashing (slot_of e) (slot_of x)) new c)
      ]
      | inr new ↦ elim (member f k) [
        | inl (j, n) ↦
            free f j n (Clashing-symm (subst (λ x. Clashing (slot_of x) (slot_of f)) new c))
        | inr new' ↦ d (ap (λ x. x.id) (new ∙ sym new'))
      ]
    ];
  }
    where
      member :
          (e : ScheduleEntry)
          → In e (update_where id dto es)
          → (In e es × (e.id ≢ id)) ⊎ (e ≡ patch dto old)
      member e m =
          let (x, i, same) = In-map (λ g. if g.id =ₛ id then patch dto g else g) e es m in
          elim (Bool-cases (x.id =ₛ id)) [
            | inl t ↦
                let at : x.id ≡ id = (eq_iff x.id id).0 t in
                let is_old : x ≡ old = v.unique x old i mo (at ∙ sym eo) in
                inr ((rw t at same) ∙ ap (patch dto) is_old)
            | inr t ↦
                let kept : e ≡ x = rw t at same in
                inl (subst (λ y. In y es) (sym kept) i, λ z. ground (arith, eq_iff x.id id))
          ]

-- Updating a slot keeps the timetable free of clashes, whenever it succeeds; an empty room name
-- is stored as no room, and then needs no room.
pub update_schedule-IsTimetable :
    (masters : Masters) (id : String) (dto : UpdateScheduleDto) (ctx : RequestContext)
    (store : Store) {e : ScheduleEntry} {after : Store}
    → IsTimetable store.entries
    → update_schedule masters id dto ctx store ≡ ok (e, after)
    → IsTimetable after.entries
update_schedule-IsTimetable masters id dto ctx store v h =
    let (old, found, order, free, rows) = update_schedule-eq-ok id dto ctx masters store h in
    let (mo, t) = find-eq-some (λ x. x.id =ₛ id) store.entries found in
    rw rows (
      IsTimetable-update id dto old store.entries v mo ((eq_iff old.id id).0 t) order λ f m d c.
        no_conflicts-clear store (merge dto old).day_of_week v (to_slot (merge dto old) (some id))
          order refl free f m (λ (i, p, q). d (cc)) (Clashing-patch id dto old f c))
