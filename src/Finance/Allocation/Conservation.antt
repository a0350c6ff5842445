-- ===== src/Finance/Allocation/Conservation.antt =====
-- No money is lost or made: `allocatePayment` of
-- apps/api/src/modules/finance/calculator/payment-allocation.ts.
use openlms.Base.{◌≡◌, refl, ap, sym, ◌∙◌, List, [], ◌∷◌, map, arith, All, Bool-cases, inl, inr}
use openlms.Base.Int.{
  ℤ, pos, pos_part, neg_part, ◌+ℤ◌, ◌-ℤ◌, ◌≤ℤ◌, leb_ℤ, ltb_ℤ, eqb_ℤ, sum, sum-cons, +ℤ_parts,
  -ℤ_parts, eq_of_parts,
}
use openlms.Payroll.Money.{zero_money, clamp_to_zero, is_positive}
use openlms.Finance.Allocation.{
  AllocationTarget, AllocationLine, line, lesser, with_line, allocate, allocated_sum,
  allocate_payment, total_outstanding, is_overpayment,
}

-- The lines are for the first targets, in order, and none is negative or above what is owed.
abbrev pub Fits : List AllocationLine → List AllocationTarget → Type 0
Fits [] targets = Unit
Fits (l ∷ lines) [] = ⊥
Fits (l ∷ lines) (t ∷ targets) =
    (l.invoice_id ≡ t.invoice_id)
    × (zero_money ≤ℤ l.allocated)
    × (l.allocated ≤ℤ clamp_to_zero t.outstanding)
    × Fits lines targets

-- What the loop does from a rest of zero or more.
abbrev Allocates : ℤ → List AllocationTarget → List AllocationLine × ℤ → Type 0
Allocates rest targets (lines, left) =
    (allocated_sum lines +ℤ left ≡ rest) × (zero_money ≤ℤ left) × Fits lines targets

with_line-Allocates :
    (rest allocated : ℤ) (target : AllocationTarget) (targets : List AllocationTarget)
    (r : List AllocationLine × ℤ)
    → zero_money ≤ℤ allocated
    → allocated ≤ℤ clamp_to_zero target.outstanding
    → Allocates (rest -ℤ allocated) targets r
    → Allocates rest (target ∷ targets) (with_line (line target allocated) r)
with_line-Allocates rest allocated target targets (lines, left) low high (s, n, f) =
    let tail = allocated_sum lines in
    (
      rw (sum-cons allocated (map (λ l. l.allocated) lines)) (
          eq_of_parts ((allocated +ℤ tail) +ℤ left) rest (
            omega (
              arith,
              +ℤ_parts allocated tail,
              +ℤ_parts (allocated +ℤ tail) left,
              +ℤ_parts tail left,
              -ℤ_parts rest allocated,
              ap pos_part s,
              ap neg_part s,
            ))),
      n,
      (refl, low, high, f),
    )

allocate-Allocates :
    (rest : ℤ) (targets : List AllocationTarget)
    → zero_money ≤ℤ rest
    → Allocates rest targets (allocate rest targets)
unfolding allocate
allocate-Allocates rest [] h =
    (eq_of_parts (pos 0 +ℤ rest) rest (omega (arith, +ℤ_parts (pos 0) rest)), h, tt)
allocate-Allocates rest (t ∷ targets) h = elim (Bool-cases (eqb_ℤ rest zero_money)) [
  | inl e ↦ rw e (eq_of_parts (pos 0 +ℤ rest) rest (omega (arith, +ℤ_parts (pos 0) rest)), h, tt)
  | inr e ↦ elim (Bool-cases (leb_ℤ t.outstanding zero_money)) [
    | inl f ↦
        let same : rest -ℤ zero_money ≡ rest =
          eq_of_parts (rest -ℤ zero_money) rest (omega (arith, -ℤ_parts rest zero_money)) in
        rw (e, f)
          (with_line-Allocates rest zero_money t targets (allocate rest targets) (omega arith)
            (ground arith) (rw same (allocate-Allocates rest targets h)))
    | inr f ↦
        let allocated = lesser rest t.outstanding in
        rw (e, f)
          (with_line-Allocates rest allocated t targets (allocate (rest -ℤ allocated) targets)
            (ground arith) (ground arith)
            (allocate-Allocates (rest -ℤ allocated) targets
              (ground (arith, -ℤ_parts rest allocated))))
  ]
]

-- An amount of zero or more is split without loss: what is allocated and what remains make up the
-- amount, the remainder is not negative, and the lines are for the first invoices in order, each
-- with at least zero and at most what that invoice is owed.
pub allocate_payment_conserves :
    (amount : ℤ) (targets : List AllocationTarget)
    → zero_money ≤ℤ amount
    → let r = allocate_payment amount targets in
      (r.total_allocated +ℤ r.remaining ≡ amount)
      × (zero_money ≤ℤ r.remaining)
      × Fits r.allocations targets
unfolding allocate_payment
allocate_payment_conserves amount targets h = allocate-Allocates amount targets h

abbrev pub IsOwed : AllocationTarget → Type 0
IsOwed t = zero_money ≤ℤ t.outstanding

abbrev owed : List AllocationTarget → ℤ
owed targets = sum (map (λ t. t.outstanding) targets)

owed-nonneg : (targets : List AllocationTarget) → All IsOwed targets → zero_money ≤ℤ owed targets
owed-nonneg [] h = omega arith
owed-nonneg (t ∷ targets) h =
    rw (sum-cons t.outstanding (map (λ u. u.outstanding) targets))
      (omega (arith, h.0, owed-nonneg targets h.1, +ℤ_parts t.outstanding (owed targets)))

clamp-sub_le : (rest total : ℤ) → rest ≤ℤ total → clamp_to_zero (rest -ℤ total) ≡ zero_money
clamp-sub_le rest total h =
    eq_of_parts (clamp_to_zero (rest -ℤ total)) zero_money (ground (arith, -ℤ_parts rest total))

clamp-step :
    (rest out tail : ℤ)
    → zero_money ≤ℤ rest
    → zero_money ≤ℤ tail
    → zero_money ≤ℤ out
    → clamp_to_zero ((rest -ℤ lesser rest out) -ℤ tail) ≡ clamp_to_zero (rest -ℤ (out +ℤ tail))
clamp-step rest out tail h k o = elim (Bool-cases (ltb_ℤ rest out)) [
  | inl e ↦ rw e (
      clamp-sub_le (rest -ℤ rest) tail (omega (arith, k, -ℤ_parts rest rest))
      ∙ sym (clamp-sub_le rest (out +ℤ tail) (ground (arith, +ℤ_parts out tail))))
  | inr e ↦ rw e (
      ap clamp_to_zero (
        eq_of_parts ((rest -ℤ out) -ℤ tail) (rest -ℤ (out +ℤ tail)) (
          omega (
            arith,
            -ℤ_parts rest out,
            -ℤ_parts (rest -ℤ out) tail,
            +ℤ_parts out tail,
            -ℤ_parts rest (out +ℤ tail),
          ))))
]

-- What is left is what the amount exceeds the total by.
allocate-left :
    (rest : ℤ) (targets : List AllocationTarget)
    → zero_money ≤ℤ rest
    → All IsOwed targets
    → (allocate rest targets).1 ≡ clamp_to_zero (rest -ℤ owed targets)
unfolding allocate
allocate-left rest [] h k =
    eq_of_parts rest (clamp_to_zero (rest -ℤ pos 0)) (ground (arith, -ℤ_parts rest (pos 0)))
allocate-left rest (t ∷ targets) h k =
    let tail = owed targets in
    let n = owed-nonneg targets k.1 in
    rw (sum-cons t.outstanding (map (λ u. u.outstanding) targets))
      (elim (Bool-cases (eqb_ℤ rest zero_money)) [
        | inl e ↦
            let zero_rest : rest ≡ zero_money = eq_of_parts rest zero_money (ground arith) in
            rw e (
              zero_rest
              ∙ sym (
                  clamp-sub_le rest (t.outstanding +ℤ tail)
                    (ground (arith, k.0, n, +ℤ_parts t.outstanding tail))))
        | inr e ↦ elim (Bool-cases (leb_ℤ t.outstanding zero_money)) [
          | inl f ↦
              rw (e, f)
                (allocate-left rest targets h k.1
                  ∙ ap clamp_to_zero (
                      eq_of_parts (rest -ℤ tail) (rest -ℤ (t.outstanding +ℤ tail)) (
                        ground (
                          arith,
                          k.0,
                          +ℤ_parts t.outstanding tail,
                          -ℤ_parts rest tail,
                          -ℤ_parts rest (t.outstanding +ℤ tail),
                        ))))
          | inr f ↦
              let paid = lesser rest t.outstanding in
              rw (e, f)
                (allocate-left (rest -ℤ paid) targets (ground (arith, -ℤ_parts rest paid)) k.1
                  ∙ clamp-step rest t.outstanding tail h n k.0)
        ]
      ])

-- Where no invoice is owed less than zero, the remainder of an amount of zero or more is what the
-- amount exceeds the total of the invoices by, and it is positive exactly where `isOverpayment`
-- says so.
allocate_payment-remaining :
    (amount : ℤ) (targets : List AllocationTarget)
    → zero_money ≤ℤ amount
    → All IsOwed targets
    → ((allocate_payment amount targets).remaining
        ≡ clamp_to_zero (amount -ℤ total_outstanding targets))
      × (is_overpayment amount targets ≡ is_positive ((allocate_payment amount targets).remaining))
unfolding allocate_payment total_outstanding is_overpayment
allocate_payment-remaining amount targets h k =
    let left = allocate-left amount targets h k in
    (left, rw left (ground (arith, -ℤ_parts amount (owed targets))))
