-- ===== src/Billing/Proration/Credit.antt =====
-- The credit for the months of a paid cycle that have not begun.
use nyzrating.Prelude.{
  ◌>>=◌, ℕ, zero, suc, ◌+◌, ◌-◌, ◌≤◌, ◌<◌, ◌≡◌, ◌↔◌, inl, inr, Bool, true, false, arith, max, ltb,
  ◌==◌, Bool-cases, ltb→lt, ==_iff, ap, sym, subst, ◌∙◌, some,
}
use mathlib.Core.Option.{some-injective}
use native.Mathlib.Nat.{add-zero}
use nyzrating.Prelude.Int.{pos}
use nyzrating.Prelude.Text.{Text}
use nyzrating.Prelude.Dict.{Dict}
use nyzrating.Calendar.{Date, IsDate, date_lt, date_le}
use nyzrating.Calendar.Order.{date_lt_trans}
use nyzrating.Billing.Calculations.{add_months_to_date}
use nyzrating.Billing.Calculations.Months.{
  add_months_to_date_mono, add_months_to_date-total, add_months_to_date-zero,
}
use nyzrating.Billing.Proration.{started_units, remaining_prepaid_months}

module _ (today start : Date) where
  -- Unit `i` of the cycle begins by today.
  abbrev pub HasStarted : ℕ → Type 0
  HasStarted i = (d : Date) → add_months_to_date start (pos i) ≡ some d → date_le d today ≡ true

  -- Unit `i` of the cycle begins after today.
  abbrev pub IsAhead : ℕ → Type 0
  IsAhead i = (d : Date) → add_months_to_date start (pos i) ≡ some d → date_le d today ≡ false

-- What the loop has found after it started at unit `index`.
pub record IsCounted (today start : Date) (rounds index found : ℕ) : Type 0 where
  pub within : found ≤ rounds
  pub before : (i : ℕ) → i < found → HasStarted today start (index + i)
  pub after : found < rounds → IsAhead today start (index + found)

same_unit :
    (start d r : Date) (i j : ℕ)
    → i ≡ j
    → add_months_to_date start (pos i) ≡ some d
    → add_months_to_date start (pos j) ≡ some r
    → r ≡ d
same_unit start d r i j e p q =
    sym (some-injective _ _ (sym p ∙ ap (λ (n : ℕ). add_months_to_date start (pos n)) e ∙ q))

on_day :
    (today start d : Date) (b : Bool) (i j : ℕ)
    → i ≡ j
    → add_months_to_date start (pos i) ≡ some d
    → date_le d today ≡ b
    → (r : Date) → add_months_to_date start (pos j) ≡ some r
    → date_le r today ≡ b
on_day today start d b i j e p h r q = rw (same_unit start d r i j e p q) h

before-suc :
    (today start d : Date) (index found : ℕ)
    → add_months_to_date start (pos index) ≡ some d
    → date_le d today ≡ true
    → ((i : ℕ) → i < found → HasStarted today start (index + 1 + i))
    → (i : ℕ) → i < suc found
    → HasStarted today start (index + i)
before-suc today start d index found e p h zero q r s =
    on_day today start d true index (index + 0) (omega arith) e p r s
before-suc today start d index found e p h (suc i) q r s =
    h i (omega arith) r (subst (λ n. add_months_to_date start (pos n) ≡ some r) (omega arith) s)

after-suc :
    (today start : Date) (rounds index found : ℕ)
    → (found < rounds → IsAhead today start (index + 1 + found))
    → suc found < suc rounds
    → IsAhead today start (index + suc found)
after-suc today start rounds index found h q r s =
    h (omega arith) r (subst (λ n. add_months_to_date start (pos n) ≡ some r) (omega arith) s)

later_ahead :
    (f d today : Date) → date_lt f d ≡ true → date_le f today ≡ false → date_le d today ≡ false
unfolding date_le
later_ahead f d today p q = ground (arith, date_lt_trans today f d)

true-false : true ≡ false → ⊥
true-false h = cc h

started_units-IsCounted :
    (today start : Date) (rounds index started : ℕ)
    → IsDate start
    → (found : ℕ) × (started_units today start rounds index started ≡ some (started + found))
      × IsCounted today start rounds index found
unfolding started_units
started_units-IsCounted today start zero index started h = (
  0,
  ap some (sym (add-zero started)),
  record {
    within = omega arith;
    before = λ i p. absurd (omega arith);
    after = λ p. absurd (omega arith);
  },
)
started_units-IsCounted today start (suc rounds) index started h =
    let (d, e) = add_months_to_date-total start index h in
    elim (Bool-cases (date_le d today)) [
      | inl p ↦
          let (found, value, c) =
            started_units-IsCounted today start rounds (index + 1) (started + 1) h in
          (
            suc found,
            rw (e, ◌>>=◌, p) (value ∙ ap some (omega arith)),
            record {
              within = omega (arith, c.within);
              before = before-suc today start d index found e p c.before;
              after = after-suc today start rounds index found c.after;
            },
          )
      | inr p ↦ (
        0,
        rw (e, ◌>>=◌, p) (ap some (omega arith)),
        record {
          within = omega arith;
          before = λ i q. absurd (omega arith);
          after = λ q. on_day today start d false index (index + 0) (omega arith) e p;
        },
      )
    ]

-- A unit that has started is no later than one that is ahead.
started_before :
    (today start d f : Date) (i found : ℕ)
    → IsDate start
    → found ≤ i
    → add_months_to_date start (pos found) ≡ some f
    → date_le f today ≡ false
    → add_months_to_date start (pos i) ≡ some d
    → date_le d today ≡ false
started_before today start d f i found h le pf ahead e = elim (Bool-cases (found == i)) [
  | inl same ↦ on_day today start f false found i ((==_iff found i).0 same) pf ahead d e
  | inr other ↦
      later_ahead f d today
        (add_months_to_date_mono start f d found i h.month_pos (ground arith) pf e) ahead
]

started_units_counts :
    (today start : Date) (total : ℕ)
    → IsDate start
    → (found : ℕ) × (started_units today start total 0 0 ≡ some found)
      × (found ≤ total)
      × ((i : ℕ)
          → i < total
          → (d : Date) → add_months_to_date start (pos i) ≡ some d
          → (date_le d today ≡ true) ↔ (i < found))
started_units_counts today start total h =
    let (found, value, c) = started_units-IsCounted today start total 0 0 h in
    (
      found,
      value ∙ ap some (omega arith),
      c.within,
      λ i q d e. (
        elim (Bool-cases (ltb i found)) [
          | inl below ↦ λ r. ltb→lt i found below
          | inr above ↦ λ r.
              let (f, pf) = add_months_to_date-total start found h in
              let le : found ≤ i = ground arith in
              let ahead =
                c.after (omega arith) f
                  (subst (λ n. add_months_to_date start (pos n) ≡ some f) (omega arith) pf) in
              absurd (true-false (sym r ∙ started_before today start d f i found h le pf ahead e))
        ],
        λ r.
            c.before i r d (subst (λ n. add_months_to_date start (pos n) ≡ some d) (omega arith) e),
      ),
    )

-- For a valid start, the loop over the prepaid units ends without an error and finds a number of
-- units, at most the total, such that a unit of the cycle has begun by today exactly when its
-- index is below it.
pub started_units-exact :
    (today start d : Date) (total i : ℕ)
    → IsDate start
    → i < total
    → add_months_to_date start (pos i) ≡ some d
    → (found : ℕ) × (started_units today start total 0 0 ≡ some found)
      × (found ≤ total)
      × ((date_le d today ≡ true) ↔ (i < found))
started_units-exact today start d total i h p e =
    let (found, value, le, exact) = started_units_counts today start total h in
    (found, value, le, exact i p d e)

-- For a valid start that is not after today, and at least one prepaid month, the count of
-- remaining months exists and is less than the months prepaid.
pub remaining_prepaid_months_bounds :
    (today start end : Date) (prepaid : ℕ)
    → IsDate start
    → 0 < prepaid
    → date_le start today ≡ true
    → (left : ℕ) × (remaining_prepaid_months today start end prepaid ≡ some left) × (left < prepaid)
unfolding remaining_prepaid_months
remaining_prepaid_months_bounds today start end prepaid h pos_prepaid p =
    let (found, value, le, exact) = started_units_counts today start prepaid h in
    let value' : started_units today start (max 0 prepaid) 0 0 ≡ some found =
      subst (λ n. started_units today start n 0 0 ≡ some found) (omega arith) value in
    let some_started : 0 < found =
      (exact 0 pos_prepaid start (add_months_to_date-zero start h)).0 p in
    elim (Bool-cases (date_lt end today)) [
      | inl past ↦ (0, ground arith, pos_prepaid)
      | inr current ↦ (prepaid - found, ground (arith, value'), omega arith)
    ]

-- After the end of the coverage there is no credit.
remaining_prepaid_months_past :
    (today start end : Date) (prepaid : ℕ)
    → date_lt end today ≡ true
    → remaining_prepaid_months today start end prepaid ≡ some 0
unfolding remaining_prepaid_months
remaining_prepaid_months_past today start end prepaid h = ground arith
