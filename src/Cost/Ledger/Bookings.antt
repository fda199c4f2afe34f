-- ===== src/Cost/Ledger/Bookings.antt =====
-- The rows of the ledger and the balances that they amount to.
use multi_agent_orchestratio.Base.{
  Bool, true, false, List, [], ◌∷◌, ◌++◌, String, ◌==◌, ◌&&◌, if◌then◌else◌, ◌≡◌, refl, sym, ◌∙◌,
  Bool-cases, inl, inr, eq_iff,
}
use multi_agent_orchestratio.Base.Int.{ℤ, pos, ◌+ℤ◌, int_laws}
use multi_agent_orchestratio.Cost.Ledger.{
  Entry, EntryType, parent_debit, debit_estimate, Db, spent_of, book, check_and_debit,
}
use multi_agent_orchestratio.Cost.Ledger.Debits.{SurvivesBooking, check_and_debit-keeps}

abbrev pub is_parent_debit : EntryType → Bool
is_parent_debit parent_debit = true
is_parent_debit _ = false

-- The sum of a tenant's `PARENT_DEBIT` rows in a period.
unfoldable pub booked : String → String → List Entry → ℤ
booked tenant_id period [] = pos 0
booked tenant_id period (entry ∷ ledger) =
    let rest = booked tenant_id period ledger in
    if tenant_id == entry.tenant_id && (period == entry.period && is_parent_debit entry.entry_type)
    then entry.amount_micro +ℤ rest
    else rest

+ℤ_assoc : (a b c : ℤ) → (a +ℤ b) +ℤ c ≡ a +ℤ (b +ℤ c)
+ℤ_assoc a b c = grind int_laws

+ℤ_zero : (a : ℤ) → a +ℤ pos 0 ≡ a
+ℤ_zero a = grind int_laws

zero_+ℤ : (a : ℤ) → pos 0 +ℤ a ≡ a
zero_+ℤ a = grind int_laws

booked-append :
    (tenant_id period : String) (xs ys : List Entry)
    → booked tenant_id period (xs ++ ys) ≡ booked tenant_id period xs +ℤ booked tenant_id period ys
unfolding booked
booked-append tenant_id period [] ys = sym (zero_+ℤ _)
booked-append tenant_id period (x ∷ xs) ys =
    elim (Bool-cases
      (tenant_id == x.tenant_id && (period == x.period && is_parent_debit x.entry_type))) [
        | inl here ↦ rw (here, booked-append tenant_id period xs ys) (sym (+ℤ_assoc _ _ _))
        | inr elsewhere ↦ rw (elsewhere, booked-append tenant_id period xs ys) refl
      ]

booked-one :
    (tenant_id period : String) (entry : Entry)
    → booked tenant_id period (entry ∷ []) ≡ (
        if tenant_id == entry.tenant_id
          && (period == entry.period && is_parent_debit entry.entry_type)
        then entry.amount_micro
        else pos 0)
unfolding booked
booked-one tenant_id period entry =
    elim (Bool-cases (
      tenant_id == entry.tenant_id
      && (period == entry.period && is_parent_debit entry.entry_type))) [
        | inl here ↦ rw here (+ℤ_zero _)
        | inr elsewhere ↦ rw elsewhere refl
      ]

-- Each balance is the sum of its rows.
abbrev pub IsBooked : Db → Type 0
IsBooked db =
    (tenant_id period : String) → spent_of db tenant_id period ≡ booked tenant_id period db.ledger

IsBooked-SurvivesBooking :
    (sha256 : String → String) (amount_micro : ℤ) (period child_key : String)
    → SurvivesBooking sha256 amount_micro period child_key IsBooked
unfolding book
IsBooked-SurvivesBooking sha256 amount_micro period child_key tenant_id account db found within
      is_booked t p =
    rw (booked-append t p db.ledger _, booked-one)
      (elim (Bool-cases (t == tenant_id)) [
        | inr other ↦ rw other (is_booked t p ∙ sym (+ℤ_zero _))
        | inl same ↦ elim (Bool-cases (p == period)) [
          | inr other ↦ rw (same, other) (is_booked t p ∙ sym (+ℤ_zero _))
          | inl now ↦
              rw
                (
                  same,
                  now,
                  is_booked tenant_id period,
                  (eq_iff t tenant_id).0 same,
                  (eq_iff p period).0 now,
                )
                refl
        ]
      ])

IsBooked-estimate :
    (entry : Entry) (db : Db)
    → entry.entry_type ≡ debit_estimate
    → IsBooked db
    → IsBooked (record db { ledger = db.ledger ++ entry ∷ [] })
IsBooked-estimate entry db estimate is_booked t p =
    rw (booked-append t p db.ledger _, booked-one)
      (elim (Bool-cases (t == entry.tenant_id)) [
        | inr other ↦ rw other (is_booked t p ∙ sym (+ℤ_zero _))
        | inl same ↦ elim (Bool-cases (p == entry.period)) [
          | inr other ↦ rw (same, other) (is_booked t p ∙ sym (+ℤ_zero _))
          | inl now ↦ rw (same, now, estimate) (is_booked t p ∙ sym (+ℤ_zero _))
        ]
      ])

-- Where each balance is the sum of the tenant's parent_debit rows of the period, it still is after
-- a debit, whatever the debit's outcome.
pub check_and_debit-IsBooked :
    (sha256 current_period : String → String) (tenant_id : String) (est_micro : ℤ)
    (run_id key : String) (db : Db)
    → IsBooked db
    → IsBooked (check_and_debit sha256 current_period tenant_id est_micro run_id key db).1
check_and_debit-IsBooked sha256 current_period tenant_id est_micro run_id key db =
    check_and_debit-keeps sha256 current_period IsBooked tenant_id est_micro run_id key db
      (λ period. IsBooked-SurvivesBooking sha256 est_micro period key) IsBooked-estimate
