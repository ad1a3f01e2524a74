-- ===== src/Civil/Era.antt =====
-- The arithmetic of the 400-year era: blocks, the year of a day, the month of a day of the year.
use ubersdr_ntp.Prelude.{ℕ, ◌+◌, ◌-◌, ◌%◌, ◌≤◌, ◌<◌, ◌≡◌, ap, ◌≢◌, ◌⊎◌, arith}
use ubersdr_ntp.Prelude.Int.{ℤ, pos, negsuc, pos_part, neg_part, ◌+ℤ◌, ◌-ℤ◌, ◌*ℤ◌, ◌/ℤ◌, int_laws}
use ubersdr_ntp.Civil.{era, in_era, era_year_start, march_day, year_of_era, month_of, day_of}

-- A block number and a place in the block determine each other.
pub era_400 : (z : ℤ) → (in_era 400 z < 400) × (z ≡ pos (in_era 400 z) +ℤ era 400 z *ℤ pos 400)
unfolding era in_era ◌-ℤ◌ ◌+ℤ◌ ◌*ℤ◌ ◌/ℤ◌
era_400 (pos n) = ground arith
era_400 (negsuc n) = ground arith

era_400_eq : (e : ℤ) (r : ℕ) → r < 400 → era 400 (pos r +ℤ e *ℤ pos 400) ≡ e
unfolding era ◌-ℤ◌ ◌+ℤ◌ ◌*ℤ◌ ◌/ℤ◌
era_400_eq (pos n) r h = ground arith
era_400_eq (negsuc n) r h = ground arith

pub era_400_unique :
    (e : ℤ) (r : ℕ)
    → r < 400
    → (era 400 (pos r +ℤ e *ℤ pos 400) ≡ e) × (in_era 400 (pos r +ℤ e *ℤ pos 400) ≡ r)
unfolding in_era
era_400_unique e r h = (
  era_400_eq e r h,
  omega (
    int_laws,
    ap (λ (w : ℤ). pos_part (w *ℤ pos 400)) (era_400_eq e r h),
    ap (λ (w : ℤ). neg_part (w *ℤ pos 400)) (era_400_eq e r h),
    era_400 (pos r +ℤ e *ℤ pos 400),
  ),
)

pub era_146097 :
    (z : ℤ) → (in_era 146097 z < 146097) × (z ≡ pos (in_era 146097 z) +ℤ era 146097 z *ℤ pos 146097)
unfolding era in_era ◌-ℤ◌ ◌+ℤ◌ ◌*ℤ◌ ◌/ℤ◌
era_146097 (pos n) = ground arith
era_146097 (negsuc n) = ground arith

era_146097_eq : (e : ℤ) (r : ℕ) → r < 146097 → era 146097 (pos r +ℤ e *ℤ pos 146097) ≡ e
unfolding era ◌-ℤ◌ ◌+ℤ◌ ◌*ℤ◌ ◌/ℤ◌
era_146097_eq (pos n) r h = ground arith
era_146097_eq (negsuc n) r h = ground arith

pub era_146097_unique :
    (e : ℤ) (r : ℕ)
    → r < 146097
    → (era 146097 (pos r +ℤ e *ℤ pos 146097) ≡ e) × (in_era 146097 (pos r +ℤ e *ℤ pos 146097) ≡ r)
unfolding in_era
era_146097_unique e r h = (
  era_146097_eq e r h,
  omega (
    int_laws,
    ap (λ (w : ℤ). pos_part (w *ℤ pos 146097)) (era_146097_eq e r h),
    ap (λ (w : ℤ). neg_part (w *ℤ pos 146097)) (era_146097_eq e r h),
    era_146097 (pos r +ℤ e *ℤ pos 146097),
  ),
)

-- Year `yoe` of an era has a day 365, February 29th.
abbrev pub EndsLeap : ℕ → Type 0
EndsLeap yoe = (yoe % 4 ≡ 3) × ((yoe % 100 ≢ 99) ⊎ (yoe ≡ 399))

abbrev pub IsDayOfYear : ℕ → ℕ → Type 0
IsDayOfYear yoe doy = (doy < 365) ⊎ ((doy ≡ 365) × EndsLeap yoe)

pub year_of_era_lem :
    (doe : ℕ)
    → doe < 146097
    → (year_of_era doe < 400)
      × (era_year_start (year_of_era doe) ≤ doe)
      × IsDayOfYear (year_of_era doe) (doe - era_year_start (year_of_era doe))
unfolding year_of_era era_year_start
year_of_era_lem doe h = omega arith

pub year_of_era_unique :
    (yoe doy : ℕ)
    → yoe < 400
    → IsDayOfYear yoe doy
    → (year_of_era (era_year_start yoe + doy) ≡ yoe) × (era_year_start yoe + doy < 146097)
unfolding year_of_era era_year_start
year_of_era_unique yoe doy h k = omega arith

pub march_day-month_of : (doy : ℕ) → doy < 366 → march_day (month_of doy) (day_of doy) ≡ doy
unfolding march_day month_of day_of
march_day-month_of doy h = ground arith
