-- ===== src/Labeler.antt =====
-- src/Pps.{h,cpp}: PpsLabeler, which names the second of each pulse of a serial port by counting.
pub mod Leaps
mod Tests
use ubersdr_ntp.Prelude.{ℕ, ◌+◌, Bool, true, false, not, ◌&&◌, ◌||◌, if◌then◌else◌}
use ubersdr_ntp.Prelude.Int.{ℤ, pos, negsuc, ◌+ℤ◌, ◌-ℤ◌, ◌*ℤ◌, ltb_ℤ, leb_ℤ, eqb_ℤ}
use ubersdr_ntp.Instants.{floor_mod, is_last_day_of_month}

-- A second of POSIX time, or the leap second before it.
pub record PpsLabel : Type 0 where
  pub posix : ℤ
  pub leap : Bool

pub record PpsLabeler : Type 0 where
  pub have : Bool
  pub last : PpsLabel
  pub leap_announced_at : ℤ
  pub leap_label_at : ℤ
  pub resyncs : ℕ

-- `PpsLabeler{}`.
abbrev pub new_labeler : PpsLabeler
new_labeler = record {
  have = false;
  last = record { posix = pos 0; leap = false };
  leap_announced_at = negsuc 0;
  leap_label_at = negsuc 0;
  resyncs = 0;
}

abbrev pub leap_armed_sec : ℤ
leap_armed_sec = pos 7200

abbrev pub leap_catch_up_sec : ℤ
leap_catch_up_sec = pos 3600

unfoldable pub reset : PpsLabeler → PpsLabeler
reset l = record l { have = false }

unfoldable pub expected : PpsLabeler → ℤ
expected l = if l.last.leap then l.last.posix else l.last.posix +ℤ pos 1

unfoldable pub is_armed : PpsLabeler → Bool
is_armed l =
    leb_ℤ (pos 0) l.leap_announced_at
    && (leb_ℤ (expected l -ℤ l.leap_announced_at) leap_armed_sec
        && (eqb_ℤ (floor_mod (expected l) (pos 86400)) (pos 0)
            && is_last_day_of_month ((expected l -ℤ pos 1) *ℤ pos 1000)))

-- The served clock is as expected, or a second ahead after a leap second that it has not yet taken.
unfoldable pub is_expected : PpsLabeler → ℤ → Bool
is_expected l served =
    eqb_ℤ served (expected l)
    || leb_ℤ (pos 0) l.leap_label_at
      && (ltb_ℤ (expected l -ℤ l.leap_label_at) leap_catch_up_sec
          && eqb_ℤ served (expected l +ℤ pos 1))

abbrev pub label : PpsLabeler → PpsLabel → PpsLabeler × PpsLabel
label l named = (record l { have = true; last = named }, named)

-- The name of a pulse one second after the last one.
unfoldable pub count_on : PpsLabeler → ℤ → PpsLabeler × PpsLabel
count_on l served =
    if not l.last.leap
      && (is_armed l && (eqb_ℤ served (expected l) || eqb_ℤ served (expected l -ℤ pos 1)))
    then label (record l { leap_label_at = expected l })
        (record { posix = expected l; leap = true })
    else if is_expected l served
    then label l (record { posix = expected l; leap = false })
    else label (record l { resyncs = l.resyncs + 1 }) (record { posix = served; leap = false })

unfoldable pub next : PpsLabeler → ℤ → Bool → Bool → PpsLabeler × PpsLabel
next l served leap_pending consecutive =
    let noted = record l {
      leap_announced_at = if leap_pending then served else l.leap_announced_at;
    } in
    if not l.have || not consecutive
    then label noted (record { posix = served; leap = false })
    else count_on noted served
