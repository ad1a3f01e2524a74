-- ===== src/Instants/Host.antt =====
-- `hostNowFields` and `utcMsFromFields`: an instant, its fields, and the minute that they name.
use ubersdr_ntp.Prelude.{ℕ, ◌+◌, ◌*◌, ◌/◌, ◌%◌, ◌<◌, ◌≡◌, refl, arith}
use ubersdr_ntp.Prelude.Int.{
  ℤ, pos, pos_part, ◌+ℤ◌, ◌-ℤ◌, ◌*ℤ◌, int_laws, parts_of_eq, *ℤ_parts, pos-add, pos-div, pos-mod,
  pos-pos_part, pos_part-lt,
}
use ubersdr_ntp.Civil.{days_from_civil}
use ubersdr_ntp.Instants.{floor_div, floor_mod, host_now_fields, utc_ms_from_fields}
use ubersdr_ntp.Instants.Floor.{floor_1000, floor_86400}
use ubersdr_ntp.Instants.LastDay.{date_at}

abbrev seconds_at : ℤ → ℤ
seconds_at ms = floor_div ms (pos 1000)

-- The second of the day.
abbrev second_of_day : ℤ → ℕ
second_of_day ms = pos_part (floor_mod (seconds_at ms) (pos 86400))

second_of_day_lem :
    (ms : ℤ)
    → (floor_mod (seconds_at ms) (pos 86400) ≡ pos (second_of_day ms)) × (second_of_day ms < 86400)
second_of_day_lem ms =
    let r = floor_86400 (seconds_at ms) in (pos-pos_part _ r.1, pos_part-lt _ 86400 r.1 r.2)

-- The fields of an instant of 2000 + y.
pub host_now_fields_lem :
    (ms : ℤ) (y : ℕ)
    → y < 100
    → (date_at ms).year ≡ pos (2000 + y)
    → host_now_fields ms ≡ record {
      minute = pos (second_of_day ms / 60 % 60);
      hour = pos (second_of_day ms / 3600);
      doy = floor_div (seconds_at ms) (pos 86400) -ℤ days_from_civil (pos (2000 + y)) 1 1 +ℤ pos 1;
      year2 = pos y;
    }
unfolding host_now_fields
host_now_fields_lem ms y h year =
    rw
      (
        year,
        (second_of_day_lem ms).0,
        pos-div (second_of_day ms) 60,
        pos-div (second_of_day ms) 3600,
        pos-mod (second_of_day ms / 60) 60,
        pos-mod (2000 + y) 100,
        short,
      )
      refl
  where
    short : (2000 + y) % 100 ≡ y
    short = omega arith

utc_ms_lem :
    (days base : ℤ) (s : ℕ)
    → ((base +ℤ (days -ℤ base +ℤ pos 1 -ℤ pos 1)) *ℤ pos 86400
            +ℤ pos (s / 3600) *ℤ pos 3600
            +ℤ pos (s / 60 % 60) *ℤ pos 60)
          *ℤ pos 1000
        +ℤ pos (s % 60 * 1000)
      ≡ (pos s +ℤ days *ℤ pos 86400) *ℤ pos 1000
utc_ms_lem days base s = omega (int_laws, *ℤ_parts)

-- In 2000 to 2099 `utcMsFromFields` of `hostNowFields` is the start of the instant's minute.
pub utc_ms_from_fields-host_now_fields :
    (ms : ℤ) (y : ℕ)
    → y < 100
    → (date_at ms).year ≡ pos (2000 + y)
    → let f = host_now_fields ms in
      (rest : ℕ) × (rest < 60000)
      × (ms ≡ utc_ms_from_fields f.year2 f.doy f.hour f.minute +ℤ pos rest)
utc_ms_from_fields-host_now_fields ms y h year =
    (second_of_day ms % 60 * 1000 + pos_part (floor_mod ms (pos 1000)), below, whole)
  where
    s : ℕ
    s = second_of_day ms

    days : ℤ
    days = floor_div (seconds_at ms) (pos 86400)

    below : s % 60 * 1000 + pos_part (floor_mod ms (pos 1000)) < 60000
    below = omega (arith, pos_part-lt _ 1000 (floor_1000 ms).1 (floor_1000 ms).2)

    whole :
        ms
        ≡ utc_ms_from_fields
            (host_now_fields ms).year2
            (host_now_fields ms).doy
            (host_now_fields ms).hour
            (host_now_fields ms).minute
          +ℤ pos (s % 60 * 1000 + pos_part (floor_mod ms (pos 1000)))
    whole = rw (host_now_fields_lem ms y h year) (
        unfold utc_ms_from_fields in
        rw (pos-add 2000 y) (
          omega (
            int_laws,
            *ℤ_parts,
            parts_of_eq (floor_1000 ms).0,
            parts_of_eq (floor_86400 (seconds_at ms)).0,
            parts_of_eq (second_of_day_lem ms).0,
            parts_of_eq (pos-pos_part _ (floor_1000 ms).1),
          )))
