-- ===== src/Tally/Tests.antt =====
-- The tally at its first client.
use ubersdr_ntp.Prelude.{◌≤◌, ◌≡◌, refl, true, false, [], ◌∷◌, replicate, arith}
use ubersdr_ntp.Prelude.Int.{pos, negsuc, ◌-ℤ◌}
use ubersdr_ntp.Prelude.Micros.{Micros, micros}
use ubersdr_ntp.Address.{IpAddr, inet}
use ubersdr_ntp.Tally.{sum, ClientTally, max_clients}
use ubersdr_ntp.Tally.Window.{past_hour}
use ubersdr_ntp.Tally.PastHour.{Requests, entry_of, minutes_of, limited_of, sum-past_hour}
use ubersdr_ntp.Tally.Bounds.{clients}

abbrev empty_tally : ClientTally Micros
empty_tally = record { clients = []; last_sweep = negsuc 999999 }

abbrev client : IpAddr
client = record { family = inet; bytes = 8 ∷ 8 ∷ 4 ∷ 4 ∷ replicate 12 0 }

none_counted : clients empty_tally ≤ max_clients
unfolding max_clients
none_counted = omega arith

-- Four requests over an hour and a half, the last two of them limited.
abbrev requests : Requests
requests = (pos 95, true) ∷ (pos 90, true) ∷ (pos 89, false) ∷ (pos 5, false) ∷ []

sum-past_hour_example :
    sum (entry_of (pos 5) requests) (pos 100)
    ≡ (past_hour (pos 100) (minutes_of requests), past_hour (pos 100) (limited_of requests))
sum-past_hour_example =
    sum-past_hour (pos 5) requests (pos 100)
      (omega arith, (omega arith, (omega arith, (omega arith, tt)))) (omega arith) (omega arith)

three_of_four : past_hour (pos 100) (minutes_of requests) ≡ 3
unfolding ◌-ℤ◌
three_of_four = refl
