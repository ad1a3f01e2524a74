-- ===== src/Tally.antt =====
-- src/ClientTally.{h,cpp}: the requests of each client over the past hour, in a ring of 60 minute
-- buckets.
pub mod Bounds
pub mod Slots
pub mod Ring
pub mod Window
pub mod PastHour
mod Tests
use Prim.Native.Nat.{min}
use ubersdr_ntp.Prelude.{
  ℕ, zero, suc, ◌+◌, ◌-◌, ◌^◌, Bool, true, false, List, ltb, leb, none, some, if◌then◌else◌, length,
  get_or, set, replicate,
}
use ubersdr_ntp.Prelude.Int.{ℤ, pos, pos_part, ◌+ℤ◌, ◌-ℤ◌, ◌%ℤ◌, leb_ℤ, ltb_ℤ}
use ubersdr_ntp.Prelude.Double.{Double, sub, div, floor, lt, lit}
use ubersdr_ntp.Address.{Family, IpAddr, is_unspecified}
use ubersdr_ntp.Address.Label.{public_label}
use ubersdr_ntp.Prelude.Dict.{Key, lookup, insert, erase_if}

abbrev pub minutes : ℕ
minutes = 60

-- UINT32_MAX.
abbrev pub uint32_max : ℕ
uint32_max = 2 ^ 32 - 1

unfoldable pub max_clients : ℕ
max_clients = 4096

-- `((k % n) + n) % n`, for n = 60.
unfoldable pub slot : ℤ → ℕ
slot k = pos_part ((k %ℤ pos minutes +ℤ pos minutes) %ℤ pos minutes)

pub record Entry : Type 0 where
  pub requests : List ℕ
  pub limited : List ℕ
  pub last_minute : ℤ

-- The loop of `advance` from minute k, with `left` rounds to go.
unfoldable pub clear_slots : ℕ → ℤ → List ℕ → List ℕ
clear_slots zero k xs = xs
clear_slots (suc left) k xs = clear_slots left (k +ℤ pos 1) (set xs (slot k) 0)

unfoldable pub advance : Entry → ℤ → Entry
advance e minute =
    let gap = min (pos_part (minute -ℤ e.last_minute)) minutes in
    if leb_ℤ minute e.last_minute then e else record {
      requests = clear_slots gap (e.last_minute +ℤ pos 1) e.requests;
      limited = clear_slots gap (e.last_minute +ℤ pos 1) e.limited;
      last_minute = minute;
    }

-- std::max and std::min of two `long long`.
abbrev pub max_ℤ : ℤ → ℤ → ℤ
max_ℤ a b = if ltb_ℤ a b then b else a

abbrev pub min_ℤ : ℤ → ℤ → ℤ
min_ℤ a b = if ltb_ℤ b a then b else a

-- The loop of `sum` from minute k, with `left` rounds to go, over one of the two rings.
unfoldable pub sum_slots : ℕ → ℤ → List ℕ → ℕ
sum_slots zero k xs = 0
sum_slots (suc left) k xs = get_or xs (slot k) 0 + sum_slots left (k +ℤ pos 1) xs

-- The rounds of a loop from `first` up to `last`, both included.
abbrev pub rounds : ℤ → ℤ → ℕ
rounds first last = if leb_ℤ first last then pos_part (last -ℤ first) + 1 else 0

unfoldable pub sum : Entry → ℤ → ℕ × ℕ
sum e minute =
    let first = max_ℤ (minute -ℤ pos minutes +ℤ pos 1) (e.last_minute -ℤ pos minutes +ℤ pos 1) in
    let last = min_ℤ minute e.last_minute in
    (sum_slots (rounds first last) first e.requests, sum_slots (rounds first last) first e.limited)

unfoldable pub new_entry : ℤ → Entry
new_entry minute = record {
  requests = replicate minutes 0;
  limited = replicate minutes 0;
  last_minute = minute;
}

-- `if (x[i] < UINT32_MAX) ++x[i]`.
unfoldable pub bump : List ℕ → ℕ → List ℕ
bump xs i = if ltb (get_or xs i 0) uint32_max then set xs i (get_or xs i 0 + 1) else xs

-- The end of `record`, on the client's entry.
unfoldable pub count : Entry → ℤ → Bool → Entry
count e minute limited =
    let moved = advance e minute in
    record moved {
      requests = bump moved.requests (slot minute);
      limited = if limited then bump moved.limited (slot minute) else moved.limited;
    }

pub record ClientTally (D : Type 0) : Type 0 where
  pub clients : List (Key × Entry)
  pub last_sweep : D

module _ {D : Type 0} ⦃f : Double D⦄ where
  unfoldable pub quiet_sweep : ClientTally D → ℤ → D → ClientTally D
  quiet_sweep t minute now = record {
    clients = erase_if (λ k e. leb (sum e minute).0 1) t.clients;
    last_sweep = now;
  }

  -- Room for a client that is not yet counted, and whether there is any.
  unfoldable pub make_room : ClientTally D → ℤ → D → ClientTally D × Bool
  make_room t minute now =
      let swept = quiet_sweep t minute now in
      if leb max_clients (length t.clients)
      then if lt (sub now t.last_sweep) (lit 1 0)
        then (t, false)
        else (swept, ltb (length swept.clients) max_clients)
      else (t, true)

  unfoldable pub count_into : ClientTally D → Key → Entry → ℤ → Bool → ClientTally D
  count_into t key e minute limited = record t {
    clients = insert key (count e minute limited) t.clients;
  }

  -- `record` of an address that has a label.
  unfoldable pub tally : ClientTally D → Key → ℤ → D → Bool → ClientTally D
  tally t key minute now limited = elim (lookup key t.clients) [
    | some e ↦ count_into t key e minute limited
    | none ↦
        let room = make_room t minute now in
        if room.1 then count_into room.0 key (new_entry minute) minute limited else room.0
  ]

  -- `record`, with the C library's inet_ntop a parameter. The address is what `ipAddrOf` gave.
  unfoldable pub record_request :
      (Family → List ℕ → List ℕ) → ClientTally D → IpAddr → D → Bool → ClientTally D
  record_request ntop t a now limited =
      let minute = floor (div now (lit 60 0)) in
      if is_unspecified a.family then t else tally t (public_label ntop a) minute now limited
