-- ===== src/Tally/Bounds.antt =====
-- src/ClientTally.cpp: the table of clients never grows past its cap.
use ubersdr_ntp.Prelude.{
  ℕ, List, Bool, true, ◌≤◌, ◌<◌, ◌≡◌, arith, some, Option-cases, inl, inr, length,
}
use ubersdr_ntp.Prelude.Int.{ℤ}
use ubersdr_ntp.Prelude.Double.{Double, floor, div, lit}
use ubersdr_ntp.Prelude.Dict.{Key, lookup, length-insert, length-insert-some, length-erase_if-le}
use ubersdr_ntp.Address.{Family, IpAddr}
use ubersdr_ntp.Address.Label.{public_label}
use ubersdr_ntp.Tally.{
  ClientTally, Entry, max_clients, quiet_sweep, make_room, count_into, tally, new_entry,
  record_request,
}

module _ {D : Type 0} ⦃f : Double D⦄ where
  abbrev pub clients : ClientTally D → ℕ
  clients t = length t.clients

  clients-quiet_sweep :
      (t : ClientTally D) (m : ℤ) (now : D) → clients (quiet_sweep t m now) ≤ clients t
  unfolding quiet_sweep
  clients-quiet_sweep t m now = length-erase_if-le _ t.clients

  clients-make_room :
      (t : ClientTally D) (m : ℤ) (now : D)
      → clients t ≤ max_clients
      → (clients (make_room t m now).0 ≤ max_clients)
        × ((make_room t m now).1 ≡ true → clients (make_room t m now).0 < max_clients)
  unfolding make_room
  clients-make_room t m now h = ground (arith, clients-quiet_sweep t m now)

  clients-count_into :
      (t : ClientTally D) (key : Key) (e : Entry) (m : ℤ) (limited : Bool)
      → clients t < max_clients
      → clients (count_into t key e m limited) ≤ max_clients
  unfolding count_into
  clients-count_into t key e m limited h = omega (arith, length-insert key _ t.clients)

  clients-counted :
      (t : ClientTally D) (key : Key) (e : Entry) (m : ℤ) (limited : Bool)
      → lookup key t.clients ≡ some e
      → clients t ≤ max_clients
      → clients (count_into t key e m limited) ≤ max_clients
  unfolding count_into
  clients-counted t key e m limited k h = omega (arith, length-insert-some key _ e t.clients k)

  clients-tally :
      (t : ClientTally D) (key : Key) (m : ℤ) (now : D) (limited : Bool)
      → clients t ≤ max_clients
      → clients (tally t key m now limited) ≤ max_clients
  unfolding tally
  clients-tally t key m now limited h = elim (Option-cases (lookup key t.clients)) [
    | inl e ↦
        rw (e, tally)
          (ground (
            arith,
            clients-make_room t m now h,
            clients-count_into (make_room t m now).0 key (new_entry m) m limited,
          ))
    | inr (b, e) ↦ rw (e, tally) (clients-counted t key b m limited e h)
  ]

  -- Where no more than `kMaxClients` clients are counted, no more are after any request at any time.
  pub clients-record_request :
      (ntop : Family → List ℕ → List ℕ) (t : ClientTally D) (a : IpAddr) (now : D) (limited : Bool)
      → clients t ≤ max_clients
      → clients (record_request ntop t a now limited) ≤ max_clients
  unfolding record_request
  clients-record_request ntop t a now limited h =
      ground (arith, clients-tally t (public_label ntop a) (floor (div now (lit 60 0))) now limited)
