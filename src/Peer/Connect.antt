-- ===== src/Peer/Connect.antt =====
-- src/NtpClient.cpp: `connectPeer` and `ensureSocket`. What the resolver and the sockets do is an
-- argument.
use ubersdr_ntp.Prelude.{
  Bool, true, false, ◌&&◌, ◌||◌, List, [], ◌∷◌, Option, none, some, if◌then◌else◌,
}
use ubersdr_ntp.Prelude.Int.{ℤ, pos, negsuc, leb_ℤ}
use ubersdr_ntp.Prelude.Double.{Double, add, lt, lit, from_int}
use ubersdr_ntp.Prelude.Dict.{Key, eq_key}
use ubersdr_ntp.Address.{SockAddr}
use ubersdr_ntp.Peer.{NtpPeer, NtpPeerInfo, Reject, cannot_resolve, cannot_reach, empty_filter}
use ubersdr_ntp.Peer.Wire.{refid_for_peer}

-- One address of the resolver's answer: its text with the port, and whether a socket can be made for
-- it and connected.
pub record Resolved : Type 0 where
  pub text : Key
  pub addr : SockAddr
  pub connects : Bool

-- What getaddrinfo answers (none on a failure, and some address otherwise), what DNS says how long the
-- answer may be kept (-1 where it does not say), and the monotonic clock.
pub record Lookup (D : Type 0) : Type 0 where
  pub now : D
  pub found : List Resolved
  pub ttl : ℤ

-- The first loop over the addresses: whether the one in use is still among them.
unfoldable pub has_text : Key → List Resolved → Bool
has_text text [] = false
has_text text (a ∷ rest) = eq_key a.text text || has_text text rest

-- The second: the first address that a socket can be connected to.
unfoldable pub first_connecting : List Resolved → Option Resolved
first_connecting [] = none
first_connecting (a ∷ rest) =
    let others = first_connecting rest in if a.connects then some a else others

module _ {D : Type 0} ⦃f : Double D⦄ where
  -- std::clamp, on doubles.
  abbrev pub clamp_sec : D → D → D → D
  clamp_sec x lo hi = if lt x lo then lo else if lt hi x then hi else x

  -- When to look the name up again, counted from now.
  unfoldable pub look_again : Bool → ℤ → D
  look_again literal ttl =
      if literal
      then lit 1_000_000_000_000_000_000 0
      else if leb_ℤ (pos 0) ttl
      then clamp_sec (from_int ttl) (lit 30 0) (lit 3600 0)
      else lit 3600 0

  -- A lookup that failed, and one without an address that connects: what is open is kept.
  unfoldable pub lookup_failed : NtpPeer D → Lookup D → NtpPeer D
  lookup_failed p l = record p { resolve_due_at = add l.now (lit 60 0); resolve_failing = true }

  unfoldable pub connect_failed : NtpPeer D → Lookup D → NtpPeer D
  connect_failed p l = record p { resolve_due_at = add l.now (lit 60 0); resolve_failing = false }

  -- What a lookup with an address notes, whether that is in use already or new.
  unfoldable pub note_lookup : NtpPeer D → Lookup D → NtpPeer D
  note_lookup p l =
      let info : NtpPeerInfo D = p.info in
      record p {
        resolve_failing = false;
        resolve_due_at = add l.now (look_again p.literal l.ttl);
        info = record info { dns_ttl_sec = if p.literal then negsuc 0 else l.ttl };
      }

  -- To a new address. A peer that was open has moved: its filter belongs to the old path.
  unfoldable pub move_to : NtpPeer D → Lookup D → Resolved → NtpPeer D
  move_to p l a =
      let moved = p.is_open in
      let info : NtpPeerInfo D = p.info in
      record p {
        is_open = true;
        resolved_at = l.now;
        resolved_text = a.text;
        consecutive_timeouts = 0;
        filter = if moved then empty_filter else p.filter;
        spike_run = if moved then 0 else p.spike_run;
        info = record info { address_refid = refid_for_peer a.addr };
      }

  unfoldable pub connect_to : NtpPeer D → Lookup D → Option Resolved → NtpPeer D × Option (Reject D)
  connect_to p l none = (connect_failed p l, some cannot_reach)
  connect_to p l (some a) = (move_to (note_lookup p l) l a, none)

  -- `connectPeer`: the state after it, and why it failed.
  unfoldable pub connect_peer : NtpPeer D → Lookup D → NtpPeer D × Option (Reject D)
  connect_peer p l = elim l.found [
    | [] ↦ (lookup_failed p l, some cannot_resolve)
    | _ ∷ _ ↦
        (if p.is_open && has_text p.resolved_text l.found
          then (note_lookup p l, none)
          else connect_to p l (first_connecting l.found))
  ]

  -- `ensureSocket`.
  unfoldable pub ensure_socket : NtpPeer D → Lookup D → NtpPeer D × Option (Reject D)
  ensure_socket p l = if p.is_open then (p, none) else connect_peer p l
