-- ===== src/Tests/Addresses.antt =====
-- The theorems on the mapped addresses and on the ping tracker, at concrete inputs.
use nexalink_tunnel.Common.{
  subst, ℕ, ◌+◌, ◌*◌, ◌≤◌, ◌<◌, ◌^◌, ◌≡◌, ◌↔◌, refl, ap, arith, true, none, some, List, [], inl,
  inr, ◌⊎◌, panic, ◌∷◌, Eq, nat_eq, ok,
}
use nexalink_tunnel.Common.Bytes.{bytes_eq, bytes_eq_iff}
use nexalink_tunnel.External.{Bytes}
use nexalink_tunnel.Mapped.Addr.{RelayMappedAddr}
use nexalink_tunnel.Mapped.Relay
use nexalink_tunnel.Mapped.EndpointId
use nexalink_tunnel.Mapped.Custom
use nexalink_tunnel.Mapped.Multipath.{from, mixed, relay, custom, from-private_socket_addr}
use nexalink_tunnel.Mapped.Map.{get, gets, generate_for, lookup_key}
use nexalink_tunnel.Mapped.Map.Runs.{IsGiven, used, empty, gets_unique}
use nexalink_tunnel.Common.Maps
use nexalink_tunnel.Common.Maps.{insert}
use nexalink_tunnel.Ping.{
  Duration, PingInner, PingTracker, new, ping_timeout, new_ping, new_ping_with_timeout, timeout,
}
use nexalink_tunnel.Ping.Bounds.{
  ping, ping_for, Reach, start, next, IsOutOfRange, IsTimeout, ping_timeout_outcome, timeout_window,
}

mapped_eq_iff : (a b : RelayMappedAddr) → (bytes_eq a.inner.octets b.inner.octets ≡ true) ↔ (a ≡ b)
mapped_eq_iff a b = (
  λ h.
      ap (λ o. record { inner = record { octets = o } })
        ((bytes_eq_iff a.inner.octets b.inner.octets).0 h),
  λ e.
      (bytes_eq_iff a.inner.octets b.inner.octets).1
        (ap (λ (c : RelayMappedAddr). c.inner.octets) e),
)

instance abbrev mapped_Eq : Eq RelayMappedAddr
mapped_Eq = record { beq = λ a b. bytes_eq a.inner.octets b.inner.octets; beq_iff = mapped_eq_iff }

abbrev five : ℕ
five = 5

abbrev six : ℕ
six = 6

-- Two other values are taken before the second call.
abbrev keys : List (ℕ × ℕ)
keys = (0, 5) ∷ (2, 6) ∷ (0, 5) ∷ []

abbrev given : List (ℕ × RelayMappedAddr)
given = (gets Relay.addr_of empty 0 keys).0

first_given : IsGiven 5 (Relay.addr_of 0) given
unfolding gets get generate_for Maps.get insert
first_given = inl (refl, refl)

second_given : IsGiven 6 (Relay.addr_of 3) given
unfolding gets get generate_for Maps.get insert
second_given = inr (inl (refl, refl))

room : 0 + used keys < 2 ^ 64
unfolding used
room = omega arith

gets_unique_example :
    (lookup_key Relay.addr_of (gets Relay.addr_of empty 0 keys).1 (Relay.addr_of 0) ≡ some 5)
    × ((five ≡ six) ↔ (Relay.addr_of 0 ≡ Relay.addr_of 3))
gets_unique_example =
    gets_unique Relay.addr_of Relay.addr_of-injective 0 keys 5 6 (Relay.addr_of 0) (Relay.addr_of 3)
      room first_given second_given

from-private_socket_addr_example :
    (from (EndpointId.private_socket_addr (EndpointId.addr_of 7)) ≡ mixed (EndpointId.addr_of 7))
    × (from (Relay.private_socket_addr (Relay.addr_of 7)) ≡ relay (Relay.addr_of 7))
    × (from (Custom.private_socket_addr (Custom.addr_of 7)) ≡ custom (Custom.addr_of 7))
from-private_socket_addr_example = from-private_socket_addr 7

abbrev measured : PingTracker
measured = record { inner = none; max_timeout = 5 * 1000000000; last_rtt = some 40000000 }

ping_timeout_outcome_example :
    (IsOutOfRange measured.last_rtt measured.max_timeout × (ping_timeout measured ≡ panic))
    ⊎ ((¬ IsOutOfRange measured.last_rtt measured.max_timeout)
        × ((d : Duration) × (ping_timeout measured ≡ ok d)
            × IsTimeout measured.last_rtt measured.max_timeout d))
ping_timeout_outcome_example = ping_timeout_outcome measured

abbrev fresh : PingTracker
fresh = new (5 * 1000000000)

abbrev sent : PingInner
sent = record { payload = 1 ∷ 2 ∷ []; deadline = 100 + 5 * 1000000000; sent_at = 100 }

abbrev waiting : PingTracker
waiting = record { inner = some sent; max_timeout = 5 * 1000000000; last_rtt = none }

pinged : new_ping fresh 100 (1 ∷ 2 ∷ []) ≡ ok (waiting, 1 ∷ 2 ∷ [])
unfolding new_ping new ping_timeout new_ping_with_timeout
pinged = refl

-- A second ping, of a custom timeout of a fifth of a second.
abbrev again : PingInner
again = record { payload = 3 ∷ []; deadline = 900 + 200000000; sent_at = 900 }

abbrev waiting_again : PingTracker
waiting_again = record { inner = some again; max_timeout = 5 * 1000000000; last_rtt = none }

pinged_again : (new_ping_with_timeout waiting 900 (3 ∷ []) 200000000).0 ≡ waiting_again
unfolding new_ping_with_timeout
pinged_again = refl

waiting-Reach : Reach 200000000 (5 * 1000000000) fresh waiting_again 900
waiting-Reach =
    subst (λ t. Reach 200000000 (5 * 1000000000) fresh t 900) pinged_again
      (next (next (start 0) (omega arith) (ping fresh 100 (1 ∷ 2 ∷ []) pinged)) (omega arith)
        (ping_for waiting 900 (3 ∷ []) 200000000 (omega arith) (omega arith)))

timeout_window_example :
    ((t' : PingTracker) → timeout waiting_again 600000000 ≡ some t' → 900 + 200000000 ≤ 600000000)
    × (900 + 5 * 1000000000 ≤ 600000000
        → timeout waiting_again 600000000 ≡ some (record waiting_again { inner = none }))
timeout_window_example =
    timeout_window 200000000 (5 * 1000000000) (5 * 1000000000) waiting_again 900 again 600000000
      (omega arith) (omega arith) (omega arith) waiting-Reach refl

abbrev first_ping : Bytes
first_ping = 1 ∷ []

abbrev second_ping : Bytes
second_ping = 2 ∷ []
