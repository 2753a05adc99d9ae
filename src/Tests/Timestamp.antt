-- ===== src/Tests/Timestamp.antt =====
-- The theorems on timestamps, at concrete inputs.
use nexalink_tunnel.Common.{◌≡◌, refl, false, ◌∷◌, arith}
use nexalink_tunnel.Dns.Timestamp.{
  next_of, idle, looping, Timestamps, no_timestamps, begin_now, exchange_in, exchange, Reach, start,
  began, exchanged, IsMonotonic, IsInRange, Reach-IsMonotonic, exchange-returns,
}

-- Two threads read the clock in one microsecond; the second one is faster.
abbrev both_began : Timestamps
both_began = begin_now (begin_now no_timestamps 0 100 0) 1 100 0

abbrev one_returned : Timestamps
one_returned = exchange both_began 1 false 0

abbrev both_returned : Timestamps
both_returned = exchange (exchange one_returned 0 false 100) 0 false 0

both_returned-Reach : Reach both_returned
both_returned-Reach = exchanged (exchange one_returned 0 false 100) 0 false 0 (
    exchanged one_returned 0 false 100 (
      exchanged both_began 1 false 0
        (began (begin_now no_timestamps 0 100 0) 1 100 0 (began no_timestamps 0 100 0 start))))

in_range : IsInRange both_returned.returned
unfolding exchange exchange_in begin_now next_of
in_range = (omega arith, (omega arith, tt))

Reach-IsMonotonic_example : IsMonotonic both_returned.returned
Reach-IsMonotonic_example = Reach-IsMonotonic both_returned-Reach in_range

waits : one_returned.threads 0 ≡ looping 100 0
unfolding exchange exchange_in begin_now
waits = refl

exchange-returns_example :
    let first = exchange one_returned 0 false one_returned.last_timestamp in
    let second = exchange first 0 false first.last_timestamp in
    (second.threads 0 ≡ idle)
    × (second.returned
        ≡ record { micros = 100; time = next_of 100 one_returned.last_timestamp }
          ∷ one_returned.returned)
exchange-returns_example = exchange-returns one_returned 0 100 0 waits
