-- ===== src/Tests/Actor.antt =====
-- The theorems on the actor of a relay client, at concrete inputs.
use nexalink_tunnel.Common.{◌≡◌, refl, true, none, some, List, [], ◌∷◌, ◌++◌, nat_eq}
use nexalink_tunnel.Protos.Message.{ClientToRelayMsg}
use nexalink_tunnel.Server.Actor.{Actor, new_counter, written, elapsed, decoded, frame, Round, run}
use nexalink_tunnel.Server.Actor.Gone.{IsGone, run-IsGone}
use nexalink_tunnel.Server.Actor.Writes.{Wrote, run-writes}
use nexalink_tunnel.Tests.Samples.{crates, runtime, key_of}
use nexalink_tunnel.Tests.Relay.{two, two-IsNodup, zeros}

-- The stream has no errors of its own.
abbrev NoError : Type 0
NoError = ⊥

abbrev actor : Actor crates runtime NoError
actor = record {
  endpoint_id = key_of 7;
  connection_id = 2;
  client_counter = new_counter 3;
  ping_tracker = record { inner = none; max_timeout = 5000000000; last_rtt = none };
  metrics = zeros;
  actor_metrics = record {
    accepts = 0;
    unique_client_keys = 0;
    disconnects = 0;
    bytes_sent = 0;
    bytes_recv = 0;
    send_packets_sent = 0;
    send_packets_recv = 0;
    got_ping = 0;
    sent_pong = 0;
  };
  out = [];
}

-- A ping is answered, a pong is too slow to be written, and nothing more happens.
abbrev rounds : List (Round crates runtime NoError)
rounds =
    record {
      others = λ clients. clients;
      branch = frame (some (decoded (ClientToRelayMsg.ping (1 ∷ 2 ∷ [])))) 10 written;
      flushed = true;
    }
    ∷ record {
      others = λ clients. clients;
      branch = frame (some (decoded (ClientToRelayMsg.ping (3 ∷ 4 ∷ [])))) 20 elapsed;
      flushed = true;
    }
    ∷ []

run-IsGone_example :
    IsGone crates runtime NoError (key_of 7) 2 (run crates runtime NoError actor two 3 rounds)
run-IsGone_example =
    run-IsGone crates runtime NoError (key_of 7) 2 actor two 3 rounds refl refl two-IsNodup
      ((λ s d. d), ((λ s d. d), tt))

run-writes_example :
    (taken : List (Round crates runtime NoError)) × (rest : List (Round crates runtime NoError))
    × (taken ++ rest ≡ rounds)
    × Wrote crates runtime NoError [] taken rest (run crates runtime NoError actor two 3 rounds)
run-writes_example = run-writes crates runtime NoError actor two 3 rounds
