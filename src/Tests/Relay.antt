-- ===== src/Tests/Relay.antt =====
-- The theorems on the relay server, at concrete inputs.
use nexalink_tunnel.Common.{
  true, arith, ◌+◌, ◌*◌, pos, lez, is_positive, saturate_i64, wrap_i64, as_i64, div_z, ◌+ℤ◌, ℕ, ◌≡◌,
  refl, none, some, [], ◌∷◌, ◌++◌, if◌then◌else◌, ◌≢◌, false,
}
use nexalink_tunnel.Common.Bytes.{bytes_eq}
use nexalink_tunnel.Common.Maps.{get, insert, insert_set, contains}
use nexalink_tunnel.Keys.{PublicKey}
use nexalink_tunnel.Protos.Message.{v1, Datagrams, endpoint_gone, same_endpoint_id_connected}
use nexalink_tunnel.Server.Runtime.{sent}
use nexalink_tunnel.Server.Client.{
  Client, Config, new, try_send_packet, try_send_health, health_message,
}
use nexalink_tunnel.Server.Clients.{
  key_Eq, key_eq_iff, Metrics, ClientState, Clients, no_clients, add_client, register, unregister,
  disconnect, send_packet, send_to, sent_packet, delivered,
}
use nexalink_tunnel.Server.Clients.Connections.{
  without, IsNodup, connections, register-connections, unregister-connections,
}
use nexalink_tunnel.Server.Clients.Connections.Runs.{
  Reach, start, registered, unregistered, arrive, leave, nobody, Reach-connections,
}
use nexalink_tunnel.Server.Clients.Packets.{IsDelivered, send_packet-IsDelivered}
use nexalink_tunnel.Server.Clients.Disconnect.{has_id}
use nexalink_tunnel.Server.Clients.Disconnect.Tokens.{tokens, cancelled, disconnect-tokens}
use nexalink_tunnel.Server.Clients.Gone.{IsSetOfKeys, unregister-gone}
use nexalink_tunnel.Server.Bucket.{Bucket, refill_periods, update_state, deadline, consume}
use nexalink_tunnel.Server.Bucket.Deadline.{IsValid, bucket, consume_deadline}
use nexalink_tunnel.Tests.Samples.{crates, runtime, key_of, try_send}

abbrev config : ℕ → PublicKey → Config crates runtime
config id key = record {
  endpoint_id = key;
  connection_id = id;
  channel_capacity = 512;
  protocol_version = v1;
}

abbrev pub zeros : Metrics
zeros = record {
  clients_inactive_added = 0;
  clients_inactive_removed = 0;
  send_packets_dropped = 0;
}

abbrev batch : Datagrams crates
batch = record { ecn = none; segment_size = none; contents = 1 ∷ 2 ∷ [] }

-- Two connections of one endpoint, and one of another.
abbrev one : Clients crates runtime
one = (register crates runtime (no_clients crates runtime) (config 1 (key_of 7)) zeros).0

abbrev pub two : Clients crates runtime
two = (register crates runtime one (config 2 (key_of 7)) zeros).0

abbrev three : Clients crates runtime
three = (register crates runtime two (config 3 (key_of 9)) zeros).0

register-connections_example : connections crates runtime three (key_of 9) ≡ (
    if key_Eq.beq (key_of 9) (key_of 9)
    then connections crates runtime two (key_of 9) ++ (3 ∷ [])
    else connections crates runtime two (key_of 9))
register-connections_example =
    register-connections crates runtime two (config 3 (key_of 9)) zeros (key_of 9)

one-Reach : Reach crates runtime one (1 ∷ []) (arrive (key_of 7) 1 nobody)
unfolding contains
one-Reach = registered start (config 1 (key_of 7)) zeros refl

two-Reach : Reach crates runtime two (2 ∷ 1 ∷ []) (arrive (key_of 7) 2 (arrive (key_of 7) 1 nobody))
unfolding contains
two-Reach = registered one-Reach (config 2 (key_of 7)) zeros refl

two-connections : connections crates runtime two (key_of 7) ≡ 1 ∷ 2 ∷ []
unfolding bytes_eq
two-connections = Reach-connections crates runtime two-Reach (key_of 7)

pub two-IsNodup : IsNodup (connections crates runtime two (key_of 7))
unfolding contains
two-IsNodup = rw (two-connections) (refl, (refl, tt))

-- The active connection leaves, and the other one is active again.
unregister-connections_example :
    connections crates runtime (unregister crates runtime two (key_of 7) 2 zeros).0 (key_of 7) ≡ (
      if key_Eq.beq (key_of 7) (key_of 7)
      then without 2 (connections crates runtime two (key_of 7))
      else connections crates runtime two (key_of 7))
unregister-connections_example =
    unregister-connections crates runtime two (key_of 7) 2 zeros (key_of 7) two-IsNodup

Reach-connections_example :
    connections crates runtime (unregister crates runtime two (key_of 7) 2 zeros).0 (key_of 7)
    ≡ leave (key_of 7) 2 (arrive (key_of 7) 2 (arrive (key_of 7) 1 nobody)) (key_of 7)
Reach-connections_example =
    Reach-connections crates runtime (unregistered two-Reach (key_of 7) 2 zeros) (key_of 7)

-- The inactive connection of the endpoint is told to stop.
disconnect-tokens_example :
    ((disconnect crates runtime two (key_of 7) (some 1)).1
      ≡ has_id crates runtime (connections crates runtime two (key_of 7)) (some 1))
    × (tokens crates runtime (disconnect crates runtime two (key_of 7) (some 1)).0 (key_of 7) ≡ (
        if key_Eq.beq (key_of 7) (key_of 7)
        then cancelled (some 1) (tokens crates runtime two (key_of 7))
        else tokens crates runtime two (key_of 7)))
    × (connections crates runtime (disconnect crates runtime two (key_of 7) (some 1)).0 (key_of 7)
        ≡ connections crates runtime two (key_of 7))
disconnect-tokens_example = disconnect-tokens crates runtime two (key_of 7) (some 1) (key_of 7)

three-delivered : (send_packet crates runtime three (key_of 7) batch (key_of 9) zeros).1 ≡ delivered
unfolding send_packet send_to sent_packet try_send_packet try_send_health health_message register
    add_client new no_clients insert get bytes_eq try_send
three-delivered = refl

send_packet-IsDelivered_example :
    IsDelivered crates runtime three
      (send_packet crates runtime three (key_of 7) batch (key_of 9) zeros).0.0
      (key_of 7)
      (record { src = key_of 9; data_of = batch })
send_packet-IsDelivered_example =
    send_packet-IsDelivered crates runtime three (key_of 7) batch (key_of 9) zeros three-delivered

-- A full bucket of a hundred tokens, which is refilled by ten every hundred milliseconds.
abbrev full_bucket : Bucket
full_bucket = record {
  fill = pos 100;
  max = pos 100;
  last_fill = 5;
  refill_period = 100 * 1000000;
  refill = pos 10;
}

full_bucket-IsValid : IsValid full_bucket
unfolding lez is_positive
full_bucket-IsValid = (refl, refl, refl)

full_bucket-overdrawn :
    consume full_bucket 250 5 ≡ (bucket 150 99 5 100 9, some (5 + 16 * 100000000))
unfolding consume update_state refill_periods deadline is_positive saturate_i64 wrap_i64 as_i64
    div_z ◌+ℤ◌
full_bucket-overdrawn = refl

consume_deadline_example :
    is_positive (update_state (bucket 150 99 5 100 9) (5 + 16 * 100000000)).fill ≡ true
consume_deadline_example =
    consume_deadline full_bucket 250 5 (5 + 16 * 100000000) 150 99 5 100 9 full_bucket-overdrawn
      (omega arith) (omega arith) (omega arith) (omega arith)

-- The endpoint of the ninth key has sent a packet to the seventh, and leaves.
abbrev after_packet : Clients crates runtime
after_packet = (send_packet crates runtime three (key_of 7) batch (key_of 9) zeros).0.0

abbrev nine_state : ClientState crates runtime
nine_state = record { active = new crates runtime (config 3 (key_of 9)); inactive = [] }

abbrev seven_client : Client crates runtime
seven_client =
    (try_send_packet crates runtime (new crates runtime (config 2 (key_of 7))) (key_of 9) batch).1

abbrev seven_state : ClientState crates runtime
seven_state = record {
  active = seven_client;
  inactive =
      (try_send_health crates runtime (new crates runtime (config 1 (key_of 7)))
        same_endpoint_id_connected).1
      ∷ [];
}

relay_program : Unit {0}
unfolding send_packet send_to sent_packet try_send_packet try_send_health health_message register
    add_client new no_clients insert get insert_set contains bytes_eq try_send
relay_program = tt

after_packet-nine : get after_packet.clients (key_of 9) ≡ some nine_state
unfolding relay_program
after_packet-nine = refl

after_packet-seven : get after_packet.clients (key_of 7) ≡ some seven_state
unfolding relay_program
after_packet-seven = refl

after_packet-sent_to : get after_packet.sent_to (key_of 9) ≡ some (key_of 7 ∷ [])
unfolding relay_program
after_packet-sent_to = refl

seven-IsSetOfKeys : IsSetOfKeys (key_of 7 ∷ [])
unfolding relay_program
seven-IsSetOfKeys = (refl, tt)

seven-contains : contains (key_of 7 ∷ []) (key_of 7) ≡ true
unfolding relay_program
seven-contains = refl

nine_id : nine_state.active.connection_id ≡ 3
unfolding relay_program
nine_id = refl

nine-seven : key_of 9 ≢ key_of 7
unfolding relay_program
nine-seven e = cc (differ, (key_eq_iff (key_of 9) (key_of 7)).1 e)
  where
    differ : key_Eq.beq (key_of 9) (key_of 7) ≡ false
    differ = refl

seven-accepts : (runtime.try_send seven_client.message_queue (endpoint_gone (key_of 9))).0 ≡ sent
unfolding relay_program
seven-accepts = refl

unregister-gone_example :
    let after = (unregister crates runtime after_packet (key_of 9) 3 zeros).0 in
    (get after.sent_to (key_of 9) ≡ none)
    × ((sp' : ClientState crates runtime) × (get after.clients (key_of 7) ≡ some sp')
        × (runtime.queued sp'.active.message_queue
            ≡ runtime.queued seven_client.message_queue ++ (endpoint_gone (key_of 9) ∷ [])))
unregister-gone_example =
    unregister-gone crates runtime after_packet (key_of 9) (key_of 7) 3 zeros nine_state seven_state
      (key_of 7 ∷ []) after_packet-nine nine_id refl after_packet-sent_to seven-IsSetOfKeys
      seven-contains nine-seven after_packet-seven seven-accepts
