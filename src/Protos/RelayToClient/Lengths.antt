-- ===== src/Protos/RelayToClient/Lengths.antt =====
-- `encoded_len` of `RelayToClientMsg` against what `to_bytes` writes.
use nexalink_tunnel.Common.{
  ◌+◌, ◌≡◌, refl, [], ◌++◌, length, length-append, arith, ok, ap, append_assoc,
}
use nexalink_tunnel.External.{Bytes, Crates}
use nexalink_tunnel.Protos.Frame
use nexalink_tunnel.Protos.Status
use nexalink_tunnel.Protos.Datagrams
use nexalink_tunnel.Protos.Message.{
  Error, RelayToClientMsg, IsRelayToClientMsg, datagrams, endpoint_gone, status, restarting, ping,
  pong, health,
}
use nexalink_tunnel.Protos.RelayToClient.{
  typ, write_payload, write_to, to_bytes, payload_len, encoded_len,
}

module _ (x : Crates) where
  pub length-write_payload :
      (msg : RelayToClientMsg x) (dst : Bytes)
      → IsRelayToClientMsg x msg
      → length (write_payload x msg dst) ≡ length dst + payload_len x msg
  unfolding write_payload payload_len
  length-write_payload (datagrams key d) dst h = omega (
    arith,
    Datagrams.length-write_to x d (dst ++ key.y),
    length-append dst key.y,
    x.is_verifying_key-length key.y h.0,
  )
  length-write_payload (endpoint_gone key) dst h =
      omega (arith, length-append dst key.y, x.is_verifying_key-length key.y h)
  length-write_payload (status s) dst h = Status.length-write_to s dst
  length-write_payload (restarting a b) dst h =
      rw (length-append, length-append, x.length-put_u32, x.length-put_u32) (omega arith)
  length-write_payload (ping payload) dst h = omega (arith, length-append dst payload)
  length-write_payload (pong payload) dst h = omega (arith, length-append dst payload)
  length-write_payload (health problem) dst h = length-append dst problem

  -- `encoded_len` never panics, and is the number of bytes that `to_bytes` writes.
  pub encoded_len-to_bytes :
      (msg : RelayToClientMsg x)
      → IsRelayToClientMsg x msg
      → encoded_len x msg ≡ ok (length (to_bytes x msg))
  unfolding encoded_len to_bytes write_to
  encoded_len-to_bytes msg h = rw (Frame.encoded_len-one Error (typ x msg)) (
      ap ok (
        omega (
          arith,
          length-write_payload msg (Frame.write_to x (typ x msg) []) h,
          Frame.length-write_to x (typ x msg) [],
        )))

  -- The payload goes behind what the buffer holds.
  pub write_payload-append :
      (msg : RelayToClientMsg x) (dst : Bytes)
      → write_payload x msg dst ≡ dst ++ write_payload x msg []
  unfolding write_payload
  write_payload-append (datagrams key d) dst =
      rw (Datagrams.write_to-append x d (dst ++ key.y), Datagrams.write_to-append x d key.y)
        (append_assoc dst key.y _)
  write_payload-append (endpoint_gone key) dst = refl
  write_payload-append (status s) dst = Status.write_to-append s dst
  write_payload-append (restarting a b) dst = append_assoc dst _ _
  write_payload-append (ping payload) dst = refl
  write_payload-append (pong payload) dst = refl
  write_payload-append (health problem) dst = refl
