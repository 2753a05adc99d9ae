-- ===== src/Protos/Status.antt =====
-- `impl Status` of iroh-relay/src/protos/relay.rs.
use nexalink_tunnel.Common.{
  ℕ, ◌+◌, ◌≡◌, refl, [], ◌∷◌, ◌++◌, length, length-append, arith, ◌==◌, if◌then◌else◌, Ensures,
  fine, refused, Bool-cases, inl, inr, Result, ok, err,
}
use nexalink_tunnel.External.{Bytes}
use nexalink_tunnel.Protos.Message.{
  Error, invalid_frame, Status, healthy, same_endpoint_id_connected, unknown,
}

unfoldable pub write_to : Status → Bytes → Bytes
write_to healthy dst = dst ++ (0 ∷ [])
write_to same_endpoint_id_connected dst = dst ++ (1 ∷ [])
write_to (unknown discriminant) dst = dst ++ (discriminant ∷ [])

unfoldable pub encoded_len : Status → ℕ
encoded_len s = 1

unfoldable pub from_bytes : Bytes → Result Error Status
from_bytes [] = err invalid_frame
from_bytes (discriminant ∷ rest) =
    if discriminant == 0
    then ok healthy
    else if discriminant == 1
    then ok same_endpoint_id_connected
    else ok (unknown discriminant)

-- The status that a reader sees: a placeholder with a known number is that status.
unfoldable pub on_wire : Status → Status
on_wire healthy = healthy
on_wire same_endpoint_id_connected = same_endpoint_id_connected
on_wire (unknown n) =
    if n == 0 then healthy else if n == 1 then same_endpoint_id_connected else unknown n

pub from_bytes-write_to : (s : Status) → from_bytes (write_to s []) ≡ ok (on_wire s)
unfolding from_bytes write_to on_wire
from_bytes-write_to healthy = refl
from_bytes-write_to same_endpoint_id_connected = refl
from_bytes-write_to (unknown n) = ground arith

pub length-write_to :
    (s : Status) (dst : Bytes) → length (write_to s dst) ≡ length dst + encoded_len s
unfolding write_to encoded_len
length-write_to healthy dst = length-append dst _
length-write_to _ dst = length-append dst _

pub from_bytes-Ensures : (b : Bytes) → Ensures (λ s. Unit {0}) (from_bytes b)
unfolding from_bytes
from_bytes-Ensures [] = refused
from_bytes-Ensures (d ∷ rest) = elim (Bool-cases (d == 0)) [
  | inl zeroth ↦ rw (zeroth, from_bytes) (fine tt)
  | inr more ↦ elim (Bool-cases (d == 1)) [
    | inl first ↦ rw (more, from_bytes, first) (fine tt)
    | inr other ↦ rw (more, from_bytes, other) (fine tt)
  ]
]

pub write_to-append : (s : Status) (dst : Bytes) → write_to s dst ≡ dst ++ write_to s []
unfolding write_to
write_to-append healthy dst = refl
write_to-append _ dst = refl
