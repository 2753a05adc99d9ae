-- ===== src/Dns/Pkarr/Recent.antt =====
-- "More recent" is a strict order, in which two packets tie if their timestamps and records agree.
use nexalink_tunnel.Common.{ℕ, ◌≡◌, refl, true, false, List, [], ◌∷◌, arith, Bool-cases, inl, inr}
use nexalink_tunnel.Common.Ordered.{bytes_less, bytes_less_irrefl, bytes_less_trans}
use nexalink_tunnel.Dns.Pkarr.{SignedPacket, encoded_packet, more_recent_than}

bytes_less_negtrans :
    (a b c : List ℕ) → bytes_less a b ≡ false → bytes_less b c ≡ false → bytes_less a c ≡ false
unfolding bytes_less
bytes_less_negtrans [] [] c h k = k
bytes_less_negtrans [] (b ∷ bs) c h k = cc
bytes_less_negtrans (a ∷ as') [] [] h k = refl
bytes_less_negtrans (a ∷ as') [] (c ∷ cs) h k = cc
bytes_less_negtrans (a ∷ as') (b ∷ bs) [] h k = refl
bytes_less_negtrans (a ∷ as') (b ∷ bs) (c ∷ cs) h k = ground (arith, bytes_less_negtrans as' bs cs)

bytes_less_asym : (a b : List ℕ) → bytes_less a b ≡ true → bytes_less b a ≡ false
bytes_less_asym a b h = elim (Bool-cases (bytes_less b a)) [
  | inl less ↦ cc (bytes_less_trans a b a h less, bytes_less_irrefl a)
  | inr other ↦ other
]

pub more_recent_asym :
    (p q : SignedPacket) → more_recent_than p q ≡ true → more_recent_than q p ≡ false
unfolding more_recent_than
more_recent_asym p q h = ground (arith, bytes_less_asym (encoded_packet q) (encoded_packet p))

-- What no packet is more recent than is not less recent than what that one is not less recent than.
pub more_recent_negtrans :
    (p q r : SignedPacket)
    → more_recent_than p q ≡ false
    → more_recent_than q r ≡ false
    → more_recent_than p r ≡ false
unfolding more_recent_than
more_recent_negtrans p q r h k =
    ground (arith, bytes_less_negtrans (encoded_packet r) (encoded_packet q) (encoded_packet p))

pub more_recent_irrefl : (p : SignedPacket) → more_recent_than p p ≡ false
unfolding more_recent_than
more_recent_irrefl p = ground (arith, bytes_less_irrefl (encoded_packet p))
