-- ===== src/NetReport/Report/Mapping.antt =====
-- Whether the public address varies by destination, from all the addresses that were reported.
use nexalink_tunnel.Common.{
  ℕ, ◌≡◌, refl, sym, ◌∙◌, ap, Bool, true, false, not, ◌&&◌, Option, none, some, List, [], ◌∷◌, ◌++◌,
  if◌then◌else◌, Bool-cases, inl, inr,
}
use nexalink_tunnel.Mapped.Addr.{IpAddr, v4, v6}
use nexalink_tunnel.NetReport.{
  ProbeReport, qad_ipv4_report, qad_ipv6_report, https_report, PortAddr, port_addr_eq,
}
use nexalink_tunnel.NetReport.Report.{
  Report, no_report, mapping_after, store_v4, store_v6, store_addr_v4, store_addr_v6, update,
  updates,
}

abbrev pub v4_address : IpAddr → ℕ → List PortAddr
v4_address (v4 octets) port = record { octets = octets; port = port } ∷ []
v4_address (v6 i) port = []

abbrev pub v6_address : IpAddr → ℕ → List PortAddr
v6_address (v4 octets) port = []
v6_address (v6 i) port = record { octets = i.octets; port = port } ∷ []

abbrev pub address_v4 : ProbeReport → List PortAddr
address_v4 (qad_ipv4_report r) = v4_address r.addr.ip r.addr.port
address_v4 (qad_ipv6_report r) = []
address_v4 (https_report r) = []

abbrev pub address_v6 : ProbeReport → List PortAddr
address_v6 (qad_ipv4_report r) = []
address_v6 (qad_ipv6_report r) = v6_address r.addr.ip r.addr.port
address_v6 (https_report r) = []

-- The addresses that probes of a family reported, in their order, less those of the other family.
abbrev pub addresses : (ProbeReport → List PortAddr) → List ProbeReport → List PortAddr
addresses of [] = []
addresses of (r ∷ rs) = of r ++ addresses of rs

abbrev pub all_equal : PortAddr → List PortAddr → Bool
all_equal a [] = true
all_equal a (b ∷ rest) = port_addr_eq a b && all_equal a rest

abbrev pub first : List PortAddr → Option PortAddr
first [] = none
first (a ∷ rest) = some a

-- Nothing is known from fewer than two addresses; else whether one differs from the first.
abbrev pub varies : List PortAddr → Option Bool
varies [] = none
varies (a ∷ []) = none
varies (a ∷ b ∷ rest) = some (not (all_equal a (b ∷ rest)))

abbrev pub any_address : List PortAddr → Bool
any_address [] = false
any_address (a ∷ rest) = true

abbrev mappings : Option Bool → PortAddr → List PortAddr → Option Bool
mappings m a [] = m
mappings m a (b ∷ rest) = mappings (mapping_after m (port_addr_eq a b)) a rest

mappings-some :
    (rest : List PortAddr) (m : Bool) (a : PortAddr)
    → mappings (some m) a rest ≡ some (if all_equal a rest then m else true)
unfolding mapping_after
mappings-some [] m a = refl
mappings-some (b ∷ rest) m a = elim (Bool-cases (port_addr_eq a b)) [
  | inl same ↦ rw (same) (mappings-some rest m a)
  | inr other ↦ rw (other) (mappings-some rest true a ∙ settled (all_equal a rest))
]
  where
    settled : (c : Bool) → some (if c then true else true) ≡ some true
    settled true = refl
    settled false = refl

mappings-varies : (a : PortAddr) (rest : List PortAddr) → mappings none a rest ≡ varies (a ∷ rest)
unfolding mapping_after
mappings-varies a [] = refl
mappings-varies a (b ∷ rest) = elim (Bool-cases (port_addr_eq a b)) [
  | inl same ↦ rw (same) (mappings-some rest false a ∙ negated (all_equal a rest))
  | inr other ↦ rw (other) (mappings-some rest true a ∙ settled (all_equal a rest))
]
  where
    negated : (c : Bool) → some (if c then false else true) ≡ some (not c)
    negated true = refl
    negated false = refl

    settled : (c : Bool) → some (if c then true else true) ≡ some true
    settled true = refl
    settled false = refl

-- The three fields of a report on one family.
pub record View : Type 0 where
  pub udp : Bool
  pub global : Option PortAddr
  pub mapping : Option Bool

abbrev pub view_v4 : Report → View
view_v4 r = record { udp = r.udp_v4; global = r.global_v4; mapping = r.mapping_varies_by_dest_ipv4 }

abbrev pub view_v6 : Report → View
view_v6 r = record { udp = r.udp_v6; global = r.global_v6; mapping = r.mapping_varies_by_dest_ipv6 }

abbrev see_at : Option PortAddr → View → PortAddr → View
see_at none v a = record v { udp = true; global = some a }
see_at (some g) v a = record v { udp = true; mapping = mapping_after v.mapping (port_addr_eq g a) }

abbrev see : View → List PortAddr → View
see v [] = v
see v (a ∷ rest) = see (see_at v.global v a) rest

see-append : (xs ys : List PortAddr) (v : View) → see v (xs ++ ys) ≡ see (see v xs) ys
see-append [] ys v = refl
see-append (x ∷ xs) ys v = see-append xs ys (see_at v.global v x)

store_v4-view :
    (self : Report) (g : Option PortAddr) (a : PortAddr)
    → (view_v4 (store_v4 self g a) ≡ see_at g (view_v4 self) a)
      × (view_v6 (store_v4 self g a) ≡ view_v6 self)
unfolding store_v4
store_v4-view self none a = (refl, refl)
store_v4-view self (some g) a = (refl, refl)

store_v6-view :
    (self : Report) (g : Option PortAddr) (a : PortAddr)
    → (view_v4 (store_v6 self g a) ≡ view_v4 self)
      × (view_v6 (store_v6 self g a) ≡ see_at g (view_v6 self) a)
unfolding store_v6
store_v6-view self none a = (refl, refl)
store_v6-view self (some g) a = (refl, refl)

store_addr_v4-view :
    (self : Report) (i : IpAddr) (port : ℕ)
    → (view_v4 (store_addr_v4 self i port) ≡ see (view_v4 self) (v4_address i port))
      × (view_v6 (store_addr_v4 self i port) ≡ view_v6 self)
unfolding store_addr_v4
store_addr_v4-view self (v4 octets) port =
    store_v4-view self self.global_v4 (record { octets = octets; port = port })
store_addr_v4-view self (v6 i) port = (refl, refl)

store_addr_v6-view :
    (self : Report) (i : IpAddr) (port : ℕ)
    → (view_v4 (store_addr_v6 self i port) ≡ view_v4 self)
      × (view_v6 (store_addr_v6 self i port) ≡ see (view_v6 self) (v6_address i port))
unfolding store_addr_v6
store_addr_v6-view self (v6 i) port =
    store_v6-view self self.global_v6 (record { octets = i.octets; port = port })
store_addr_v6-view self (v4 octets) port = (refl, refl)

update-view :
    (self : Report) (r : ProbeReport)
    → (view_v4 (update self r) ≡ see (view_v4 self) (address_v4 r))
      × (view_v6 (update self r) ≡ see (view_v6 self) (address_v6 r))
unfolding update
update-view self (https_report r) = (refl, refl)
update-view self (qad_ipv4_report r) = store_addr_v4-view _ r.addr.ip r.addr.port
update-view self (qad_ipv6_report r) = store_addr_v6-view _ r.addr.ip r.addr.port

updates-view :
    (rs : List ProbeReport) (self : Report)
    → (view_v4 (updates self rs) ≡ see (view_v4 self) (addresses address_v4 rs))
      × (view_v6 (updates self rs) ≡ see (view_v6 self) (addresses address_v6 rs))
updates-view [] self = (refl, refl)
updates-view (r ∷ rs) self =
    let (four, six) = update-view self r in
    let (fours, sixes) = updates-view rs (update self r) in
    (
      fours ∙ rw (four) (sym (see-append (address_v4 r) (addresses address_v4 rs) (view_v4 self))),
      sixes ∙ rw (six) (sym (see-append (address_v6 r) (addresses address_v6 rs) (view_v6 self))),
    )

-- Once an address is stored it stays, and the others are compared with it.
see-stored :
    (rest : List PortAddr) (m : Option Bool) (a : PortAddr)
    → see (record { udp = true; global = some a; mapping = m }) rest
      ≡ record { udp = true; global = some a; mapping = mappings m a rest }
see-stored [] m a = refl
see-stored (b ∷ rest) m a = see-stored rest (mapping_after m (port_addr_eq a b)) a

see-varies :
    (l : List PortAddr)
    → see (record { udp = false; global = none; mapping = none }) l
      ≡ record { udp = any_address l; global = first l; mapping = varies l }
see-varies [] = refl
see-varies (a ∷ rest) =
    see-stored rest none a
    ∙ ap (λ m. record { udp = true; global = some a; mapping = m }) (mappings-varies a rest)

-- What a report that probe reports have updated from the empty one says of IPv4 depends on the IPv4
-- addresses that the IPv4 probes reported: UDP works if there is one, the first is the global
-- address, and the mapping varies by destination if there are two and one differs from the first,
-- does not if there are two and all are the first, and is unknown of fewer. So too for IPv6.
pub updates-varies :
    (rs : List ProbeReport)
    → let four = addresses address_v4 rs in
      let six = addresses address_v6 rs in
      (view_v4 (updates no_report rs)
        ≡ record { udp = any_address four; global = first four; mapping = varies four })
      × (view_v6 (updates no_report rs)
          ≡ record { udp = any_address six; global = first six; mapping = varies six })
updates-varies rs =
    let (four, six) = updates-view rs no_report in
    (four ∙ see-varies (addresses address_v4 rs), six ∙ see-varies (addresses address_v6 rs))
