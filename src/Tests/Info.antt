-- ===== src/Tests/Info.antt =====
-- The theorems on the published information of an endpoint, at concrete inputs.
use nexalink_tunnel.Common.{
  ℕ, zero, suc, ◌≡◌, refl, sym, ap, ◌∙◌, not, Option, none, some, [], ◌∷◌, ◌++◌, Eq, ok, arith,
}
use nexalink_tunnel.External.{Bytes}
use nexalink_tunnel.Mapped.Addr.{SocketAddr, IpAddr, v4, v6}
use nexalink_tunnel.Transports.{RelayUrl, CustomAddr, Addr, addr_Eq}
use nexalink_tunnel.Transports
use nexalink_tunnel.Dns.Attrs.{TxtAttrs, before_equals, from_strings, to_txt_strings}
use nexalink_tunnel.Dns.Attrs.Cut.{cut_values, from_strings-to_txt_strings}
use nexalink_tunnel.Dns.Info.{
  TransportAddr, relay_addr, ip_addr, custom_addr, AddrTexts, EndpointInfo, add_new, keep,
  is_relay_addr, info_to_txt_strings, info_from_strings,
}
use nexalink_tunnel.Dns.Info.RoundTrip.{AreWhole, IsUserData, info_from_strings-info_to_txt_strings}
use nexalink_tunnel.Tests.Samples.{key_of}

-- A text is tagged by the kind of the address: 0 and 1 for socket addresses, and 2 for custom ones.
unfoldable ip_text : IpAddr → ℕ → Bytes
ip_text (v4 octets) port = 0 ∷ port ∷ octets
ip_text (v6 i) port = 1 ∷ port ∷ i.octets

unfoldable ip_parse : Bytes → Option SocketAddr
ip_parse (zero ∷ port ∷ octets) = some (record { ip = v4 octets; port = port })
ip_parse (suc zero ∷ port ∷ octets) =
    some (record { ip = v6 (record { octets = octets }); port = port })
ip_parse _ = none

ip_parse-ip_text : (a : SocketAddr) → ip_parse (ip_text a.ip a.port) ≡ some a
unfolding ip_text ip_parse
ip_parse-ip_text a = go a.ip a.port
  where
    go : (i : IpAddr) (p : ℕ) → ip_parse (ip_text i p) ≡ some (record { ip = i; port = p })
    go (v4 octets) p = refl
    go (v6 i) p = refl

unfoldable custom_parse : Bytes → Option CustomAddr
custom_parse (tag ∷ id ∷ bytes) = some (record { id = id; data_bytes = bytes })
custom_parse _ = none

custom_parse-text : (c : CustomAddr) → custom_parse (2 ∷ c.id ∷ c.data_bytes) ≡ some c
unfolding custom_parse
custom_parse-text c = refl

ip_parse_custom : (c : CustomAddr) → ip_parse (2 ∷ c.id ∷ c.data_bytes) ≡ none
unfolding ip_parse
ip_parse_custom c = refl

abbrev texts : AddrTexts
texts = record {
  url_to_string = λ u. u.url;
  url_parse = λ s. some (record { url = s });
  url_parse-url_to_string = λ u. refl;
  ip_to_string = λ a. ip_text a.ip a.port;
  ip_from_str = ip_parse;
  ip_from_str-ip_to_string = ip_parse-ip_text;
  custom_to_string = λ c. 2 ∷ c.id ∷ c.data_bytes;
  custom_from_str = custom_parse;
  custom_from_str-custom_to_string = custom_parse-text;
  ip_from_str-custom_to_string = ip_parse_custom;
}

-- The derived equality, by that of `Addr` with one endpoint.
abbrev to_addr : TransportAddr → Addr
to_addr (relay_addr u) = Transports.relay u (key_of 0)
to_addr (ip_addr a) = Transports.ip a
to_addr (custom_addr c) = Transports.custom c

abbrev of_addr : Addr → TransportAddr
of_addr (Transports.relay u e) = relay_addr u
of_addr (Transports.ip a) = ip_addr a
of_addr (Transports.custom c) = custom_addr c

of_addr-to_addr : (a : TransportAddr) → of_addr (to_addr a) ≡ a
of_addr-to_addr (relay_addr u) = refl
of_addr-to_addr (ip_addr a) = refl
of_addr-to_addr (custom_addr c) = refl

instance abbrev transport_addr_Eq : Eq TransportAddr
transport_addr_Eq = record {
  beq = λ a b. addr_Eq.beq (to_addr a) (to_addr b);
  beq_iff = λ a b. (
    λ h.
        sym (of_addr-to_addr a)
        ∙ ap of_addr ((addr_Eq.beq_iff (to_addr a) (to_addr b)).0 h)
        ∙ of_addr-to_addr b,
    λ p. (addr_Eq.beq_iff (to_addr a) (to_addr b)).1 (ap to_addr p),
  );
}

abbrev info : EndpointInfo
info = record {
  endpoint_id = key_of 7;
  data_of = record {
    addrs =
        ip_addr (record { ip = v4 (1 ∷ 2 ∷ 3 ∷ 4 ∷ []); port = 5 })
        ∷ relay_addr (record { url = b'h' ∷ b'i' ∷ [] })
        ∷ custom_addr (record { id = 9; data_bytes = 8 ∷ [] })
        ∷ [];
    user_data = some (b'x' ∷ []);
  };
}

info-AreWhole : AreWhole texts info.data_of.addrs
unfolding before_equals ip_text
info-AreWhole = (refl, (refl, (refl, tt)))

info-IsUserData : IsUserData texts info.data_of.user_data
unfolding before_equals
info-IsUserData = (refl, omega arith)

info_from_strings-info_to_txt_strings_example :
    info_from_strings texts (key_of 7) (info_to_txt_strings texts info)
    ≡ ok (record {
      endpoint_id = key_of 7;
      data_of = record {
        addrs = add_new [] (
            keep is_relay_addr info.data_of.addrs
            ++ keep (λ a. not (is_relay_addr a)) info.data_of.addrs);
        user_data = info.data_of.user_data;
      };
    })
info_from_strings-info_to_txt_strings_example =
    info_from_strings-info_to_txt_strings texts info info-AreWhole info-IsUserData

-- User data with an "=" is cut.
abbrev with_equals : TxtAttrs
with_equals = record {
  endpoint_id = key_of 7;
  relays = [];
  addrs = [];
  user_datas = (b'a' ∷ b'=' ∷ b'b' ∷ []) ∷ [];
}

from_strings-to_txt_strings_example :
    from_strings (key_of 7) (to_txt_strings with_equals) ≡ ok (cut_values with_equals)
from_strings-to_txt_strings_example = from_strings-to_txt_strings with_equals
