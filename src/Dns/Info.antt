-- ===== src/Dns/Info.antt =====
-- `EndpointData` and `EndpointInfo` of iroh-dns/src/endpoint_info.rs: what an endpoint publishes of itself.
pub mod RoundTrip
use nexalink_tunnel.Common.{
  ℕ, Bool, true, false, not, leb, Option, none, some, List, [], ◌∷◌, ◌++◌, length, map, ◌≡◌,
  if◌then◌else◌, Eq, Result, ok, err, panic, ◌>>=◌,
}
use nexalink_tunnel.Common.Maps.{contains}
use nexalink_tunnel.External.{Bytes}
use nexalink_tunnel.Keys.{PublicKey}
use nexalink_tunnel.Mapped.Addr.{SocketAddr}
use nexalink_tunnel.Transports.{RelayUrl, CustomAddr}
use nexalink_tunnel.Dns.Attrs.{
  IrohAttr, ParseError, TxtAttrs, from_attr_parts, from_strings, to_txt_strings,
}
use nexalink_tunnel.Dns.Attrs

pub data TransportAddr : Type 0 where
  relay_addr : RelayUrl → TransportAddr
  ip_addr : SocketAddr → TransportAddr
  custom_addr : CustomAddr → TransportAddr

-- How addresses are printed and parsed, by the `url` crate, the standard library and iroh-base. What is printed
-- parses, and a custom address is no socket address.
pub record AddrTexts : Type 0 where
  pub url_to_string : RelayUrl → Bytes
  pub url_parse : Bytes → Option RelayUrl
  pub url_parse-url_to_string : (u : RelayUrl) → url_parse (url_to_string u) ≡ some u
  pub ip_to_string : SocketAddr → Bytes
  pub ip_from_str : Bytes → Option SocketAddr
  pub ip_from_str-ip_to_string : (a : SocketAddr) → ip_from_str (ip_to_string a) ≡ some a
  pub custom_to_string : CustomAddr → Bytes
  pub custom_from_str : Bytes → Option CustomAddr
  pub custom_from_str-custom_to_string :
      (c : CustomAddr) → custom_from_str (custom_to_string c) ≡ some c
  pub ip_from_str-custom_to_string : (c : CustomAddr) → ip_from_str (custom_to_string c) ≡ none

-- `UserData` is a string of at most `max_length` bytes.
pub record EndpointData : Type 0 where
  pub addrs : List TransportAddr
  pub user_data : Option Bytes

pub record EndpointInfo : Type 0 where
  pub endpoint_id : PublicKey
  pub data_of : EndpointData

abbrev pub max_length : ℕ
max_length = 245

unfoldable pub user_data_from_str : Bytes → Option Bytes
user_data_from_str s = if leb (length s) max_length then some s else none

module _ ⦃e : Eq TransportAddr⦄ where
  -- `dedup`: each address where it stands first, with those before it given.
  unfoldable pub dedup : List TransportAddr → List TransportAddr → List TransportAddr
  dedup seen [] = []
  dedup seen (a ∷ rest) = elim (contains seen a) [
    | true ↦ dedup seen rest
    | false ↦ a ∷ dedup (a ∷ seen) rest
  ]

  unfoldable pub new_data : List TransportAddr → EndpointData
  new_data addrs = record { addrs = dedup [] addrs; user_data = none }

  -- The set of the code holds the addresses of the list.
  unfoldable pub add_new : List TransportAddr → List TransportAddr → List TransportAddr
  add_new addrs [] = addrs
  add_new addrs (a ∷ rest) = elim (contains addrs a) [
    | true ↦ add_new addrs rest
    | false ↦ add_new (addrs ++ (a ∷ [])) rest
  ]

  unfoldable pub add_addrs : EndpointData → List TransportAddr → EndpointData
  add_addrs self addrs = record self { addrs = add_new (dedup [] self.addrs) addrs }

  unfoldable pub add_relay_url : EndpointData → RelayUrl → EndpointData
  add_relay_url self url =
      if contains self.addrs (relay_addr url)
      then self
      else record self { addrs = self.addrs ++ (relay_addr url ∷ []) }

  unfoldable pub add_ip_addrs : EndpointData → List SocketAddr → EndpointData
  add_ip_addrs self addresses = add_addrs self (map ip_addr addresses)

abbrev is_ip_addr : TransportAddr → Bool
is_ip_addr (ip_addr a) = true
is_ip_addr (relay_addr u) = false
is_ip_addr (custom_addr c) = false

abbrev pub is_relay_addr : TransportAddr → Bool
is_relay_addr (relay_addr u) = true
is_relay_addr (ip_addr a) = false
is_relay_addr (custom_addr c) = false

unfoldable pub keep : (TransportAddr → Bool) → List TransportAddr → List TransportAddr
keep test [] = []
keep test (a ∷ rest) = let more = keep test rest in if test a then a ∷ more else more

unfoldable pub clear_ip_addrs : EndpointData → EndpointData
clear_ip_addrs self = record self { addrs = keep (λ a. not (is_ip_addr a)) self.addrs }

unfoldable pub clear_relay_urls : EndpointData → EndpointData
clear_relay_urls self = record self { addrs = keep (λ a. not (is_relay_addr a)) self.addrs }

module _ (x : AddrTexts) where
  abbrev pub attr_of : TransportAddr → IrohAttr × Bytes
  attr_of (relay_addr u) = (Attrs.relay, x.url_to_string u)
  attr_of (ip_addr a) = (Attrs.addr, x.ip_to_string a)
  attr_of (custom_addr c) = (Attrs.addr, x.custom_to_string c)

  abbrev pub user_data_attr : Option Bytes → List (IrohAttr × Bytes)
  user_data_attr none = []
  user_data_attr (some text) = (Attrs.user_data, text) ∷ []

  unfoldable pub endpoint_info_to_attrs : EndpointInfo → TxtAttrs
  endpoint_info_to_attrs info =
      from_attr_parts info.endpoint_id
        (map attr_of info.data_of.addrs ++ user_data_attr info.data_of.user_data)

  abbrev pub parse_relay : Bytes → Option TransportAddr
  parse_relay s = elim (x.url_parse s) [ none ↦ none | some url ↦ some (relay_addr url) ]

  abbrev pub parse_addr : Bytes → Option TransportAddr
  parse_addr s = elim (x.ip_from_str s) [
    | some addr ↦ some (ip_addr addr)
    | none ↦ elim (x.custom_from_str s) [ none ↦ none | some addr ↦ some (custom_addr addr) ]
  ]

  -- `filter_map`
  abbrev add_some : Option TransportAddr → List TransportAddr → List TransportAddr
  add_some none rest = rest
  add_some (some a) rest = a ∷ rest

  unfoldable pub parse_each : (Bytes → Option TransportAddr) → List Bytes → List TransportAddr
  parse_each parse [] = []
  parse_each parse (s ∷ rest) = add_some (parse s) (parse_each parse rest)

  -- The first value, if it is a `UserData`.
  abbrev pub first_user_data : List Bytes → Option Bytes
  first_user_data [] = none
  first_user_data (s ∷ rest) = user_data_from_str s

  module _ ⦃e : Eq TransportAddr⦄ where
    unfoldable pub endpoint_info_from_attrs : TxtAttrs → EndpointInfo
    endpoint_info_from_attrs attrs = record {
      endpoint_id = attrs.endpoint_id;
      data_of =
          add_addrs (record { addrs = []; user_data = first_user_data attrs.user_datas })
            (parse_each parse_relay attrs.relays ++ parse_each parse_addr attrs.addrs);
    }

    -- `EndpointInfo::to_txt_strings`, and the reading of the strings of a TXT lookup of the endpoint.
    unfoldable pub info_to_txt_strings : EndpointInfo → List Bytes
    info_to_txt_strings self = to_txt_strings (endpoint_info_to_attrs self)

    unfoldable pub info_from_strings : PublicKey → List Bytes → Result ParseError EndpointInfo
    info_from_strings endpoint_id strings = do
      attrs ← from_strings endpoint_id strings
      ok (endpoint_info_from_attrs attrs)
