-- ===== src/RelayMap.antt =====
-- `RelayMap` and `RelayConfig` of iroh-relay/src/relay_map.rs. A map that several owners share behind
-- its lock is one value here: a method that writes to it returns the new one.
pub mod Lookup
use nexalink_tunnel.Common.{
  ℕ, Bool, true, false, ◌==◌, if◌then◌else◌, Option, none, some, List, [], ◌∷◌, map, length,
  is_empty, Result, ok, err, panic,
}
use nexalink_tunnel.Common.Bytes.{bytes_eq}
use nexalink_tunnel.Common.Maps.{get, remove}
use nexalink_tunnel.Common.Ordered.{insert_sorted, bytes_less}
use nexalink_tunnel.External.{Bytes}
use nexalink_tunnel.Transports.{RelayUrl}
use nexalink_tunnel.Transports.Urls.{RelayUrl_Eq, RelayUrl_Ord}

pub record RelayQuicConfig : Type 0 where
  pub port : ℕ

pub record RelayConfig : Type 0 where
  pub url : RelayUrl
  pub quic : Option RelayQuicConfig
  pub auth_token : Option Bytes

abbrev pub default_relay_quic_port : ℕ
default_relay_quic_port = 7842

abbrev pub default_quic : RelayQuicConfig
default_quic = record { port = default_relay_quic_port }

abbrev pub quic_config : Option RelayQuicConfig
quic_config = some default_quic

unfoldable pub new_config : RelayUrl → Option RelayQuicConfig → RelayConfig
new_config url quic = record { url = url; quic = quic; auth_token = none }

unfoldable pub config_of_url : RelayUrl → RelayConfig
config_of_url url = record { url = url; quic = quic_config; auth_token = none }

unfoldable pub set_auth_token : RelayConfig → Bytes → RelayConfig
set_auth_token self token = record self { auth_token = some token }

abbrev pub Entries : Type 0
Entries = List (RelayUrl × RelayConfig)

pub record RelayMap : Type 0 where
  pub relay_entries : Entries

unfoldable pub empty : RelayMap
empty = record { relay_entries = [] }

unfoldable pub keys : Entries → List RelayUrl
keys [] = []
keys ((url, config) ∷ rest) = url ∷ keys rest

unfoldable pub values : Entries → List RelayConfig
values [] = []
values ((url, config) ∷ rest) = config ∷ values rest

unfoldable pub urls : RelayMap → List RelayUrl
urls self = keys self.relay_entries

unfoldable pub relays : RelayMap → List RelayConfig
relays self = values self.relay_entries

abbrev is_some : Option RelayConfig → Bool
is_some none = false
is_some (some c) = true

unfoldable pub get_config : RelayMap → RelayUrl → Option RelayConfig
get_config self url = get self.relay_entries url

unfoldable pub contains_url : RelayMap → RelayUrl → Bool
contains_url self url = is_some (get self.relay_entries url)

unfoldable pub len : RelayMap → ℕ
len self = length self.relay_entries

unfoldable pub map_is_empty : RelayMap → Bool
map_is_empty self = is_empty self.relay_entries

-- These two answer the old config of the URL.
unfoldable pub insert_config : RelayMap → RelayUrl → RelayConfig → RelayMap × Option RelayConfig
insert_config self url endpoint = (
  record { relay_entries = insert_sorted self.relay_entries url endpoint },
  get self.relay_entries url,
)

unfoldable pub remove_config : RelayMap → RelayUrl → RelayMap × Option RelayConfig
remove_config self url =
    (record { relay_entries = remove self.relay_entries url }, get self.relay_entries url)

-- `BTreeMap::extend`, and `collect` into one from the empty map: each entry is inserted in turn.
unfoldable pub extend_entries : Entries → Entries → Entries
extend_entries self [] = self
extend_entries self ((url, config) ∷ rest) = extend_entries (insert_sorted self url config) rest

-- The two maps must not share their lock.
unfoldable pub extend : RelayMap → RelayMap → RelayMap
extend self other = record { relay_entries = extend_entries self.relay_entries other.relay_entries }

unfoldable pub set_auth_tokens : Entries → Bytes → Entries
set_auth_tokens [] token = []
set_auth_tokens ((url, config) ∷ rest) token =
    (url, set_auth_token config token) ∷ set_auth_tokens rest token

unfoldable pub with_auth_token : RelayMap → Bytes → RelayMap
with_auth_token self token = record { relay_entries = set_auth_tokens self.relay_entries token }

abbrev keyed : RelayConfig → RelayUrl × RelayConfig
keyed config = (config.url, config)

unfoldable pub from_configs : List RelayConfig → RelayMap
from_configs configs = record { relay_entries = extend_entries [] (map keyed configs) }

unfoldable pub from_url : RelayUrl → RelayMap
from_url value = record { relay_entries = (value, config_of_url value) ∷ [] }

unfoldable pub from_config : RelayConfig → RelayMap
from_config value = record { relay_entries = (value.url, value) ∷ [] }

unfoldable pub from_urls : List RelayUrl → RelayMap
from_urls list = record {
  relay_entries = extend_entries [] (map (λ url. (url, config_of_url url)) list);
}

-- `RelayUrl::from_str` is a parameter, which answers none where the text is no URL. The first text
-- that is none is the error.
module _ (parse : Bytes → Option RelayUrl) where
  unfoldable pub parse_all : List Bytes → Result Bytes Entries
  parse_all [] = ok []
  parse_all (text ∷ rest) = elim (parse text) [
    | none ↦ err text
    | some url ↦ elim (parse_all rest) [
      | ok entries ↦ ok ((url, config_of_url url) ∷ entries)
      | err e ↦ err e
      | panic ↦ panic
    ]
  ]

  unfoldable pub try_from_iter : List Bytes → Result Bytes RelayMap
  try_from_iter texts = elim (parse_all texts) [
    | ok entries ↦ ok (record { relay_entries = extend_entries [] entries })
    | err e ↦ err e
    | panic ↦ panic
  ]

-- `get_quic_port` of iroh/src/net_report/reportgen.rs.
abbrev port_of : Option RelayQuicConfig → Option ℕ
port_of none = none
port_of (some quic) = if quic.port == 0 then some default_relay_quic_port else some quic.port

unfoldable pub get_quic_port : RelayConfig → Option ℕ
get_quic_port relay = port_of relay.quic
