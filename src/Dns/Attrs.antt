-- ===== src/Dns/Attrs.antt =====
-- `TxtAttrs` of iroh-dns/src/attrs.rs, the attributes of an endpoint as strings "key=value" of TXT records, for the
-- keys of `IrohAttr`.
pub mod Cut
use nexalink_tunnel.Common.{
  ℕ, Bool, true, false, ◌==◌, Option, none, some, List, [], ◌∷◌, ◌++◌, map, if◌then◌else◌, Result,
  ok, err, panic, ◌>>=◌,
}
use nexalink_tunnel.Common.Bytes.{bytes_eq}
use nexalink_tunnel.External.{Bytes}
use nexalink_tunnel.Keys.{PublicKey, KeyParsingError}

pub data IrohAttr : Type 0 where
  relay addr user_data : IrohAttr

-- `strum::Display` and `strum::EnumString`, in kebab case.
unfoldable pub attr_to_string : IrohAttr → Bytes
attr_to_string relay = b'r' ∷ b'e' ∷ b'l' ∷ b'a' ∷ b'y' ∷ []
attr_to_string addr = b'a' ∷ b'd' ∷ b'd' ∷ b'r' ∷ []
attr_to_string user_data = b'u' ∷ b's' ∷ b'e' ∷ b'r' ∷ b'-' ∷ b'd' ∷ b'a' ∷ b't' ∷ b'a' ∷ []

unfoldable pub attr_from_str : Bytes → Option IrohAttr
attr_from_str s =
    if bytes_eq s (attr_to_string relay)
    then some relay
    else if bytes_eq s (attr_to_string addr)
    then some addr
    else if bytes_eq s (attr_to_string user_data)
    then some user_data
    else none

pub data ParseError : Type 0 where
  unexpected_format attr_from_string not_an_iroh_record : Bytes → ParseError
  num_labels : ℕ → ParseError
  utf8_error : ParseError
  decoding_error : KeyParsingError → ParseError

-- The map has the values of each key, in the order of the keys: none where the key is missing, since a value is
-- pushed whenever a key is entered.
pub record TxtAttrs : Type 0 where
  pub endpoint_id : PublicKey
  pub relays : List Bytes
  pub addrs : List Bytes
  pub user_datas : List Bytes

abbrev pub no_attrs : PublicKey → TxtAttrs
no_attrs endpoint_id = record {
  endpoint_id = endpoint_id;
  relays = [];
  addrs = [];
  user_datas = [];
}

-- `entry(key).or_default().push(value)`
unfoldable pub push_value : TxtAttrs → IrohAttr → Bytes → TxtAttrs
push_value self relay value = record self { relays = self.relays ++ (value ∷ []) }
push_value self addr value = record self { addrs = self.addrs ++ (value ∷ []) }
push_value self user_data value = record self { user_datas = self.user_datas ++ (value ∷ []) }

unfoldable pub push_pairs : TxtAttrs → List (IrohAttr × Bytes) → TxtAttrs
push_pairs self [] = self
push_pairs self ((key, value) ∷ rest) = push_pairs (push_value self key value) rest

unfoldable pub from_attr_parts : PublicKey → List (IrohAttr × Bytes) → TxtAttrs
from_attr_parts endpoint_id pairs = push_pairs (no_attrs endpoint_id) pairs

-- `split('=')`: the first part, and what follows the first "=".
unfoldable pub before_equals : Bytes → Bytes
before_equals [] = []
before_equals (b ∷ rest) = let more = before_equals rest in if b == b'=' then [] else b ∷ more

unfoldable pub after_equals : Bytes → Option Bytes
after_equals [] = none
after_equals (b ∷ rest) = let more = after_equals rest in if b == b'=' then some rest else more

-- The first two parts of the split.
unfoldable pub read_pair : Bytes → Result ParseError (IrohAttr × Bytes)
read_pair s = elim (after_equals s) [
  | none ↦ err (unexpected_format s)
  | some rest ↦ elim (attr_from_str (before_equals s)) [
    | none ↦ err (attr_from_string (before_equals s))
    | some attr ↦ ok (attr, before_equals rest)
  ]
]

unfoldable pub push_strings : TxtAttrs → List Bytes → Result ParseError TxtAttrs
push_strings self [] = ok self
push_strings self (s ∷ rest) = do
  pair ← read_pair s
  push_strings (push_value self pair.0 pair.1) rest

unfoldable pub from_strings : PublicKey → List Bytes → Result ParseError TxtAttrs
from_strings endpoint_id strings = push_strings (no_attrs endpoint_id) strings

-- `format!("{k}={v}")`
abbrev pub pair_to_string : IrohAttr → Bytes → Bytes
pair_to_string key value = attr_to_string key ++ (b'=' ∷ value)

unfoldable pub to_txt_strings : TxtAttrs → List Bytes
to_txt_strings self =
    map (pair_to_string relay) self.relays
    ++ (map (pair_to_string addr) self.addrs ++ map (pair_to_string user_data) self.user_datas)
