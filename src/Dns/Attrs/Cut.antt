-- ===== src/Dns/Attrs/Cut.antt =====
-- Attributes that are printed and read back: each value is cut at its first "=".
use nexalink_tunnel.Common.{
  ◌≡◌, refl, sym, ap, ◌∙◌, List, [], ◌∷◌, ◌++◌, append-nil, append_assoc, map, ok,
}
use nexalink_tunnel.Common.Bytes.{bytes_eq}
use nexalink_tunnel.External.{Bytes}
use nexalink_tunnel.Dns.Attrs.{
  IrohAttr, relay, addr, user_data, attr_to_string, attr_from_str, TxtAttrs, no_attrs, push_value,
  before_equals, after_equals, read_pair, push_strings, from_strings, pair_to_string,
  to_txt_strings,
}

abbrev pub cut_values : TxtAttrs → TxtAttrs
cut_values self = record self {
  relays = map before_equals self.relays;
  addrs = map before_equals self.addrs;
  user_datas = map before_equals self.user_datas;
}

read_pair-pair_to_string :
    (key : IrohAttr) (value : Bytes)
    → read_pair (pair_to_string key value) ≡ ok (key, before_equals value)
unfolding read_pair attr_to_string after_equals before_equals attr_from_str bytes_eq
read_pair-pair_to_string relay value = refl
read_pair-pair_to_string addr value = refl
read_pair-pair_to_string user_data value = refl

-- The values of a key, pushed one after the other.
abbrev push_all : TxtAttrs → IrohAttr → List Bytes → TxtAttrs
push_all self key [] = self
push_all self key (value ∷ rest) = push_all (push_value self key value) key rest

push_strings-map :
    (self : TxtAttrs) (key : IrohAttr) (values rest : List Bytes)
    → push_strings self (map (pair_to_string key) values ++ rest)
      ≡ push_strings (push_all self key (map before_equals values)) rest
unfolding push_strings
push_strings-map self key [] rest = refl
push_strings-map self key (value ∷ values) rest =
    rw (read_pair-pair_to_string key value, push_strings)
      (push_strings-map (push_value self key (before_equals value)) key values rest)

push_all-relay :
    (self : TxtAttrs) (values : List Bytes)
    → push_all self relay values ≡ record self { relays = self.relays ++ values }
unfolding push_value
push_all-relay self [] = ap (λ l. record self { relays = l }) (sym (append-nil self.relays))
push_all-relay self (value ∷ rest) =
    push_all-relay (record self { relays = self.relays ++ (value ∷ []) }) rest
    ∙ ap (λ l. record self { relays = l }) (append_assoc self.relays (value ∷ []) rest)

push_all-addr :
    (self : TxtAttrs) (values : List Bytes)
    → push_all self addr values ≡ record self { addrs = self.addrs ++ values }
unfolding push_value
push_all-addr self [] = ap (λ l. record self { addrs = l }) (sym (append-nil self.addrs))
push_all-addr self (value ∷ rest) =
    push_all-addr (record self { addrs = self.addrs ++ (value ∷ []) }) rest
    ∙ ap (λ l. record self { addrs = l }) (append_assoc self.addrs (value ∷ []) rest)

push_all-user_data :
    (self : TxtAttrs) (values : List Bytes)
    → push_all self user_data values ≡ record self { user_datas = self.user_datas ++ values }
unfolding push_value
push_all-user_data self [] =
    ap (λ l. record self { user_datas = l }) (sym (append-nil self.user_datas))
push_all-user_data self (value ∷ rest) =
    push_all-user_data (record self { user_datas = self.user_datas ++ (value ∷ []) }) rest
    ∙ ap (λ l. record self { user_datas = l }) (append_assoc self.user_datas (value ∷ []) rest)

-- Attributes that are printed as strings and read back have the same keys with the same values in the same order,
-- except that of each value only what stands before its first "=" is left.
pub from_strings-to_txt_strings :
    (self : TxtAttrs) → from_strings self.endpoint_id (to_txt_strings self) ≡ ok (cut_values self)
unfolding from_strings to_txt_strings push_strings
from_strings-to_txt_strings self =
    let none_ = no_attrs self.endpoint_id in
    let r = map before_equals self.relays in
    let a = map before_equals self.addrs in
    let u = map before_equals self.user_datas in
    let last = map (pair_to_string user_data) self.user_datas in
    push_strings-map none_ relay self.relays (map (pair_to_string addr) self.addrs ++ last)
    ∙ ap (λ s. push_strings s (map (pair_to_string addr) self.addrs ++ last))
        (push_all-relay none_ r)
    ∙ push_strings-map (record none_ { relays = r }) addr self.addrs last
    ∙ ap (λ s. push_strings s last) (push_all-addr (record none_ { relays = r }) a)
    ∙ ap (push_strings (record none_ { relays = r; addrs = a })) (sym (append-nil last))
    ∙ push_strings-map (record none_ { relays = r; addrs = a }) user_data self.user_datas []
    ∙ ap ok (push_all-user_data (record none_ { relays = r; addrs = a }) u)
