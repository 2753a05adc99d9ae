-- ===== src/Dns/Info/RoundTrip.antt =====
-- An endpoint's information that is published as strings and read back.
use nexalink_tunnel.Common.{
  ◌≤◌, ◌≡◌, refl, sym, ap, ap₂, ◌∙◌, not, le→leb, Option, none, some, List, [], ◌∷◌, ◌++◌,
  append-nil, append_assoc, length, map, All, Eq, ok,
}
use nexalink_tunnel.External.{Bytes}
use nexalink_tunnel.Dns.Attrs.{
  IrohAttr, TxtAttrs, no_attrs, push_value, push_pairs, from_attr_parts, before_equals,
}
use nexalink_tunnel.Dns.Attrs.Cut.{from_strings-to_txt_strings}
use nexalink_tunnel.Dns.Info.{
  TransportAddr, relay_addr, ip_addr, custom_addr, AddrTexts, EndpointInfo, max_length,
  user_data_from_str, dedup, add_new, add_addrs, is_relay_addr, keep, attr_of, user_data_attr,
  endpoint_info_to_attrs, parse_relay, parse_addr, parse_each, first_user_data,
  endpoint_info_from_attrs, info_to_txt_strings, info_from_strings,
}

-- A text without "=" is left whole.
abbrev pub IsWhole : Bytes → Type 0
IsWhole s = before_equals s ≡ s

module _ (x : AddrTexts) where
  abbrev relay_texts : List TransportAddr → List Bytes
  relay_texts [] = []
  relay_texts (relay_addr u ∷ rest) = x.url_to_string u ∷ relay_texts rest
  relay_texts (ip_addr a ∷ rest) = relay_texts rest
  relay_texts (custom_addr c ∷ rest) = relay_texts rest

  abbrev addr_texts : List TransportAddr → List Bytes
  addr_texts [] = []
  addr_texts (relay_addr u ∷ rest) = addr_texts rest
  addr_texts (ip_addr a ∷ rest) = x.ip_to_string a ∷ addr_texts rest
  addr_texts (custom_addr c ∷ rest) = x.custom_to_string c ∷ addr_texts rest

  abbrev with_texts : TxtAttrs → List Bytes → List Bytes → TxtAttrs
  with_texts self relays addrs = record self {
    relays = self.relays ++ relays;
    addrs = self.addrs ++ addrs;
  }

  push_pairs-attr_of :
      (self : TxtAttrs) (l : List TransportAddr) (rest : List (IrohAttr × Bytes))
      → push_pairs self (map (attr_of x) l ++ rest)
        ≡ push_pairs (with_texts self (relay_texts l) (addr_texts l)) rest
  unfolding push_pairs push_value
  push_pairs-attr_of self [] rest =
      ap₂ (λ r a. push_pairs (record self { relays = r; addrs = a }) rest)
        (sym (append-nil self.relays)) (sym (append-nil self.addrs))
  push_pairs-attr_of self (relay_addr u ∷ l) rest =
      push_pairs-attr_of (record self { relays = self.relays ++ (x.url_to_string u ∷ []) }) l rest
      ∙ ap (λ r. push_pairs (record self { relays = r; addrs = self.addrs ++ addr_texts l }) rest)
          (append_assoc self.relays (x.url_to_string u ∷ []) (relay_texts l))
  push_pairs-attr_of self (ip_addr a ∷ l) rest =
      push_pairs-attr_of (record self { addrs = self.addrs ++ (x.ip_to_string a ∷ []) }) l rest
      ∙ ap (λ t. push_pairs (record self { relays = self.relays ++ relay_texts l; addrs = t }) rest)
          (append_assoc self.addrs (x.ip_to_string a ∷ []) (addr_texts l))
  push_pairs-attr_of self (custom_addr c ∷ l) rest =
      push_pairs-attr_of (record self { addrs = self.addrs ++ (x.custom_to_string c ∷ []) }) l rest
      ∙ ap (λ t. push_pairs (record self { relays = self.relays ++ relay_texts l; addrs = t }) rest)
          (append_assoc self.addrs (x.custom_to_string c ∷ []) (addr_texts l))

  abbrev user_texts : Option Bytes → List Bytes
  user_texts none = []
  user_texts (some text) = text ∷ []

  to_attrs-texts :
      (info : EndpointInfo)
      → endpoint_info_to_attrs x info ≡ record {
        endpoint_id = info.endpoint_id;
        relays = relay_texts info.data_of.addrs;
        addrs = addr_texts info.data_of.addrs;
        user_datas = user_texts info.data_of.user_data;
      }
  unfolding endpoint_info_to_attrs from_attr_parts push_pairs push_value
  to_attrs-texts info =
      push_pairs-attr_of (no_attrs info.endpoint_id) info.data_of.addrs
        (user_data_attr x info.data_of.user_data)
      ∙ last info.data_of.user_data
    where
      last :
          (o : Option Bytes)
          → push_pairs
              (with_texts
                (no_attrs info.endpoint_id)
                (relay_texts info.data_of.addrs)
                (addr_texts info.data_of.addrs))
              (user_data_attr x o)
            ≡ record {
              endpoint_id = info.endpoint_id;
              relays = relay_texts info.data_of.addrs;
              addrs = addr_texts info.data_of.addrs;
              user_datas = user_texts o;
            }
      last none = refl
      last (some text) = refl

  -- The text of each address, and the user data, have no "=".
  abbrev pub AreWhole : List TransportAddr → Type 0
  AreWhole l = All (λ a. IsWhole (attr_of x a).1) l

  abbrev pub IsUserData : Option Bytes → Type 0
  IsUserData none = Unit {0}
  IsUserData (some text) = IsWhole text × (length text ≤ max_length)

  relay_texts-whole :
      (l : List TransportAddr) → AreWhole l → map before_equals (relay_texts l) ≡ relay_texts l
  relay_texts-whole [] h = refl
  relay_texts-whole (relay_addr u ∷ l) (h, hs) = ap₂ (λ s t. s ∷ t) h (relay_texts-whole l hs)
  relay_texts-whole (ip_addr a ∷ l) (h, hs) = relay_texts-whole l hs
  relay_texts-whole (custom_addr c ∷ l) (h, hs) = relay_texts-whole l hs

  addr_texts-whole :
      (l : List TransportAddr) → AreWhole l → map before_equals (addr_texts l) ≡ addr_texts l
  addr_texts-whole [] h = refl
  addr_texts-whole (relay_addr u ∷ l) (h, hs) = addr_texts-whole l hs
  addr_texts-whole (ip_addr a ∷ l) (h, hs) = ap₂ (λ s t. s ∷ t) h (addr_texts-whole l hs)
  addr_texts-whole (custom_addr c ∷ l) (h, hs) = ap₂ (λ s t. s ∷ t) h (addr_texts-whole l hs)

  user_texts-whole :
      (o : Option Bytes) → IsUserData o → map before_equals (user_texts o) ≡ user_texts o
  user_texts-whole none h = refl
  user_texts-whole (some text) (h, hs) = ap (λ s. s ∷ []) h

  parse_each-relay_texts :
      (l : List TransportAddr) → parse_each x (parse_relay x) (relay_texts l) ≡ keep is_relay_addr l
  unfolding parse_each keep
  parse_each-relay_texts [] = refl
  parse_each-relay_texts (relay_addr u ∷ l) =
      rw (x.url_parse-url_to_string u, parse_relay)
        (ap (λ t. relay_addr u ∷ t) (parse_each-relay_texts l))
  parse_each-relay_texts (ip_addr a ∷ l) = parse_each-relay_texts l
  parse_each-relay_texts (custom_addr c ∷ l) = parse_each-relay_texts l

  parse_each-addr_texts :
      (l : List TransportAddr)
      → parse_each x (parse_addr x) (addr_texts l) ≡ keep (λ a. not (is_relay_addr a)) l
  unfolding parse_each keep
  parse_each-addr_texts [] = refl
  parse_each-addr_texts (relay_addr u ∷ l) = parse_each-addr_texts l
  parse_each-addr_texts (ip_addr a ∷ l) =
      rw (x.ip_from_str-ip_to_string a, parse_addr)
        (ap (λ t. ip_addr a ∷ t) (parse_each-addr_texts l))
  parse_each-addr_texts (custom_addr c ∷ l) =
      rw (x.ip_from_str-custom_to_string c, x.custom_from_str-custom_to_string c, parse_addr)
        (ap (λ t. custom_addr c ∷ t) (parse_each-addr_texts l))

  first_user_data-user_texts :
      (o : Option Bytes) → IsUserData o → first_user_data x (user_texts o) ≡ o
  unfolding user_data_from_str
  first_user_data-user_texts none h = refl
  first_user_data-user_texts (some text) (h, short) =
      rw (le→leb (length text) max_length short) refl

  module _ ⦃e : Eq TransportAddr⦄ where
    -- Information that is published as strings and read back has the same user data, and the same addresses, each
    -- once: those of relays first, then the others, each in their order; if no text of an address nor the user data
    -- has a "=".
    pub info_from_strings-info_to_txt_strings :
        (info : EndpointInfo)
        → AreWhole info.data_of.addrs
        → IsUserData info.data_of.user_data
        → info_from_strings x info.endpoint_id (info_to_txt_strings x info)
          ≡ ok (record {
            endpoint_id = info.endpoint_id;
            data_of = record {
              addrs = add_new [] (
                  keep is_relay_addr info.data_of.addrs
                  ++ keep (λ a. not (is_relay_addr a)) info.data_of.addrs);
              user_data = info.data_of.user_data;
            };
          })
    unfolding info_from_strings info_to_txt_strings endpoint_info_from_attrs add_addrs dedup
    info_from_strings-info_to_txt_strings info w u =
        let l = info.data_of.addrs in
        rw
          (
            to_attrs-texts info,
            from_strings-to_txt_strings (record {
              endpoint_id = info.endpoint_id;
              relays = relay_texts l;
              addrs = addr_texts l;
              user_datas = user_texts info.data_of.user_data;
            }),
            relay_texts-whole l w,
            addr_texts-whole l w,
            user_texts-whole info.data_of.user_data u,
            parse_each-relay_texts l,
            parse_each-addr_texts l,
            first_user_data-user_texts info.data_of.user_data u,
          )
          refl
