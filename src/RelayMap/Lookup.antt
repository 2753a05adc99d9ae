-- ===== src/RelayMap/Lookup.antt =====
-- Which config a `RelayMap` holds for a URL, and that its entries stay sorted.
use nexalink_tunnel.Common.{
  ◌≡◌, refl, ◌∙◌, Bool, true, false, Option, none, some, List, [], ◌∷◌, map, if◌then◌else◌,
  Bool-cases, inl, inr,
}
use nexalink_tunnel.Common.Maps.{get, remove}
use nexalink_tunnel.Common.Ordered.{
  insert_sorted, get-insert_sorted, insert_sorted-IsSorted, IsSorted, Above, get-Above,
}
use nexalink_tunnel.External.{Bytes}
use nexalink_tunnel.Transports.{RelayUrl}
use nexalink_tunnel.Transports.Urls.{RelayUrl_Eq, RelayUrl_Ord, RelayUrl_eq_iff}
use nexalink_tunnel.RelayMap.{
  RelayConfig, Entries, RelayMap, config_of_url, get_config, insert_config, remove_config,
  extend_entries, extend, set_auth_tokens, with_auth_token, from_configs, from_urls,
}

-- The entries are sorted by their keys, so that no key stands twice.
abbrev pub IsSortedMap : RelayMap → Type 0
IsSortedMap self = IsSorted self.relay_entries

abbrev pub or_else : Option RelayConfig → Option RelayConfig → Option RelayConfig
or_else none b = b
or_else (some a) b = some a

-- The last entry of the key.
abbrev pub last_of : Entries → RelayUrl → Option RelayConfig
last_of [] u = none
last_of ((k, c) ∷ rest) u = or_else (last_of rest u) (if RelayUrl_Eq.beq k u then some c else none)

or_else_assoc : (a b c : Option RelayConfig) → or_else a (or_else b c) ≡ or_else (or_else a b) c
or_else_assoc none b c = refl
or_else_assoc (some a) b c = refl

get-extend_entries :
    (list m : Entries) (u : RelayUrl)
    → get (extend_entries m list) u ≡ or_else (last_of list u) (get m u)
unfolding extend_entries
get-extend_entries [] m u = refl
get-extend_entries ((k, c) ∷ rest) m u =
    get-extend_entries rest (insert_sorted m k c) u
    ∙ rw (get-insert_sorted m k u c) (chosen (last_of rest u) (RelayUrl_Eq.beq k u))
  where
    chosen :
        (l : Option RelayConfig) (b : Bool)
        → or_else l (if b then some c else get m u)
          ≡ or_else (or_else l (if b then some c else none)) (get m u)
    chosen none true = refl
    chosen none false = refl
    chosen (some l) b = refl

last_of-sorted : (list : Entries) (u : RelayUrl) → IsSorted list → last_of list u ≡ get list u
unfolding get
last_of-sorted [] u s = refl
last_of-sorted ((k, c) ∷ rest) u s = elim (Bool-cases (RelayUrl_Eq.beq k u)) [
  | inl same ↦
      let e = (RelayUrl_eq_iff k u).0 same in
      let gone : get rest u ≡ none = rw (← e) (get-Above rest k s.0) in
      rw (same, last_of-sorted rest u s.1, gone) refl
  | inr other ↦ rw (other, last_of-sorted rest u s.1) (right_none (get rest u))
]
  where
    right_none : (a : Option RelayConfig) → or_else a none ≡ a
    right_none none = refl
    right_none (some a) = refl

-- A map that another sorted one extends holds, for each URL, the config of the other one if that has one,
-- else its own.
pub get_config-extend :
    (self other : RelayMap) (u : RelayUrl)
    → IsSortedMap other
    → get_config (extend self other) u ≡ or_else (get_config other u) (get_config self u)
unfolding get_config extend
get_config-extend self other u s =
    rw
      (
        get-extend_entries other.relay_entries self.relay_entries u,
        last_of-sorted other.relay_entries u s,
      )
      refl

abbrev pub last_config : List RelayConfig → RelayUrl → Option RelayConfig
last_config [] u = none
last_config (c ∷ rest) u =
    or_else (last_config rest u) (if RelayUrl_Eq.beq c.url u then some c else none)

last_of-map :
    (configs : List RelayConfig) (u : RelayUrl)
    → last_of (map (λ (c : RelayConfig). (c.url, c)) configs) u ≡ last_config configs u
last_of-map [] u = refl
last_of-map (c ∷ rest) u = rw (last_of-map rest u) refl

-- A map from configs holds, for each URL, the last of the configs that have it.
pub get_config-from_configs :
    (configs : List RelayConfig) (u : RelayUrl)
    → get_config (from_configs configs) u ≡ last_config configs u
unfolding get_config from_configs get
get_config-from_configs configs u =
    get-extend_entries (map (λ (c : RelayConfig). (c.url, c)) configs) [] u
    ∙ rw (last_of-map configs u) (right_none (last_config configs u))
  where
    right_none : (a : Option RelayConfig) → or_else a none ≡ a
    right_none none = refl
    right_none (some a) = refl

extend_entries-IsSorted : (list m : Entries) → IsSorted m → IsSorted (extend_entries m list)
unfolding extend_entries
extend_entries-IsSorted [] m s = s
extend_entries-IsSorted ((k, c) ∷ rest) m s =
    extend_entries-IsSorted rest (insert_sorted m k c) (insert_sorted-IsSorted m k c s)

Above-remove : (m : Entries) (j k : RelayUrl) → Above j m → Above j (remove m k)
unfolding remove
Above-remove [] j k a = tt
Above-remove ((i, c) ∷ m) j k a = elim (Bool-cases (RelayUrl_Eq.beq i k)) [
  | inl same ↦ rw (same) (Above-remove m j k a.1)
  | inr other ↦ rw (other) (a.0, Above-remove m j k a.1)
]

remove-IsSorted : (m : Entries) (k : RelayUrl) → IsSorted m → IsSorted (remove m k)
unfolding remove
remove-IsSorted [] k s = tt
remove-IsSorted ((i, c) ∷ m) k s = elim (Bool-cases (RelayUrl_Eq.beq i k)) [
  | inl same ↦ rw (same) (remove-IsSorted m k s.1)
  | inr other ↦ rw (other) (Above-remove m i k s.0, remove-IsSorted m k s.1)
]

Above-set_auth_tokens :
    (m : Entries) (j : RelayUrl) (token : Bytes) → Above j m → Above j (set_auth_tokens m token)
unfolding set_auth_tokens
Above-set_auth_tokens [] j token a = tt
Above-set_auth_tokens ((i, c) ∷ m) j token a = (a.0, Above-set_auth_tokens m j token a.1)

set_auth_tokens-IsSorted :
    (m : Entries) (token : Bytes) → IsSorted m → IsSorted (set_auth_tokens m token)
unfolding set_auth_tokens
set_auth_tokens-IsSorted [] token s = tt
set_auth_tokens-IsSorted ((i, c) ∷ m) token s =
    (Above-set_auth_tokens m i token s.0, set_auth_tokens-IsSorted m token s.1)

-- A map as it is built from configs or URLs, and changed by the methods.
pub data Built : RelayMap → Type 0 where
  of_configs : (configs : List RelayConfig) → Built (from_configs configs)
  of_urls : (list : List RelayUrl) → Built (from_urls list)
  inserted :
      (self : RelayMap) (u : RelayUrl) (c : RelayConfig)
      → Built self
      → Built (insert_config self u c).0
  removed : (self : RelayMap) (u : RelayUrl) → Built self → Built (remove_config self u).0
  extended : (self other : RelayMap) → Built self → Built (extend self other)
  authorized : (self : RelayMap) (token : Bytes) → Built self → Built (with_auth_token self token)

-- The entries of a map are sorted, however it was built and changed.
pub Built-IsSorted : {self : RelayMap} → Built self → IsSortedMap self
unfolding from_configs from_urls insert_config remove_config extend with_auth_token
Built-IsSorted (of_configs configs) =
    extend_entries-IsSorted (map (λ (c : RelayConfig). (c.url, c)) configs) [] tt
Built-IsSorted (of_urls list) = extend_entries-IsSorted (map (λ u. (u, config_of_url u)) list) [] tt
Built-IsSorted (inserted self u c b) =
    insert_sorted-IsSorted self.relay_entries u c (Built-IsSorted b)
Built-IsSorted (removed self u b) = remove-IsSorted self.relay_entries u (Built-IsSorted b)
Built-IsSorted (extended self other b) =
    extend_entries-IsSorted other.relay_entries self.relay_entries (Built-IsSorted b)
Built-IsSorted (authorized self token b) =
    set_auth_tokens-IsSorted self.relay_entries token (Built-IsSorted b)
