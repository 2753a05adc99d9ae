-- ===== src/Selector.antt =====
-- The default path selector, iroh/src/socket/biased_rtt_path_selector.rs, with `PathSelection` of
-- iroh/src/socket/remote_map/remote_state.rs.
pub mod Order
pub mod Best
use nexalink_tunnel.Common.{
  ℕ, ◌*◌, ◌≡◌, ◌↔◌, refl, ap, Bool, true, false, not, ◌&&◌, ◌||◌, ◌==◌, ==_iff, arith, Eq, Option,
  none, some, List, [], ◌∷◌, if◌then◌else◌, ℤ, pos, neg, ◌+ℤ◌, ltz, lez, saturate_i128,
}
use nexalink_tunnel.Common.Maps.{get, insert}
use nexalink_tunnel.Transports.FourTuple.{
  FourTuple, AddrKind, ip_v4, ip_v6, relay_kind, custom_kind, addr_kind, path_eq,
}

-- A `Duration` by its nanoseconds, which are fewer than 2^94.
abbrev pub Duration : Type 0
Duration = ℕ

abbrev pub from_millis : ℕ → Duration
from_millis ms = ms * 1000000

abbrev pub ipv6_rtt_advantage : Duration
ipv6_rtt_advantage = from_millis 3

abbrev pub rtt_switching_min : Duration
rtt_switching_min = from_millis 5

pub data TransportType : Type 0 where
  primary_type backup_type : TransportType

pub record TransportBias : Type 0 where
  pub transport_type : TransportType
  pub rtt_bias : ℤ

unfoldable pub primary : TransportBias
primary = record { transport_type = primary_type; rtt_bias = pos 0 }

unfoldable pub backup : TransportBias
backup = record { transport_type = backup_type; rtt_bias = pos 0 }

unfoldable pub with_rtt_advantage : TransportBias → Duration → TransportBias
with_rtt_advantage self advantage = record self { rtt_bias = self.rtt_bias +ℤ neg advantage }

unfoldable pub kind_eq : AddrKind → AddrKind → Bool
kind_eq ip_v4 ip_v4 = true
kind_eq ip_v6 ip_v6 = true
kind_eq relay_kind relay_kind = true
kind_eq (custom_kind i) (custom_kind j) = i == j
kind_eq _ _ = false

kind_eq→eq : (a b : AddrKind) → kind_eq a b ≡ true → a ≡ b
unfolding kind_eq
kind_eq→eq ip_v4 ip_v4 h = refl
kind_eq→eq ip_v6 ip_v6 h = refl
kind_eq→eq relay_kind relay_kind h = refl
kind_eq→eq (custom_kind i) (custom_kind j) h = ap custom_kind ((==_iff i j).0 h)
kind_eq→eq _ _ h = cc

kind_eq_refl : (a : AddrKind) → kind_eq a a ≡ true
unfolding kind_eq
kind_eq_refl ip_v4 = refl
kind_eq_refl ip_v6 = refl
kind_eq_refl relay_kind = refl
kind_eq_refl (custom_kind i) = ground arith

pub kind_eq_iff : (a b : AddrKind) → (kind_eq a b ≡ true) ↔ (a ≡ b)
kind_eq_iff a b = (kind_eq→eq a b, λ e. rw e (kind_eq_refl b))

instance abbrev pub kind_Eq : Eq AddrKind
kind_Eq = record { beq = kind_eq; beq_iff = kind_eq_iff }

pub record BiasedRttPathSelector : Type 0 where
  pub biases : List (AddrKind × TransportBias)

unfoldable pub default : BiasedRttPathSelector
default = record {
  biases =
      insert
        (insert (insert [] ip_v4 primary) ip_v6 (with_rtt_advantage primary ipv6_rtt_advantage))
        relay_kind backup;
}

unfoldable pub unwrap_or_primary : Option TransportBias → TransportBias
unwrap_or_primary none = primary
unwrap_or_primary (some bias) = bias

unfoldable pub bias_for : BiasedRttPathSelector → FourTuple → TransportBias
bias_for self addr = unwrap_or_primary (get self.biases (addr_kind addr))

-- The sort key, and the derived `PartialOrd` of the tuple: lexicographic, primary first.
abbrev pub Key : Type 0
Key = TransportType × ℤ

unfoldable pub sort_key : BiasedRttPathSelector → FourTuple → Duration → Key
sort_key self addr rtt =
    let bias = bias_for self addr in (bias.transport_type, saturate_i128 (pos rtt +ℤ bias.rtt_bias))

unfoldable pub same_type : TransportType → TransportType → Bool
same_type primary_type primary_type = true
same_type backup_type backup_type = true
same_type _ _ = false

unfoldable pub lt_type : TransportType → TransportType → Bool
lt_type primary_type backup_type = true
lt_type _ _ = false

unfoldable pub lt_key : Key → Key → Bool
lt_key a b = lt_type a.0 b.0 || (same_type a.0 b.0 && ltz a.1 b.1)

-- What the selector reads of `PathSelectionContext`: the current path, and the open paths with the
-- round-trip time of their statistics, where these can be read.
pub record PathSelectionContext : Type 0 where
  pub current : Option FourTuple
  pub paths : List (FourTuple × Option Duration)

pub record PathSelection : Type 0 where
  pub selection : Option FourTuple

unfoldable pub no_selection : PathSelection
no_selection = record { selection = none }

-- `PathSelection::set`: a selection that holds a path keeps it.
unfoldable pub set_path : Option FourTuple → FourTuple → PathSelection
set_path none path = record { selection = some path }
set_path (some old) path = record { selection = some old }

unfoldable pub set : PathSelection → FourTuple → PathSelection
set self path = set_path self.selection path

-- The two variables of the loop of `select`.
pub record Pass : Type 0 where
  pub best : Option (FourTuple × Key)
  pub current_key : Option Key

abbrev pub is_none_or : {A : Type 0} → Option A → (A → Bool) → Bool
is_none_or none f = true
is_none_or (some a) f = f a

abbrev pub is_current : Option FourTuple → FourTuple → Bool
is_current none path = false
is_current (some current) path = path_eq path current

unfoldable pub visit_key : Option FourTuple → FourTuple → Key → Pass → Pass
visit_key current path key pass = record {
  best = if is_none_or pass.best (λ b. lt_key key b.1) then some (path, key) else pass.best;
  current_key =
      if is_current current path && is_none_or pass.current_key (λ c. lt_key key c)
      then some key
      else pass.current_key;
}

unfoldable pub visit :
    BiasedRttPathSelector → Option FourTuple → FourTuple → Option Duration → Pass → Pass
visit self current path none pass = pass
visit self current path (some rtt) pass = visit_key current path (sort_key self path rtt) pass

unfoldable pub visit_all :
    BiasedRttPathSelector → Option FourTuple → List (FourTuple × Option Duration) → Pass → Pass
visit_all self current [] pass = pass
visit_all self current ((path, stats) ∷ paths) pass =
    visit_all self current paths (visit self current path stats pass)

-- What follows the loop. The sum is far from the bounds of `i128`: the times are below 2^94.
unfoldable pub choose : FourTuple → Key → Option Key → PathSelection
choose path best none = set no_selection path
choose path best (some current) =
    if not (same_type current.0 best.0)
    then set no_selection path
    else if lez (best.1 +ℤ pos rtt_switching_min) current.1
    then set no_selection path
    else no_selection

unfoldable pub finish : Option (FourTuple × Key) → Option Key → PathSelection
finish none current_key = no_selection
finish (some (path, key)) current_key = choose path key current_key

unfoldable pub select : BiasedRttPathSelector → PathSelectionContext → PathSelection
select self ctx =
    let pass = visit_all self ctx.current ctx.paths (record { best = none; current_key = none }) in
    finish pass.best pass.current_key
