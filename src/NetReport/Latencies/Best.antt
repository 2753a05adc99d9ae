-- ===== src/NetReport/Latencies/Best.antt =====
-- The latency that `RelayLatencies::get` answers is the least that was recorded.
use nexalink_tunnel.Common.{
  ◌≡◌, refl, sym, ◌∙◌, Option, none, some, [], ◌∷◌, min, arith, if◌then◌else◌, Bool-cases, inl, inr,
}
use nexalink_tunnel.Common.Maps.{get}
use nexalink_tunnel.Common.Ordered.{get-insert_sorted, insert_sorted-IsSorted, IsSorted, get-Above}
use nexalink_tunnel.Transports.{RelayUrl}
use nexalink_tunnel.Transports.Urls.{RelayUrl_Eq, RelayUrl_Ord, RelayUrl_eq_iff}
use nexalink_tunnel.NetReport.{Duration, Probe, https, qad_ipv4, qad_ipv6}
use nexalink_tunnel.NetReport.Latencies.{
  Latencies, RelayLatencies, faster, update_list, update_relay, merge_list, merge, push_some,
  min_of, get_latency, IsSortedLatencies,
}

-- The lesser of two latencies, where none is above all.
abbrev pub least : Option Duration → Option Duration → Option Duration
least none b = b
least (some a) none = some a
least (some a) (some b) = some (min a b)

pub least_assoc : (a b c : Option Duration) → least (least a b) c ≡ least a (least b c)
least_assoc none b c = refl
least_assoc (some a) none c = refl
least_assoc (some a) (some b) none = refl
least_assoc (some a) (some b) (some c) = ground arith

pub least_comm : (a b : Option Duration) → least a b ≡ least b a
least_comm none none = refl
least_comm none (some b) = refl
least_comm (some a) none = refl
least_comm (some a) (some b) = ground arith

pub least-none : (a : Option Duration) → least a none ≡ a
least-none none = refl
least-none (some a) = refl

-- The three maps one after the other.
pub get_latency-least :
    (l : RelayLatencies) (u : RelayUrl)
    → get_latency l u ≡ least (get l.https u) (least (get l.ipv4 u) (get l.ipv6 u))
unfolding get_latency push_some min_of
get_latency-least l u = pushed (get l.https u) (get l.ipv4 u) (get l.ipv6 u)
  where
    pushed :
        (a b c : Option Duration)
        → min_of (push_some (push_some (push_some [] a) b) c) ≡ least a (least b c)
    pushed none none none = refl
    pushed none none (some c) = refl
    pushed none (some b) none = refl
    pushed none (some b) (some c) = refl
    pushed (some a) none none = refl
    pushed (some a) none (some c) = refl
    pushed (some a) (some b) none = refl
    pushed (some a) (some b) (some c) = refl

-- The latency, if the keys are the same.
abbrev pub given : RelayUrl → RelayUrl → Duration → Option Duration
given u v latency = if RelayUrl_Eq.beq u v then some latency else none

get-update_list :
    (list : Latencies) (u v : RelayUrl) (latency : Duration)
    → get (update_list list u latency) v ≡ least (get list v) (given u v latency)
unfolding update_list faster
get-update_list list u v latency = elim (Bool-cases (RelayUrl_Eq.beq u v)) [
  | inl same ↦
      let p = (RelayUrl_eq_iff u v).0 same in
      rw (get-insert_sorted list u v (faster (get list u) latency), same, p) (chosen (get list v))
  | inr other ↦
      rw (get-insert_sorted list u v (faster (get list u) latency), other)
        (sym (least-none (get list v)))
]
  where
    chosen : (o : Option Duration) → some (faster o latency) ≡ least o (some latency)
    chosen none = refl
    chosen (some old) = ground arith

-- After an update the least latency is that of before, or the new one of the relay.
pub get_latency-update_relay :
    (l : RelayLatencies) (u v : RelayUrl) (latency : Duration) (p : Probe)
    → get_latency (update_relay l u latency p) v ≡ least (get_latency l v) (given u v latency)
unfolding update_relay
get_latency-update_relay l u v latency https =
    rw
      (
        get_latency-least (update_relay l u latency https) v,
        get_latency-least l v,
        get-update_list l.https u v latency,
      )
      (swap (get l.https v) (least (get l.ipv4 v) (get l.ipv6 v)) (given u v latency))
  where
    swap : (a b n : Option Duration) → least (least a n) b ≡ least (least a b) n
    swap a b n = least_assoc a n b ∙ rw (least_comm n b) (sym (least_assoc a b n))
get_latency-update_relay l u v latency qad_ipv4 =
    rw
      (
        get_latency-least (update_relay l u latency qad_ipv4) v,
        get_latency-least l v,
        get-update_list l.ipv4 u v latency,
      )
      (swap (get l.https v) (get l.ipv4 v) (get l.ipv6 v) (given u v latency))
  where
    swap :
        (a b c n : Option Duration) → least a (least (least b n) c) ≡ least (least a (least b c)) n
    swap a b c n = rw (least_assoc b n c, least_comm n c) (simp (least_assoc))
get_latency-update_relay l u v latency qad_ipv6 =
    rw
      (
        get_latency-least (update_relay l u latency qad_ipv6) v,
        get_latency-least l v,
        get-update_list l.ipv6 u v latency,
      )
      (simp (least_assoc))

-- The least of the latencies of a relay in a list.
abbrev pub list_least : Latencies → RelayUrl → Option Duration
list_least [] v = none
list_least ((u, latency) ∷ rest) v = least (given u v latency) (list_least rest v)

get_latency-merge_list :
    (list : Latencies) (l : RelayLatencies) (v : RelayUrl) (p : Probe)
    → get_latency (merge_list l list p) v ≡ least (get_latency l v) (list_least list v)
unfolding merge_list
get_latency-merge_list [] l v p = sym (least-none (get_latency l v))
get_latency-merge_list ((u, latency) ∷ rest) l v p =
    rw
      (
        get_latency-merge_list rest (update_relay l u latency p) v p,
        get_latency-update_relay l u v latency p,
      )
      (least_assoc (get_latency l v) (given u v latency) (list_least rest v))

-- In a sorted list a key stands once.
list_least-get : (list : Latencies) (v : RelayUrl) → IsSorted list → list_least list v ≡ get list v
unfolding get
list_least-get [] v s = refl
list_least-get ((u, latency) ∷ rest) v s = elim (Bool-cases (RelayUrl_Eq.beq u v)) [
  | inl same ↦
      let p = (RelayUrl_eq_iff u v).0 same in
      let gone : get rest v ≡ none = rw (← p) (get-Above rest u s.0) in
      rw (same, list_least-get rest v s.1, gone) refl
  | inr other ↦ rw (other) (list_least-get rest v s.1)
]

-- The least latency of a relay after a merge is the lesser of its two least latencies.
pub get_latency-merge :
    (l other : RelayLatencies) (v : RelayUrl)
    → IsSortedLatencies other
    → get_latency (merge l other) v ≡ least (get_latency l v) (get_latency other v)
unfolding merge
get_latency-merge l other v s =
    rw
      (
        get_latency-merge_list other.ipv6
            (merge_list (merge_list l other.https https) other.ipv4 qad_ipv4) v qad_ipv6,
        get_latency-merge_list other.ipv4 (merge_list l other.https https) v qad_ipv4,
        get_latency-merge_list other.https l v https,
        list_least-get other.https v s.0,
        list_least-get other.ipv4 v s.1,
        list_least-get other.ipv6 v s.2,
        get_latency-least other v,
      )
      (simp (least_assoc))

pub update_relay-IsSorted :
    (l : RelayLatencies) (u : RelayUrl) (latency : Duration) (p : Probe)
    → IsSortedLatencies l
    → IsSortedLatencies (update_relay l u latency p)
unfolding update_relay update_list
update_relay-IsSorted l u latency https s =
    (insert_sorted-IsSorted l.https u (faster (get l.https u) latency) s.0, s.1, s.2)
update_relay-IsSorted l u latency qad_ipv4 s =
    (s.0, insert_sorted-IsSorted l.ipv4 u (faster (get l.ipv4 u) latency) s.1, s.2)
update_relay-IsSorted l u latency qad_ipv6 s =
    (s.0, s.1, insert_sorted-IsSorted l.ipv6 u (faster (get l.ipv6 u) latency) s.2)

merge_list-IsSorted :
    (list : Latencies) (l : RelayLatencies) (p : Probe)
    → IsSortedLatencies l
    → IsSortedLatencies (merge_list l list p)
unfolding merge_list
merge_list-IsSorted [] l p s = s
merge_list-IsSorted ((u, latency) ∷ rest) l p s =
    merge_list-IsSorted rest (update_relay l u latency p) p (update_relay-IsSorted l u latency p s)

pub merge-IsSorted :
    (l other : RelayLatencies) → IsSortedLatencies l → IsSortedLatencies (merge l other)
unfolding merge
merge-IsSorted l other s =
    merge_list-IsSorted other.ipv6 (merge_list (merge_list l other.https https) other.ipv4 qad_ipv4)
      qad_ipv6
      (merge_list-IsSorted other.ipv4 (merge_list l other.https https) qad_ipv4
        (merge_list-IsSorted other.https l https s))
