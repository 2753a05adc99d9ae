-- ===== src/Server/Actor/Counter.antt =====
-- The count of the endpoints of a day, `ClientCounter` of iroh-relay/src/server/client.rs.
use nexalink_tunnel.Common.{
  ℕ, ◌≡◌, refl, Bool, true, not, ◌&&◌, ◌||◌, ◌==◌, ==_iff, Bool-cases, inl, inr, [],
}
use nexalink_tunnel.Common.Maps.{contains, contains-insert_set_or}
use nexalink_tunnel.Keys.{PublicKey}
use nexalink_tunnel.Server.Clients.{key_Eq}
use nexalink_tunnel.Server.Actor.{ClientCounter, check_and_clear, update}

-- Whether the counter has seen the endpoint on the day.
abbrev pub seen : ClientCounter → ℕ → PublicKey → Bool
seen self today key = (today == self.last_clear_date) && contains self.seen_clients key

-- An update answers whether the endpoint is new on the day; after it the endpoints that were seen on
-- the day are those of before and this one.
pub update-seen :
    (self : ClientCounter) (today : ℕ) (client key : PublicKey)
    → let (after, is_new) = update self today client in
      (is_new ≡ not (seen self today client))
      × (seen after today key ≡ (key_Eq.beq client key || seen self today key))
unfolding update check_and_clear contains
update-seen self today client key = elim (Bool-cases (today == self.last_clear_date)) [
  | inl same ↦ rw (same) (refl, rw (same) (contains-insert_set_or self.seen_clients client key))
  | inr other ↦ rw (other, today_again) (refl, contains-insert_set_or [] client key)
]
  where
    today_again : (today == today) ≡ true
    today_again = (==_iff today today).1 refl
