-- ===== src/Redis/Script/Idempotent.antt =====
-- The result that place_bid.lua keeps for each bid id.
use sd_online_auction_backen.Common.{ℕ, ◌≡◌, refl, ◌≢◌, Option, none, some, [], ◌∷◌, arith}
use sd_online_auction_backen.Platform.{Platform}
use sd_online_auction_backen.Redis.{Hash, Redis, fields}
use sd_online_auction_backen.Redis.Script.{
  Args, int, Reply, check_amount, check_time, place_bid_lua,
}

-- The reply that the same bid id gets again: of an acceptance, what is left without the end time.
abbrev pub again : Reply → Reply
again (some (int s ∷ v ∷ n ∷ _)) = some (int s ∷ v ∷ n ∷ [])
again reply = reply

module _ (p : Platform) where
  check_amount-again :
      (m : Option ℕ) (a b : Args) (h : Hash) (r : Redis)
      → b.bid_id ≡ a.bid_id
      → b.auction_id ≡ a.auction_id
      → r.results a.bid_id ≡ none
      → (check_amount p m a h r).0 ≢ none
      → place_bid_lua p b (check_amount p m a h r).1
        ≡ (again (check_amount p m a h r).0, (check_amount p m a h r).1)
  unfolding check_amount place_bid_lua
  check_amount-again none a b h r eb ea new ran = absurd (ran refl)
  check_amount-again (some m) a b h r eb ea new ran = ground arith

  check_time-again :
      (m : Option ℕ) (a b : Args) (h : Hash) (r : Redis)
      → b.bid_id ≡ a.bid_id
      → b.auction_id ≡ a.auction_id
      → r.results a.bid_id ≡ none
      → (check_time p m a h r).0 ≢ none
      → place_bid_lua p b (check_time p m a h r).1
        ≡ (again (check_time p m a h r).0, (check_time p m a h r).1)
  unfolding check_time place_bid_lua
  check_time-again none a b h r eb ea new ran = absurd (ran refl)
  check_time-again (some end) a b h r eb ea new ran =
      ground (arith, check_amount-again h.min_increment a b h r)

  -- A second run for the same bid id, whatever its bidder, amount and time, repeats the verdict of
  -- the first one and changes nothing, unless the first one stopped at a script error.
  pub place_bid_lua-again :
      (a b : Args) (r : Redis)
      → b.bid_id ≡ a.bid_id
      → b.auction_id ≡ a.auction_id
      → r.results a.bid_id ≡ none
      → (place_bid_lua p a r).0 ≢ none
      → place_bid_lua p b (place_bid_lua p a r).1
        ≡ (again (place_bid_lua p a r).0, (place_bid_lua p a r).1)
  unfolding place_bid_lua
  place_bid_lua-again a b r eb ea new ran = ground (
    arith,
    check_time-again (fields (r.hashes a.auction_id)).end_ts a b (fields (r.hashes a.auction_id)) r,
  )
