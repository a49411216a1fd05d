-- ===== src/Auctions/Hash/Opening.antt =====
-- The first bid on the hash that `_init_redis_hash` writes.
use sd_online_auction_backen.Common.{
  ◌<◌, ◌≡◌, ◌≢◌, none, arith, ltb, ltb→lt, ltb-false_le, if◌then◌else◌, Bool-cases, inl, inr,
}
use sd_online_auction_backen.Platform.{Platform, numeric_limit}
use sd_online_auction_backen.Models.{Auction, bid_too_low}
use sd_online_auction_backen.Redis.{Redis, fields}
use sd_online_auction_backen.Redis.Script.{Args, place_bid_lua, accept, reject}
use sd_online_auction_backen.Auctions.Hash.{unix, init_fields, init_redis_hash}

module _ (p : Platform) where
  -- A new bid on an auction whose hash has just been initialised, before the second of its end, is
  -- turned down as too low if it is below the increment and takes the lead if it is above, whatever
  -- the starting price.
  pub place_bid_lua-init_redis_hash :
      (a : Auction) (b : Args) (r : Redis)
      → r.results b.bid_id ≡ none
      → b.auction_id ≡ a.auction_id
      → b.now_ts < unix a.end_ts
      → a.min_increment < numeric_limit
      → b.amount ≢ a.min_increment
      → place_bid_lua p b (init_redis_hash a r) ≡ (
          if ltb b.amount a.min_increment
          then reject bid_too_low b (init_redis_hash a r)
          else accept b (init_fields a (fields (r.hashes a.auction_id))) (init_redis_hash a r))
  unfolding place_bid_lua init_redis_hash
  place_bid_lua-init_redis_hash a b r new same early range apart =
      elim (Bool-cases (ltb b.amount a.min_increment)) [
        | inl less ↦
            let low =
              p.below_min_lt b.amount 0 a.min_increment (omega arith) range
                (omega (arith, ltb→lt _ _ less)) in
            ground (arith, new, same, less, low)
        | inr more ↦
            let high =
              p.below_min_gt b.amount 0 a.min_increment (omega arith) range
                (omega (arith, ltb-false_le _ _ more, apart)) in
            ground (arith, new, same, more, high)
      ]
