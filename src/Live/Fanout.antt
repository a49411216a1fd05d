-- ===== src/Live/Fanout.antt =====
-- `publish_bid_accepted` and `get_current_state` of src/auction_app/services/fanout_service.py. They
-- have no caller: `place_bid` publishes by itself, and the WebSocket reads by itself.
use sd_online_auction_backen.Common.{ℕ, ◌≡◌, refl, false, Option}
use sd_online_auction_backen.Platform.{Platform}
use sd_online_auction_backen.Models.{Auction, PriceText, accepted}
use sd_online_auction_backen.Redis.{Hash, publish}
use sd_online_auction_backen.Session.{World, Action, gets, modify_redis}
use sd_online_auction_backen.Auctions.Hash.{unix}
use sd_online_auction_backen.Bids.Recording.{
  Call, Env, Outcome, fan_out, fanout_message, mask_bidder,
}
use sd_online_auction_backen.Live.{mask_bidder_id}

unfoldable publish_bid_accepted : Platform → ℕ → ℕ → PriceText → ℕ → ℕ → Action Unit
publish_bid_accepted p auction_id bidder_id amount sequence_num end_ts = modify_redis (
    publish record {
      auction_id = auction_id;
      sequence_num = sequence_num;
      current_price = amount;
      high_bidder_masked = mask_bidder_id p bidder_id;
      end_ts = end_ts;
    })

-- HGETALL; `none` is the empty dictionary
unfoldable get_current_state : ℕ → Action (Option Hash)
get_current_state auction_id = gets (λ w. w.redis.hashes auction_id)

-- The fan-out of an accepted bid, if PUBLISH goes through, is what `publish_bid_accepted` does.
fan_out-publish_bid_accepted :
    (p : Platform) (env : Env) (c : Call p) (auction : Auction) (o : Outcome) (w : World)
    → o.status ≡ accepted
    → env.publish_fails ≡ false
    → fan_out p env c auction o w
      ≡ publish_bid_accepted p c.auction_id c.bidder_id o.current_price o.sequence_num
          (unix auction.end_ts)
          w
unfolding fan_out fanout_message mask_bidder mask_bidder_id publish_bid_accepted
fan_out-publish_bid_accepted p env c auction o w won sent = rw (won, sent) refl
