-- ===== src/Tests/Watching.antt =====
-- A watcher of the auction of `Fixtures`.
use sd_online_auction_backen.Common.{◌≡◌, refl}
use sd_online_auction_backen.Platform.Exact.{exact}
use sd_online_auction_backen.Models.{cents}
use sd_online_auction_backen.Redis.Script.{place_bid_lua}
use sd_online_auction_backen.Session.Tables.{get_auction, bid_keys_hold, has_auction, has_user}
use sd_online_auction_backen.Bids.Recording.{
  replies, record_outcome, persist, store_proxy, fan_out, bid_row, fanout_message,
}
use sd_online_auction_backen.Bids.Place.{place_bid, script_args, on_reply, decide, won_outcome}
use sd_online_auction_backen.Bids.Place.Evaluation.{place_bid-Accepted}
use sd_online_auction_backen.Live.{initial, payload}
use sd_online_auction_backen.Live.Frames.{initial-Accepted}
use sd_online_auction_backen.Tests.Fixtures.{auction, world, call, env}
use sd_online_auction_backen.Tests.Bidding.{won, reaches}

initial-Accepted_example :
    initial exact ((place_bid exact (env replies) (call 8 6000) world).1.redis.hashes 1)
    ≡ record (payload (fanout_message exact (call 8 6000) auction (won_outcome (cents 600) 4))) {
      end_ts = 2000;
    }
unfolding place_bid place_bid_lua get_auction on_reply decide record_outcome persist store_proxy
    fan_out bid_row bid_keys_hold has_auction has_user won_outcome script_args
initial-Accepted_example =
    initial-Accepted exact (env replies) (call 8 6000) auction world
      (place_bid exact (env replies) (call 8 6000) world).1 won
      (place_bid-Accepted exact (env replies) (call 8 6000) auction world won reaches refl refl)
