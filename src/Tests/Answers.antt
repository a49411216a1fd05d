-- ===== src/Tests/Answers.antt =====
-- A bid that is answered as accepted.
use sd_online_auction_backen.Common.{◌≡◌, refl, false, arith}
use sd_online_auction_backen.Platform.Exact.{exact}
use sd_online_auction_backen.Redis.Script.{place_bid_lua}
use sd_online_auction_backen.Session.{ok, get_session}
use sd_online_auction_backen.Session.Tables.{get_auction, bid_keys_hold, has_auction, has_user}
use sd_online_auction_backen.Bids.Recording.{Call, replies, bid_row}
use sd_online_auction_backen.Bids.Place.{place_bid, script_args, won_outcome}
use sd_online_auction_backen.Bids.Place.Persistence.{result_of}
use sd_online_auction_backen.Bids.Place.Evaluation.{Accepted}
use sd_online_auction_backen.Bids.Place.Returns.{gained, place_bid_returns}
use sd_online_auction_backen.Tests.Fixtures.{auction, world, call, env}

abbrev plain : Call exact
plain = record (call 8 6000) { is_proxy = false }

place_bid_returns_example :
    let y = get_session false (place_bid exact (env replies) plain) world in
    (y.0 ≡ ok (result_of (env replies) (gained exact plain world)))
    × Accepted exact
        (env replies)
        plain
        auction
        world
        (result_of (env replies) (gained exact plain world))
        y.1
unfolding get_auction place_bid_lua script_args bid_keys_hold has_auction has_user bid_row
    won_outcome
place_bid_returns_example =
    place_bid_returns exact (env replies) plain auction world 600
      (record { found = refl; registered = refl; replied = refl; new_id = refl }) refl refl
      (omega arith) refl refl
