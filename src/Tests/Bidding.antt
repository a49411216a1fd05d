-- ===== src/Tests/Bidding.antt =====
-- Bids through the service.
use sd_online_auction_backen.Common.{◌≡◌, refl, false, none, some, arith}
use sd_online_auction_backen.Platform.Exact.{exact}
use sd_online_auction_backen.Models.{
  active, accepted, rejected, bid_too_low, cents, lua_script_error,
}
use sd_online_auction_backen.Redis.{fields}
use sd_online_auction_backen.Redis.Script.{place_bid_lua, take_lead}
use sd_online_auction_backen.Session.{ok, raised, integrity_error, get_session}
use sd_online_auction_backen.Session.Tables.{get_auction, has_auction, has_user, bid_keys_hold}
use sd_online_auction_backen.Auctions.Lifecycle.{close_auction}
use sd_online_auction_backen.Auctions.Lifecycle.Transitions.{no_faults}
use sd_online_auction_backen.Bids.Place.{
  place_bid, not_evaluated, script_args, on_reply, decide, won_outcome, lost_outcome,
}
use sd_online_auction_backen.Bids.Recording.{
  BidResult, replies, reply_lost, record_outcome, persist, store_proxy, fan_out, bid_row,
}
use sd_online_auction_backen.Bids.Place.Evaluation.{
  Reaches, scripted, before, Accepted, place_bid-Accepted, Rejected, place_bid-Rejected,
}
use sd_online_auction_backen.Bids.Place.Conflict.{
  place_bid_unknown_bidder, unknown_bidder_blocks_close, place_bid_reply_lost,
}
use sd_online_auction_backen.Auctions.Detail.{AuctionDetail, get_auction_detail}
use sd_online_auction_backen.Bids.Place.Shown.{get_auction_detail-Accepted}
use sd_online_auction_backen.Tests.Fixtures.{auction, world, call, env}

pub reaches : Reaches exact (env replies) (call 8 6000) auction world
unfolding get_auction
reaches = record { found = refl; registered = refl; replied = refl; new_id = refl }

low_bid_arrives : Reaches exact (env replies) (call 8 5500) auction world
unfolding get_auction
low_bid_arrives = record { found = refl; registered = refl; replied = refl; new_id = refl }

stray_bid_arrives : Reaches exact (env replies) (call 9 6000) auction world
unfolding get_auction
stray_bid_arrives = record { found = refl; registered = refl; replied = refl; new_id = refl }

abbrev pub won : BidResult
won = record {
  bid_id = 31;
  status = accepted;
  reason = none;
  current_price = some (cents 600);
  sequence_num = some 4;
}

abbrev lost : BidResult
lost = record {
  bid_id = 31;
  status = rejected;
  reason = some bid_too_low;
  current_price = some (cents 500);
  sequence_num = some 3;
}

place_bid-Accepted_example :
    Accepted exact
      (env replies)
      (call 8 6000)
      auction
      world
      won
      (place_bid exact (env replies) (call 8 6000) world).1
unfolding place_bid place_bid_lua get_auction on_reply decide record_outcome persist store_proxy
    fan_out bid_row bid_keys_hold has_auction has_user won_outcome script_args
place_bid-Accepted_example =
    place_bid-Accepted exact (env replies) (call 8 6000) auction world won reaches refl refl

place_bid-Rejected_example :
    Rejected exact
      (env replies)
      (call 8 5500)
      auction
      world
      (scripted exact (env replies) (call 8 5500) auction world.redis).0
      (scripted exact (env replies) (call 8 5500) auction world.redis).1
      lost
      (place_bid exact (env replies) (call 8 5500) world).1
unfolding place_bid place_bid_lua get_auction on_reply decide record_outcome persist store_proxy
    fan_out bid_row bid_keys_hold has_auction has_user lost_outcome script_args
place_bid-Rejected_example =
    place_bid-Rejected exact (env replies) (call 8 5500) auction world lost low_bid_arrives refl
      refl

place_bid_unknown_bidder_example :
    (get_session false (place_bid exact (env replies) (call 9 6000)) world ≡ (
      raised integrity_error,
      record world { redis = (scripted exact (env replies) (call 9 6000) auction world.redis).1 },
    ))
    × (fields ((scripted exact (env replies) (call 9 6000) auction world.redis).1.hashes 1)
        ≡ take_lead
            (script_args exact (env replies) (call 9 6000) auction)
            (before exact (call 9 6000) world))
unfolding place_bid_lua has_user script_args
place_bid_unknown_bidder_example =
    place_bid_unknown_bidder exact false (env replies) (call 9 6000) auction world stray_bid_arrives
      refl refl (λ e. cc) (omega arith)

unknown_bidder_blocks_close_example :
    let w = (get_session false (place_bid exact (env replies) (call 9 6000)) world).1 in
    close_auction exact 1 no_faults w ≡ (raised integrity_error, w)
unfolding place_bid place_bid_lua get_auction on_reply decide record_outcome persist bid_keys_hold
    has_auction has_user won_outcome script_args get_session
unknown_bidder_blocks_close_example =
    unknown_bidder_blocks_close exact false (env replies) (call 9 6000) auction world
      stray_bid_arrives refl refl (λ e. cc) (omega arith) no_faults auction
      (get_session false (place_bid exact (env replies) (call 9 6000)) world).1 refl refl refl
      (omega arith)

place_bid_reply_lost_example :
    (get_session false (place_bid exact (env reply_lost) (call 8 6000)) world ≡ (
      ok (not_evaluated 31 lua_script_error),
      record world {
        redis = (scripted exact (env reply_lost) (call 8 6000) auction world.redis).1;
      },
    ))
    × (fields ((scripted exact (env reply_lost) (call 8 6000) auction world.redis).1.hashes 1)
        ≡ take_lead
            (script_args exact (env reply_lost) (call 8 6000) auction)
            (before exact (call 8 6000) world))
unfolding place_bid_lua get_auction script_args
place_bid_reply_lost_example =
    place_bid_reply_lost exact (env reply_lost) (call 8 6000) auction world refl refl refl refl refl

get_auction_detail-Accepted_example :
    let w' = (place_bid exact (env replies) (call 8 6000) world).1 in
    (d : AuctionDetail) × (get_auction_detail 1 1500000300 false w' ≡ (ok (some d), w'))
    × (won.current_price ≡ some d.current_price)
    × (d.state ≡ active)
unfolding place_bid place_bid_lua get_auction on_reply decide record_outcome persist store_proxy
    fan_out bid_row bid_keys_hold has_auction has_user won_outcome script_args
get_auction_detail-Accepted_example =
    get_auction_detail-Accepted exact (env replies) (call 8 6000) auction world
      (place_bid exact (env replies) (call 8 6000) world).1 won 1500000300 refl
      (place_bid-Accepted exact (env replies) (call 8 6000) auction world won reaches refl refl)
