-- ===== src/Tests/Routes.antt =====
-- Requests over HTTP.
use sd_online_auction_backen.Common.{refl, ◌≡◌, true, false, none, some}
use sd_online_auction_backen.Platform.Exact.{exact}
use sd_online_auction_backen.Models.{active}
use sd_online_auction_backen.Redis.{fields}
use sd_online_auction_backen.Session.{raised, commit_error, get_session}
use sd_online_auction_backen.Session.Tables.{get_auction, has_auction}
use sd_online_auction_backen.Auctions.Create.{
  AuctionCreate, create_auction, Env as CreateEnv, aware,
}
use sd_online_auction_backen.Bids.Recording.{replies}
use sd_online_auction_backen.Routers.{
  BidRequest, call_of, parse_user_id, place_bid_route, create_auction_route,
}
use sd_online_auction_backen.Routers.Bidding.{Answered, place_bid_route-Answered}
use sd_online_auction_backen.Routers.Listing.{
  Answered as ListingAnswered, create_auction_route-Answered,
}
use sd_online_auction_backen.Tests.Fixtures.{auction, world, env}

-- 6.00 by user 7, on its own lead of 5.00
abbrev pub request : BidRequest exact
request = record { amount = 6000; is_proxy = false; proxy_max = none }

place_bid_route-Answered_example :
    let x = get_session false (place_bid_route exact (env replies) (some "7") 1 request) world in
    Answered exact (env replies) (call_of exact 1 7 request) auction world x.0 x.1
unfolding get_auction parse_user_id
place_bid_route-Answered_example =
    place_bid_route-Answered exact false (env replies) (some "7") request 1 7 auction world refl
      (record { found = refl; registered = refl; replied = refl; new_id = refl })

abbrev pub listing : AuctionCreate exact
listing = record {
  title = "watch";
  description = none;
  category = "watches";
  starting_price = 1000;
  reserve_price = none;
  min_increment = 1000;
  start_ts = aware 1400000000;
  end_ts = aware 1900000000;
}

abbrev pub create_env : CreateEnv
create_env = record {
  now = 1500000000;
  auction_id = 2;
  created_at = 1500000001;
  hset_fails = false;
  hset_lost = false;
}

create_auction_route-Answered_example :
    let x = get_session false (create_auction_route exact create_env (some "5") listing) world in
    ListingAnswered exact false create_env 5 listing world x.0 x.1
unfolding parse_user_id
create_auction_route-Answered_example =
    create_auction_route-Answered exact false create_env (some "5") listing 5 world refl

-- a commit that fails leaves the hash of an auction that is not there
orphaned_hash :
    let x = get_session true (create_auction_route exact create_env (some "5") listing) world in
    (x.0 ≡ raised commit_error)
    × (get_auction 2 x.1.db ≡ none)
    × ((fields (x.1.redis.hashes 2)).state ≡ some active)
unfolding get_session create_auction_route parse_user_id create_auction has_auction
orphaned_hash = (refl, refl, refl)
