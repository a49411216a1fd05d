-- ===== src/Tests/Starting.antt =====
-- A start-up without Redis.
use sd_online_auction_backen.Common.{◌≡◌, refl, true, false, some}
use sd_online_auction_backen.Platform.Exact.{exact}
use sd_online_auction_backen.Session.{ok, raised, key_error, get_session}
use sd_online_auction_backen.Session.Tables.{get_auction}
use sd_online_auction_backen.Bids.Recording.{replies}
use sd_online_auction_backen.Bids.Place.{place_bid}
use sd_online_auction_backen.App.{StartEnv, imported, lifespan, create_scheduler, served_by}
use sd_online_auction_backen.App.Startup.{place_bid_unregistered}
use sd_online_auction_backen.Tests.Fixtures.{auction, world, call, env}

abbrev redis_is_down : StartEnv
redis_is_down = record {
  fresh_pool = 1;
  ping_fails = true;
  load_fails = false;
  close_fails = false;
  sha = 77;
}

place_bid_unregistered_example :
    let s = (lifespan redis_is_down imported).1 in
    let y = get_session false (place_bid exact (served_by s (env replies)) (call 8 6000)) world in
    ((lifespan redis_is_down imported).0 ≡ ok tt)
    × (s.scheduler ≡ some create_scheduler)
    × (y.0 ≡ raised key_error)
    × (y.1.db ≡ world.db)
    × (y.1.redis.hashes ≡ world.redis.hashes)
unfolding get_auction
place_bid_unregistered_example =
    place_bid_unregistered exact redis_is_down false (env replies) (call 8 6000) auction world refl
      refl refl
