-- ===== src/Tests/Lifecycle.antt =====
-- Creating and closing auctions.
use sd_online_auction_backen.Common.{◌≡◌, refl, ◌⊎◌, true, false, none, [], ◌∷◌, arith}
use sd_online_auction_backen.Platform.Exact.{exact}
use sd_online_auction_backen.Common.{ltb, if◌then◌else◌}
use sd_online_auction_backen.Models.{bid_too_low, Auction, active, upcoming}
use sd_online_auction_backen.Redis.{fields}
use sd_online_auction_backen.Redis.Script.Ladder.{wins, run}
use sd_online_auction_backen.Session.{ok}
use sd_online_auction_backen.Session.Tables.{get_auction, has_user, has_auction}
use sd_online_auction_backen.Auctions.Hash.{init_redis_hash}
use sd_online_auction_backen.Auctions.Create.{AuctionCreate, Env, aware, create_auction}
use sd_online_auction_backen.Auctions.Create.Outcomes.{
  Listed, create_auction-Listed, create_auction-hash,
}
use sd_online_auction_backen.Auctions.Lifecycle.{close_auction, close_row}
use sd_online_auction_backen.Auctions.Lifecycle.Transitions.{
  no_faults, Closes, close_auction-Closes,
}
use sd_online_auction_backen.Auctions.Lifecycle.After.{close_auction-run}
use sd_online_auction_backen.Redis.Script.{place_bid_lua, accept, reject}
use sd_online_auction_backen.Auctions.Hash.{init_fields}
use sd_online_auction_backen.Auctions.Hash.Opening.{place_bid_lua-init_redis_hash}
use sd_online_auction_backen.Tests.Fixtures.{store, auction, world, args}

close_auction-Closes_example :
    ((close_auction exact 1 no_faults world).0 ≡ ok tt)
    × Closes 1 auction world (close_auction exact 1 no_faults world).1
unfolding get_auction has_user
close_auction-Closes_example =
    close_auction-Closes exact 1 auction world refl refl refl (omega arith) refl

close_auction-run_example :
    let r = (close_auction exact 1 no_faults world).1.redis in
    (wins exact 1 (args 11 8 900 ∷ []) r ≡ [])
    × (fields ((run exact (args 11 8 900 ∷ []) r).hashes 1) ≡ fields (r.hashes 1))
unfolding get_auction has_user close_auction close_row
close_auction-run_example =
    close_auction-run exact 1 auction world (args 11 8 900 ∷ []) refl refl refl (omega arith) refl
      (refl, tt)

abbrev listing : AuctionCreate exact
listing = record {
  title = "watch";
  description = none;
  category = "watches";
  starting_price = 1000;
  reserve_price = none;
  min_increment = 3;
  start_ts = aware 1400000000;
  end_ts = aware 1900000000;
}

abbrev create_env : Env
create_env = record {
  now = 1500000000;
  auction_id = 2;
  created_at = 1500000001;
  hset_fails = false;
  hset_lost = false;
}

-- the increment of 0.3 cents is stored as 0.00
abbrev listed : Auction
listed = record {
  auction_id = 2;
  seller_id = 5;
  title = "watch";
  description = none;
  category = "watches";
  starting_price = 100;
  reserve_price = none;
  min_increment = 0;
  start_ts = 1400000000;
  end_ts = 1900000000;
  state = active;
  highest_bid = none;
  winner_id = none;
  created_at = 1500000001;
}

create_auction-Listed_example :
    Listed exact create_env 5 listing world listed
      (create_auction exact create_env 5 listing true world).1
unfolding create_auction has_auction
create_auction-Listed_example =
    create_auction-Listed exact create_env 5 listing true world listed refl

create_auction-hash_example :
    let r = (create_auction exact create_env 5 listing true world).1.redis in
    (listed.state ≡ active) × (true ≡ true) × (r ≡ init_redis_hash listed store)
    ⊎ ((listed.state ≡ upcoming) ⊎ (true ≡ false)) × (r ≡ store)
unfolding create_auction has_auction
create_auction-hash_example = create_auction-hash exact create_env 5 listing true world listed refl

-- it starts at 1000.00, and the bid is 1.50
abbrev dear : Auction
dear = record auction { starting_price = 100000 }

place_bid_lua-init_redis_hash_example :
    place_bid_lua exact (args 11 8 150) (init_redis_hash dear store) ≡ (
      if ltb 150 100
      then reject bid_too_low (args 11 8 150) (init_redis_hash dear store)
      else accept
          (args 11 8 150)
          (init_fields dear (fields (store.hashes 1)))
          (init_redis_hash dear store))
place_bid_lua-init_redis_hash_example =
    place_bid_lua-init_redis_hash exact dear (args 11 8 150) store refl refl (omega arith)
      (omega arith) (λ e. omega (arith, e))
