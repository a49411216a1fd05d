-- ===== src/Auctions/Hash.antt =====
-- The hash of an active auction: `_init_redis_hash`.
pub mod Opening
use sd_online_auction_backen.Common.{ℕ, ◌/◌, none, some}
use sd_online_auction_backen.Models.{Auction, active}
use sd_online_auction_backen.Redis.{Hash, Redis, fields, set_hash}

-- `int(ts.timestamp())`
abbrev pub unix : ℕ → ℕ
unix micros = micros / 1000000

-- HSET keeps the fields that the mapping does not name
unfoldable pub init_fields : Auction → Hash → Hash
init_fields a h = record h {
  state = some active;
  highest_bid = some 0;
  highest_bidder = some none;
  end_ts = some (unix a.end_ts);
  start_ts = some (unix a.start_ts);
  sequence_num = some 0;
  extensions_used = some 0;
  min_increment = some a.min_increment;
}

unfoldable pub init_redis_hash : Auction → Redis → Redis
unfolding init_fields
init_redis_hash a r = set_hash a.auction_id (init_fields a (fields (r.hashes a.auction_id))) r
