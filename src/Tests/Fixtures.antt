-- ===== src/Tests/Fixtures.antt =====
-- An auction with three users, as the tables and Redis hold it.
use sd_online_auction_backen.Common.{ℕ, true, false, none, some, [], ◌∷◌, ◌==◌, if◌then◌else◌}
use sd_online_auction_backen.Common.Int.{pos}
use sd_online_auction_backen.Platform.Exact.{exact}
use sd_online_auction_backen.Models.{User, Auction, Bid, Db, active, accepted, rejected, Status}
use sd_online_auction_backen.Redis.{Hash, Redis}
use sd_online_auction_backen.Redis.Script.{Args}
use sd_online_auction_backen.Session.{World}
use sd_online_auction_backen.Bids.Recording.{Call, Env, Evalsha}

-- auction 1 stands at 5.00 by user 7, after three bids
abbrev pub hash : Hash
hash = record {
  state = some active;
  highest_bid = some 500;
  highest_bidder = some (some 7);
  end_ts = some 2000;
  start_ts = some 1000;
  sequence_num = some 3;
  extensions_used = some 0;
  min_increment = some 100;
  last_bid_ts = none;
}

abbrev pub store : Redis
store = record {
  hashes = λ k. if k == 1 then some hash else none;
  results = λ k. none;
  streams = λ k. [];
  published = [];
}

abbrev pub user : ℕ → User
user k = record { user_id = k; display_name = "user"; email = "user@example.com"; created_at = 0 }

abbrev pub auction : Auction
auction = record {
  auction_id = 1;
  seller_id = 5;
  title = "watch";
  description = none;
  category = "watches";
  starting_price = 100;
  reserve_price = some (pos 450);
  min_increment = 100;
  start_ts = 1000000000;
  end_ts = 2000000000;
  state = active;
  highest_bid = none;
  winner_id = none;
  created_at = 900000000;
}

abbrev pub row : ℕ → ℕ → Status → Bid
row k n s = record {
  bid_id = k;
  auction_id = 1;
  bidder_id = 7;
  amount = 100;
  is_proxy = false;
  sequence_num = n;
  status = s;
  rejection_reason = none;
  created_ts = 1100000000;
}

abbrev pub db : Db
db = record {
  users = user 5 ∷ user 7 ∷ user 8 ∷ [];
  auctions = auction ∷ [];
  bids = row 21 1 accepted ∷ row 22 2 accepted ∷ row 23 2 rejected ∷ row 24 3 accepted ∷ [];
  proxy_bids = [];
}

abbrev pub world : World
world = record { db = db; redis = store }

-- a bid in cents by its id, its bidder and its amount, at second 1500
abbrev pub args : ℕ → ℕ → ℕ → Args
args k bidder amount = record {
  auction_id = 1;
  bid_id = k;
  bidder_id = bidder;
  amount = amount;
  now_ts = 1500;
  ttl = 3600;
}

-- the same through the API; amounts are in mills
abbrev pub call : ℕ → ℕ → Call exact
call bidder mills = record {
  auction_id = 1;
  bidder_id = bidder;
  amount = mills;
  is_proxy = true;
  proxy_max = some 20000;
}

abbrev pub env : Evalsha → Env
env e = record {
  now = 1500000000;
  now_dt = 1500000100;
  entered_ts = 1500000200;
  bid_id = 31;
  proxy_id = 41;
  script_registered = true;
  xadd_fails = false;
  evalsha = e;
  hgetall_fails = false;
  publish_fails = false;
}
