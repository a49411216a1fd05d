-- ===== src/Bids/Recording.antt =====
-- Steps 3 to 5 of `place_bid` in src/auction_app/services/bid_service.py: the row, the proxy and the
-- message of an evaluated bid.
use sd_online_auction_backen.Common.{
  ℕ, Bool, true, false, ◌&&◌, Option, none, some, List, [], ◌∷◌, ◌++◌, ◌==◌, take, filter,
}
use sd_online_auction_backen.Common.Int.{ℤ}
use sd_online_auction_backen.Common.Dict.{replace}
use sd_online_auction_backen.Platform.{Platform}
use sd_online_auction_backen.Models.{
  Auction, Bid, ProxyBid, Status, accepted, rejected, Reason, PriceText, Db,
}
use sd_online_auction_backen.Redis.{Redis, publish, Message}
use sd_online_auction_backen.Session.{
  data_error, Action, pure, raise, gets, modify_db, modify_redis, ◌>>=◌, ◌>>◌,
}
use sd_online_auction_backen.Session.Tables.{insert_bid, scalar_one_or_none}
use sd_online_auction_backen.Auctions.Hash.{unix as unix_seconds}

-- `BidRequest`, and the ids that come with it
pub record Call (p : Platform) : Type 0 where
  pub auction_id : ℕ
  pub bidder_id : ℕ
  pub amount : p.Float
  pub is_proxy : Bool
  pub proxy_max : Option p.Float

-- how EVALSHA goes: it runs and replies, is refused, or runs and its reply is lost
pub data Evalsha : Type 0 where
  replies refused reply_lost : Evalsha

-- What the call takes from outside: `time.time()`, the second reading of the clock, new ids,
-- whether the script's SHA is known, and which of the Redis commands fail.
pub record Env : Type 0 where
  pub now : ℕ
  pub now_dt : ℕ
  pub entered_ts : ℕ
  pub bid_id : ℕ
  pub proxy_id : ℕ
  pub script_registered : Bool
  pub xadd_fails : Bool
  pub evalsha : Evalsha
  pub hgetall_fails : Bool
  pub publish_fails : Bool

-- the dict that the call returns
pub record BidResult : Type 0 where
  pub bid_id : ℕ
  pub status : Status
  pub reason : Option Reason
  pub current_price : Option PriceText
  pub sequence_num : Option ℕ

-- an outcome that is written to the database
pub record Outcome : Type 0 where
  pub status : Status
  pub reason : Option Reason
  pub current_price : PriceText
  pub sequence_num : ℕ

-- the first eight hexadecimal digits of the SHA-256, `_mask_bidder`
unfoldable pub mask_bidder : Platform → ℕ → List ℕ
mask_bidder p bidder_id = take 8 (p.hexdigest bidder_id)

abbrev pub is_proxy_of : ℕ → ℕ → ProxyBid → Bool
is_proxy_of auction_id bidder_id b = b.auction_id == auction_id && b.bidder_id == bidder_id

-- `try: ... except Exception: pass`
abbrev pub unless : Bool → (Redis → Redis) → Action Unit
unless true f = pure tt
unless false f = modify_redis f

module _ (p : Platform) where
  -- step 3; the column rounds the float by itself
  unfoldable pub bid_row : Env → Call p → Outcome → ℕ → Bid
  bid_row env c o amount = record {
    bid_id = env.bid_id;
    auction_id = c.auction_id;
    bidder_id = c.bidder_id;
    amount = amount;
    is_proxy = c.is_proxy;
    sequence_num = o.sequence_num;
    status = o.status;
    rejection_reason = o.reason;
    created_ts = env.now_dt;
  }

  abbrev pub column : {A : Type 0} → Option A → Action A
  column none = raise data_error
  column (some a) = pure a

  unfoldable pub persist : Env → Call p → Outcome → Action Unit
  unfolding bid_row insert_bid
  persist env c o = do amount ← column (p.numeric c.amount); insert_bid (bid_row env c o amount)

  -- the row of a bidder's proxy, new or changed
  abbrev pub write_proxy : Env → Call p → ℤ → Option ProxyBid → Db → Db
  write_proxy env c m none db = record db {
    proxy_bids =
        db.proxy_bids
        ++ record {
          proxy_id = env.proxy_id;
          auction_id = c.auction_id;
          bidder_id = c.bidder_id;
          max_bid = m;
          active = true;
          entered_ts = env.entered_ts;
        }
          ∷ [];
  }
  write_proxy env c m (some b) db = record db {
    proxy_bids =
        replace (λ (x : ProxyBid). x.proxy_id) (record b { max_bid = m; active = true })
          db.proxy_bids;
  }

  abbrev pub upsert_proxy : Env → Call p → p.Float → Action Unit
  upsert_proxy env c proxy_max = do
    rows ← gets (λ w. w.db.proxy_bids)
    existing ← scalar_one_or_none (filter (is_proxy_of c.auction_id c.bidder_id) rows)
    m ← column (p.numeric_signed proxy_max)
    modify_db (write_proxy env c m existing)

  abbrev pub if_proxy : Bool → Option p.Float → Env → Call p → Action Unit
  if_proxy true (some proxy_max) env c = upsert_proxy env c proxy_max
  if_proxy _ _ env c = pure tt

  -- step 4
  unfoldable pub store_proxy : Env → Call p → Action Unit
  store_proxy env c = if_proxy c.is_proxy c.proxy_max env c

  unfoldable pub fanout_message : Call p → Auction → Outcome → Message
  unfolding mask_bidder
  fanout_message c auction o = record {
    auction_id = c.auction_id;
    sequence_num = o.sequence_num;
    current_price = o.current_price;
    high_bidder_masked = mask_bidder p c.bidder_id;
    end_ts = unix_seconds auction.end_ts;
  }

  abbrev pub if_accepted : Status → Env → Call p → Auction → Outcome → Action Unit
  if_accepted accepted env c auction o =
      unless env.publish_fails (publish (fanout_message c auction o))
  if_accepted rejected env c auction o = pure tt

  -- step 5
  unfoldable pub fan_out : Env → Call p → Auction → Outcome → Action Unit
  fan_out env c auction o = if_accepted o.status env c auction o

  -- steps 3 to 5 and the return
  unfoldable pub record_outcome : Env → Call p → Auction → Outcome → Action BidResult
  record_outcome env c auction o = do
    persist env c o
    store_proxy env c
    fan_out env c auction o
    pure (record {
      bid_id = env.bid_id;
      status = o.status;
      reason = o.reason;
      current_price = some o.current_price;
      sequence_num = some o.sequence_num;
    })
