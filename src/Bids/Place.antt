-- ===== src/Bids/Place.antt =====
-- `place_bid`, with `BidRequest` of src/auction_app/schemas/bid.py.
pub mod Evaluation
pub mod Persistence
pub mod Conflict
pub mod Shown
pub mod Returns
use sd_online_auction_backen.Common.{
  ℕ, zero, suc, ◌+◌, ◌-◌, ◌*◌, max, Bool, true, false, ◌&&◌, not, Option, none, some, List, [], ◌∷◌,
  ◌++◌, leb, ◌==◌, if◌then◌else◌, take, filter,
}
use sd_online_auction_backen.Common.Int.{ℤ}
use sd_online_auction_backen.Common.Dict.{replace}
use sd_online_auction_backen.Platform.{Platform}
use sd_online_auction_backen.Models.{
  Auction, Bid, ProxyBid, Status, accepted, rejected, is_accepted, Reason, auction_not_found,
  lua_script_error, unknown_error, PriceText, cents, none_text, Db,
}
use sd_online_auction_backen.Redis.{Hash, Redis, fields, xadd, publish, Message, StreamEntry}
use sd_online_auction_backen.Redis.Script.{
  Args, Value, int, price, unix, text, nil, Reply, or_zero, place_bid_lua,
}
use sd_online_auction_backen.Session.{
  World, Exception, integrity_error, data_error, key_error, type_error, redis_error, Result, ok,
  raised, Action, pure, raise, raise_if, gets, modify_db, modify_redis, or_fails, ◌>>=◌, ◌>>◌,
}
use sd_online_auction_backen.Session.Tables.{
  get_auction, has_auction, has_user, insert_bid, scalar_one_or_none,
}
use sd_online_auction_backen.Auctions.Hash.{unix as unix_seconds}
use sd_online_auction_backen.Bids.Recording.{
  replies, refused, reply_lost, BidResult, Call, Env, Evalsha, Outcome, bid_row, column, fan_out,
  fanout_message, if_accepted, if_proxy, is_proxy_of, mask_bidder, persist, record_outcome,
  store_proxy, unless, upsert_proxy, write_proxy,
}

-- the early returns
unfoldable pub not_evaluated : ℕ → Reason → BidResult
not_evaluated bid_id why = record {
  bid_id = bid_id;
  status = rejected;
  reason = some why;
  current_price = none;
  sequence_num = none;
}

-- `max(3600, int(end - now) + 48 * 3600)`; `int` cuts towards zero
unfoldable pub dedup_ttl : ℕ → ℕ → ℕ
dedup_ttl end now =
    max 3600
      (if leb now end then unix_seconds (end - now) + 172800 else 172800 - unix_seconds (now - end))

-- what the reply says, before the rejected branch asks for the hash
pub data Decision : Type 0 where
  short fault : Decision
  won : PriceText → ℕ → Decision
  lost : Option Reason → Decision

-- `str(result[1])`
abbrev pub str : Value → PriceText
str (price n) = cents n
str _ = none_text

-- `int(result[2]) if len(result) > 2 else 0`; `int(None)` is a TypeError
abbrev pub won_with : Value → List Value → Decision
won_with v [] = won (str v) 0
won_with v (int n ∷ _) = won (str v) n
won_with v (_ ∷ _) = fault

abbrev pub reason_of : Value → Option Reason
reason_of (text r) = some r
reason_of _ = none

unfoldable pub parse_reply : List Value → Decision
parse_reply (int (suc zero) ∷ v ∷ rest) = won_with v rest
parse_reply (int _ ∷ v ∷ _) = lost (reason_of v)
parse_reply (_ ∷ _ ∷ _) = fault
parse_reply _ = short

-- `hash_data.get("highest_bid", "0.00") if hash_data else "0.00"`, and so for the number
unfoldable pub lost_outcome : Option Reason → Option Hash → Outcome
lost_outcome why found = record {
  status = rejected;
  reason = why;
  current_price = cents (or_zero (fields found).highest_bid);
  sequence_num = or_zero (fields found).sequence_num;
}

unfoldable pub won_outcome : PriceText → ℕ → Outcome
won_outcome shown n = record {
  status = accepted;
  reason = none;
  current_price = shown;
  sequence_num = n;
}

-- EVALSHA of place_bid.lua
unfoldable pub evalsha : (p : Platform) → Evalsha → Args → Action Reply
evalsha p replies a w =
    let (reply, r) = place_bid_lua p a w.redis in (ok reply, record w { redis = r })
evalsha p refused a w = (ok none, w)
evalsha p reply_lost a w = (ok none, record w { redis = (place_bid_lua p a w.redis).1 })

module _ (p : Platform) where
  -- KEYS and ARGV
  unfoldable pub script_args : Env → Call p → Auction → Args
  unfolding dedup_ttl
  script_args env c auction = record {
    auction_id = c.auction_id;
    bid_id = env.bid_id;
    bidder_id = c.bidder_id;
    amount = p.fixed2 c.amount;
    now_ts = unix_seconds env.now;
    ttl = dedup_ttl auction.end_ts env.now;
  }

  unfoldable pub stream_entry : Env → Call p → StreamEntry
  stream_entry env c = record {
    bid_id = env.bid_id;
    bidder_id = c.bidder_id;
    amount = p.fixed2 c.amount;
    is_proxy = c.is_proxy;
    client_ts = unix_seconds env.now;
  }

  unfoldable pub decide : Env → Call p → Auction → Decision → Action BidResult
  decide env c auction short = pure (not_evaluated env.bid_id unknown_error)
  decide env c auction fault = raise type_error
  decide env c auction (won shown n) = record_outcome p env c auction (won_outcome shown n)
  decide env c auction (lost why) = do
    found ← or_fails env.hgetall_fails (gets (λ w. w.redis.hashes c.auction_id))
    record_outcome p env c auction (lost_outcome why found)

  unfoldable pub on_reply : Env → Call p → Auction → Reply → Action BidResult
  unfolding parse_reply
  on_reply env c auction none = pure (not_evaluated env.bid_id lua_script_error)
  on_reply env c auction (some reply) = decide env c auction (parse_reply reply)

  -- `get_lua_sha` is outside the `try`
  unfoldable pub bid_on : Env → Call p → Option Auction → Action BidResult
  unfolding evalsha
  bid_on env c none = pure (not_evaluated env.bid_id auction_not_found)
  bid_on env c (some auction) = do
    unless env.xadd_fails (xadd c.auction_id (stream_entry env c))
    raise_if (not env.script_registered) key_error
    reply ← evalsha p env.evalsha (script_args env c auction)
    on_reply env c auction reply

  unfoldable pub place_bid : Env → Call p → Action BidResult
  unfolding bid_on
  place_bid env c = do auction ← gets (λ w. get_auction c.auction_id w.db); bid_on env c auction
