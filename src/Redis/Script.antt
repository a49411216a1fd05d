-- ===== src/Redis/Script.antt =====
-- place_bid.lua, the script that `register_scripts` of src/auction_app/redis_client.py loads.
pub mod Outcomes
pub mod Leads
pub mod Idempotent
pub mod Ladder
pub mod Once
pub mod Lot
use sd_online_auction_backen.Common.{
  ℕ, zero, ◌+◌, Bool, true, false, ◌&&◌, Option, none, some, List, [], ◌∷◌, leb, ◌==◌,
  if◌then◌else◌,
}
use sd_online_auction_backen.Platform.{Platform}
use sd_online_auction_backen.Models.{
  AuctionState, is_active, Reason, bid_too_low, auction_not_active, auction_ended, self_outbid,
}
use sd_online_auction_backen.Redis.{
  Hash, Cached, cached_accepted, cached_rejected, Redis, fields, set_hash, set_result,
}

-- KEYS and ARGV
pub record Args : Type 0 where
  pub auction_id : ℕ
  pub bid_id : ℕ
  pub bidder_id : ℕ
  pub amount : ℕ
  pub now_ts : ℕ
  pub ttl : ℕ

-- what a reply's array holds
pub data Value : Type 0 where
  int : ℕ → Value
  price : ℕ → Value
  unix : ℕ → Value
  text : Reason → Value
  nil : Value

-- the array, or a script error
abbrev pub Reply : Type 0
Reply = Option (List Value)

abbrev pub or_nil : (ℕ → Value) → Option ℕ → Value
or_nil f none = nil
or_nil f (some n) = f n

-- `tonumber(x or 0)`
abbrev pub or_zero : Option ℕ → ℕ
or_zero none = 0
or_zero (some n) = n

-- `state ~= 'ACTIVE'` fails only for this value
abbrev pub state_is_active : Option AuctionState → Bool
state_is_active none = false
state_is_active (some s) = is_active s

-- `current_bidder == ARGV[2]`
abbrev pub is_bidder : Option (Option ℕ) → ℕ → Bool
is_bidder (some (some b)) bidder = b == bidder
is_bidder _ bidder = false

-- step 0: the reply to a bid id that has a result
unfoldable pub replay : Cached → Hash → Reply
replay cached_accepted h =
    some (int 1 ∷ or_nil price h.highest_bid ∷ or_nil int h.sequence_num ∷ [])
replay (cached_rejected r) h = some (int 0 ∷ text r ∷ [])

-- SET the result, and return it
unfoldable pub reject : Reason → Args → Redis → Reply × Redis
reject why a r = (some (int 0 ∷ text why ∷ []), set_result a.bid_id (cached_rejected why) a.ttl r)

-- step 4, the fields that HSET and HINCRBY write
unfoldable pub take_lead : Args → Hash → Hash
take_lead a h = record h {
  highest_bid = some a.amount;
  highest_bidder = some (some a.bidder_id);
  last_bid_ts = some a.now_ts;
  sequence_num = some (or_zero h.sequence_num + 1);
}

-- steps 4 and 6
unfoldable pub accept : Args → Hash → Redis → Reply × Redis
unfolding take_lead
accept a h r = (
  some (int 1 ∷ price a.amount ∷ int (or_zero h.sequence_num + 1) ∷ or_nil unix h.end_ts ∷ []),
  set_result a.bid_id cached_accepted a.ttl (set_hash a.auction_id (take_lead a h) r),
)

module _ (p : Platform) where
  -- step 3; adding to a `min_increment` that is not there is a script error
  unfoldable pub check_amount : Option ℕ → Args → Hash → Redis → Reply × Redis
  unfolding reject accept
  check_amount none a h r = (none, r)
  check_amount (some min_inc) a h r =
      let current = or_zero h.highest_bid in
      if is_bidder h.highest_bidder a.bidder_id && leb a.amount current
      then reject self_outbid a r
      else if p.below_min a.amount current min_inc
      then reject bid_too_low a r
      else accept a h r

  -- step 2; comparing with an `end_ts` that is not there is a script error
  unfoldable pub check_time : Option ℕ → Args → Hash → Redis → Reply × Redis
  unfolding check_amount
  check_time none a h r = (none, r)
  check_time (some end_ts) a h r =
      if leb end_ts a.now_ts then reject auction_ended a r else check_amount h.min_increment a h r

  -- steps 1 to 6
  unfoldable pub evaluate : Args → Redis → Reply × Redis
  unfolding check_time
  evaluate a r =
      let h = fields (r.hashes a.auction_id) in
      if state_is_active h.state then check_time h.end_ts a h r else reject auction_not_active a r

  unfoldable pub on_result : Option (Cached × ℕ) → Args → Redis → Reply × Redis
  unfolding replay evaluate
  on_result (some (cached, _)) a r = (replay cached (fields (r.hashes a.auction_id)), r)
  on_result none a r = evaluate a r

  unfoldable pub place_bid_lua : Args → Redis → Reply × Redis
  unfolding on_result
  place_bid_lua a r = on_result (r.results a.bid_id) a r
