-- ===== src/Auctions/Lifecycle.antt =====
-- `start_auction`, `close_auction` and `_resolve_settlement_inner`.
pub mod Settlement
pub mod Transitions
pub mod After
pub mod Between
use sd_online_auction_backen.Common.{ℕ, Bool, true, false, Option, none, some, if◌then◌else◌}
use sd_online_auction_backen.Common.Int.{ℤ, pos, leb_ℤ}
use sd_online_auction_backen.Platform.{Platform}
use sd_online_auction_backen.Models.{Auction, AuctionState, active, closed, sold, unsold, is_closed}
use sd_online_auction_backen.Redis.{Hash, Redis, fields, set_hash}
use sd_online_auction_backen.Redis.Script.{or_zero}
use sd_online_auction_backen.Session.{
  World, Action, pure, gets, modify_db, modify_redis, or_fails, ◌>>=◌, ◌>>◌,
}
use sd_online_auction_backen.Session.Tables.{get_auction, put_auction, flush_auction}
use sd_online_auction_backen.Auctions.Hash.{init_redis_hash}

-- which of a call's Redis commands fail
pub record CloseFaults : Type 0 where
  pub hgetall_fails : Bool
  pub hset_fails : Bool

abbrev pub start_row : Bool → Option Auction → Action Unit
start_row hset_fails none = pure tt
start_row hset_fails (some a) = do
  modify_db (put_auction (record a { state = active }))
  or_fails hset_fails (modify_redis (init_redis_hash a))

unfoldable pub start_auction : ℕ → Bool → Action Unit
start_auction auction_id hset_fails = do
  auction ← gets (λ w. get_auction auction_id w.db)
  start_row hset_fails auction

-- `if auction.reserve_price is not None and auction.highest_bid is not None`, and below it; the
-- comparison is given
unfoldable pub settle_won : (ℕ → ℤ → Bool) → Option ℤ → Option ℕ → Auction → Auction
settle_won at_least (some reserve) (some bid) a =
    if at_least bid reserve
    then record a { state = sold }
    else record a { state = unsold; winner_id = none }
settle_won at_least _ _ a = record a { state = sold }

abbrev pub settle_closed : (ℕ → ℤ → Bool) → Option ℕ → Auction → Auction
settle_closed at_least none a = record a { state = unsold }
settle_closed at_least (some _) a = settle_won at_least a.reserve_price a.highest_bid a

unfoldable pub resolve_settlement_inner : (ℕ → ℤ → Bool) → Auction → Auction
unfolding settle_won
resolve_settlement_inner at_least a =
    if is_closed a.state then settle_closed at_least a.winner_id a else a

-- `_ensure_str(data.get("highest_bidder", ""))`, which is false when it is ""
abbrev pub leader : Option Hash → Option ℕ
leader none = none
leader (some h) = elim h.highest_bidder [ none ↦ none | some b ↦ b ]

-- what the call writes to the row before its flush
abbrev pub with_winner : Option ℕ → Hash → Auction → Auction
with_winner none h a = record a { state = closed }
with_winner (some bidder) h a = record a {
  state = closed;
  highest_bid = some (or_zero h.highest_bid);
  winner_id = some bidder;
}

unfoldable pub closed_row : Option Hash → Auction → Auction
closed_row found a = with_winner (leader found) (fields found) a

-- a price from Redis is a float, and one that the row had is a Decimal
abbrev pub comparison : Platform → Option ℕ → ℕ → ℤ → Bool
comparison p none = λ bid reserve. leb_ℤ reserve (pos bid)
comparison p (some _) = p.at_least

-- `redis.hset(key, "state", auction.state)`
abbrev pub set_state : ℕ → AuctionState → Redis → Redis
set_state k s r = set_hash k (record (fields (r.hashes k)) { state = some s }) r

module _ (p : Platform) where
  unfoldable pub close_row : ℕ → CloseFaults → Auction → Option Hash → Action Unit
  unfolding resolve_settlement_inner closed_row flush_auction put_auction
  close_row auction_id faults a found = do
    let row = closed_row found a
    flush_auction row
    let settled = resolve_settlement_inner (comparison p (leader found)) row
    modify_db (put_auction settled)
    or_fails faults.hset_fails (modify_redis (set_state auction_id settled.state))

  abbrev pub close_found : ℕ → CloseFaults → Option Auction → Action Unit
  close_found auction_id faults none = pure tt
  close_found auction_id faults (some a) = do
    found ← or_fails faults.hgetall_fails (gets (λ w. w.redis.hashes auction_id))
    close_row auction_id faults a found

  unfoldable pub close_auction : ℕ → CloseFaults → Action Unit
  close_auction auction_id faults = do
    auction ← gets (λ w. get_auction auction_id w.db)
    close_found auction_id faults auction
