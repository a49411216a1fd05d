-- ===== src/Auctions/Detail.antt =====
-- `get_auction_detail`: the row merged with the hash.
use sd_online_auction_backen.Common.{
  ℕ, zero, suc, ◌-◌, String, Bool, ◌&&◌, Option, none, some, List, ◌==◌, filter, length,
}
use sd_online_auction_backen.Common.Int.{ℤ}
use sd_online_auction_backen.Models.{
  Auction, AuctionState, Bid, is_accepted, PriceText, cents, bare_zero,
}
use sd_online_auction_backen.Redis.{Hash}
use sd_online_auction_backen.Session.{Action, pure, gets, or_fails, ◌>>=◌}
use sd_online_auction_backen.Session.Tables.{get_auction}
use sd_online_auction_backen.Auctions.Hash.{unix}

pub record AuctionDetail : Type 0 where
  pub auction_id : ℕ
  pub title : String
  pub category : String
  pub starting_price : ℕ
  pub current_price : PriceText
  pub min_increment : ℕ
  pub bid_count : ℕ
  pub state : AuctionState
  pub start_ts : ℕ
  pub end_ts : ℕ
  pub time_remaining_seconds : ℕ
  pub winner_id : Option ℕ
  pub reserve_price : Option ℤ

abbrev pub is_accepted_on : ℕ → Bid → Bool
is_accepted_on k b = b.auction_id == k && is_accepted b.status

unfoldable pub accepted_bids : ℕ → List Bid → List Bid
accepted_bids k bids = filter (is_accepted_on k) bids

-- `auction.highest_bid or auction.starting_price`: a zero is false too
abbrev pub or_starting : Option ℕ → ℕ → ℕ
or_starting none start = start
or_starting (some zero) start = start
or_starting (some (suc n)) start = suc n

-- `redis_data.get("highest_bid", "0")`
abbrev pub price_or_zero : Option ℕ → PriceText
price_or_zero none = bare_zero
price_or_zero (some n) = cents n

abbrev pub get_or {ℓ} : {A : Type ℓ} → Option A → A → A
get_or none d = d
get_or (some a) d = a

-- the price, the state and the end in seconds, from the hash or from the row
unfoldable pub current : Option Hash → Auction → PriceText × AuctionState × ℕ
current none a = (cents (or_starting a.highest_bid a.starting_price), a.state, unix a.end_ts)
current (some h) a = (price_or_zero h.highest_bid, get_or h.state a.state, get_or h.end_ts 0)

-- `max(0, end - now)` is the subtraction of ℕ
unfoldable pub detail : ℕ → List Bid → Option Hash → Auction → AuctionDetail
unfolding current accepted_bids
detail now bids found a =
    let (current_price, state, end_ts_unix) = current found a in
    record {
      auction_id = a.auction_id;
      title = a.title;
      category = a.category;
      starting_price = a.starting_price;
      current_price = current_price;
      min_increment = a.min_increment;
      bid_count = length (accepted_bids a.auction_id bids);
      state = state;
      start_ts = a.start_ts;
      end_ts = a.end_ts;
      time_remaining_seconds = end_ts_unix - unix now;
      winner_id = a.winner_id;
      reserve_price = a.reserve_price;
    }

abbrev pub detail_of : ℕ → Bool → Option Auction → Action (Option AuctionDetail)
detail_of now hgetall_fails none = pure none
detail_of now hgetall_fails (some a) = do
  bids ← gets (λ w. w.db.bids)
  found ← or_fails hgetall_fails (gets (λ w. w.redis.hashes a.auction_id))
  pure (some (detail now bids found a))

unfoldable pub get_auction_detail : ℕ → ℕ → Bool → Action (Option AuctionDetail)
unfolding get_auction detail
get_auction_detail auction_id now hgetall_fails = do
  auction ← gets (λ w. get_auction auction_id w.db)
  detail_of now hgetall_fails auction
