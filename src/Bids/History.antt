-- ===== src/Bids/History.antt =====
-- `get_bid_history`.
pub mod Paging
use sd_online_auction_backen.Common.{
  is_some, ℕ, ◌+◌, min, max, Bool, true, false, ◌&&◌, Option, none, some, List, [], ◌∷◌, map, ltb,
  leb, ◌==◌, if◌then◌else◌, length, take, filter, get_last?,
}
use sd_online_auction_backen.Paging.{clamp_limit, cut, order_desc, before}
use sd_online_auction_backen.Models.{Bid, Status, is_accepted}
use sd_online_auction_backen.Session.{World, Action, pure, gets, ◌>>=◌}
use sd_online_auction_backen.Session.Tables.{get_auction}

pub record BidHistoryItem : Type 0 where
  pub bid_id : ℕ
  pub bidder_id : ℕ
  pub amount : ℕ
  pub sequence_num : ℕ
  pub created_ts : ℕ

pub record BidHistoryPage : Type 0 where
  pub auction_id : ℕ
  pub bids : List BidHistoryItem
  pub next_cursor : Option ℕ

abbrev pub number : Bid → ℕ
number b = b.sequence_num

-- the WHERE clause
abbrev pub selected : ℕ → Option ℕ → Bid → Bool
selected auction_id cursor b =
    b.auction_id == auction_id && is_accepted b.status && before number ltb cursor b

abbrev pub item : Bid → BidHistoryItem
item b = record {
  bid_id = b.bid_id;
  bidder_id = b.bidder_id;
  amount = b.amount;
  sequence_num = b.sequence_num;
  created_ts = b.created_ts;
}

-- the rows that the statement returns, ORDER BY sequence_num DESC LIMIT `limit + 1`
unfoldable pub fetched : ℕ → Option ℕ → ℕ → List Bid → List Bid
fetched auction_id cursor limit bids =
    take (limit + 1) (order_desc number ltb (filter (selected auction_id cursor) bids))

-- `bids[-1].sequence_num` when there is more
abbrev pub cursor_of : Option Bid → Option ℕ
cursor_of none = none
cursor_of (some b) = some b.sequence_num

-- the page of the rows that were fetched
unfoldable pub page_of : ℕ → ℕ → List Bid → BidHistoryPage
page_of auction_id limit rows =
    let page = cut limit rows in
    record { auction_id = auction_id; bids = map item page.rows; next_cursor = cursor_of page.last }

unfoldable pub history_page : ℕ → Option ℕ → ℕ → List Bid → BidHistoryPage
history_page auction_id cursor limit bids =
    page_of auction_id (clamp_limit limit) (fetched auction_id cursor (clamp_limit limit) bids)

unfoldable pub get_bid_history : ℕ → Option ℕ → ℕ → Action (Option BidHistoryPage)
unfolding history_page get_auction
get_bid_history auction_id cursor limit = do
  w ← gets (λ w. w)
  pure (
      if is_some (get_auction auction_id w.db)
      then some (history_page auction_id cursor limit w.db.bids)
      else none)
