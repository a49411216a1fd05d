-- ===== src/Models.antt =====
-- The tables: src/auction_app/models/, with the constraints of alembic/versions/001_initial.py.
-- A UUID is a number; a datetime is a number of microseconds since the epoch.
use sd_online_auction_backen.Common.{ℕ, String, Bool, true, false, Option, List}
use sd_online_auction_backen.Common.Int.{ℤ}

-- the values of `auction.state`
pub data AuctionState : Type 0 where
  upcoming active closed sold unsold : AuctionState

pub record User : Type 0 where
  pub user_id : ℕ
  pub display_name : String
  pub email : String
  pub created_at : ℕ

pub record Auction : Type 0 where
  pub auction_id : ℕ
  pub seller_id : ℕ
  pub title : String
  pub description : Option String
  pub category : String
  pub starting_price : ℕ
  pub reserve_price : Option ℤ
  pub min_increment : ℕ
  pub start_ts : ℕ
  pub end_ts : ℕ
  pub state : AuctionState
  pub highest_bid : Option ℕ
  pub winner_id : Option ℕ
  pub created_at : ℕ

-- the values of `bid.status`
pub data Status : Type 0 where
  accepted rejected : Status

-- the values of `bid.rejection_reason`, and the reasons that `place_bid` returns
pub data Reason : Type 0 where
  bid_too_low auction_not_active auction_ended self_outbid : Reason
  auction_not_found lua_script_error unknown_error : Reason

pub record Bid : Type 0 where
  pub bid_id : ℕ
  pub auction_id : ℕ
  pub bidder_id : ℕ
  pub amount : ℕ
  pub is_proxy : Bool
  pub sequence_num : ℕ
  pub status : Status
  pub rejection_reason : Option Reason
  pub created_ts : ℕ

pub record ProxyBid : Type 0 where
  pub proxy_id : ℕ
  pub auction_id : ℕ
  pub bidder_id : ℕ
  pub max_bid : ℤ
  pub active : Bool
  pub entered_ts : ℕ

pub record Db : Type 0 where
  pub users : List User
  pub auctions : List Auction
  pub bids : List Bid
  pub proxy_bids : List ProxyBid

-- `state == ...` in Python and in SQL
abbrev pub is_active : AuctionState → Bool
is_active active = true
is_active _ = false

abbrev pub is_upcoming : AuctionState → Bool
is_upcoming upcoming = true
is_upcoming _ = false

abbrev pub is_closed : AuctionState → Bool
is_closed closed = true
is_closed _ = false

abbrev pub is_accepted : Status → Bool
is_accepted accepted = true
is_accepted rejected = false

-- A price as the API shows it: "12.34" in cents, the text "None" of a missing value, and the "0"
-- that stands for a missing price in the auction's detail.
pub data PriceText : Type 0 where
  cents : ℕ → PriceText
  none_text bare_zero : PriceText
