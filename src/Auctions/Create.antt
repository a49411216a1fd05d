-- ===== src/Auctions/Create.antt =====
-- `AuctionCreate` and `create_auction`.
pub mod Outcomes
use sd_online_auction_backen.Common.{
  ℕ, ◌-◌, String, Bool, true, false, ◌&&◌, not, Option, none, some, ltb, leb, if◌then◌else◌,
}
use sd_online_auction_backen.Common.Int.{ℤ}
use sd_online_auction_backen.Platform.{Platform}
use sd_online_auction_backen.Models.{Auction, AuctionState, active, upcoming, is_active}
use sd_online_auction_backen.Session.{
  World, Exception, seller_not_found, type_error, start_too_early, end_before_start, data_error,
  redis_error, Result, ok, raised, Action, pure, raise, raise_if, gets, modify_redis, or_fails,
  ◌>>=◌, ◌>>◌,
}
use sd_online_auction_backen.Session.Tables.{or_raise, get_user, has_user, insert_auction}
use sd_online_auction_backen.Auctions.Hash.{init_redis_hash}

-- A datetime that pydantic has parsed, with a time zone or without one.
pub data InputTime : Type 0 where
  aware naive : ℕ → InputTime

pub record AuctionCreate (p : Platform) : Type 0 where
  pub title : String
  pub description : Option String
  pub category : String
  pub starting_price : p.Float
  pub reserve_price : Option p.Float
  pub min_increment : p.Float
  pub start_ts : InputTime
  pub end_ts : InputTime

-- what the call takes from outside: the clock, the new row's id and time, and whether HSET fails
-- before it has an effect, or has its effect and its reply is lost
pub record Env : Type 0 where
  pub now : ℕ
  pub auction_id : ℕ
  pub created_at : ℕ
  pub hset_fails : Bool
  pub hset_lost : Bool

-- comparing with an aware datetime raises a TypeError for a naive one
abbrev pub comparable : InputTime → Action ℕ
comparable (aware t) = pure t
comparable (naive t) = raise type_error

abbrev pub five_minutes : ℕ
five_minutes = 300000000

-- `if state == "ACTIVE" and redis is not None`
abbrev pub init_if : Bool → Env → Auction → Action Unit
init_if true env a =
    or_fails env.hset_fails (modify_redis (init_redis_hash a)) >> raise_if env.hset_lost redis_error
init_if false env a = pure tt

unfoldable pub initial_state : ℕ → ℕ → AuctionState
initial_state start now = if leb start now then active else upcoming

module _ (p : Platform) where
  -- the two field validators
  unfoldable pub is_valid : AuctionCreate p → Bool
  is_valid d = p.is_positive d.starting_price && p.is_positive d.min_increment

  abbrev pub reserve_column : Option p.Float → Action (Option ℤ)
  reserve_column none = pure none
  reserve_column (some x) = do z ← or_raise (p.numeric_signed x) data_error; pure (some z)

  abbrev pub description_column : Option String → Action (Option String)
  description_column none = pure none
  description_column (some s) = do t ← or_raise (p.text s) data_error; pure (some t)

  -- The `flush` and `refresh` of the new row: its columns round the floats, or overflow, and test
  -- the texts.
  unfoldable pub new_auction : Env → ℕ → AuctionCreate p → ℕ → ℕ → Action Auction
  unfolding initial_state
  new_auction env seller_id d start end = do
    title ← or_raise (p.varchar 255 d.title) data_error
    description ← description_column d.description
    category ← or_raise (p.varchar 100 d.category) data_error
    starting_price ← or_raise (p.numeric d.starting_price) data_error
    reserve_price ← reserve_column d.reserve_price
    min_increment ← or_raise (p.numeric d.min_increment) data_error
    let auction : Auction = record {
      auction_id = env.auction_id;
      seller_id = seller_id;
      title = title;
      description = description;
      category = category;
      starting_price = starting_price;
      reserve_price = reserve_price;
      min_increment = min_increment;
      start_ts = start;
      end_ts = end;
      state = initial_state start env.now;
      highest_bid = none;
      winner_id = none;
      created_at = env.created_at;
    }
    insert_auction auction
    pure auction

  unfoldable pub create_auction : Env → ℕ → AuctionCreate p → Bool → Action Auction
  unfolding has_user new_auction init_redis_hash insert_auction
  create_auction env seller_id d with_redis = do
    raise_if (not (has_user seller_id (← gets (λ w. w.db)))) seller_not_found
    start ← comparable d.start_ts
    raise_if (ltb start (env.now - five_minutes)) start_too_early
    end ← comparable d.end_ts
    raise_if (leb end start) end_before_start
    auction ← new_auction env seller_id d start end
    init_if (is_active auction.state && with_redis) env auction
    pure auction
