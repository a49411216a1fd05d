-- ===== src/Session/Tables.antt =====
-- The tables' rows and constraints: the primary, foreign and unique keys of
-- alembic/versions/001_initial.py, which PostgreSQL tests when a session flushes.
use sd_online_auction_backen.Common.{
  ℕ, Bool, true, ◌&&◌, ◌||◌, not, Option, none, some, List, [], ◌∷◌, ◌++◌, ltb, ◌==◌, any, is_some,
}
use sd_online_auction_backen.Common.Dict.{find, replace}
use sd_online_auction_backen.Platform.{numeric_limit}
use sd_online_auction_backen.Models.{User, Auction, Bid, Db}
use sd_online_auction_backen.Session.{
  Exception, integrity_error, data_error, multiple_results, Action, pure, raise, raise_if, gets,
  modify_db, ◌>>=◌, ◌>>◌,
}

-- a value, or an exception
abbrev pub or_raise : {A : Type 0} → Option A → Exception → Action A
or_raise none e = raise e
or_raise (some a) e = pure a

-- `db.get(User, id)`, `db.get(Auction, id)`
unfoldable pub get_user : ℕ → Db → Option User
unfolding find
get_user k db = find (λ (u : User). u.user_id) k db.users

unfoldable pub get_auction : ℕ → Db → Option Auction
unfolding find
get_auction k db = find (λ (a : Auction). a.auction_id) k db.auctions

unfoldable pub has_user : ℕ → Db → Bool
unfolding get_user
has_user k db = is_some (get_user k db)

unfoldable pub has_auction : ℕ → Db → Bool
unfolding get_auction
has_auction k db = is_some (get_auction k db)

-- the row of the identity map with the same key, which a flush writes
unfoldable pub put_auction : Auction → Db → Db
put_auction a db = record db { auctions = replace (λ (b : Auction). b.auction_id) a db.auctions }

-- NUMERIC(12, 2) and INTEGER columns
abbrev pub fits_numeric : Option ℕ → Bool
fits_numeric none = true
fits_numeric (some n) = ltb n numeric_limit

abbrev pub fits_integer : ℕ → Bool
fits_integer n = ltb n 2147483648

abbrev pub winner_exists : Option ℕ → Db → Bool
winner_exists none db = true
winner_exists (some k) db = has_user k db

-- flushing a changed auction: the range of its price, and its winner's foreign key
unfoldable pub flush_auction : Auction → Action Unit
flush_auction a = do
  raise_if (not (fits_numeric a.highest_bid)) data_error
  raise_if (not (winner_exists a.winner_id (← gets (λ w. w.db)))) integrity_error
  modify_db (put_auction a)

-- flushing a new auction
unfoldable pub insert_auction : Auction → Action Unit
insert_auction a = do
  db ← gets (λ w. w.db)
  raise_if (has_auction a.auction_id db || not (has_user a.seller_id db)) integrity_error
  modify_db (λ db. record db { auctions = db.auctions ++ a ∷ [] })

-- the unique keys of a bid: its id, and uq_bid_dedup
abbrev pub same_bid : Bid → Bid → Bool
same_bid b c =
    b.bid_id == c.bid_id
    || (b.auction_id == c.auction_id
        && b.bidder_id == c.bidder_id
        && b.amount == c.amount
        && b.created_ts == c.created_ts)

-- whether the keys of a new bid hold
unfoldable pub bid_keys_hold : Bid → Db → Bool
bid_keys_hold b db =
    has_auction b.auction_id db && has_user b.bidder_id db && not (any (same_bid b) db.bids)

-- flushing a new bid
unfoldable pub insert_bid : Bid → Action Unit
insert_bid b = do
  raise_if (not (fits_integer b.sequence_num)) data_error
  raise_if (not (bid_keys_hold b (← gets (λ w. w.db)))) integrity_error
  modify_db (λ db. record db { bids = db.bids ++ b ∷ [] })

-- `scalar_one_or_none`
abbrev pub scalar_one_or_none : {A : Type 0} → List A → Action (Option A)
scalar_one_or_none [] = pure none
scalar_one_or_none (a ∷ []) = pure (some a)
scalar_one_or_none (a ∷ b ∷ _) = raise multiple_results
