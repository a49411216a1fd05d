-- ===== src/Migration/Keys.antt =====
-- The declared keys, read as tests on a new row, against the tests of a flush.
use text.Mathlib.Text.{◌==◌ as str_eq}
use sd_online_auction_backen.Common.{
  ℕ, String, ◌≡◌, refl, ap, ◌∙◌, Bool, true, false, ◌&&◌, ◌||◌, not, Option, none, some, List, [],
  ◌∷◌, ◌++◌, arith, ◌==◌, any, map, is_some, if◌then◌else◌,
}
use sd_online_auction_backen.Common.Dict.{find}
use sd_online_auction_backen.Models.{User, Auction, Bid, Db}
use sd_online_auction_backen.Session.Tables.{
  fits_integer, insert_auction, insert_bid, has_user, has_auction, winner_exists, same_bid,
  bid_keys_hold,
}
use sd_online_auction_backen.Users.{has_email, insert_user}
use sd_online_auction_backen.Session.{World, integrity_error, ok, raised}
use sd_online_auction_backen.Migration.{ForeignKey, Table, user_table, auction_table, bid_table}

-- a value in a key's column
pub data Value : Type 0 where
  null : Value
  number : ℕ → Value
  word : String → Value

-- null is the same as nothing
abbrev pub same_value : Value → Value → Bool
same_value (number m) (number n) = m == n
same_value (word s) (word t) = str_eq s t
same_value _ _ = false

abbrev pub is_null : Value → Bool
is_null null = true
is_null _ = false

-- a row, by the names of its columns
abbrev pub Row : Type 0
Row = String → Value

abbrev pub all_same : List String → Row → Row → Bool
all_same [] r s = true
all_same (c ∷ columns) r s = same_value (s c) (r c) && all_same columns r s

-- a foreign key, over the rows of each table
abbrev pub refers_to : (String → List Row) → Row → ForeignKey → Bool
refers_to rows r f =
    is_null (r f.column) || any (λ (s : Row). same_value (s f.referred) (r f.column)) (rows f.table)

abbrev pub all_refer : (String → List Row) → Row → List ForeignKey → Bool
all_refer rows r [] = true
all_refer rows r (f ∷ keys) = refers_to rows r f && all_refer rows r keys

-- two rows that a unique key forbids
abbrev pub collides : List (List String) → Row → Row → Bool
collides [] r s = false
collides (columns ∷ keys) r s = all_same columns r s || collides keys r s

-- what the keys of a table ask of a new row
abbrev pub keys_hold : Table → (String → List Row) → Row → Bool
keys_hold t rows r =
    all_refer rows r t.foreign_keys
    && not (any (λ (s : Row). collides ((t.primary_key ∷ []) ∷ t.uniques) r s) (rows t.name))

-- the columns that keys name
abbrev pub user_values : User → Row
user_values u c =
    if str_eq c "user_id" then number u.user_id else if str_eq c "email" then word u.email else null

abbrev pub optional_number : Option ℕ → Value
optional_number none = null
optional_number (some n) = number n

abbrev pub auction_values : Auction → Row
auction_values a c =
    if str_eq c "auction_id"
    then number a.auction_id
    else if str_eq c "seller_id"
    then number a.seller_id
    else if str_eq c "winner_id"
    then optional_number a.winner_id
    else null

abbrev pub bid_values : Bid → Row
bid_values b c =
    if str_eq c "bid_id"
    then number b.bid_id
    else if str_eq c "auction_id"
    then number b.auction_id
    else if str_eq c "bidder_id"
    then number b.bidder_id
    else if str_eq c "amount"
    then number b.amount
    else if str_eq c "created_ts"
    then number b.created_ts
    else null

abbrev pub rows_of : Db → String → List Row
rows_of db t =
    if str_eq t "user"
    then map user_values db.users
    else if str_eq t "auction"
    then map auction_values db.auctions
    else if str_eq t "bid"
    then map bid_values db.bids
    else []

any-map :
    {A : Type 0} (row : A → Row) (test : Row → Bool) (own : A → Bool) (xs : List A)
    → ((a : A) → test (row a) ≡ own a)
    → any test (map row xs) ≡ any own xs
any-map row test own [] same = refl
any-map row test own (x ∷ xs) same = ground (arith, same x, any-map row test own xs same)

any-find :
    {A : Type 0} (key : A → ℕ) (k : ℕ) (xs : List A)
    → any (λ x. key x == k) xs ≡ is_some (find key k xs)
unfolding find
any-find key k [] = refl
any-find key k (x ∷ xs) = ground (arith, any-find key k xs)

any-or :
    {A : Type 0} (s t : A → Bool) (xs : List A) → any (λ x. s x || t x) xs ≡ (any s xs || any t xs)
any-or s t [] = refl
any-or s t (x ∷ xs) = ground (arith, any-or s t xs)

known_user :
    (k : ℕ) (db : Db)
    → any (λ (s : Row). same_value (s "user_id") (number k)) (map user_values db.users)
      ≡ has_user k db
unfolding has_user
known_user k db =
    any-map user_values _ (λ (u : User). u.user_id == k) db.users (λ u. refl)
    ∙ any-find (λ (u : User). u.user_id) k db.users

known_auction :
    (k : ℕ) (db : Db)
    → any (λ (s : Row). same_value (s "auction_id") (number k)) (map auction_values db.auctions)
      ≡ has_auction k db
unfolding has_auction
known_auction k db =
    any-map auction_values _ (λ (a : Auction). a.auction_id == k) db.auctions (λ a. refl)
    ∙ any-find (λ (a : Auction). a.auction_id) k db.auctions

collides-same_bid :
    (b c : Bid)
    → collides (("bid_id" ∷ []) ∷ bid_table.uniques) (bid_values b) (bid_values c) ≡ same_bid b c
collides-same_bid b c = ground arith

-- the keys of each table, as the flush of a new row tests them
bid_keys :
    (b : Bid) (db : Db) → keys_hold bid_table (rows_of db) (bid_values b) ≡ bid_keys_hold b db
unfolding bid_keys_hold
bid_keys b db = ground (
  arith,
  known_auction b.auction_id db,
  known_user b.bidder_id db,
  any-map bid_values (collides (("bid_id" ∷ []) ∷ bid_table.uniques) (bid_values b)) (same_bid b)
      db.bids (collides-same_bid b),
)

auction_keys :
    (a : Auction) (db : Db)
    → keys_hold auction_table (rows_of db) (auction_values a) ≡ (
        has_user a.seller_id db
        && winner_exists a.winner_id db
        && not (has_auction a.auction_id db))
unfolding has_auction
auction_keys a db = by_winner a.winner_id refl
  where
    taken :
        any
          (collides (("auction_id" ∷ []) ∷ []) (auction_values a))
          (map auction_values db.auctions)
        ≡ has_auction a.auction_id db
    taken =
        any-map auction_values (collides (("auction_id" ∷ []) ∷ []) (auction_values a))
          (λ (b : Auction). b.auction_id == a.auction_id) db.auctions (λ b. ground arith)
        ∙ any-find (λ (b : Auction). b.auction_id) a.auction_id db.auctions

    by_winner :
        (winner : Option ℕ)
        → a.winner_id ≡ winner
        → keys_hold auction_table (rows_of db) (auction_values a) ≡ (
            has_user a.seller_id db
            && winner_exists a.winner_id db
            && not (has_auction a.auction_id db))
    by_winner none e = ground (arith, e, known_user a.seller_id db, taken)
    by_winner (some k) e = ground (arith, e, known_user a.seller_id db, known_user k db, taken)

user_keys :
    (u : User) (db : Db)
    → keys_hold user_table (rows_of db) (user_values u)
      ≡ not (has_user u.user_id db || any (has_email u.email) db.users)
unfolding has_user
user_keys u db = ground (arith, taken)
  where
    taken :
        any
          (collides (("user_id" ∷ []) ∷ ("email" ∷ []) ∷ []) (user_values u))
          (map user_values db.users)
        ≡ (has_user u.user_id db || any (has_email u.email) db.users)
    taken =
        any-map user_values (collides (("user_id" ∷ []) ∷ ("email" ∷ []) ∷ []) (user_values u))
          (λ (v : User). v.user_id == u.user_id || has_email u.email v) db.users (λ v. ground arith)
        ∙ any-or (λ (v : User). v.user_id == u.user_id) (has_email u.email) db.users
        ∙ ap (λ b. b || any (has_email u.email) db.users)
            (any-find (λ (v : User). v.user_id) u.user_id db.users)

-- The flush of a new user or bid, whose number fits its column, and that of a new auction, which has
-- no winner, raise an integrity error exactly if the keys that the migration declares forbid the
-- row, and change nothing then; else they add the row.
pub insert-keys_hold :
    (u : User) (a : Auction) (b : Bid) (w : World)
    → a.winner_id ≡ none
    → fits_integer b.sequence_num ≡ true
    → (insert_user u w ≡ (
        if keys_hold user_table (rows_of w.db) (user_values u)
        then (ok tt, record w { db = record w.db { users = w.db.users ++ u ∷ [] } })
        else (raised integrity_error, w)))
      × (insert_auction a w ≡ (
          if keys_hold auction_table (rows_of w.db) (auction_values a)
          then (ok tt, record w { db = record w.db { auctions = w.db.auctions ++ a ∷ [] } })
          else (raised integrity_error, w)))
      × (insert_bid b w ≡ (
          if keys_hold bid_table (rows_of w.db) (bid_values b)
          then (ok tt, record w { db = record w.db { bids = w.db.bids ++ b ∷ [] } })
          else (raised integrity_error, w)))
unfolding insert_user insert_auction insert_bid
insert-keys_hold u a b w no_winner fits = (
  rw (user_keys u w.db) (ground arith),
  rw (auction_keys a w.db) (ground (arith, no_winner)),
  rw (bid_keys b w.db) (ground (arith, fits)),
)
