-- ===== src/System/Changes.antt =====
-- The ways in which requests and polls change the tables, and what every such change keeps.
use sd_online_auction_backen.Common.{
  ℕ, ◌≤◌, ◌≡◌, refl, inl, inr, Bool, true, false, Option, none, some, List, [], ◌∷◌, ◌++◌, All, any,
  ◌==◌, Option-cases, if◌then◌else◌,
}
use sd_online_auction_backen.Common.Dict.{find, find-append_none, find-append_some}
use sd_online_auction_backen.Models.{
  User, Auction, AuctionState, upcoming, active, closed, sold, unsold, Bid, ProxyBid, Db,
}
use sd_online_auction_backen.Session.Tables.{
  get_user, has_user, get_auction, has_auction, put_auction, winner_exists, bid_keys_hold,
}
use sd_online_auction_backen.Users.{has_email}
use sd_online_auction_backen.Users.Emails.{UniqueEmails}
use sd_online_auction_backen.Scheduler.Queue.{UniqueIds}

-- a state that no step leaves
abbrev pub is_final : AuctionState → Bool
is_final sold = true
is_final unsold = true
is_final _ = false

abbrev pub rank : AuctionState → ℕ
rank upcoming = 0
rank active = 1
rank closed = 2
rank sold = 3
rank unsold = 3

-- an auction without what its life changes
abbrev pub terms : Auction → Auction
terms a = record a { end_ts = 0; state = upcoming; highest_bid = none; winner_id = none }

-- what a change of the row `b` to the row `a` keeps
pub record Moves (b a : Auction) : Type 0 where
  pub open_row : is_final b.state ≡ false
  pub same_terms : terms a ≡ terms b
  pub forward : rank b.state ≤ rank a.state
  pub later : b.end_ts ≤ a.end_ts

pub data Changes : Db → Db → Type 0 where
  unchanged : (db : Db) → Changes db db
  user_added :
      (u : User) (db : Db)
      → has_user u.user_id db ≡ false
      → any (has_email u.email) db.users ≡ false
      → Changes db (record db { users = db.users ++ u ∷ [] })
  auction_added :
      (a : Auction) (db : Db)
      → has_auction a.auction_id db ≡ false
      → has_user a.seller_id db ≡ true
      → a.winner_id ≡ none
      → Changes db (record db { auctions = db.auctions ++ a ∷ [] })
  bid_added :
      (b : Bid) (proxies : List ProxyBid) (db : Db)
      → bid_keys_hold b db ≡ true
      → Changes db (record db { bids = db.bids ++ b ∷ []; proxy_bids = proxies })
  row_changed :
      (a b : Auction) (db : Db)
      → get_auction a.auction_id db ≡ some b
      → Moves b a
      → winner_exists a.winner_id db ≡ true
      → Changes db (put_auction a db)
  and_then : {d e f : Db} → Changes d e → Changes e f → Changes d f

-- what the keys of the tables promise
pub record IsValid (db : Db) : Type 0 where
  pub auction_ids : UniqueIds db.auctions
  pub emails : UniqueEmails db.users
  pub sellers : (k : ℕ) (a : Auction) → get_auction k db ≡ some a → has_user a.seller_id db ≡ true
  pub winners :
      (k : ℕ) (a : Auction) → get_auction k db ≡ some a → winner_exists a.winner_id db ≡ true
  pub bids :
      All (λ b. (has_auction b.auction_id db ≡ true) × (has_user b.bidder_id db ≡ true)) db.bids

pub has_user-append :
    (k : ℕ) (u : User) (db : Db)
    → has_user k db ≡ true
    → has_user k (record db { users = db.users ++ u ∷ [] }) ≡ true
unfolding has_user get_user
has_user-append k u db h = elim (Option-cases (find (λ (x : User). x.user_id) k db.users)) [
  | inl gone ↦ cc (rw gone at h)
  | inr (v, e) ↦ rw (find-append_some (λ (x : User). x.user_id) k u v db.users e) refl
]

pub winner_exists-append :
    (k : Option ℕ) (u : User) (db : Db)
    → winner_exists k db ≡ true
    → winner_exists k (record db { users = db.users ++ u ∷ [] }) ≡ true
winner_exists-append none u db h = refl
winner_exists-append (some k) u db h = has_user-append k u db h

-- only the users matter for a user's key
pub has_user_users :
    (k : ℕ) (d e : Db) → e.users ≡ d.users → has_user k d ≡ true → has_user k e ≡ true
unfolding has_user get_user
has_user_users k d e same h = simp same h

pub winner_exists_users :
    (k : Option ℕ) (d e : Db)
    → e.users ≡ d.users
    → winner_exists k d ≡ true
    → winner_exists k e ≡ true
winner_exists_users none d e same h = refl
winner_exists_users (some k) d e same h = has_user_users k d e same h

abbrev pub or_new : Option Auction → Auction → ℕ → Option Auction
or_new none a k = if a.auction_id == k then some a else none
or_new (some b) a k = some b

-- the row of an id after an auction has been added
pub get_auction-append :
    (k : ℕ) (a : Auction) (db : Db)
    → get_auction k (record db { auctions = db.auctions ++ a ∷ [] }) ≡ or_new (get_auction k db) a k
unfolding get_auction
get_auction-append k a db =
    elim (Option-cases (find (λ (x : Auction). x.auction_id) k db.auctions)) [
      | inl gone ↦ rw gone (find-append_none (λ (x : Auction). x.auction_id) k a db.auctions gone)
      | inr (b, e) ↦ rw e (find-append_some (λ (x : Auction). x.auction_id) k a b db.auctions e)
    ]
