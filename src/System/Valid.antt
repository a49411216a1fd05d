-- ===== src/System/Valid.antt =====
-- Every change keeps what the keys of the tables promise, and leaves a settled auction alone.
use sd_online_auction_backen.Common.{
  All-map, All-append_one, is_some, ℕ, ◌≡◌, refl, sym, ap, subst, ◌∙◌, ◌⊎◌, inl, inr, true, false,
  Option, none, some, List, [], ◌∷◌, ◌++◌, arith, any, ◌==◌, Option-cases, Bool-cases, eq_of_some,
}
use sd_online_auction_backen.Models.{User, Auction, Bid, ProxyBid, Db}
use sd_online_auction_backen.Session.Tables.{
  get_user, has_user, get_auction, has_auction, put_auction, winner_exists, bid_keys_hold,
}
use sd_online_auction_backen.Users.{has_email}
use sd_online_auction_backen.Users.Emails.{UniqueEmails-append}
use sd_online_auction_backen.Auctions.Lifecycle.Transitions.{
  get_auction-put_self, get_auction-put_ne,
}
use sd_online_auction_backen.System.Changes.{
  is_final, Changes, unchanged, user_added, auction_added, bid_added, row_changed, and_then,
  IsValid, has_user-append, winner_exists-append, get_auction-append, or_new, has_user_users,
  winner_exists_users,
}
use sd_online_auction_backen.System.Keys.{find_none-has_id, UniqueIds-append, UniqueIds-replace}

user_added-IsValid :
    (u : User) (db : Db)
    → any (has_email u.email) db.users ≡ false
    → IsValid db
    → IsValid (record db { users = db.users ++ u ∷ [] })
unfolding get_auction has_auction
user_added-IsValid u db free v = record {
  auction_ids = v.auction_ids;
  emails = UniqueEmails-append db.users u v.emails free;
  sellers = λ k a e. has_user-append a.seller_id u db (v.sellers k a e);
  winners = λ k a e. winner_exists-append a.winner_id u db (v.winners k a e);
  bids = All-map _ _ db.bids (λ b h. (h.0, has_user-append b.bidder_id u db h.1)) v.bids;
}

or_new-cases :
    (o : Option Auction) (a b : Auction) (k : ℕ) → or_new o a k ≡ some b → (o ≡ some b) ⊎ (a ≡ b)
or_new-cases none a b k h = elim (Bool-cases (a.auction_id == k)) [
  | inl same ↦ inr (eq_of_some (rw same at h))
  | inr other ↦ cc (rw other at h)
]
or_new-cases (some c) a b k h = inl h

-- a row of the table to which an auction has been added is that auction, or was there before
get_auction-append_cases :
    (k : ℕ) (a b : Auction) (db : Db)
    → get_auction k (record db { auctions = db.auctions ++ a ∷ [] }) ≡ some b
    → (get_auction k db ≡ some b) ⊎ (a ≡ b)
get_auction-append_cases k a b db h =
    or_new-cases (get_auction k db) a b k (sym (get_auction-append k a db) ∙ h)

has_auction-append :
    (k : ℕ) (a : Auction) (db : Db)
    → has_auction k db ≡ true
    → has_auction k (record db { auctions = db.auctions ++ a ∷ [] }) ≡ true
unfolding has_auction
has_auction-append k a db h = elim (Option-cases (get_auction k db)) [
  | inl gone ↦ cc (rw gone at h)
  | inr (c, e) ↦ ap is_some (get_auction-append k a db) ∙ rw e refl
]

auction_added-IsValid :
    (a : Auction) (db : Db)
    → has_auction a.auction_id db ≡ false
    → has_user a.seller_id db ≡ true
    → a.winner_id ≡ none
    → IsValid db
    → IsValid (record db { auctions = db.auctions ++ a ∷ [] })
unfolding has_user get_user
auction_added-IsValid a db new seller nobody v = record {
  auction_ids =
      UniqueIds-append db.auctions a v.auction_ids
        (unfold has_auction get_auction in find_none-has_id a.auction_id db.auctions new);
  emails = v.emails;
  sellers = λ k b e. elim (get_auction-append_cases k a b db e) [
    | inl before ↦ v.sellers k b before
    | inr same ↦ subst (λ x. has_user x.seller_id db ≡ true) same seller
  ];
  winners = λ k b e. elim (get_auction-append_cases k a b db e) [
    | inl before ↦ winner_exists_users b.winner_id db _ refl (v.winners k b before)
    | inr same ↦
        winner_exists_users b.winner_id db _ refl
          (subst (λ x. winner_exists x.winner_id db ≡ true) same (rw nobody refl))
  ];
  bids = All-map _ _ db.bids (λ b h. (has_auction-append b.auction_id a db h.0, h.1)) v.bids;
}

bid_added-IsValid :
    (b : Bid) (proxies : List ProxyBid) (db : Db)
    → bid_keys_hold b db ≡ true
    → IsValid db
    → IsValid (record db { bids = db.bids ++ b ∷ []; proxy_bids = proxies })
unfolding get_auction has_auction has_user get_user bid_keys_hold
bid_added-IsValid b proxies db keys v = record {
  auction_ids = v.auction_ids;
  emails = v.emails;
  sellers = v.sellers;
  winners = λ k a e. winner_exists_users a.winner_id db _ refl (v.winners k a e);
  bids = All-append_one _ db.bids b v.bids (ground arith, ground arith);
}

-- a row of the table in which an auction has been written is that auction, or is as before
get_auction-put_cases :
    (k : ℕ) (a b c : Auction) (db : Db)
    → get_auction a.auction_id db ≡ some b
    → get_auction k (put_auction a db) ≡ some c
    → (get_auction k db ≡ some c) ⊎ (a ≡ c)
get_auction-put_cases k a b c db there h = elim (Bool-cases (a.auction_id == k)) [
  | inl same ↦
      let id : a.auction_id ≡ k = ground (arith, same) in
      let self = get_auction-put_self a.auction_id a b db there refl in
      inr (eq_of_some (sym self ∙ ap (λ j. get_auction j (put_auction a db)) id ∙ h))
  | inr other ↦ inl (sym (get_auction-put_ne k a db (λ q. ground (arith, other))) ∙ h)
]

has_auction-put :
    (k : ℕ) (a b : Auction) (db : Db)
    → get_auction a.auction_id db ≡ some b
    → has_auction k db ≡ true
    → has_auction k (put_auction a db) ≡ true
unfolding has_auction
has_auction-put k a b db there h = elim (Bool-cases (a.auction_id == k)) [
  | inl same ↦
      let id : a.auction_id ≡ k = ground (arith, same) in
      let self = get_auction-put_self a.auction_id a b db there refl in
      ap is_some (ap (λ j. get_auction j (put_auction a db)) (sym id) ∙ self)
  | inr other ↦ ap is_some (get_auction-put_ne k a db (λ q. ground (arith, other))) ∙ h
]

row_changed-IsValid :
    (a b : Auction) (db : Db)
    → get_auction a.auction_id db ≡ some b
    → a.seller_id ≡ b.seller_id
    → winner_exists a.winner_id db ≡ true
    → IsValid db
    → IsValid (put_auction a db)
row_changed-IsValid a b db there seller winner v = record {
  auction_ids = unfold put_auction in UniqueIds-replace a db.auctions v.auction_ids;
  emails = unfold put_auction in v.emails;
  sellers = λ k c e. elim (get_auction-put_cases k a b c db there e) [
    | inl before ↦
        has_user_users c.seller_id db (put_auction a db) same_users (v.sellers k c before)
    | inr same ↦
        subst (λ x. has_user x.seller_id (put_auction a db) ≡ true) same
          (has_user_users a.seller_id db (put_auction a db) same_users
            (rw seller (v.sellers a.auction_id b there)))
  ];
  winners = λ k c e. elim (get_auction-put_cases k a b c db there e) [
    | inl before ↦
        winner_exists_users c.winner_id db (put_auction a db) same_users (v.winners k c before)
    | inr same ↦
        subst (λ x. winner_exists x.winner_id (put_auction a db) ≡ true) same
          (winner_exists_users a.winner_id db (put_auction a db) same_users winner)
  ];
  bids =
      unfold put_auction in
      All-map _ _ db.bids
        (λ (x : Bid) h. (
          has_auction-put x.auction_id a b db there h.0,
          has_user_users x.bidder_id db (put_auction a db) refl h.1,
        ))
        v.bids;
}
  where
    same_users : (put_auction a db).users ≡ db.users
    same_users = unfold put_auction in refl

-- A change of the tables keeps them valid.
pub Changes-IsValid : {d e : Db} → Changes d e → IsValid d → IsValid e
Changes-IsValid (unchanged db) v = v
Changes-IsValid (user_added u db new free) v = user_added-IsValid u db free v
Changes-IsValid (auction_added a db new seller nobody) v =
    auction_added-IsValid a db new seller nobody v
Changes-IsValid (bid_added b proxies db keys) v = bid_added-IsValid b proxies db keys v
Changes-IsValid (row_changed a b db there moves winner) v =
    row_changed-IsValid a b db there (ap (λ (x : Auction). x.seller_id) moves.same_terms) winner v
Changes-IsValid (and_then c d) v = Changes-IsValid d (Changes-IsValid c v)

-- A settled auction is left as it is.
pub Changes-settled :
    {d e : Db} (k : ℕ) (a : Auction)
    → Changes d e
    → get_auction k d ≡ some a
    → is_final a.state ≡ true
    → get_auction k e ≡ some a
Changes-settled k a (unchanged db) row f = row
Changes-settled k a (user_added u db new free) row f = unfold get_auction in row
Changes-settled k a (auction_added b db new seller nobody) row f =
    get_auction-append k b db ∙ rw row refl
Changes-settled k a (bid_added b proxies db keys) row f = unfold get_auction in row
Changes-settled k a (row_changed b c db there moves winner) row f =
    get_auction-put_ne k b db (λ q.
      let same = eq_of_some (sym there ∙ ap (λ j. get_auction j db) q ∙ row) in
      cc (ap (λ (x : Auction). is_final x.state) same, moves.open_row, f))
    ∙ row
Changes-settled k a (and_then c d) row f = Changes-settled k a d (Changes-settled k a c row f) f
