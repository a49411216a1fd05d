-- ===== src/System/Keys.antt =====
-- The ids of the auctions, when a row is added or written.
use sd_online_auction_backen.Common.{
  is_some, ℕ, ◌≡◌, ◌≢◌, refl, sym, ap, ◌∙◌, inl, inr, false, List, [], ◌∷◌, ◌++◌, arith, ◌==◌,
  Bool-cases,
}
use sd_online_auction_backen.Common.Dict.{find, replace}
use sd_online_auction_backen.Models.{Auction}
use sd_online_auction_backen.Scheduler.Queue.{has_id, UniqueIds}

pub find_none-has_id :
    (k : ℕ) (rows : List Auction)
    → is_some (find (λ (a : Auction). a.auction_id) k rows) ≡ false
    → has_id k rows ≡ false
unfolding find
find_none-has_id k [] h = refl
find_none-has_id k (a ∷ rows) h = ground (arith, find_none-has_id k rows)

has_id-append :
    (k : ℕ) (rows : List Auction) (a : Auction)
    → has_id k rows ≡ false
    → a.auction_id ≢ k
    → has_id k (rows ++ a ∷ []) ≡ false
has_id-append k [] a h ne = ground arith
has_id-append k (b ∷ rows) a h ne = ground (arith, has_id-append k rows a)

pub UniqueIds-append :
    (rows : List Auction) (a : Auction)
    → UniqueIds rows
    → has_id a.auction_id rows ≡ false
    → UniqueIds (rows ++ a ∷ [])
UniqueIds-append [] a u h = (refl, tt)
UniqueIds-append (b ∷ rows) a u h = (
  has_id-append b.auction_id rows a u.0 (λ q. ground arith),
  UniqueIds-append rows a u.1 (ground arith),
)

has_id-replace :
    (k : ℕ) (a : Auction) (rows : List Auction)
    → has_id k (replace (λ (x : Auction). x.auction_id) a rows) ≡ has_id k rows
unfolding replace
has_id-replace k a [] = refl
has_id-replace k a (b ∷ rows) = ground (arith, has_id-replace k a rows)

pub UniqueIds-replace :
    (a : Auction) (rows : List Auction)
    → UniqueIds rows
    → UniqueIds (replace (λ (x : Auction). x.auction_id) a rows)
unfolding replace
UniqueIds-replace a [] u = tt
UniqueIds-replace a (b ∷ rows) u = elim (Bool-cases (b.auction_id == a.auction_id)) [
  | inl same ↦
      let id : b.auction_id ≡ a.auction_id = ground (arith, same) in
      rw same (ap (λ k. has_id k rows) (sym id) ∙ u.0, u.1)
  | inr other ↦ rw other (has_id-replace b.auction_id a rows ∙ u.0, UniqueIds-replace a rows u.1)
]
