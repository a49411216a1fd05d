-- ===== src/Search/Matching.antt =====
-- The rows that a search is about: those that its filters select.
use sd_online_auction_backen.Common.{◌≡◌, refl, Bool, true, ◌&&◌, List, [], ◌∷◌, arith, filter}
use sd_online_auction_backen.Platform.{Platform}
use sd_online_auction_backen.Models.{Auction}
use sd_online_auction_backen.Session.{World}
use sd_online_auction_backen.Search.{Engine, Query, selected}

pub filter-and_true :
    (f : Auction → Bool) (rows : List Auction) → filter (λ a. f a && true) rows ≡ filter f rows
filter-and_true f [] = refl
filter-and_true f (a ∷ rows) = ground (arith, filter-and_true f rows)

module _ (p : Platform) (e : Engine p) (query : Query p) (w : World) where
  abbrev pub matching : List Auction
  matching = filter (selected p e query) w.db.auctions
