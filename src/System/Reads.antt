-- ===== src/System/Reads.antt =====
-- The requests that only read.
use sd_online_auction_backen.Common.{ℕ, ◌≡◌, ap, Bool, true, false, Option, arith}
use sd_online_auction_backen.Platform.{Platform}
use sd_online_auction_backen.Session.{World, Action, Result, ok, raised, closing, get_session}
use sd_online_auction_backen.Auctions.Detail.{get_auction_detail}
use sd_online_auction_backen.Bids.History.{get_bid_history}
use sd_online_auction_backen.Routers.{view_auction, bid_history}
use sd_online_auction_backen.Search.{Engine, Query, search_auctions, search_auctions_route}

-- the world stays as it is
abbrev pub Reads : {A : Type 0} → Action A → Type 0
Reads m = (w : World) → (m w).1 ≡ w

get_session-Reads :
    {A : Type 0} (commit_fails : Bool) (m : Action A) → Reads m → Reads (get_session commit_fails m)
unfolding get_session
get_session-Reads {A} commit_fails m reads w = by_result commit_fails (m w) (reads w)
  where
    by_result : (fails : Bool) (x : Result A × World) → x.1 ≡ w → (closing fails w x).1 ≡ w
    by_result false (ok a, v) same = same
    by_result true (ok a, v) same = ap (λ (x : World). record x { db = w.db }) same
    by_result fails (raised e, v) same = ap (λ (x : World). record x { db = w.db }) same

pub view_auction-Reads :
    (commit_fails : Bool) (k now : ℕ) (fails : Bool)
    → Reads (get_session commit_fails (view_auction k now fails))
unfolding view_auction get_auction_detail
view_auction-Reads commit_fails k now fails =
    get_session-Reads commit_fails (view_auction k now fails) (λ w. ground arith)

pub bid_history-Reads :
    (commit_fails : Bool) (k : ℕ) (cursor : Option ℕ) (limit : ℕ)
    → Reads (get_session commit_fails (bid_history k cursor limit))
unfolding bid_history get_bid_history
bid_history-Reads commit_fails k cursor limit =
    get_session-Reads commit_fails (bid_history k cursor limit) (λ w. ground arith)

pub search_auctions_route-Reads :
    (p : Platform) (e : Engine p) (commit_fails : Bool) (query : Query p)
    → Reads (get_session commit_fails (search_auctions_route p e query))
unfolding search_auctions_route search_auctions
search_auctions_route-Reads p e commit_fails query =
    get_session-Reads commit_fails (search_auctions_route p e query) (λ w. ground arith)
