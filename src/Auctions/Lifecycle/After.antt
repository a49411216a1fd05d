-- ===== src/Auctions/Lifecycle/After.antt =====
-- What follows a close: no further bid.
use sd_online_auction_backen.Common.{
  ℕ, ◌<◌, ◌≡◌, ◌≢◌, sym, ◌∙◌, true, Option, none, some, List, [], arith, eq_of_some,
}
use sd_online_auction_backen.Platform.{Platform, numeric_limit}
use sd_online_auction_backen.Models.{Auction, active}
use sd_online_auction_backen.Redis.{Hash, fields}
use sd_online_auction_backen.Redis.Script.{Args, or_zero}
use sd_online_auction_backen.Redis.Script.Ladder.{Fresh, wins, run, run_inactive}
use sd_online_auction_backen.Session.{World}
use sd_online_auction_backen.Session.Tables.{get_auction, winner_exists}
use sd_online_auction_backen.Auctions.Lifecycle.{leader, close_auction}
use sd_online_auction_backen.Auctions.Lifecycle.Settlement.{
  Settled, no_bids, to_leader, below_reserve,
}
use sd_online_auction_backen.Auctions.Lifecycle.Transitions.{no_faults, close_auction-Closes}

Settled-state :
    (a : Auction) (found : Option Hash) (b : Auction) → Settled a found b → b.state ≢ active
Settled-state a found b (no_bids _ _ e) q = ground arith
Settled-state a found b (to_leader _ _ e) q = ground arith
Settled-state a found b (below_reserve _ _ _ e) q = ground arith

module _ (p : Platform) where
  -- After a close, whatever runs of the script follow, none accepts a bid on the auction, and its
  -- hash keeps the price, the leader and the number that the close has seen.
  pub close_auction-run :
      (k : ℕ) (a : Auction) (w : World) (calls : List Args)
      → get_auction k w.db ≡ some a
      → a.winner_id ≡ none
      → a.highest_bid ≡ none
      → or_zero (fields (w.redis.hashes k)).highest_bid < numeric_limit
      → winner_exists (leader (w.redis.hashes k)) w.db ≡ true
      → Fresh p calls (close_auction p k no_faults w).1.redis
      → let r = (close_auction p k no_faults w).1.redis in
        (wins p k calls r ≡ []) × (fields ((run p calls r).hashes k) ≡ fields (r.hashes k))
  close_auction-run k a w calls row nw nb lt known fr =
      let closes = (close_auction-Closes p k a w row nw nb lt known).1 in
      run_inactive p k calls _ fr
        (λ e. Settled-state a _ _ closes.settled (eq_of_some (sym closes.shown ∙ e)))
