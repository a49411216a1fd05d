-- ===== src/Auctions/Lifecycle/Between.antt =====
-- Runs of place_bid.lua between the HGETALL and the HSET of a close.
use sd_online_auction_backen.Common.{ℕ, ◌<◌, ◌≡◌, refl, true, none, some, List, arith}
use sd_online_auction_backen.Platform.{Platform, numeric_limit}
use sd_online_auction_backen.Models.{Auction}
use sd_online_auction_backen.Redis.{Hash, fields}
use sd_online_auction_backen.Redis.Script.{Args, or_zero}
use sd_online_auction_backen.Redis.Script.Ladder.{Fresh, wins, run, standing, after, run-standing}
use sd_online_auction_backen.Session.{World, ok}
use sd_online_auction_backen.Session.Tables.{get_auction, winner_exists}
use sd_online_auction_backen.Auctions.Lifecycle.{leader, close_row}
use sd_online_auction_backen.Auctions.Lifecycle.Settlement.{Settled}
use sd_online_auction_backen.Auctions.Lifecycle.Transitions.{
  no_faults, closes_to, closes_to-Closes, close_row_lem,
}

-- the row and the hash after a close that has read the hash at `w`, if it ends at `w'`
pub record ClosesLate (k : ℕ) (a : Auction) (w : World) (later : Hash) (w' : World) : Type 0 where
  pub row : Auction
  pub settled : Settled a (w.redis.hashes k) row
  pub stored : get_auction k w'.db ≡ some row
  pub shown : fields (w'.redis.hashes k) ≡ record later { state = some row.state }

module _ (p : Platform) where
  -- a world after runs of the script
  abbrev pub meanwhile : List Args → World → World
  meanwhile calls w = record w { redis = run p calls w.redis }

  -- A close of an auction with no winner yet, whose leader is a user and whose price is in range,
  -- settles the row by the hash as it has read it, whatever runs for new bids come between its
  -- HGETALL and its HSET, if its Redis calls go through; the hash then shows the last bid accepted
  -- meanwhile, if there is one, as the leader of a settled auction.
  pub close_row-meanwhile :
      (k : ℕ) (a : Auction) (calls : List Args) (w : World)
      → get_auction k w.db ≡ some a
      → a.winner_id ≡ none
      → a.highest_bid ≡ none
      → or_zero (fields (w.redis.hashes k)).highest_bid < numeric_limit
      → winner_exists (leader (w.redis.hashes k)) w.db ≡ true
      → Fresh p calls w.redis
      → let w' = close_row p k no_faults a (w.redis.hashes k) (meanwhile calls w) in
        let later = fields ((run p calls w.redis).hashes k) in
        (w'.0 ≡ ok tt)
        × ClosesLate k a w later w'.1
        × (standing later ≡ after (standing (fields (w.redis.hashes k))) (wins p k calls w.redis))
  unfolding closes_to
  close_row-meanwhile k a calls w row nw nb lt known fr =
      let found = w.redis.hashes k in
      let closes = closes_to-Closes p k a w row nw lt in
      rw (close_row_lem p k found a (meanwhile calls w) nw nb lt known) (
        refl,
        record {
          row = closes.row;
          settled = closes.settled;
          stored = closes.stored;
          shown = ground (arith, closes.shown);
        },
        run-standing p k calls w.redis fr,
      )
