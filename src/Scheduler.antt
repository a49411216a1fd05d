-- ===== src/Scheduler.antt =====
-- SchedulerService, src/auction_app/services/scheduler_service.py: one poll of each job.
pub mod Queue
pub mod Starts
pub mod Uncommitted
pub mod Closes
use sd_online_auction_backen.Common.{
  ℕ, ◌*◌, Bool, true, false, ◌&&◌, Option, none, some, List, [], ◌∷◌, ltb, leb, if◌then◌else◌, take,
  filter,
}
use sd_online_auction_backen.Platform.{Platform}
use sd_online_auction_backen.Models.{Auction, AuctionState, active, is_active, is_upcoming, Db}
use sd_online_auction_backen.Redis.{Hash, Redis, fields}
use sd_online_auction_backen.Session.{
  World, Exception, redis_error, Result, ok, raised, Action, pure, raise, gets, modify_db, or_fails,
  ◌>>=◌, ◌>>◌,
}
use sd_online_auction_backen.Session.Tables.{put_auction}
use sd_online_auction_backen.Auctions.Hash.{unix}
use sd_online_auction_backen.Auctions.Lifecycle.{CloseFaults, start_auction, close_auction}

abbrev pub batch_size : ℕ
batch_size = 100

-- the rows that the two statements select
unfoldable pub is_due_start : ℕ → Auction → Bool
is_due_start now a = is_upcoming a.state && leb a.start_ts now

unfoldable pub is_due_close : ℕ → Auction → Bool
is_due_close now a = is_active a.state && leb a.end_ts now

unfoldable pub due_starts : ℕ → Db → List Auction
due_starts now db = take batch_size (filter (is_due_start now) db.auctions)

unfoldable pub due_closes : ℕ → Db → List Auction
due_closes now db = take batch_size (filter (is_due_close now) db.auctions)

-- What goes wrong during a poll: the connection, the commands for each auction, and the
-- commit. Their exceptions are caught, so a HSET whose reply is lost leaves what one leaves that goes
-- through.
pub record Faults : Type 0 where
  pub connect_fails : Bool
  pub init_fails : ℕ → Bool
  pub read_fails : ℕ → Bool
  pub close_faults : ℕ → CloseFaults
  pub commit_fails : Bool

-- `except Exception: logger.exception(...)` round one auction's call
abbrev pub logged : Result Unit × World → World
logged (_, w) = w

-- `start_auction` does not flush, so its exceptions come from Redis and the session goes on
unfoldable pub start_all : Faults → List Auction → World → World
start_all faults [] w = w
start_all faults (a ∷ rest) w =
    start_all faults rest (logged (start_auction a.auction_id (faults.init_fails a.auction_id) w))

-- `db.commit()` at the end of a poll that began at the first world: when it raises, the tables are
-- rolled back, and what Redis has been told stays
abbrev pub commit : Bool → World → World → World
commit true w w' = record w' { db = w.db }
commit false w w' = w'

unfoldable pub poll_due_starts : ℕ → Faults → World → World
unfolding start_all due_starts
poll_due_starts now faults w =
    if faults.connect_fails
    then w
    else commit faults.commit_fails w (start_all faults (due_starts now w.db) w)

-- How one auction's turn in the close poll ends. After a failed flush the session's transaction is
-- gone: every later use of it, the commit included, raises, and the poll leaves the loop.
pub data Turn : Type 0 where
  went_on : World → Turn
  session_lost : Redis → Turn

abbrev pub turn_of : Result Unit × World → Turn
turn_of (ok _, w) = went_on w
turn_of (raised redis_error, w) = went_on w
turn_of (raised _, w) = session_lost w.redis

-- `redis_end_ts` is there, and later than now
abbrev pub extended_to : Option Hash → ℕ → Option ℕ
extended_to none now = none
extended_to (some h) now = elim h.end_ts [
  | none ↦ none
  | some e ↦ if ltb (unix now) e then some e else none
]

module _ (p : Platform) where
  abbrev pub close_or_extend : ℕ → Faults → Auction → Option ℕ → Action Unit
  close_or_extend now faults a none =
      close_auction p a.auction_id (faults.close_faults a.auction_id)
  close_or_extend now faults a (some e) =
      modify_db (put_auction (record a { end_ts = e * 1000000 }))

  unfoldable pub close_turn : ℕ → Faults → Auction → Action Unit
  close_turn now faults a = do
    found ← or_fails (faults.read_fails a.auction_id) (gets (λ w. w.redis.hashes a.auction_id))
    close_or_extend now faults a (extended_to found now)

  -- the loop; `none` for the tables means that they are rolled back
  unfoldable pub close_all : ℕ → Faults → List Auction → World → Turn
  close_all now faults [] w = went_on w
  close_all now faults (a ∷ rest) w =
      let next = turn_of (close_turn now faults a w) in
      elim next [ went_on w' ↦ close_all now faults rest w' | session_lost r ↦ session_lost r ]

  -- the commit, or the rollback when the session is closed
  abbrev pub finish : Bool → World → Turn → World
  finish commit_fails w (went_on w') = commit commit_fails w w'
  finish commit_fails w (session_lost r) = record w { redis = r }

  unfoldable pub poll_due_closes : ℕ → Faults → World → World
  unfolding close_all due_closes
  poll_due_closes now faults w =
      if faults.connect_fails
      then w
      else finish faults.commit_fails w (close_all now faults (due_closes now w.db) w)
