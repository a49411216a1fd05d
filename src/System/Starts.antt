-- ===== src/System/Starts.antt =====
-- How the start poll changes the tables, whatever fails meanwhile.
use sd_online_auction_backen.Common.{ℕ, inl, inr, Bool, List, [], ◌∷◌, All, Bool-cases}
use sd_online_auction_backen.Models.{Auction, active}
use sd_online_auction_backen.Session.{World}
use sd_online_auction_backen.Auctions.Lifecycle.{start_auction}
use sd_online_auction_backen.Auctions.Lifecycle.Transitions.{get_auction-put_ne}
use sd_online_auction_backen.Scheduler.{
  Faults, logged, start_all, poll_due_starts, is_due_start, due_starts,
}
use sd_online_auction_backen.Scheduler.Queue.{UniqueIds, All-others}
use sd_online_auction_backen.System.Changes.{Changes, unchanged, row_changed, and_then, IsValid}
use sd_online_auction_backen.System.Valid.{Changes-IsValid}
use sd_online_auction_backen.System.Batch.{
  Pending, OthersStay, Pending-later, batch-Pending, commit-Changes,
}
use sd_online_auction_backen.System.Moves.{upcoming_Moves}

pub started-Changes :
    (now : ℕ) (a : Auction) (fails : Bool) (w : World)
    → IsValid w.db
    → Pending (is_due_start now) w a
    → let v = logged (start_auction a.auction_id fails w) in
      Changes w.db v.db × OthersStay a.auction_id w v
unfolding start_auction
started-Changes now a fails w valid x =
    let row = record a { state = active } in
    let moves = upcoming_Moves now a x.selected in
    let written = row_changed row a w.db x.stored moves (valid.winners _ a x.stored) in
    rw x.stored (elim (Bool-cases fails) [
      | inl broken ↦ rw broken (written, λ j ne. get_auction-put_ne j row w.db ne)
      | inr sent ↦ rw sent (written, λ j ne. get_auction-put_ne j row w.db ne)
    ])

start_all-Changes :
    (now : ℕ) (faults : Faults) (rows : List Auction) (w : World)
    → IsValid w.db
    → UniqueIds rows
    → All (Pending (is_due_start now) w) rows
    → Changes w.db (start_all faults rows w).db
unfolding start_all
start_all-Changes now faults [] w valid u ready = unchanged w.db
start_all-Changes now faults (a ∷ rows) w valid u ready =
    let v = logged (start_auction a.auction_id (faults.init_fails a.auction_id) w) in
    let (step, stay) = started-Changes now a (faults.init_fails a.auction_id) w valid ready.0 in
    and_then step (
      start_all-Changes now faults rows v (Changes-IsValid step valid) u.1 (
        All-others a.auction_id rows (λ b ne x. Pending-later _ a.auction_id w v b stay ne x) u.0
          ready.1))

pub poll_due_starts-Changes :
    (now : ℕ) (faults : Faults) (w : World)
    → IsValid w.db
    → Changes w.db (poll_due_starts now faults w).db
unfolding poll_due_starts due_starts
poll_due_starts-Changes now faults w valid = elim (Bool-cases faults.connect_fails) [
  | inl down ↦ rw down (unchanged w.db)
  | inr up ↦
      let (ids, ready) = batch-Pending (is_due_start now) w valid in
      rw up (
        commit-Changes faults.commit_fails w _
          (start_all-Changes now faults (due_starts now w.db) w valid ids ready))
]
