-- ===== src/System/Overlap/Starts.antt =====
-- The start poll, beside the bids.
use sd_online_auction_backen.Common.{
  ℕ, ◌≤◌, ◌≡◌, refl, sym, ap, subst, ◌∙◌, inl, inr, Bool, true, false, not, some, List, [], ◌∷◌,
  arith, ◌==◌, if◌then◌else◌, All, Bool-cases,
}
use sd_online_auction_backen.Models.{Auction, active, is_upcoming}
use sd_online_auction_backen.Session.{World}
use sd_online_auction_backen.Session.Tables.{get_auction, put_auction}
use sd_online_auction_backen.Auctions.Hash.{init_redis_hash}
use sd_online_auction_backen.Auctions.Lifecycle.{start_auction}
use sd_online_auction_backen.Auctions.Lifecycle.Transitions.{get_auction-put_self}
use sd_online_auction_backen.Scheduler.{
  Faults, logged, start_all, poll_due_starts, due_starts, is_due_start,
}
use sd_online_auction_backen.Scheduler.Queue.{UniqueIds, All-others}
use sd_online_auction_backen.System.Changes.{IsValid}
use sd_online_auction_backen.System.Valid.{Changes-IsValid}
use sd_online_auction_backen.System.Batch.{Pending, Pending-later, batch-Pending}
use sd_online_auction_backen.System.Starts.{started-Changes}
use sd_online_auction_backen.System.Overlap.Hashes.{
  last_price, HashStep, kept, opened, Quiet, Quiet-self, Quiet-trans,
}

-- a due auction has not started
due-unstarted :
    (now : ℕ) (a : Auction) → is_due_start now a ≡ true → not (is_upcoming a.state) ≡ false
unfolding is_due_start
due-unstarted now a h = ground arith

-- a world after one auction's turn
abbrev turned : Auction → Bool → World → World
turned a fails w = record {
  db = put_auction (record a { state = active }) w.db;
  redis = if fails then w.redis else init_redis_hash a w.redis;
}

start_auction-turned :
    (a : Auction) (fails : Bool) (w : World)
    → get_auction a.auction_id w.db ≡ some a
    → logged (start_auction a.auction_id fails w) ≡ turned a fails w
unfolding start_auction
start_auction-turned a true w there = rw there refl
start_auction-turned a false w there = rw there refl

turned-other :
    (a : Auction) (fails : Bool) (w : World) (k : ℕ)
    → (a.auction_id == k) ≡ false
    → HashStep k w (turned a fails w)
unfolding init_redis_hash
turned-other a true w k other = kept refl refl (λ h. h)
turned-other a false w k other =
    kept (ground (arith, other)) (ground (arith, other)) (λ h. ground (arith, other, h))

-- a start leaves the price, or sets it to 0
turned-price :
    (a : Auction) (fails : Bool) (w : World)
    → last_price a.auction_id (turned a fails w).redis ≤ last_price a.auction_id w.redis
unfolding init_redis_hash
turned-price a true w = omega arith
turned-price a false w = ground arith

started_turn-Quiet :
    (now : ℕ) (a : Auction) (fails : Bool) (w : World)
    → IsValid w.db
    → Pending (is_due_start now) w a
    → Quiet w (logged (start_auction a.auction_id fails w))
started_turn-Quiet now a fails w valid x =
    let same = start_auction-turned a fails w x.stored in
    record {
      changes = (started-Changes now a fails w valid x).0;
      bids = ap (λ (v : World). v.db.bids) same ∙ unfold put_auction in refl;
      hashes = λ k. subst (HashStep k w) (sym same) (elim (Bool-cases (a.auction_id == k)) [
        | inr other ↦ turned-other a fails w k other
        | inl here ↦
            let id : a.auction_id ≡ k = ground (arith, here) in
            let row = record a { state = active } in
            subst (λ j. HashStep j w (turned a fails w)) id
              (opened (rw x.stored (due-unstarted now a x.selected))
                (rw (get_auction-put_self a.auction_id row a w.db x.stored refl) refl)
                (turned-price a fails w))
      ]);
    }

start_all-Quiet :
    (now : ℕ) (faults : Faults) (rows : List Auction) (w : World)
    → IsValid w.db
    → UniqueIds rows
    → All (Pending (is_due_start now) w) rows
    → Quiet w (start_all faults rows w)
unfolding start_all
start_all-Quiet now faults [] w valid u ready = Quiet-self w
start_all-Quiet now faults (a ∷ rows) w valid u ready =
    let v = logged (start_auction a.auction_id (faults.init_fails a.auction_id) w) in
    let turn = started_turn-Quiet now a (faults.init_fails a.auction_id) w valid ready.0 in
    let stay = (started-Changes now a (faults.init_fails a.auction_id) w valid ready.0).1 in
    Quiet-trans w v _ turn (
      start_all-Quiet now faults rows v (Changes-IsValid turn.changes valid) u.1 (
        All-others a.auction_id rows (λ b ne x. Pending-later _ a.auction_id w v b stay ne x) u.0
          ready.1))

pub poll_due_starts-Quiet :
    (now : ℕ) (faults : Faults) (w : World)
    → IsValid w.db
    → faults.commit_fails ≡ false
    → Quiet w (poll_due_starts now faults w)
unfolding poll_due_starts due_starts
poll_due_starts-Quiet now faults w valid commits = elim (Bool-cases faults.connect_fails) [
  | inl down ↦ rw down (Quiet-self w)
  | inr up ↦
      let (ids, ready) = batch-Pending (is_due_start now) w valid in
      rw (up, commits) (start_all-Quiet now faults (due_starts now w.db) w valid ids ready)
]
