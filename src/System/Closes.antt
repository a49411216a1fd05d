-- ===== src/System/Closes.antt =====
-- How the close poll changes the tables, whatever fails meanwhile.
use sd_online_auction_backen.Common.{
  ℕ, ◌*◌, ◌≡◌, ◌≢◌, refl, sym, ap, subst, ◌∙◌, inl, inr, Bool, true, false, Option, List, [], ◌∷◌,
  All, Bool-cases, Option-cases,
}
use sd_online_auction_backen.Platform.{Platform}
use sd_online_auction_backen.Models.{Auction}
use sd_online_auction_backen.Redis.{Hash}
use sd_online_auction_backen.Session.{
  World, Result, ok, raised, Action, modify_db, modify_redis, or_fails, ◌>>=◌, ◌>>◌,
}
use sd_online_auction_backen.Session.Tables.{
  get_auction, put_auction, winner_exists, fits_numeric, flush_auction,
}
use sd_online_auction_backen.Auctions.Lifecycle.{
  CloseFaults, closed_row, close_row, close_auction, set_state,
}
use sd_online_auction_backen.Auctions.Lifecycle.Settlement.{settled_row}
use sd_online_auction_backen.Auctions.Lifecycle.Transitions.{
  get_auction-put_self, get_auction-put_ne,
}
use sd_online_auction_backen.Scheduler.{
  Faults, Turn, went_on, session_lost, turn_of, close_turn, close_all, poll_due_closes, finish,
  extended_to, is_due_close, due_closes,
}
use sd_online_auction_backen.Scheduler.Queue.{UniqueIds, All-others}
use sd_online_auction_backen.System.Changes.{
  Changes, unchanged, row_changed, and_then, IsValid, winner_exists_users,
}
use sd_online_auction_backen.System.Valid.{Changes-IsValid}
use sd_online_auction_backen.System.Batch.{
  Pending, OthersStay, Pending-later, batch-Pending, commit-Changes,
}
use sd_online_auction_backen.System.Moves.{closed_row-Moves, settled_row-Moves, extended_Moves}

module _ (p : Platform) where
  -- the tables after a turn that goes on, and nothing of one after which they are rolled back
  abbrev Progress : ℕ → World → Turn → Type 0
  Progress k w (went_on v) = Changes w.db v.db × OthersStay k w v
  Progress k w (session_lost r) = Unit

  settles-Changes :
      (now : ℕ) (found : Option Hash) (a : Auction) (w : World)
      → Pending (is_due_close now) w a
      → winner_exists (closed_row found a).winner_id w.db ≡ true
      → let d = put_auction (settled_row p found a) (put_auction (closed_row found a) w.db) in
        Changes w.db d × ((j : ℕ) → a.auction_id ≢ j → get_auction j d ≡ get_auction j w.db)
  settles-Changes now found a w x known =
      let row = closed_row found a in
      let settled = settled_row p found a in
      let (id, moves) = closed_row-Moves now found a x.selected in
      let (id', moves', winner) = settled_row-Moves p found a w.db known in
      let stored = ap (λ k. get_auction k w.db) id ∙ x.stored in
      let mid =
        ap (λ k. get_auction k (put_auction row w.db)) id'
        ∙ get_auction-put_self a.auction_id row a w.db x.stored id in
      (
        and_then (row_changed row a w.db stored moves known) (
            row_changed settled row (put_auction row w.db) mid moves' (
              winner_exists_users settled.winner_id w.db (put_auction row w.db)
                (unfold put_auction in refl) winner)),
        λ j ne.
            get_auction-put_ne j settled (put_auction row w.db) (λ q. ne (sym id' ∙ q))
            ∙ get_auction-put_ne j row w.db (λ q. ne (sym id ∙ q)),
      )

  -- what a flush of a changed row does
  abbrev Flushed : Auction → World → Result Unit × World → Type 0
  Flushed row w (ok u, v) =
      (v ≡ record w { db = put_auction row w.db }) × (winner_exists row.winner_id w.db ≡ true)
  Flushed row w (raised e, v) = turn_of (raised e, v) ≡ session_lost v.redis

  flush_auction-Flushed : (row : Auction) (w : World) → Flushed row w (flush_auction row w)
  unfolding flush_auction
  flush_auction-Flushed row w = by_tests _ refl _ refl
    where
      by_tests :
          (small : Bool)
          → fits_numeric row.highest_bid ≡ small
          → (known : Bool) → winner_exists row.winner_id w.db ≡ known
          → Flushed row w (flush_auction row w)
      by_tests false e known h = rw e refl
      by_tests true e false h = rw (e, h) refl
      by_tests true e true h = rw (e, h) (refl, h)

  close_row-Progress :
      (now : ℕ) (faults : CloseFaults) (found : Option Hash) (a : Auction) (w : World)
      → Pending (is_due_close now) w a
      → Progress a.auction_id w (turn_of (close_row p a.auction_id faults a found w))
  unfolding close_row
  close_row-Progress now faults found a w x =
      by_result (flush_auction (closed_row found a) w)
        (flush_auction-Flushed (closed_row found a) w)
    where
      rest : Action Unit
      rest =
          modify_db (put_auction (settled_row p found a))
          >> or_fails faults.hset_fails
              (modify_redis (set_state a.auction_id (settled_row p found a).state))

      by_result :
          (r : Result Unit × World)
          → Flushed (closed_row found a) w r
          → Progress a.auction_id w (turn_of (((λ v. r) >>= λ u. rest) w))
      by_result (ok u, v) (goes, known) = rw goes (elim (Bool-cases faults.hset_fails) [
        | inl broken ↦ rw broken (settles-Changes now found a w x known)
        | inr sent ↦ rw sent (settles-Changes now found a w x known)
      ])
      by_result (raised e, v) lost = subst (Progress a.auction_id w) (sym lost) tt

  close_turn-Progress :
      (now : ℕ) (faults : Faults) (a : Auction) (w : World)
      → IsValid w.db
      → Pending (is_due_close now) w a
      → Progress a.auction_id w (turn_of (close_turn p now faults a w))
  unfolding close_turn close_auction close_row
  close_turn-Progress now faults a w valid x = elim (Bool-cases (faults.read_fails a.auction_id)) [
    | inl broken ↦ rw broken (unchanged w.db, λ j ne. refl)
    | inr read ↦ elim (Option-cases (extended_to (w.redis.hashes a.auction_id) now)) [
      | inr (e, longer) ↦
          let row = record a { end_ts = e * 1000000 } in
          rw (read, longer)
            (
              row_changed row a w.db x.stored (extended_Moves now e _ a x.selected longer)
                  (valid.winners _ a x.stored),
              λ j ne. get_auction-put_ne j row w.db ne,
            )
      | inl over ↦ elim (Bool-cases (faults.close_faults a.auction_id).hgetall_fails) [
        | inl broken ↦ rw (read, over, x.stored, broken) (unchanged w.db, λ j ne. refl)
        | inr there ↦
            rw (read, over, x.stored, there)
              (close_row-Progress now (faults.close_faults a.auction_id)
                (w.redis.hashes a.auction_id) a w x)
      ]
    ]
  ]

  -- what a poll leaves after its last turn
  close_all-Changes :
      (now : ℕ) (faults : Faults) (rows : List Auction) (w v : World)
      → IsValid w.db
      → UniqueIds rows
      → All (Pending (is_due_close now) w) rows
      → close_all p now faults rows w ≡ went_on v
      → Changes w.db v.db
  unfolding close_all
  close_all-Changes now faults [] w v valid u ready h =
      let same : w ≡ v = cc h in subst (λ x. Changes w.db x.db) same (unchanged w.db)
  close_all-Changes now faults (a ∷ rows) w v valid u ready h =
      by_turn (turn_of (close_turn p now faults a w))
        (close_turn-Progress now faults a w valid ready.0)
        (λ w' valid' ready' h'. close_all-Changes now faults rows w' v valid' u.1 ready' h') h
    where
      by_turn :
          (t : Turn)
          → Progress a.auction_id w t
          → ((w' : World)
              → IsValid w'.db
              → All (Pending (is_due_close now) w') rows
              → close_all p now faults rows w' ≡ went_on v
              → Changes w'.db v.db)
          → elim t as (λ t. Turn) [
            | went_on w' ↦ close_all p now faults rows w'
            | session_lost r ↦ session_lost r
          ]
            ≡ went_on v
          → Changes w.db v.db
      by_turn (went_on w') (step, stay) rest h = and_then step (
          rest w' (Changes-IsValid step valid)
            (All-others a.auction_id rows (λ b ne x. Pending-later _ a.auction_id w w' b stay ne x)
              u.0 ready.1)
            h)
      by_turn (session_lost r) nothing rest h = cc h

  pub poll_due_closes-Changes :
      (now : ℕ) (faults : Faults) (w : World)
      → IsValid w.db
      → Changes w.db (poll_due_closes p now faults w).db
  unfolding poll_due_closes due_closes close_turn
  poll_due_closes-Changes now faults w valid = elim (Bool-cases faults.connect_fails) [
    | inl down ↦ rw down (unchanged w.db)
    | inr up ↦
        let (ids, ready) = batch-Pending (is_due_close now) w valid in
        rw up (
          by_turn (close_all p now faults (due_closes now w.db) w)
            (λ v h. close_all-Changes now faults (due_closes now w.db) w v valid ids ready h))
  ]
    where
      by_turn :
          (t : Turn)
          → ((v : World) → t ≡ went_on v → Changes w.db v.db)
          → Changes w.db (finish p faults.commit_fails w t).db
      by_turn (went_on v) f = commit-Changes faults.commit_fails w v (f v refl)
      by_turn (session_lost r) f = unchanged w.db
