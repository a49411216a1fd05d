-- ===== src/System/Overlap/Closes.antt =====
-- The close poll, beside the bids.
use sd_online_auction_backen.Common.{
  ℕ, ◌*◌, ◌≡◌, refl, ◌∙◌, inl, inr, Bool, true, false, Option, none, some, List, [], ◌∷◌, arith,
  Bool-cases,
}
use sd_online_auction_backen.Platform.{Platform}
use sd_online_auction_backen.Models.{Auction, AuctionState, is_active}
use sd_online_auction_backen.Redis.{Hash, Redis}
use sd_online_auction_backen.Session.{
  World, redis_error, http, multiple_results, key_error, type_error, statement_error, commit_error,
  seller_not_found, start_too_early, end_before_start, Result, ok, raised, Action, integrity_error,
  data_error, modify_db, modify_redis, or_fails, gets, ◌>>=◌, ◌>>◌,
}
use sd_online_auction_backen.Session.Tables.{
  get_auction, put_auction, flush_auction, winner_exists, fits_numeric,
}
use sd_online_auction_backen.Auctions.Lifecycle.{
  CloseFaults, closed_row, close_row, close_auction, close_found, resolve_settlement_inner,
  settle_won, set_state,
}
use sd_online_auction_backen.Auctions.Lifecycle.Settlement.{settled_row}
use sd_online_auction_backen.Scheduler.{
  Faults, Turn, went_on, session_lost, turn_of, finish, close_turn, close_all, close_or_extend,
  poll_due_closes, due_closes, extended_to,
}
use sd_online_auction_backen.System.Changes.{IsValid}
use sd_online_auction_backen.System.Closes.{poll_due_closes-Changes}
use sd_online_auction_backen.System.Overlap.Hashes.{
  last_number, last_price, takes_bids, kept, Quiet,
}

module _ (p : Platform) where
  -- closing never opens a hash, and leaves the bids and the numbers
  abbrev Shuts : Redis → Redis → Type 0
  Shuts r r' =
      (k : ℕ)
      → (last_number k r' ≡ last_number k r)
        × (last_price k r' ≡ last_price k r)
        × (takes_bids k r ≡ false → takes_bids k r' ≡ false)

  Shuts-trans : (r s t : Redis) → Shuts r s → Shuts s t → Shuts r t
  Shuts-trans r s t x y k = ((y k).0 ∙ (x k).0, (y k).1 ∙ (x k).1, λ h. (y k).2 ((x k).2 h))

  -- an action that does so, however it ends
  abbrev Calm : {A : Type 0} → Action A → Type 0
  Calm m = (w : World) → ((m w).1.db.bids ≡ w.db.bids) × Shuts w.redis (m w).1.redis

  Calm-bind :
      {A B : Type 0} (m : Action A) (f : A → Action B)
      → Calm m
      → ((a : A) → Calm (f a))
      → Calm (m >>= f)
  Calm-bind {A} {B} m f first after w = by_result (m w) (first w)
    where
      by_result :
          (x : Result A × World)
          → (x.1.db.bids ≡ w.db.bids) × Shuts w.redis x.1.redis
          → let y = ((λ (u : World). x) >>= f) w in
            (y.1.db.bids ≡ w.db.bids) × Shuts w.redis y.1.redis
      by_result (ok a, v) (bids, shuts) =
          let (bids', shuts') = after a v in
          (bids' ∙ bids, Shuts-trans w.redis v.redis (f a v).1.redis shuts shuts')
      by_result (raised e, v) h = h

  Calm-or_fails : {A : Type 0} (fails : Bool) (m : Action A) → Calm m → Calm (or_fails fails m)
  Calm-or_fails true m calm w = (refl, λ k. (refl, refl, λ h. h))
  Calm-or_fails false m calm w = calm w

  Calm-put : (a : Auction) → Calm (modify_db (put_auction a))
  Calm-put a w = (unfold put_auction in refl, λ k. (refl, refl, λ h. h))

  Calm-flush : (a : Auction) → Calm (flush_auction a)
  unfolding flush_auction put_auction
  Calm-flush a w = by_tests _ refl _ refl
    where
      by_tests :
          (small : Bool)
          → fits_numeric a.highest_bid ≡ small
          → (known : Bool) → winner_exists a.winner_id w.db ≡ known
          → ((flush_auction a w).1.db.bids ≡ w.db.bids) × Shuts w.redis (flush_auction a w).1.redis
      by_tests false e known h = rw e (refl, λ k. (refl, refl, λ q. q))
      by_tests true e false h = rw (e, h) (refl, λ k. (refl, refl, λ q. q))
      by_tests true e true h = rw (e, h) (refl, λ k. (refl, refl, λ q. q))

  settled_row-shut :
      (found : Option Hash) (a : Auction) → is_active (settled_row p found a).state ≡ false
  unfolding closed_row resolve_settlement_inner settle_won
  settled_row-shut found a = ground arith

  Calm-set_state :
      (k : ℕ) (s : AuctionState) → is_active s ≡ false → Calm (modify_redis (set_state k s))
  Calm-set_state k s shut w = (refl, λ j. (ground arith, ground arith, ground (arith, shut)))

  Calm-close_row :
      (k : ℕ) (faults : CloseFaults) (a : Auction) (found : Option Hash)
      → Calm (close_row p k faults a found)
  unfolding close_row
  Calm-close_row k faults a found =
      let settled = settled_row p found a in
      let shows = or_fails faults.hset_fails (modify_redis (set_state k settled.state)) in
      let written = modify_db (put_auction settled) in
      let ending =
        Calm-bind written (λ u. shows) (Calm-put settled)
          (λ u.
            Calm-or_fails faults.hset_fails _
              (Calm-set_state k settled.state (settled_row-shut found a))) in
      Calm-bind (flush_auction (closed_row found a)) (λ u. written >> shows)
        (Calm-flush (closed_row found a)) (λ u. ending)

  Calm-reads : {A : Type 0} (fails : Bool) (f : World → A) → Calm (or_fails fails (gets f))
  Calm-reads fails f = Calm-or_fails fails (gets f) (λ w. (refl, λ k. (refl, refl, λ h. h)))

  Calm-close_found :
      (k : ℕ) (faults : CloseFaults) (found : Option Auction) → Calm (close_found p k faults found)
  Calm-close_found k faults none = λ w. (refl, λ j. (refl, refl, λ h. h))
  Calm-close_found k faults (some a) =
      Calm-bind (or_fails faults.hgetall_fails (gets (λ w. w.redis.hashes k)))
        (λ found. close_row p k faults a found) (Calm-reads faults.hgetall_fails _)
        (λ found. Calm-close_row k faults a found)

  Calm-close_or_extend :
      (now : ℕ) (faults : Faults) (a : Auction) (e : Option ℕ)
      → Calm (close_or_extend p now faults a e)
  unfolding close_auction
  Calm-close_or_extend now faults a none = λ w.
      Calm-close_found a.auction_id (faults.close_faults a.auction_id)
        (get_auction a.auction_id w.db) w
  Calm-close_or_extend now faults a (some e) = Calm-put (record a { end_ts = e * 1000000 })

  Calm-close_turn : (now : ℕ) (faults : Faults) (a : Auction) → Calm (close_turn p now faults a)
  unfolding close_turn
  Calm-close_turn now faults a =
      Calm-bind
        (or_fails (faults.read_fails a.auction_id) (gets (λ w. w.redis.hashes a.auction_id)))
        (λ found. close_or_extend p now faults a (extended_to found now))
        (Calm-reads (faults.read_fails a.auction_id) _)
        (λ found. Calm-close_or_extend now faults a _)

  -- the world that a turn leaves to the commit or the rollback
  abbrev Settles : World → Turn → Type 0
  Settles w (went_on v) = (v.db.bids ≡ w.db.bids) × Shuts w.redis v.redis
  Settles w (session_lost r) = Shuts w.redis r

  turn_of-Settles :
      (w : World) (x : Result Unit × World)
      → (x.1.db.bids ≡ w.db.bids) × Shuts w.redis x.1.redis
      → Settles w (turn_of x)
  turn_of-Settles w (ok u, v) h = h
  turn_of-Settles w (raised e, v) h = elim e as (λ e. Settles w (turn_of (raised e, v))) [
    | redis_error ↦ h
    | http n ↦ h.1
    | integrity_error ↦ h.1
    | data_error ↦ h.1
    | multiple_results ↦ h.1
    | key_error ↦ h.1
    | type_error ↦ h.1
    | statement_error ↦ h.1
    | commit_error ↦ h.1
    | seller_not_found ↦ h.1
    | start_too_early ↦ h.1
    | end_before_start ↦ h.1
  ]

  close_all-Settles :
      (now : ℕ) (faults : Faults) (rows : List Auction) (w : World)
      → Settles w (close_all p now faults rows w)
  unfolding close_all
  close_all-Settles now faults [] w = (refl, λ k. (refl, refl, λ h. h))
  close_all-Settles now faults (a ∷ rows) w =
      by_turn (turn_of (close_turn p now faults a w))
        (turn_of-Settles w _ (Calm-close_turn now faults a w))
        (λ v. close_all-Settles now faults rows v)
    where
      by_turn :
          (t : Turn)
          → Settles w t
          → ((v : World) → Settles v (close_all p now faults rows v))
          → Settles w (elim t as (λ t. Turn) [
            | went_on v ↦ close_all p now faults rows v
            | session_lost r ↦ session_lost r
          ])
      by_turn (went_on v) (bids, shuts) rest = later (close_all p now faults rows v) (rest v)
        where
          later : (t : Turn) → Settles v t → Settles w t
          later (went_on u) (bids', shuts') =
              (bids' ∙ bids, Shuts-trans w.redis v.redis u.redis shuts shuts')
          later (session_lost r) shuts' = Shuts-trans w.redis v.redis r shuts shuts'
      by_turn (session_lost r) shuts rest = shuts

  finish-Settles :
      (fails : Bool) (w : World) (t : Turn)
      → Settles w t
      → ((finish p fails w t).db.bids ≡ w.db.bids) × Shuts w.redis (finish p fails w t).redis
  finish-Settles true w (went_on v) (bids, shuts) = (refl, shuts)
  finish-Settles false w (went_on v) h = h
  finish-Settles fails w (session_lost r) shuts = (refl, shuts)

  poll_due_closes-Settles :
      (now : ℕ) (faults : Faults) (w : World)
      → let v = poll_due_closes p now faults w in (v.db.bids ≡ w.db.bids) × Shuts w.redis v.redis
  unfolding poll_due_closes
  poll_due_closes-Settles now faults w = elim (Bool-cases faults.connect_fails) [
    | inl down ↦ rw down (refl, λ k. (refl, refl, λ h. h))
    | inr up ↦ simp up (
        finish-Settles faults.commit_fails w _
          (close_all-Settles now faults (due_closes now w.db) w))
  ]

  pub poll_due_closes-Quiet :
      (now : ℕ) (faults : Faults) (w : World)
      → IsValid w.db
      → Quiet w (poll_due_closes p now faults w)
  poll_due_closes-Quiet now faults w valid =
      let (bids, shuts) = poll_due_closes-Settles now faults w in
      record {
        changes = poll_due_closes-Changes p now faults w valid;
        bids = bids;
        hashes = λ k. kept (shuts k).0 (shuts k).1 (shuts k).2;
      }
