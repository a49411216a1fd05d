-- ===== src/Scheduler/Starts.antt =====
-- What `poll_due_starts` does to each auction.
use sd_online_auction_backen.Common.{
  ℕ, ◌≤◌, ◌≡◌, ◌≢◌, refl, sym, ap, ◌∙◌, Bool, true, false, ◌&&◌, not, Option, some, List, [], ◌∷◌,
  arith, if◌then◌else◌, filter, length, Option-cases, Bool-cases, inl, inr, ◌==◌,
}
use sd_online_auction_backen.Models.{Auction, active}
use sd_online_auction_backen.Redis.{Hash, fields}
use sd_online_auction_backen.Session.{World}
use sd_online_auction_backen.Session.Tables.{get_auction}
use sd_online_auction_backen.Auctions.Hash.{init_fields, init_redis_hash}
use sd_online_auction_backen.Auctions.Lifecycle.{start_auction}
use sd_online_auction_backen.Auctions.Lifecycle.Transitions.{
  get_auction-key, get_auction-put_self, get_auction-put_ne,
}
use sd_online_auction_backen.Scheduler.{
  batch_size, is_due_start, due_starts, Faults, logged, start_all, poll_due_starts,
}
use sd_online_auction_backen.Scheduler.Queue.{has_id, UniqueIds, has_id-take}

-- the row after a start, and the hash if HSET goes through
abbrev pub started : Bool → Auction → Auction
started due a = if due then record a { state = active } else a

abbrev pub started_hash : Bool → Auction → Option Hash → Option Hash
started_hash due a found = if due then some (init_fields a (fields found)) else found

-- the row and the hash of `k`
pub record At (k : ℕ) (a : Auction) (found : Option Hash) (w : World) : Type 0 where
  pub row : get_auction k w.db ≡ some a
  pub hash : w.redis.hashes k ≡ found

start_self :
    (k : ℕ) (fails : Bool) (a : Auction) (w : World)
    → get_auction k w.db ≡ some a
    → At k
        (record a { state = active })
        (started_hash (not fails) a (w.redis.hashes k))
        (logged (start_auction k fails w))
unfolding start_auction init_redis_hash
start_self k fails a w row =
    let id = get_auction-key k w.db a row in
    record {
      row = ground (arith, get_auction-put_self k (record a { state = active }) a w.db row id);
      hash = ground (arith, id);
    }

start_other :
    (j k : ℕ) (fails : Bool) (a : Auction) (w : World)
    → j ≢ k
    → get_auction k w.db ≡ some a
    → At k a (w.redis.hashes k) (logged (start_auction j fails w))
unfolding start_auction init_redis_hash
start_other j k fails a w ne row = elim (Option-cases (get_auction j w.db)) [
  | inl gone ↦ record { row = rw gone row; hash = rw gone refl }
  | inr (b, e) ↦
      let id = get_auction-key j w.db b e in
      record {
        row = ground (
          arith,
          e,
          get_auction-put_ne k (record b { state = active }) w.db (λ q. ne (sym id ∙ q)),
          row,
        );
        hash = ground (arith, e, id, ne);
      }
]

-- a second HSET of the same fields
started_hash-again :
    (due sent : Bool) (a : Auction) (found : Option Hash)
    → started_hash (due && sent) (record a { state = active }) (started_hash sent a found)
      ≡ started_hash sent a found
unfolding init_fields
started_hash-again true true a found = refl
started_hash-again true false a found = refl
started_hash-again false true a found = refl
started_hash-again false false a found = refl

start_same :
    (j k : ℕ) (faults : Faults) (a : Auction) (w : World)
    → j ≡ k
    → get_auction k w.db ≡ some a
    → At k
        (record a { state = active })
        (started_hash (not (faults.init_fails k)) a (w.redis.hashes k))
        (logged (start_auction j (faults.init_fails j) w))
start_same j k faults a w same row = rw same (start_self k (faults.init_fails k) a w row)

pub start_all-At :
    (k : ℕ) (faults : Faults) (rows : List Auction) (a : Auction) (w : World)
    → get_auction k w.db ≡ some a
    → At k
        (started (has_id k rows) a)
        (started_hash (has_id k rows && not (faults.init_fails k)) a (w.redis.hashes k))
        (start_all faults rows w)
unfolding start_all
start_all-At k faults [] a w row = record { row = row; hash = refl }
start_all-At k faults (b ∷ rows) a w row = elim (Bool-cases (b.auction_id == k)) [
  | inl same ↦
      let id : b.auction_id ≡ k = ground (arith, same) in
      let first = start_same b.auction_id k faults a w id row in
      let rest = start_all-At k faults rows (record a { state = active }) _ first.row in
      record {
        row = rw same (rest.row ∙ ap some (twice (has_id k rows)));
        hash = rw same (
            rest.hash
            ∙ ap (started_hash _ (record a { state = active })) first.hash
            ∙ started_hash-again (has_id k rows) (not (faults.init_fails k)) a (w.redis.hashes k));
      }
  | inr other ↦
      let ne : b.auction_id ≢ k = λ q. ground (arith, other) in
      let first = start_other b.auction_id k (faults.init_fails b.auction_id) a w ne row in
      let rest = start_all-At k faults rows a _ first.row in
      record {
        row = rw other rest.row;
        hash = rw other (rest.hash ∙ ap (started_hash _ a) first.hash);
      }
]
  where
    twice : (due : Bool) → started due (record a { state = active }) ≡ record a { state = active }
    twice true = refl
    twice false = refl

-- One poll that connects and commits, over a table with unique ids and with a batch that has room for all due
-- auctions: the row of an auction becomes active if it is due, and its hash the initial one if it is
-- due and HSET went through; else row and hash are as they were. So a due auction whose HSET failed
-- is active without a hash.
pub poll_due_starts_lem :
    (now k : ℕ) (faults : Faults) (a : Auction) (w : World)
    → faults.connect_fails ≡ false
    → faults.commit_fails ≡ false
    → UniqueIds w.db.auctions
    → length (filter (is_due_start now) w.db.auctions) ≤ batch_size
    → get_auction k w.db ≡ some a
    → let w' = poll_due_starts now faults w in
      (get_auction k w'.db ≡ some (if is_due_start now a then record a { state = active } else a))
      × (w'.redis.hashes k ≡ (
          if is_due_start now a && not (faults.init_fails k)
          then some (init_fields a (fields (w.redis.hashes k)))
          else w.redis.hashes k))
unfolding poll_due_starts get_auction due_starts
poll_due_starts_lem now k faults a w up kept unique fits row =
    let all = start_all-At k faults (due_starts now w.db) a w row in
    let due = has_id-take (is_due_start now) k batch_size w.db.auctions a unique fits row in
    rw (up, kept, ← due) (all.row, all.hash)
