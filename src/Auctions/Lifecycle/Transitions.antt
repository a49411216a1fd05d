-- ===== src/Auctions/Lifecycle/Transitions.antt =====
-- What `start_auction` and `close_auction` do to the row and to the hash.
use sd_online_auction_backen.Common.{
  ℕ, ◌<◌, ◌≡◌, ◌≢◌, refl, sym, ◌∙◌, inl, inr, true, false, Option, none, some, arith, Option-cases,
  Bool-cases, if◌then◌else◌,
}
use sd_online_auction_backen.Common.Dict.{find-key, find-replace_self, find-replace_ne}
use sd_online_auction_backen.Platform.{Platform, numeric_limit}
use sd_online_auction_backen.Models.{Auction, Db}
use sd_online_auction_backen.Redis.{Hash, fields}
use sd_online_auction_backen.Redis.Script.{or_zero}
use sd_online_auction_backen.Session.{World, ok, raised, integrity_error, redis_error}
use sd_online_auction_backen.Session.Tables.{get_auction, put_auction, winner_exists, has_user}
use sd_online_auction_backen.Auctions.Lifecycle.{
  CloseFaults, leader, closed_row, close_row, close_auction, set_state, resolve_settlement_inner,
}
use sd_online_auction_backen.Auctions.Lifecycle.Settlement.{
  Settled, settled_row, settled_row-Settled,
}

-- The row `k` and the hash of `k` are the only ones that differ.
pub record OnlyAt (k : ℕ) (w w' : World) : Type 0 where
  pub rows : (j : ℕ) → k ≢ j → get_auction j w'.db ≡ get_auction j w.db
  pub hashes : (j : ℕ) → k ≢ j → w'.redis.hashes j ≡ w.redis.hashes j
  pub bids : w'.db.bids ≡ w.db.bids
  pub users : w'.db.users ≡ w.db.users

pub get_auction-key : (k : ℕ) (db : Db) (a : Auction) → get_auction k db ≡ some a → a.auction_id ≡ k
unfolding get_auction
get_auction-key k db a e = find-key _ k db.auctions a e

pub get_auction-put_self :
    (k : ℕ) (a b : Auction) (db : Db)
    → get_auction k db ≡ some b
    → a.auction_id ≡ k
    → get_auction k (put_auction a db) ≡ some a
unfolding get_auction put_auction
get_auction-put_self k a b db e ek = rw (← ek) (find-replace_self _ a b db.auctions (rw ek e))

pub get_auction-put_ne :
    (j : ℕ) (a : Auction) (db : Db)
    → a.auction_id ≢ j
    → get_auction j (put_auction a db) ≡ get_auction j db
unfolding get_auction put_auction
get_auction-put_ne j a db ne = find-replace_ne _ a j db.auctions ne

-- the auction `a` has been settled by the rules, in its row and in its hash
pub record Closes (k : ℕ) (a : Auction) (w w' : World) : Type 0 where
  pub row : Auction
  pub settled : Settled a (w.redis.hashes k) row
  pub stored : get_auction k w'.db ≡ some row
  pub shown : (fields (w'.redis.hashes k)).state ≡ some row.state
  pub others : OnlyAt k w w'

abbrev pub no_faults : CloseFaults
no_faults = record { hgetall_fails = false; hset_fails = false }

module _ (p : Platform) where
  settled_row-id :
      (found : Option Hash) (a : Auction) → (settled_row p found a).auction_id ≡ a.auction_id
  unfolding resolve_settlement_inner closed_row
  settled_row-id found a = ground arith

  closed_row-id :
      (found : Option Hash) (a : Auction) → (closed_row found a).auction_id ≡ a.auction_id
  unfolding closed_row
  closed_row-id found a = ground arith

  -- the tables and the store after a close that met no error
  unfoldable pub closes_to : ℕ → Option Hash → Auction → World → World
  closes_to k found a w = record {
    db = put_auction (settled_row p found a) (put_auction (closed_row found a) w.db);
    redis = set_state k (settled_row p found a).state w.redis;
  }

  pub close_row_lem :
      (k : ℕ) (found : Option Hash) (a : Auction) (w : World)
      → a.winner_id ≡ none
      → a.highest_bid ≡ none
      → or_zero (fields found).highest_bid < numeric_limit
      → winner_exists (leader found) w.db ≡ true
      → close_row p k no_faults a found w ≡ (ok tt, closes_to k found a w)
  unfolding close_row closes_to
  close_row_lem k found a w nw nb lt known = elim (Option-cases (leader found)) [
    | inl nobody ↦ rw nobody (ground (arith, nobody))
    | inr (b, led) ↦ rw (led) (ground (arith, led))
  ]

  close_row_unknown :
      (k b : ℕ) (faults : CloseFaults) (found : Option Hash) (a : Auction) (w : World)
      → leader found ≡ some b
      → or_zero (fields found).highest_bid < numeric_limit
      → has_user b w.db ≡ false
      → close_row p k faults a found w ≡ (raised integrity_error, w)
  unfolding close_row
  close_row_unknown k b faults found a w led lt unknown = rw led (ground (arith, led))

  pub closes_to-Closes :
      (k : ℕ) (a : Auction) (w : World)
      → get_auction k w.db ≡ some a
      → a.winner_id ≡ none
      → or_zero (fields (w.redis.hashes k)).highest_bid < numeric_limit
      → Closes k a w (closes_to k (w.redis.hashes k) a w)
  unfolding closes_to
  closes_to-Closes k a w row nw lt =
      let ids = get_auction-key k w.db a row in
      let found = w.redis.hashes k in
      let mid =
        get_auction-put_self k (closed_row found a) a w.db row (closed_row-id found a ∙ ids) in
      record {
        row = settled_row p found a;
        settled = settled_row-Settled p found a nw lt;
        stored =
            get_auction-put_self k (settled_row p found a) (closed_row found a) _ mid
              (settled_row-id found a ∙ ids);
        shown = ground arith;
        others = record {
          rows = λ j ne.
              get_auction-put_ne j _ _ (λ e. ne (sym (settled_row-id found a ∙ ids) ∙ e))
              ∙ get_auction-put_ne j _ _ (λ e. ne (sym (closed_row-id found a ∙ ids) ∙ e));
          hashes = λ j ne. ground arith;
          bids = unfold put_auction in refl;
          users = unfold put_auction in refl;
        };
      }

  -- `close_auction` of an auction with no winner yet, whose leader is a user and whose price is in
  -- range, returns if its Redis calls go through, settles the row by the rules, shows the new state in
  -- the hash, and changes no other row and no other hash. By the rules it is unsold without bids, and
  -- unsold if the price is below the reserve, or equal to it and not a whole number of quarters, which
  -- a double may hold a little too low; else the leader wins. So a price that is a whole number of
  -- quarters and equals the reserve sells.
  pub close_auction-Closes :
      (k : ℕ) (a : Auction) (w : World)
      → get_auction k w.db ≡ some a
      → a.winner_id ≡ none
      → a.highest_bid ≡ none
      → or_zero (fields (w.redis.hashes k)).highest_bid < numeric_limit
      → winner_exists (leader (w.redis.hashes k)) w.db ≡ true
      → ((close_auction p k no_faults w).0 ≡ ok tt) × Closes k a w (close_auction p k no_faults w).1
  unfolding close_auction
  close_auction-Closes k a w row nw nb lt known = rw row (
      rw (close_row_lem k (w.redis.hashes k) a w nw nb lt known)
        (refl, closes_to-Closes k a w row nw lt))

  -- A leader who is no user stops the close: HGETALL or the flush raises, and neither the row nor
  -- the hash changes.
  pub close_auction_unknown_leader :
      (k b : ℕ) (faults : CloseFaults) (a : Auction) (w : World)
      → get_auction k w.db ≡ some a
      → leader (w.redis.hashes k) ≡ some b
      → or_zero (fields (w.redis.hashes k)).highest_bid < numeric_limit
      → has_user b w.db ≡ false
      → close_auction p k faults w
        ≡ (raised (if faults.hgetall_fails then redis_error else integrity_error), w)
  unfolding close_auction close_row
  close_auction_unknown_leader k b faults a w row led lt unknown =
      elim (Bool-cases faults.hgetall_fails) [
        | inl broken ↦ rw (row, broken) refl
        | inr read ↦
            rw (row, read) (close_row_unknown k b faults (w.redis.hashes k) a w led lt unknown)
      ]
