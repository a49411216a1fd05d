-- ===== src/Scheduler/Uncommitted.antt =====
-- A start poll whose commit fails, and the poll after it.
use sd_online_auction_backen.Common.{
  ◌≤◌, ◌≡◌, refl, sym, ap, subst, ◌∙◌, ℕ, true, false, Option, none, some, arith, filter, length,
}
use sd_online_auction_backen.Platform.{Platform}
use sd_online_auction_backen.Models.{Auction, active, Db}
use sd_online_auction_backen.Redis.{Hash, Redis, fields}
use sd_online_auction_backen.Redis.Script.{Args, take_lead, place_bid_lua}
use sd_online_auction_backen.Redis.Script.Outcomes.{is_acceptance}
use sd_online_auction_backen.Redis.Script.Ladder.{step}
use sd_online_auction_backen.Session.{World}
use sd_online_auction_backen.Session.Tables.{get_auction}
use sd_online_auction_backen.Auctions.Hash.{init_fields}
use sd_online_auction_backen.Scheduler.{
  Faults, batch_size, is_due_start, due_starts, poll_due_starts,
}
use sd_online_auction_backen.Scheduler.Queue.{UniqueIds, has_id-take}
use sd_online_auction_backen.Scheduler.Starts.{start_all-At, poll_due_starts_lem}

-- a poll that reaches Redis for the due auction `k`, from a table that its batch covers
pub record Reached (now k : ℕ) (faults : Faults) (db : Db) : Type 0 where
  pub connects : faults.connect_fails ≡ false
  pub sends : faults.init_fails k ≡ false
  pub fits : length (filter (is_due_start now) db.auctions) ≤ batch_size

is_due_start-later :
    (now later : ℕ) (a : Auction)
    → now ≤ later
    → is_due_start now a ≡ true
    → is_due_start later a ≡ true
unfolding is_due_start
is_due_start-later now later a le h = ground (arith, le, h)

-- the rows of a poll whose commit fails stay, and the hash is the initial one
uncommitted :
    (now k : ℕ) (faults : Faults) (a : Auction) (w : World)
    → Reached now k faults w.db
    → faults.commit_fails ≡ true
    → UniqueIds w.db.auctions
    → get_auction k w.db ≡ some a
    → is_due_start now a ≡ true
    → let w' = poll_due_starts now faults w in
      (w'.db ≡ w.db) × (w'.redis.hashes k ≡ some (init_fields a (fields (w.redis.hashes k))))
unfolding poll_due_starts due_starts get_auction
uncommitted now k faults a w x fails unique row due =
    let all = start_all-At k faults (due_starts now w.db) a w row in
    let there = has_id-take (is_due_start now) k batch_size w.db.auctions a unique x.fits row in
    rw (x.connects, fails) (refl, all.hash ∙ rw (there, due, x.sends) refl)

-- what the hash of a started auction keeps of a lead
pub record Forgotten (h : Hash) : Type 0 where
  pub bidder : h.highest_bidder ≡ some none
  pub price : h.highest_bid ≡ some 0
  pub number : h.sequence_num ≡ some 0

init_fields-Forgotten :
    (a : Auction) (h : Hash) (found : Option Hash)
    → found ≡ some (init_fields a h)
    → Forgotten (fields found)
unfolding init_fields
init_fields-Forgotten a h found e =
    subst (λ f. Forgotten (fields f)) (sym e)
      (record { bidder = refl; price = refl; number = refl })

module _ (p : Platform) where
  leads_after :
      (k : ℕ) (b : Args) (r : Redis) (h : Hash)
      → b.auction_id ≡ k
      → r.results b.bid_id ≡ none
      → is_acceptance (place_bid_lua p b r).0 ≡ true
      → r.hashes k ≡ some h
      → fields ((place_bid_lua p b r).1.hashes k) ≡ take_lead b h
  leads_after k b r h same new leads e =
      step p k b r new ∙ ground (arith, same, leads, ap (λ f. take_lead b (fields f)) e)

  abbrev pub then_bids : Args → World → World
  then_bids b w = record w { redis = (place_bid_lua p b w.redis).1 }

  -- A due auction whose start poll reaches Redis but does not commit is still UPCOMING in the
  -- table, and its hash is the initial one. If a new bid is accepted then, it leads in the hash; the
  -- next poll that reaches Redis and commits starts the auction again: its row is ACTIVE, and the
  -- hash has no bidder, the price 0 and the number 0. The ids of the table are unique, and each
  -- batch has room for all due auctions.
  pub poll_due_starts-again :
      (now later k : ℕ) (faults again : Faults) (a : Auction) (b : Args) (w : World)
      → Reached now k faults w.db
      → faults.commit_fails ≡ true
      → Reached later k again w.db
      → again.commit_fails ≡ false
      → now ≤ later
      → UniqueIds w.db.auctions
      → get_auction k w.db ≡ some a
      → is_due_start now a ≡ true
      → b.auction_id ≡ k
      → (poll_due_starts now faults w).redis.results b.bid_id ≡ none
      → is_acceptance (place_bid_lua p b (poll_due_starts now faults w).redis).0 ≡ true
      → let v = then_bids b (poll_due_starts now faults w) in
        let u = poll_due_starts later again v in
        (get_auction k v.db ≡ some a)
        × (fields (v.redis.hashes k) ≡ take_lead b (init_fields a (fields (w.redis.hashes k))))
        × (get_auction k u.db ≡ some (record a { state = active }))
        × Forgotten (fields (u.redis.hashes k))
  poll_due_starts-again now later k faults again a b w x fails y commits le unique row due same new
        leads =
      let w' = poll_due_starts now faults w in
      let stays = (uncommitted now k faults a w x fails unique row due).0 in
      let v = then_bids b w' in
      let still = ap (get_auction k) stays ∙ row in
      let restart =
        poll_due_starts_lem later k again a v y.connects commits
          (subst (λ (d : Db). UniqueIds d.auctions) (sym stays) unique)
          (subst (λ (d : Db). length (filter (is_due_start later) d.auctions) ≤ batch_size)
            (sym stays) y.fits)
          still in
      let open_again = is_due_start-later now later a le due in
      (
        still,
        leads_after k b w'.redis _ same new leads
            (uncommitted now k faults a w x fails unique row due).1,
        restart.0 ∙ rw open_again refl,
        init_fields-Forgotten a (fields (v.redis.hashes k)) _
            (restart.1 ∙ rw (open_again, y.sends) refl),
      )
