-- ===== src/Tests/Polls.antt =====
-- The scheduler's polls.
use sd_online_auction_backen.Common.{
  ℕ, ◌≡◌, refl, false, some, none, ◌&&◌, not, ◌==◌, [], ◌∷◌, arith, All, if◌then◌else◌,
}
use sd_online_auction_backen.Platform.Exact.{exact}
use sd_online_auction_backen.Models.{Auction, active, upcoming}
use sd_online_auction_backen.Redis.{fields}
use sd_online_auction_backen.Session.{World}
use sd_online_auction_backen.Session.Tables.{get_auction, has_user}
use sd_online_auction_backen.Auctions.Hash.{init_fields}
use sd_online_auction_backen.Scheduler.{
  Faults, is_due_start, is_due_close, due_closes, poll_due_starts, poll_due_closes,
}
use sd_online_auction_backen.Scheduler.Queue.{has_id}
use sd_online_auction_backen.Scheduler.Starts.{poll_due_starts_lem}
use sd_online_auction_backen.Scheduler.Closes.{no_poll_faults, Same, Handled, poll_due_closes_lem}
use sd_online_auction_backen.Tests.Fixtures.{hash, store, auction, db}

-- auction 2 has been given more time in Redis, and auction 3 is to start
abbrev extended : Auction
extended = record auction { auction_id = 2 }

abbrev planned : Auction
planned = record auction { auction_id = 3; state = upcoming }

abbrev busy : World
busy = record {
  db = record db { auctions = auction ∷ extended ∷ planned ∷ [] };
  redis = record store {
    hashes = λ k.
        if k == 1
        then some hash
        else if k == 2
        then some (record hash { end_ts = some 3000 })
        else none;
  };
}

-- HSET fails for auction 3
abbrev one_fault : Faults
one_fault = record no_poll_faults { init_fails = λ k. k == 3 }

poll_due_starts_lem_example :
    let w' = poll_due_starts 1200000000 one_fault busy in
    (get_auction 3 w'.db
      ≡ some
          (if is_due_start 1200000000 planned then record planned { state = active } else planned))
    × (w'.redis.hashes 3 ≡ (
        if is_due_start 1200000000 planned && not (one_fault.init_fails 3)
        then some (init_fields planned (fields (busy.redis.hashes 3)))
        else busy.redis.hashes 3))
unfolding get_auction is_due_start
poll_due_starts_lem_example =
    poll_due_starts_lem 1200000000 3 one_fault planned busy refl refl (refl, (refl, (refl, tt)))
      (omega arith) refl

poll_due_closes_lem_example :
    let w' = poll_due_closes exact 2000000000 no_poll_faults busy in
    All (Handled 2000000000 busy w') (due_closes 2000000000 busy.db)
    × ((j : ℕ) → has_id j (due_closes 2000000000 busy.db) ≡ false → Same j busy w')
unfolding get_auction has_user due_closes is_due_close
poll_due_closes_lem_example =
    poll_due_closes_lem exact 2000000000 busy (refl, (refl, (refl, tt)))
      (
        record { no_winner = refl; no_price = refl; in_range = omega arith; known = refl },
        (record { no_winner = refl; no_price = refl; in_range = omega arith; known = refl }, tt),
      )
