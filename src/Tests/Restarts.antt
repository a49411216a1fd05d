-- ===== src/Tests/Restarts.antt =====
-- A start poll that is not committed.
use sd_online_auction_backen.Common.{◌≡◌, refl, true, some, [], ◌∷◌, arith}
use sd_online_auction_backen.Platform.Exact.{exact}
use sd_online_auction_backen.Models.{Auction, active, upcoming}
use sd_online_auction_backen.Redis.{fields}
use sd_online_auction_backen.Redis.Script.{Args, take_lead, place_bid_lua}
use sd_online_auction_backen.Session.{World}
use sd_online_auction_backen.Session.Tables.{get_auction}
use sd_online_auction_backen.Auctions.Hash.{init_fields, init_redis_hash}
use sd_online_auction_backen.Auctions.Lifecycle.{start_auction}
use sd_online_auction_backen.Scheduler.{Faults, is_due_start, poll_due_starts}
use sd_online_auction_backen.Scheduler.Closes.{no_poll_faults}
use sd_online_auction_backen.Scheduler.Uncommitted.{Forgotten, then_bids, poll_due_starts-again}
use sd_online_auction_backen.Tests.Fixtures.{store, auction, db, args}

-- auction 1 is to start, and user 8 bids 7.00 in it
abbrev planned : Auction
planned = record auction { state = upcoming }

abbrev waiting : World
waiting = record { db = record db { auctions = planned ∷ []; bids = [] }; redis = store }

abbrev no_commit : Faults
no_commit = record no_poll_faults { commit_fails = true }

abbrev early_bid : Args
early_bid = args 31 8 700

poll_due_starts-again_example :
    let v = then_bids exact early_bid (poll_due_starts 1200000000 no_commit waiting) in
    let u = poll_due_starts 1201000000 no_poll_faults v in
    (get_auction 1 v.db ≡ some planned)
    × (fields (v.redis.hashes 1)
        ≡ take_lead early_bid (init_fields planned (fields (waiting.redis.hashes 1))))
    × (get_auction 1 u.db ≡ some (record planned { state = active }))
    × Forgotten (fields (u.redis.hashes 1))
unfolding get_auction is_due_start poll_due_starts start_auction init_redis_hash place_bid_lua
poll_due_starts-again_example =
    poll_due_starts-again exact 1200000000 1201000000 1 no_commit no_poll_faults planned early_bid
      waiting (record { connects = refl; sends = refl; fits = omega arith }) refl
      (record { connects = refl; sends = refl; fits = omega arith }) refl (omega arith) (refl, tt)
      refl refl refl refl refl
