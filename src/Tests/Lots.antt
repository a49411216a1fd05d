-- ===== src/Tests/Lots.antt =====
-- Runs of place_bid.lua with a retry, on the auction of `Fixtures`.
use sd_online_auction_backen.Common.{◌≡◌, refl, some, List, [], ◌∷◌}
use sd_online_auction_backen.Platform.Exact.{exact}
use sd_online_auction_backen.Redis.{fields}
use sd_online_auction_backen.Redis.Script.{Args}
use sd_online_auction_backen.Redis.Script.Ladder.{run}
use sd_online_auction_backen.Redis.Script.Once.{without_retries, run-without_retries}
use sd_online_auction_backen.Redis.Script.Lot.{lot_of, offers, make_all, run-make_all}
use sd_online_auction_backen.Tests.Fixtures.{hash, store, args}

-- 11 comes again, from another bidder and for more
abbrev calls : List Args
calls = args 11 8 600 ∷ args 12 8 600 ∷ args 11 9 900 ∷ args 14 7 725 ∷ []

run-without_retries_example : run exact calls store ≡ run exact (without_retries [] calls) store
run-without_retries_example =
    run-without_retries exact calls store
      ((refl, refl), ((refl, refl), ((refl, refl), ((refl, refl), tt))))

run-make_all_example :
    lot_of (fields ((run exact calls store).hashes 1))
    ≡ make_all exact.below_min (lot_of hash) (offers 1 (without_retries [] calls))
run-make_all_example =
    run-make_all exact 1 calls store
      ((refl, refl), ((refl, refl), ((refl, refl), ((refl, refl), tt))))
      (refl, (refl, (refl, (refl, tt))))

sold_for :
    make_all exact.below_min (lot_of hash) (offers 1 (without_retries [] calls))
    ≡ record (lot_of hash) { price = 725; leader = some 7; bids = 5 }
sold_for = refl
