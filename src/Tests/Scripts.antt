-- ===== src/Tests/Scripts.antt =====
-- place_bid.lua on the auction of `Fixtures`.
use sd_online_auction_backen.Common.{◌≡◌, refl, some, List, [], ◌∷◌, arith}
use sd_online_auction_backen.Platform.Exact.{exact}
use sd_online_auction_backen.Models.{bid_too_low, self_outbid}
use sd_online_auction_backen.Redis.{fields}
use sd_online_auction_backen.Redis.Script.{Args, int, price, unix, text, place_bid_lua}
use sd_online_auction_backen.Redis.Script.Outcomes.{Ruling, place_bid_lua-Ruling}
use sd_online_auction_backen.Redis.Script.Idempotent.{again, place_bid_lua-again}
use sd_online_auction_backen.Redis.Script.Ladder.{Climbs, standing, after, run, wins, run-Climbs}
use sd_online_auction_backen.Tests.Fixtures.{hash, store, args}

accepts :
    (place_bid_lua exact (args 11 8 600) store).0
    ≡ some (int 1 ∷ price 600 ∷ int 4 ∷ unix 2000 ∷ [])
unfolding place_bid_lua
accepts = refl

rejects_self : (place_bid_lua exact (args 11 7 500) store).0 ≡ some (int 0 ∷ text self_outbid ∷ [])
unfolding place_bid_lua
rejects_self = refl

rejects_low : (place_bid_lua exact (args 11 8 599) store).0 ≡ some (int 0 ∷ text bid_too_low ∷ [])
unfolding place_bid_lua
rejects_low = refl

place_bid_lua-Ruling_example :
    Ruling (args 11 8 600) hash 2000 100 (place_bid_lua exact (args 11 8 600) store).0
place_bid_lua-Ruling_example =
    place_bid_lua-Ruling exact (args 11 8 600) hash store 2000 100 refl refl refl refl (omega arith)
      (omega arith)

-- the retry comes from another bidder, with another amount
place_bid_lua-again_example :
    place_bid_lua exact (args 11 7 900) (place_bid_lua exact (args 11 8 600) store).1 ≡ (
      again (place_bid_lua exact (args 11 8 600) store).0,
      (place_bid_lua exact (args 11 8 600) store).1,
    )
unfolding place_bid_lua
place_bid_lua-again_example =
    place_bid_lua-again exact (args 11 8 600) (args 11 7 900) store refl refl refl (λ e. cc)

-- two of these four take the lead
abbrev calls : List Args
calls = args 11 8 600 ∷ args 12 8 600 ∷ args 13 9 650 ∷ args 14 7 725 ∷ []

run-Climbs_example :
    Climbs 100 500 3 (wins exact 1 calls store)
    × (standing (fields ((run exact calls store).hashes 1))
        ≡ after (standing hash) (wins exact 1 calls store))
unfolding place_bid_lua
run-Climbs_example =
    run-Climbs exact 1 100 calls store (refl, (refl, (refl, (refl, tt)))) (omega arith) refl
      (omega arith) (omega arith)
