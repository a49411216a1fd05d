-- ===== src/Tests/Races.antt =====
-- A bid that the script accepts while a close is under way.
use sd_online_auction_backen.Common.{◌≡◌, refl, some, List, [], ◌∷◌, arith}
use sd_online_auction_backen.Platform.Exact.{exact}
use sd_online_auction_backen.Redis.{fields}
use sd_online_auction_backen.Redis.Script.{Args, place_bid_lua}
use sd_online_auction_backen.Redis.Script.Ladder.{run, standing, after, wins}
use sd_online_auction_backen.Session.{ok}
use sd_online_auction_backen.Session.Tables.{get_auction, has_user}
use sd_online_auction_backen.Auctions.Lifecycle.{close_row}
use sd_online_auction_backen.Auctions.Lifecycle.Transitions.{no_faults}
use sd_online_auction_backen.Auctions.Lifecycle.Between.{ClosesLate, meanwhile, close_row-meanwhile}
use sd_online_auction_backen.Tests.Fixtures.{hash, store, auction, world, args}

-- 6.00 by user 8, whose request took its time before the end
abbrev calls : List Args
calls = args 11 8 600 ∷ []

close_row-meanwhile_example :
    let w' = close_row exact 1 no_faults auction (some hash) (meanwhile exact calls world) in
    let later = fields ((run exact calls store).hashes 1) in
    (w'.0 ≡ ok tt)
    × ClosesLate 1 auction world later w'.1
    × (standing later ≡ after (standing hash) (wins exact 1 calls store))
unfolding get_auction has_user
close_row-meanwhile_example =
    close_row-meanwhile exact 1 auction calls world refl refl refl (omega arith) refl (refl, tt)

-- the hash ends with user 8, and the row with user 7
accepted_meanwhile : standing (fields ((run exact calls store).hashes 1)) ≡ (600, some (some 8), 4)
unfolding place_bid_lua
accepted_meanwhile = refl
