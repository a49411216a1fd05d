-- ===== src/Tests/Overlaps.antt =====
-- Two bids that overlap.
use sd_online_auction_backen.Common.{
  false, ℕ, ◌≡◌, ◌≤◌, refl, none, some, [], ◌∷◌, arith, map, length, filter, All, ltb,
}
use sd_online_auction_backen.Platform.Exact.{exact}
use sd_online_auction_backen.Models.{Auction, Bid}
use sd_online_auction_backen.Redis.{Redis}
use sd_online_auction_backen.Redis.Script.{
  place_bid_lua, accept, check_amount, check_time, evaluate, on_result, take_lead,
}
use sd_online_auction_backen.Session.{World, ok, get_session}
use sd_online_auction_backen.Session.Tables.{
  get_auction, get_user, has_user, has_auction, insert_auction, insert_bid, bid_keys_hold,
}
use sd_online_auction_backen.Auctions.Create.{create_auction, initial_state, new_auction}
use sd_online_auction_backen.Auctions.Hash.{init_fields, init_redis_hash}
use sd_online_auction_backen.Bids.Place.{
  on_reply, evalsha, script_args, decide, won_outcome, lost_outcome, parse_reply, stream_entry,
  dedup_ttl,
}
use sd_online_auction_backen.Paging.{order_desc}
use sd_online_auction_backen.Paging.Order.{Distinct}
use sd_online_auction_backen.Bids.Recording.{
  Call, Env, replies, record_outcome, persist, bid_row, fan_out, fanout_message, store_proxy,
}
use sd_online_auction_backen.Bids.History.{number, selected, item}
use sd_online_auction_backen.Bids.History.Paging.{history, walk}
use sd_online_auction_backen.Users as Users
use sd_online_auction_backen.Users.{UserCreate, create_user, add_user, insert_user}
use sd_online_auction_backen.Routers.{respond, parse_user_id, create_auction_route}
use sd_online_auction_backen.System.Steps.{no_rows}
use sd_online_auction_backen.System.Overlap.{
  Flight, registers, lists, evaluates, records, beside, Run, start, then_move, evaluated, recorded,
}
use sd_online_auction_backen.System.Overlap.Hashes.{last_number, last_price}
use sd_online_auction_backen.System.Overlap.Rising.{WholeCents}
use sd_online_auction_backen.System.Overlap.Prices.{NeverAbove, Run-NeverAbove}
use sd_online_auction_backen.System.Overlap.Histories.{blank, Run-Distinct, Run-walk}
use sd_online_auction_backen.Tests.Fixtures.{store, auction, call, env}
use sd_online_auction_backen.Tests.Routes.{listing, create_env}
use sd_online_auction_backen.Tests.Runs.{user_env, registration}

abbrev empty : Redis
empty = record store { hashes = λ k. none }

-- user 7 lists auction 2, and user 8 registers
abbrev second_env : Users.Env
second_env = record user_env { user_id = 8 }

abbrev second_user : UserCreate
second_user = record { display_name = "other"; email = "other@example.com" }

abbrev registered : World
registered =
    (get_session false (create_user exact user_env registration)
      (record { db = no_rows; redis = empty })).1

abbrev both : World
both = (get_session false (create_user exact second_env second_user) registered).1

abbrev listed : World
listed = (get_session false (create_auction_route exact create_env (some "7") listing) both).1

-- 6.00 by user 7, then 9.00 by user 8 while the first is not yet recorded
abbrev bid_of : ℕ → ℕ → Call exact
bid_of bidder mills = record (call bidder mills) { auction_id = 2 }

abbrev env_of : ℕ → Env
env_of k = record (env replies) { bid_id = k; proxy_id = k }

abbrev open_row : Auction
open_row = record auction { auction_id = 2 }

abbrev first : Flight exact
first = record {
  env = env_of 31;
  call = bid_of 7 6000;
  auction = open_row;
  reply = elim (evaluated exact (env_of 31) (bid_of 7 6000) open_row listed).0 [
    | ok reply ↦ reply
    | _ ↦ none
  ];
}

abbrev once : World
once = (evaluated exact (env_of 31) (bid_of 7 6000) open_row listed).1

abbrev later : Flight exact
later = record {
  env = env_of 32;
  call = bid_of 8 9000;
  auction = open_row;
  reply = elim (evaluated exact (env_of 32) (bid_of 8 9000) open_row once).0 [
    | ok reply ↦ reply
    | _ ↦ none
  ];
}

abbrev twice : World
twice = (evaluated exact (env_of 32) (bid_of 8 9000) open_row once).1

-- the later bid is recorded first
abbrev over : World
over =
    (get_session false (recorded exact first) (get_session false (recorded exact later) twice).1).1

overlapping :
    Run exact (WholeCents exact) (blank exact empty) (record { world = over; flights = [] })
unfolding evaluated get_session create_auction_route parse_user_id create_auction create_user
    has_auction evalsha place_bid_lua script_args
overlapping =
    then_move
      (then_move
        (then_move
          (then_move
            (then_move
              (then_move
                (then_move start (beside registered (registers false user_env registration)))
                (beside both (registers false second_env second_user)))
              (beside listed (lists create_env (some "7") listing refl)))
            (evaluates (env_of 31) (bid_of 7 6000) open_row first.reply once (refl, omega arith)
              refl refl))
          (evaluates (env_of 32) (bid_of 8 9000) open_row later.reply twice (refl, omega arith) refl
            refl))
        (records false [] later (first ∷ []) refl))
      (records false [] first [] refl)

over_rows : length (history 2 over.db.bids) ≡ 2
unfolding get_session recorded on_reply evaluated evalsha place_bid_lua create_auction_route
    parse_user_id create_auction create_user has_auction script_args decide record_outcome persist
    won_outcome bid_keys_hold initial_state new_auction init_fields init_redis_hash dedup_ttl
    lost_outcome parse_reply stream_entry bid_row fan_out fanout_message store_proxy accept
    check_amount check_time evaluate on_result take_lead respond get_auction get_user has_user
    insert_auction insert_bid add_user insert_user order_desc
over_rows = refl

Run-Distinct_example :
    Distinct number ltb (filter (selected 2 none) over.db.bids)
    × All (λ b. number b ≤ last_number 2 over.redis) (filter (selected 2 none) over.db.bids)
Run-Distinct_example =
    Run-Distinct exact (WholeCents exact) empty (record { world = over; flights = [] }) refl
      overlapping 2

Run-walk_example : walk 3 2 1 none over.db.bids ≡ map item (history 2 over.db.bids)
Run-walk_example =
    Run-walk exact (WholeCents exact) empty (record { world = over; flights = [] }) refl overlapping
      2 1 3 (omega (arith, over_rows))

Run-NeverAbove_example :
    NeverAbove (history 2 over.db.bids)
    × All (λ (b : Bid). b.amount ≤ last_price 2 over.redis) (history 2 over.db.bids)
Run-NeverAbove_example =
    Run-NeverAbove exact empty (record { world = over; flights = [] }) refl overlapping 2
