-- ===== src/System/Steps.antt =====
-- The application as a whole: a step is one request, through its handler and its session, whose commit
-- may fail, one poll of the scheduler, or a change of Redis from outside. Steps do not overlap.
use sd_online_auction_backen.Common.{Bool, ℕ, ◌≡◌, sym, subst, true, Option, some, String, []}
use sd_online_auction_backen.Platform.{Platform}
use sd_online_auction_backen.Models.{Auction, Db}
use sd_online_auction_backen.Redis.{Redis}
use sd_online_auction_backen.Session.{World, get_session}
use sd_online_auction_backen.Session.Tables.{get_auction}
use sd_online_auction_backen.Auctions.Create.{AuctionCreate, Env as CreateEnv}
use sd_online_auction_backen.Bids.Recording.{Env as BidEnv}
use sd_online_auction_backen.Users.{UserCreate, create_user, Env as UserEnv}
use sd_online_auction_backen.Routers.{
  BidRequest, place_bid_route, create_auction_route, view_auction, bid_history,
}
use sd_online_auction_backen.Search.{Engine, Query, search_auctions_route}
use sd_online_auction_backen.Scheduler.{Faults, poll_due_starts, poll_due_closes}
use sd_online_auction_backen.System.Changes.{is_final, Changes, unchanged, and_then, IsValid}
use sd_online_auction_backen.System.Valid.{Changes-IsValid, Changes-settled}
use sd_online_auction_backen.System.Requests.{
  create_user-Changes, create_auction_route-Changes, place_bid_route-Changes,
}
use sd_online_auction_backen.System.Growth.{Grows, Changes-Grows}
use sd_online_auction_backen.System.Reads.{
  search_auctions_route-Reads, view_auction-Reads, bid_history-Reads,
}
use sd_online_auction_backen.System.Starts.{poll_due_starts-Changes}
use sd_online_auction_backen.System.Closes.{poll_due_closes-Changes}

abbrev pub no_rows : Db
no_rows = record { users = []; auctions = []; bids = []; proxy_bids = [] }

pub no_rows-IsValid : IsValid no_rows
no_rows-IsValid = record {
  auction_ids = tt;
  emails = tt;
  sellers = λ k a e. unfold get_auction in cc e;
  winners = λ k a e. unfold get_auction in cc e;
  bids = tt;
}

module _ (p : Platform) (e : Engine p) where
  pub data Step (w : World) : World → Type 0 where
    registers :
        (commit_fails : Bool) (env : UserEnv) (request : UserCreate)
        → Step w (get_session commit_fails (create_user p env request) w).1
    lists :
        (commit_fails : Bool) (env : CreateEnv) (header : Option String) (request : AuctionCreate p)
        → Step w (get_session commit_fails (create_auction_route p env header request) w).1
    bids :
        (commit_fails : Bool) (env : BidEnv) (header : Option String) (auction_id : ℕ)
        (request : BidRequest p)
        → Step w (get_session commit_fails (place_bid_route p env header auction_id request) w).1
    searches :
        (commit_fails : Bool) (query : Query p)
        → Step w (get_session commit_fails (search_auctions_route p e query) w).1
    views :
        (commit_fails : Bool) (auction_id now : ℕ) (hgetall_fails : Bool)
        → Step w (get_session commit_fails (view_auction auction_id now hgetall_fails) w).1
    reads_bids :
        (commit_fails : Bool) (auction_id : ℕ) (cursor : Option ℕ) (limit : ℕ)
        → Step w (get_session commit_fails (bid_history auction_id cursor limit) w).1
    starts : (now : ℕ) (faults : Faults) → Step w (poll_due_starts now faults w)
    closes : (now : ℕ) (faults : Faults) → Step w (poll_due_closes p now faults w)
    redis_changes : (r : Redis) → Step w (record w { redis = r })

  pub data Steps (w : World) : World → Type 0 where
    start : Steps w w
    then_step : {u v : World} → Steps w u → Step u v → Steps w v

  read_only : {w v : World} → v ≡ w → Changes w.db v.db
  read_only {w} same = subst (λ x. Changes w.db x.db) (sym same) (unchanged w.db)

  Step-Changes : {w v : World} → IsValid w.db → Step w v → Changes w.db v.db
  Step-Changes {w} valid (registers commit_fails env request) =
      create_user-Changes p commit_fails env request w
  Step-Changes {w} valid (lists commit_fails env header request) =
      create_auction_route-Changes p commit_fails env header request w
  Step-Changes {w} valid (bids commit_fails env header auction_id request) =
      place_bid_route-Changes p commit_fails env header auction_id request w
  Step-Changes {w} valid (searches commit_fails query) =
      read_only (search_auctions_route-Reads p e commit_fails query w)
  Step-Changes {w} valid (views commit_fails auction_id now hgetall_fails) =
      read_only (view_auction-Reads commit_fails auction_id now hgetall_fails w)
  Step-Changes {w} valid (reads_bids commit_fails auction_id cursor limit) =
      read_only (bid_history-Reads commit_fails auction_id cursor limit w)
  Step-Changes {w} valid (starts now faults) = poll_due_starts-Changes now faults w valid
  Step-Changes {w} valid (closes now faults) = poll_due_closes-Changes p now faults w valid
  Step-Changes {w} valid (redis_changes r) = unchanged w.db

  Steps-Changes : {w v : World} → IsValid w.db → Steps w v → Changes w.db v.db
  Steps-Changes {w} valid start = unchanged w.db
  Steps-Changes valid (then_step before step) =
      let first = Steps-Changes valid before in
      and_then first (Step-Changes (Changes-IsValid first valid) step)

  -- Whatever steps follow, one after the other, on empty tables, whatever fails meanwhile: auctions
  -- have different ids and users different emails, the seller of each auction, its winner if it has
  -- one and the bidder of each bid are users, and the auction of each bid is in the table.
  pub Steps-IsValid : {w v : World} → w.db ≡ no_rows → Steps w v → IsValid v.db
  Steps-IsValid empty steps =
      let valid = subst IsValid (sym empty) no_rows-IsValid in
      Changes-IsValid (Steps-Changes valid steps) valid

  -- Whatever steps follow, one after the other, on tables whose keys are valid, whatever fails
  -- meanwhile: an auction that is sold or unsold keeps its row.
  pub Steps-settled :
      {w v : World} (k : ℕ) (a : Auction)
      → IsValid w.db
      → get_auction k w.db ≡ some a
      → is_final a.state ≡ true
      → Steps w v
      → get_auction k v.db ≡ some a
  Steps-settled k a valid row final steps =
      Changes-settled k a (Steps-Changes valid steps) row final

  -- Whatever steps follow, one after the other, on tables whose keys are valid, whatever fails
  -- meanwhile: the users and the bids that are there stay in their order with new ones after them,
  -- and each auction keeps its row but for its state, which goes forward, its end, which goes later,
  -- its price and its winner.
  pub Steps-Grows : {w v : World} → IsValid w.db → Steps w v → Grows w.db v.db
  Steps-Grows valid steps = Changes-Grows (Steps-Changes valid steps)
