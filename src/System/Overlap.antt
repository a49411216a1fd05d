-- ===== src/System/Overlap.antt =====
-- Bids that overlap. `place_bid` awaits the script's reply, and other requests and polls run before
-- it goes on. Here a bid is two steps, up to the reply and from there to the end of its session;
-- everything else is one step.
pub mod Held
pub mod Hashes
pub mod Starts
pub mod Closes
pub mod Requests
pub mod Bids
pub mod Recording
pub mod Numbered
pub mod Rising
pub mod Histories
pub mod Prices
use sd_online_auction_backen.Common.{
  ℕ, ◌≡◌, Bool, true, false, not, Option, none, some, String, List, [], ◌∷◌, ◌++◌,
}
use sd_online_auction_backen.Platform.{Platform}
use sd_online_auction_backen.Models.{Auction}
use sd_online_auction_backen.Redis.{Redis, xadd}
use sd_online_auction_backen.Redis.Script.{Reply}
use sd_online_auction_backen.Session.{
  World, Exception, key_error, Result, ok, raised, Action, raise_if, get_session, ◌>>=◌, ◌>>◌,
}
use sd_online_auction_backen.Session.Tables.{get_auction}
use sd_online_auction_backen.Auctions.Create.{AuctionCreate, Env as CreateEnv}
use sd_online_auction_backen.Bids.Recording.{Call, Env, unless}
use sd_online_auction_backen.Bids.Place.{evalsha, on_reply, script_args, stream_entry}
use sd_online_auction_backen.Users.{UserCreate, create_user, Env as UserEnv}
use sd_online_auction_backen.Routers.{BidBody, respond, create_auction_route}
use sd_online_auction_backen.Scheduler.{Faults, poll_due_starts, poll_due_closes}

-- a bid whose script has replied, and what its handler keeps
pub record Flight (p : Platform) : Type 0 where
  pub env : Env
  pub call : Call p
  pub auction : Auction
  pub reply : Reply

module _ (p : Platform) where
  -- the handler up to the reply, for an auction that it has found
  unfoldable pub evaluated : Env → Call p → Auction → Action Reply
  evaluated env c auction = do
    unless env.xadd_fails (xadd c.auction_id (stream_entry p env c))
    raise_if (not env.script_registered) key_error
    evalsha p env.evalsha (script_args p env c auction)

  -- and from there
  unfoldable pub recorded : Flight p → Action BidBody
  recorded f = do result ← on_reply p f.env f.call f.auction f.reply; respond result

  -- the tables, Redis, and the bids between their two steps
  pub record Busy : Type 0 where
    pub world : World
    pub flights : List (Flight p)

  -- what runs beside the bids; start polls and listings commit, and no reply of a listing's HSET is
  -- lost, so no hash is without its auction
  pub data Beside (w : World) : World → Type 0 where
    registers :
        (commit_fails : Bool) (env : UserEnv) (request : UserCreate)
        → Beside w (get_session commit_fails (create_user p env request) w).1
    lists :
        (env : CreateEnv) (header : Option String) (request : AuctionCreate p)
        → env.hset_lost ≡ false
        → Beside w (get_session false (create_auction_route p env header request) w).1
    starts :
        (now : ℕ) (faults : Faults)
        → faults.commit_fails ≡ false
        → Beside w (poll_due_starts now faults w)
    closes : (now : ℕ) (faults : Faults) → Beside w (poll_due_closes p now faults w)
    -- results expire, streams are trimmed, messages are delivered
    elsewhere : (r : Redis) → r.hashes ≡ w.redis.hashes → Beside w (record w { redis = r })

  -- the calls of the bids are those that `Q` allows
  pub data Moves (Q : Call p → Type 0) (s : Busy) : Busy → Type 0 where
    -- the bid's id is new, as `uuid4` gives; the row is one that the handler has read before
    evaluates :
        (env : Env) (c : Call p) (auction : Auction) (reply : Reply) (v : World)
        → Q c
        → s.world.redis.results env.bid_id ≡ none
        → evaluated env c auction s.world ≡ (ok reply, v)
        → Moves Q s (record {
          world = v;
          flights = record { env = env; call = c; auction = auction; reply = reply } ∷ s.flights;
        })
    fails :
        (env : Env) (c : Call p) (auction : Auction) (e : Exception) (v : World)
        → Q c
        → s.world.redis.results env.bid_id ≡ none
        → evaluated env c auction s.world ≡ (raised e, v)
        → Moves Q s (record s { world = v })
    records :
        (commit_fails : Bool) (before : List (Flight p)) (f : Flight p) (after : List (Flight p))
        → s.flights ≡ before ++ f ∷ after
        → Moves Q s (record {
          world = (get_session commit_fails (recorded f) s.world).1;
          flights = before ++ after;
        })
    -- the client or the process goes away
    vanishes :
        (before : List (Flight p)) (f : Flight p) (after : List (Flight p))
        → s.flights ≡ before ++ f ∷ after
        → Moves Q s (record s { flights = before ++ after })
    beside : (v : World) → Beside s.world v → Moves Q s (record s { world = v })

  pub data Run (Q : Call p → Type 0) (s : Busy) : Busy → Type 0 where
    start : Run Q s s
    then_move : {u v : Busy} → Run Q s u → Moves Q u v → Run Q s v
