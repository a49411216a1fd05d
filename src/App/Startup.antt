-- ===== src/App/Startup.antt =====
-- What start-up means for the bids that follow.
use sd_online_auction_backen.Common.{
  is_some, Bool, ◌≡◌, refl, ap, inl, inr, true, false, ◌||◌, none, some, arith, Bool-cases,
  if◌then◌else◌,
}
use sd_online_auction_backen.Platform.{Platform}
use sd_online_auction_backen.Models.{Auction}
use sd_online_auction_backen.Session.{World, key_error, ok, raised, get_session}
use sd_online_auction_backen.Session.Tables.{get_auction}
use sd_online_auction_backen.Bids.Recording.{Call, Env}
use sd_online_auction_backen.Bids.Place.{place_bid}
use sd_online_auction_backen.App.{
  imported, StartEnv, create_scheduler, lifespan, get_lua_sha, served_by,
}

lifespan-lua_sha :
    (start : StartEnv)
    → start.ping_fails || start.load_fails ≡ true
    → (lifespan start imported).1.lua_sha ≡ none
unfolding lifespan
lifespan-lua_sha start down = ground arith

lifespan-scheduler :
    (start : StartEnv)
    → start.close_fails ≡ false
    → ((lifespan start imported).0 ≡ ok tt)
      × ((lifespan start imported).1.scheduler ≡ some create_scheduler)
unfolding lifespan
lifespan-scheduler start closes = (rw closes refl, rw closes refl)

module _ (p : Platform) where
  place_bid_no_script :
      (commit_fails : Bool) (env : Env) (c : Call p) (auction : Auction) (w : World)
      → env.script_registered ≡ false
      → get_auction c.auction_id w.db ≡ some auction
      → let y = get_session commit_fails (place_bid p env c) w in
        (y.0 ≡ raised key_error) × (y.1.db ≡ w.db) × (y.1.redis.hashes ≡ w.redis.hashes)
  unfolding get_session place_bid
  place_bid_no_script commit_fails env c auction w none_known row =
      elim (Bool-cases env.xadd_fails) [
        | inl dropped ↦ rw row (ground (arith, dropped))
        | inr added ↦ rw row (ground (arith, added))
      ]

  -- A process that has started while Redis did not answer runs its scheduler and serves bids: each
  -- bid on an auction that is there raises a KeyError, and neither the tables nor the hashes change.
  pub place_bid_unregistered :
      (start : StartEnv) (commit_fails : Bool) (env : Env) (c : Call p) (auction : Auction)
      (w : World)
      → start.close_fails ≡ false
      → start.ping_fails || start.load_fails ≡ true
      → get_auction c.auction_id w.db ≡ some auction
      → let s = (lifespan start imported).1 in
        let y = get_session commit_fails (place_bid p (served_by s env) c) w in
        ((lifespan start imported).0 ≡ ok tt)
        × (s.scheduler ≡ some create_scheduler)
        × (y.0 ≡ raised key_error)
        × (y.1.db ≡ w.db)
        × (y.1.redis.hashes ≡ w.redis.hashes)
  unfolding served_by
  place_bid_unregistered start commit_fails env c auction w closes down row =
      let (starts, scheduled) = lifespan-scheduler start closes in
      let unknown = ap is_some (lifespan-lua_sha start down) in
      let (raises, tables, hashes) =
        place_bid_no_script commit_fails (served_by (lifespan start imported).1 env) c auction w
          unknown row in
      (starts, scheduled, raises, tables, hashes)

-- The script is known to the process exactly if PING and SCRIPT LOAD went through at start-up.
pub get_lua_sha-lifespan :
    (start : StartEnv)
    → get_lua_sha (lifespan start imported).1
      ≡ (if start.ping_fails || start.load_fails then raised key_error else ok start.sha)
unfolding get_lua_sha lifespan
get_lua_sha-lifespan start = ground arith
