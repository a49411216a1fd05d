-- ===== src/Bids/Place/Conflict.antt =====
-- What a call of `place_bid` leaves in Redis and in the tables when they part: the script's run is
-- not undone by the session.
use sd_online_auction_backen.Common.{
  ℕ, ◌+◌, ◌<◌, ◌≡◌, ◌≢◌, ap, inl, inr, true, false, Option, none, some, arith, Bool, ◌∙◌,
  if◌then◌else◌, Bool-cases,
}
use sd_online_auction_backen.Platform.{Platform, numeric_limit}
use sd_online_auction_backen.Models.{Auction, cents, lua_script_error}
use sd_online_auction_backen.Redis.{Hash, Redis, fields}
use sd_online_auction_backen.Redis.Script.{Reply, or_zero, take_lead, accept}
use sd_online_auction_backen.Redis.Script.Outcomes.{is_acceptance}
use sd_online_auction_backen.Redis.Script.Leads.{Led, place_bid_lua-Led}
use sd_online_auction_backen.Session.{
  World, integrity_error, redis_error, ok, raised, get_session, closing,
}
use sd_online_auction_backen.Session.Tables.{get_auction, has_user, bid_keys_hold}
use sd_online_auction_backen.Auctions.Lifecycle.{CloseFaults, leader, close_auction}
use sd_online_auction_backen.Auctions.Lifecycle.Transitions.{close_auction_unknown_leader}
use sd_online_auction_backen.Bids.Place.{
  won_outcome, not_evaluated, script_args, decide, on_reply, place_bid,
}
use sd_online_auction_backen.Bids.Recording.{Call, Env, reply_lost, persist, record_outcome}
use sd_online_auction_backen.Bids.Place.Evaluation.{
  Reaches, before, streamed, scripted, place_bid-scripted,
}

module _ (p : Platform) where
  persist_unknown :
      (env : Env) (c : Call p) (shown n : ℕ) (w : World)
      → has_user c.bidder_id w.db ≡ false
      → (p.numeric c.amount ≢ none)
      → n < 2147483648
      → persist p env c (won_outcome (cents shown) n) w ≡ (raised integrity_error, w)
  unfolding persist bid_keys_hold won_outcome
  persist_unknown env c shown n w unknown fits small = ground arith

  -- the answer of the script is an acceptance
  abbrev pub ScriptAccepts : Env → Call p → Auction → World → Type 0
  ScriptAccepts env c auction w = is_acceptance (scripted p env c auction w.redis).0 ≡ true

  pub scripted-Led :
      (env : Env) (c : Call p) (auction : Auction) (w : World)
      → w.redis.results env.bid_id ≡ none
      → ScriptAccepts env c auction w
      → Led p
          (script_args p env c auction)
          (before p c w)
          (streamed p env c w.redis)
          (scripted p env c auction w.redis).0
          (scripted p env c auction w.redis).1
  unfolding script_args
  scripted-Led env c auction w new won =
      place_bid_lua-Led p (script_args p env c auction) (streamed p env c w.redis) new won

  leads-hash :
      (env : Env) (c : Call p) (auction : Auction) (w : World) (reply : Reply) (r' : Redis)
      → Led p (script_args p env c auction) (before p c w) (streamed p env c w.redis) reply r'
      → fields (r'.hashes c.auction_id) ≡ take_lead (script_args p env c auction) (before p c w)
  unfolding accept script_args
  leads-hash env c auction w reply r' led = rw led.writes (ground arith)

  leads_unknown :
      (env : Env) (c : Call p) (auction : Auction) (w : World) (reply : Reply) (r' : Redis)
      → Led p (script_args p env c auction) (before p c w) (streamed p env c w.redis) reply r'
      → has_user c.bidder_id w.db ≡ false
      → p.numeric c.amount ≢ none
      → or_zero (before p c w).sequence_num + 1 < 2147483648
      → on_reply p env c auction reply (record w { redis = r' })
        ≡ (raised integrity_error, record w { redis = r' })
  unfolding on_reply decide record_outcome script_args
  leads_unknown env c auction w reply r' led unknown fits small = rw led.replies (
      ground (
        arith,
        persist_unknown env c (p.fixed2 c.amount) (or_zero (before p c w).sequence_num + 1)
            (record w { redis = r' }) unknown fits small,
      ))

  place_bid_unheard :
      (env : Env) (c : Call p) (auction : Auction) (w : World)
      → get_auction c.auction_id w.db ≡ some auction
      → env.script_registered ≡ true
      → env.evalsha ≡ reply_lost
      → place_bid p env c w ≡ (
        ok (not_evaluated env.bid_id lua_script_error),
        record w { redis = (scripted p env c auction w.redis).1 },
      )
  unfolding place_bid on_reply
  place_bid_unheard env c auction w row reg lost = elim (Bool-cases env.xadd_fails) [
    | inl dropped ↦ rw row (ground (arith, dropped))
    | inr added ↦ rw row (ground (arith, added))
  ]

  -- A leading bid of somebody who is no user raises in the database, and the session rolls the
  -- tables back; but the hash keeps the lead, under that bidder.
  pub place_bid_unknown_bidder :
      (commit_fails : Bool) (env : Env) (c : Call p) (auction : Auction) (w : World)
      → Reaches p env c auction w
      → ScriptAccepts env c auction w
      → has_user c.bidder_id w.db ≡ false
      → p.numeric c.amount ≢ none
      → or_zero (before p c w).sequence_num + 1 < 2147483648
      → (get_session commit_fails (place_bid p env c) w
          ≡ (raised integrity_error, record w { redis = (scripted p env c auction w.redis).1 }))
        × (fields ((scripted p env c auction w.redis).1.hashes c.auction_id)
            ≡ take_lead (script_args p env c auction) (before p c w))
  unfolding get_session
  place_bid_unknown_bidder commit_fails env c auction w x won unknown fits small =
      let led = scripted-Led env c auction w x.new_id won in
      (
        rw (place_bid-scripted p env c auction w x) (
            ap (closing commit_fails w) (leads_unknown env c auction w _ _ led unknown fits small)),
        leads-hash env c auction w _ _ led,
      )

  -- A bid that the script accepts and whose reply is lost is answered with LUA_SCRIPT_ERROR, if the
  -- session commits, and adds no row, and the bid leads all the same.
  pub place_bid_reply_lost :
      (env : Env) (c : Call p) (auction : Auction) (w : World)
      → get_auction c.auction_id w.db ≡ some auction
      → env.script_registered ≡ true
      → env.evalsha ≡ reply_lost
      → w.redis.results env.bid_id ≡ none
      → ScriptAccepts env c auction w
      → (get_session false (place_bid p env c) w ≡ (
        ok (not_evaluated env.bid_id lua_script_error),
        record w { redis = (scripted p env c auction w.redis).1 },
      ))
        × (fields ((scripted p env c auction w.redis).1.hashes c.auction_id)
            ≡ take_lead (script_args p env c auction) (before p c w))
  unfolding get_session
  place_bid_reply_lost env c auction w row reg lost new won = (
    ap (closing false w) (place_bid_unheard env c auction w row reg lost),
    leads-hash env c auction w _ _ (scripted-Led env c auction w new won),
  )

  leader-fields :
      (found : Option Hash) (b : ℕ)
      → (fields found).highest_bidder ≡ some (some b)
      → leader found ≡ some b
  leader-fields none b e = cc
  leader-fields (some h) b e = rw e

  -- After such a bid, and whatever has happened since: if the leader of the auction's hash is the one
  -- that the bid has left, who still is no user, and the price is in range, then a close of the
  -- auction raises, whatever fails meanwhile, and changes neither the tables nor Redis.
  pub unknown_bidder_blocks_close :
      (commit_fails : Bool) (env : Env) (c : Call p) (auction : Auction) (w : World)
      → Reaches p env c auction w
      → ScriptAccepts env c auction w
      → has_user c.bidder_id w.db ≡ false
      → p.numeric c.amount ≢ none
      → or_zero (before p c w).sequence_num + 1 < 2147483648
      → (faults : CloseFaults) (later : Auction) (v : World)
      → get_auction c.auction_id v.db ≡ some later
      → leader (v.redis.hashes c.auction_id)
        ≡ leader ((get_session commit_fails (place_bid p env c) w).1.redis.hashes c.auction_id)
      → has_user c.bidder_id v.db ≡ false
      → or_zero (fields (v.redis.hashes c.auction_id)).highest_bid < numeric_limit
      → close_auction p c.auction_id faults v
        ≡ (raised (if faults.hgetall_fails then redis_error else integrity_error), v)
  unfolding take_lead script_args
  unknown_bidder_blocks_close commit_fails env c auction w x won unknown fits small faults later v
        row led still range =
      let (gone, leads) =
        place_bid_unknown_bidder commit_fails env c auction w x won unknown fits small in
      let left : leader ((scripted p env c auction w.redis).1.hashes c.auction_id)
          ≡ some c.bidder_id =
        leader-fields ((scripted p env c auction w.redis).1.hashes c.auction_id) _
          (ap (λ (h : Hash). h.highest_bidder) leads) in
      close_auction_unknown_leader p c.auction_id c.bidder_id faults later v row
        (rw gone at led ∙ left) range still
