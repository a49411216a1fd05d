-- ===== src/Bids/Place/Evaluation.antt =====
-- `place_bid` from the script's run to the answer.
use sd_online_auction_backen.Common.{
  ◌+◌, ◌++◌, [], ◌∷◌, ◌≡◌, refl, sym, ap, inl, inr, true, none, some, arith, if◌then◌else◌,
  Bool-cases,
}
use sd_online_auction_backen.Platform.{Platform}
use sd_online_auction_backen.Models.{
  Auction, Status, accepted, rejected, Reason, lua_script_error, cents,
}
use sd_online_auction_backen.Redis.{Hash, Redis, fields, xadd}
use sd_online_auction_backen.Redis.Script.{Reply, or_zero, reject, place_bid_lua}
use sd_online_auction_backen.Redis.Script.Outcomes.{rejection}
use sd_online_auction_backen.Redis.Script.Leads.{Led, Ran, errs, refuses, gains, place_bid_lua-Ran}
use sd_online_auction_backen.Session.{World, ok}
use sd_online_auction_backen.Session.Tables.{get_auction}
use sd_online_auction_backen.Bids.Place.{
  not_evaluated, lost_outcome, won_outcome, script_args, stream_entry, decide, on_reply, place_bid,
}
use sd_online_auction_backen.Bids.Recording.{Call, Env, replies, BidResult, bid_row}
use sd_online_auction_backen.Bids.Place.Persistence.{result_of, Recorded, record_outcome-ok}

eq_of_ok : {a b : BidResult} → ok a ≡ ok b → a ≡ b
eq_of_ok e = cc

not_both : {s : Status} → s ≡ accepted → s ≡ rejected → ⊥
not_both a b = cc

module _ (p : Platform) where
  -- Redis when the script starts
  abbrev pub streamed : Env → Call p → Redis → Redis
  streamed env c r = record r {
    streams =
        if env.xadd_fails then r.streams else (xadd c.auction_id (stream_entry p env c) r).streams;
  }

  -- the reply, and Redis when the script has run
  abbrev pub scripted : Env → Call p → Auction → Redis → Reply × Redis
  scripted env c auction r = place_bid_lua p (script_args p env c auction) (streamed env c r)

  -- The auction is there, the script is registered, and EVALSHA replies.
  pub record Reaches (env : Env) (c : Call p) (auction : Auction) (w : World) : Type 0 where
    pub found : get_auction c.auction_id w.db ≡ some auction
    pub registered : env.script_registered ≡ true
    pub replied : env.evalsha ≡ replies
    pub new_id : w.redis.results env.bid_id ≡ none

  pub place_bid-scripted :
      (env : Env) (c : Call p) (auction : Auction) (w : World)
      → Reaches env c auction w
      → place_bid p env c w
        ≡ on_reply p env c auction
            (scripted env c auction w.redis).0
            (record w { redis = (scripted env c auction w.redis).1 })
  unfolding place_bid
  place_bid-scripted env c auction w x = elim (Bool-cases env.xadd_fails) [
    | inl dropped ↦ rw x.found (ground (arith, dropped))
    | inr added ↦ rw x.found (ground (arith, added))
  ]

  -- the standing of the auction before the call
  abbrev pub before : Call p → World → Hash
  before c w = fields (w.redis.hashes c.auction_id)

  -- An accepted bid, from the script to the answer.
  pub record Accepted (env : Env) (c : Call p) (auction : Auction) (w : World) (res : BidResult)
      (w' : World) : Type 0 where
    pub led :
        Led p
          (script_args p env c auction)
          (before c w)
          (streamed env c w.redis)
          (scripted env c auction w.redis).0
          (scripted env c auction w.redis).1
    pub answers :
        res
        ≡ result_of env
            (won_outcome (cents (p.fixed2 c.amount)) (or_zero (before c w).sequence_num + 1))
    pub recorded :
        Recorded p env c auction
          (won_outcome (cents (p.fixed2 c.amount)) (or_zero (before c w).sequence_num + 1))
          (record w { redis = (scripted env c auction w.redis).1 })
          w'
    pub row :
        w'.db.bids
        ≡ w.db.bids
          ++ record {
            bid_id = env.bid_id;
            auction_id = c.auction_id;
            bidder_id = c.bidder_id;
            amount = recorded.amount;
            is_proxy = c.is_proxy;
            sequence_num = or_zero (before c w).sequence_num + 1;
            status = accepted;
            rejection_reason = none;
            created_ts = env.now_dt;
          }
            ∷ []

  unanswered :
      (env : Env) (c : Call p) (auction : Auction) (w : World) (res : BidResult)
      → (on_reply p env c auction none w).0 ≡ ok res
      → res.status ≡ rejected
  unfolding on_reply not_evaluated
  unanswered env c auction w res h = ground arith

  turned_down :
      (env : Env) (c : Call p) (auction : Auction) (why : Reason) (w : World) (res : BidResult)
      → (on_reply p env c auction (rejection why) w).0 ≡ ok res
      → res.status ≡ rejected
  unfolding on_reply decide lost_outcome
  turned_down env c auction why w res h = elim (Bool-cases env.hgetall_fails) [
    | inl broken ↦ cc (rw broken at h)
    | inr read ↦
        ap (λ (x : BidResult). x.status)
          (record_outcome-ok p env c auction _ w res (simp read at h)).0
  ]

  accepted_answer :
      (env : Env) (c : Call p) (auction : Auction) (w : World) (res : BidResult) (reply : Reply)
      (r' : Redis)
      → Ran p (script_args p env c auction) (streamed env c w.redis) reply r'
      → (on_reply p env c auction reply (record w { redis = r' })).0 ≡ ok res
      → res.status ≡ accepted
      → Led p (script_args p env c auction) (before c w) (streamed env c w.redis) reply r'
        × (res
            ≡ result_of env
                (won_outcome (cents (p.fixed2 c.amount)) (or_zero (before c w).sequence_num + 1)))
        × Recorded p env c auction
            (won_outcome (cents (p.fixed2 c.amount)) (or_zero (before c w).sequence_num + 1))
            (record w { redis = r' })
            (on_reply p env c auction reply (record w { redis = r' })).1
  unfolding on_reply decide script_args
  accepted_answer env c auction w res reply r' (errs e _) h s =
      absurd (not_both s (unanswered env c auction (record w { redis = r' }) res (rw e at h)))
  accepted_answer env c auction w res reply r' (refuses why e _) h s =
      absurd (not_both s (turned_down env c auction why _ res (rw e at h)))
  accepted_answer env c auction w res reply r' (gains led) h s =
      let (answers, recorded) = record_outcome-ok p env c auction _ _ res (rw led.replies at h) in
      (led, answers, rw led.replies recorded)

  -- A bid with a new id whose call returns "ACCEPTED" has taken the lead by the script's rules; the
  -- answer shows its price and its number; and one row with that number has been added under keys
  -- that hold, and its message has been published, if that did not fail.
  pub place_bid-Accepted :
      (env : Env) (c : Call p) (auction : Auction) (w : World) (res : BidResult)
      → Reaches env c auction w
      → (place_bid p env c w).0 ≡ ok res
      → res.status ≡ accepted
      → Accepted env c auction w res (place_bid p env c w).1
  unfolding script_args bid_row won_outcome
  place_bid-Accepted env c auction w res x h s =
      let scripting = place_bid-scripted env c auction w x in
      let ran =
        place_bid_lua-Ran p (script_args p env c auction) (streamed env c w.redis) x.new_id in
      let (led, answers, recorded) =
        accepted_answer env c auction w res _ _ ran (rw scripting at h) s in
      rw scripting
        (record { led = led; answers = answers; recorded = recorded; row = recorded.bids })

  -- A bid that the script has turned down for the reason `why`, with `r'` as Redis after its run.
  pub record TurnedDown (env : Env) (c : Call p) (auction : Auction) (w : World) (why : Reason)
      (reply : Reply) (r' : Redis) (res : BidResult) (w' : World) : Type 0 where
    pub replied : reply ≡ rejection why
    pub answers : res ≡ result_of env (lost_outcome (some why) (w.redis.hashes c.auction_id))
    pub recorded :
        Recorded p env c auction
          (lost_outcome (some why) (w.redis.hashes c.auction_id))
          (record w { redis = r' })
          w'
    pub row :
        w'.db.bids
        ≡ w.db.bids
          ++ record {
            bid_id = env.bid_id;
            auction_id = c.auction_id;
            bidder_id = c.bidder_id;
            amount = recorded.amount;
            is_proxy = c.is_proxy;
            sequence_num = or_zero (before c w).sequence_num;
            status = rejected;
            rejection_reason = some why;
            created_ts = env.now_dt;
          }
            ∷ []
    pub hashes : w'.redis.hashes ≡ w.redis.hashes
    pub published : w'.redis.published ≡ w.redis.published

  -- How a call that returns "REJECTED" has gone: the script has stopped at an error, and the tables
  -- and the hashes are as they were, or it has turned the bid down.
  pub data Rejected (env : Env) (c : Call p) (auction : Auction) (w : World) (reply : Reply)
      (r' : Redis) (res : BidResult) (w' : World) : Type 0 where
    stopped :
        reply ≡ none
        → res ≡ not_evaluated env.bid_id lua_script_error
        → w'.db ≡ w.db
        → w'.redis.hashes ≡ w.redis.hashes
        → Rejected env c auction w reply r' res w'
    turned :
        (why : Reason)
        → TurnedDown env c auction w why reply r' res w'
        → Rejected env c auction w reply r' res w'

  decided_by :
      (env : Env) (c : Call p) (auction : Auction) (w : World) (why : Reason) (res : BidResult)
      → let r' = (reject why (script_args p env c auction) (streamed env c w.redis)).1 in
        (on_reply p env c auction (rejection why) (record w { redis = r' })).0 ≡ ok res
        → TurnedDown env c auction w why
            (rejection why)
            r'
            res
            (on_reply p env c auction (rejection why) (record w { redis = r' })).1
  unfolding on_reply decide reject lost_outcome bid_row
  decided_by env c auction w why res h =
      let r' = (reject why (script_args p env c auction) (streamed env c w.redis)).1 in
      elim (Bool-cases env.hgetall_fails) [
        | inl broken ↦ cc (rw broken at h)
        | inr read ↦
            let (answers, recorded) =
              record_outcome-ok p env c auction
                (lost_outcome (some why) (w.redis.hashes c.auction_id)) (record w { redis = r' })
                res (simp read at h) in
            simp read (record {
              replied = refl;
              answers = answers;
              recorded = recorded;
              row = recorded.bids;
              hashes = ap (λ (r : Redis). r.hashes) recorded.redis;
              published = ap (λ (r : Redis). r.published) recorded.redis;
            })
      ]

  rejected_answer :
      (env : Env) (c : Call p) (auction : Auction) (w : World) (res : BidResult) (reply : Reply)
      (r' : Redis)
      → Ran p (script_args p env c auction) (streamed env c w.redis) reply r'
      → (on_reply p env c auction reply (record w { redis = r' })).0 ≡ ok res
      → res.status ≡ rejected
      → Rejected env c auction w reply r' res
          (on_reply p env c auction reply (record w { redis = r' })).1
  unfolding on_reply decide script_args won_outcome
  rejected_answer env c auction w res reply r' (errs e same) h s =
      rw (e, same) (stopped refl (sym (eq_of_ok (rw e at h))) refl refl)
  rejected_answer env c auction w res reply r' (refuses why e same) h s =
      rw (e, same) (turned why (decided_by env c auction w why res (rw (e, same) at h)))
  rejected_answer env c auction w res reply r' (gains led) h s = absurd (
      not_both
        (ap (λ (x : BidResult). x.status)
          (record_outcome-ok p env c auction _ _ res (rw led.replies at h)).0)
        s)

  -- A bid with a new id whose call returns "REJECTED" has changed no hash. If the script has turned
  -- it down, nothing is published, one row has been added, a rejected one with the bid's amount, the
  -- reason and the auction's current number, and the answer shows the reason, the current price and
  -- that number; else the tables are as they were.
  pub place_bid-Rejected :
      (env : Env) (c : Call p) (auction : Auction) (w : World) (res : BidResult)
      → Reaches env c auction w
      → (place_bid p env c w).0 ≡ ok res
      → res.status ≡ rejected
      → Rejected env c auction w
          (scripted env c auction w.redis).0
          (scripted env c auction w.redis).1
          res
          (place_bid p env c w).1
  unfolding script_args
  place_bid-Rejected env c auction w res x h s =
      let scripting = place_bid-scripted env c auction w x in
      let ran =
        place_bid_lua-Ran p (script_args p env c auction) (streamed env c w.redis) x.new_id in
      rw scripting (rejected_answer env c auction w res _ _ ran (rw scripting at h) s)
