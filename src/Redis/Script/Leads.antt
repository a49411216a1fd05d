-- ===== src/Redis/Script/Leads.antt =====
-- What one run of place_bid.lua on a new bid writes, however it ends.
use sd_online_auction_backen.Common.{
  ℕ, ◌<◌, ◌≡◌, refl, inl, inr, true, false, ◌&&◌, Option, none, some, arith, leb, leb-false_lt,
  Bool-cases,
}
use sd_online_auction_backen.Platform.{Platform}
use sd_online_auction_backen.Models.{
  active, Reason, bid_too_low, auction_not_active, auction_ended, self_outbid,
}
use sd_online_auction_backen.Redis.{Hash, Redis, fields}
use sd_online_auction_backen.Redis.Script.{
  Args, Reply, or_zero, state_is_active, is_bidder, reject, accept, check_amount, check_time,
  evaluate, place_bid_lua,
}
use sd_online_auction_backen.Redis.Script.Outcomes.{
  rejection, acceptance, is_acceptance, state-active,
}

module _ (p : Platform) where
  -- What a run that accepts a new bid has found, and all that it has changed.
  pub record Led (a : Args) (h : Hash) (r : Redis) (reply : Reply) (r' : Redis) : Type 0 where
    pub end : ℕ
    pub inc : ℕ
    pub was_active : h.state ≡ some active
    pub ends : h.end_ts ≡ some end
    pub rises : h.min_increment ≡ some inc
    pub in_time : a.now_ts < end
    pub enough : p.below_min a.amount (or_zero h.highest_bid) inc ≡ false
    pub replies : reply ≡ acceptance a h
    pub writes : r' ≡ (accept a h r).1

  check_amount-Led :
      (m : Option ℕ) (a : Args) (h : Hash) (r : Redis) (end : ℕ)
      → h.state ≡ some active
      → h.end_ts ≡ some end
      → h.min_increment ≡ m
      → a.now_ts < end
      → is_acceptance (check_amount p m a h r).0 ≡ true
      → Led a h r (check_amount p m a h r).0 (check_amount p m a h r).1
  unfolding check_amount
  check_amount-Led none a h r end s e mi t acc = cc
  check_amount-Led (some inc) a h r end s e mi t acc = record {
    end = end;
    inc = inc;
    was_active = s;
    ends = e;
    rises = mi;
    in_time = t;
    enough = ground arith;
    replies = ground arith;
    writes = ground arith;
  }

  check_time-Led :
      (m : Option ℕ) (a : Args) (h : Hash) (r : Redis)
      → h.state ≡ some active
      → h.end_ts ≡ m
      → is_acceptance (check_time p m a h r).0 ≡ true
      → Led a h r (check_time p m a h r).0 (check_time p m a h r).1
  unfolding check_time
  check_time-Led none a h r s e acc = cc
  check_time-Led (some end) a h r s e acc = elim (Bool-cases (leb end a.now_ts)) [
    | inl late ↦ cc (rw late at acc)
    | inr early ↦ rw early (
        check_amount-Led h.min_increment a h r end s e refl (leb-false_lt _ _ early)
          (rw early at acc))
  ]

  -- A new bid is accepted only in an active auction, before its end, at a price that the script's
  -- test of the increment lets through; then the reply holds the price and the next number, and
  -- nothing is written but the price, the leader, the time and the number of this auction's hash
  -- and the result of this bid.
  pub place_bid_lua-Led :
      (a : Args) (r : Redis)
      → r.results a.bid_id ≡ none
      → is_acceptance (place_bid_lua p a r).0 ≡ true
      → Led a (fields (r.hashes a.auction_id)) r (place_bid_lua p a r).0 (place_bid_lua p a r).1
  unfolding place_bid_lua
  place_bid_lua-Led a r new acc = rw new (led (fields (r.hashes a.auction_id)) refl (rw new at acc))
    where
      led :
          (h : Hash)
          → fields (r.hashes a.auction_id) ≡ h
          → is_acceptance (evaluate p a r).0 ≡ true
          → Led a (fields (r.hashes a.auction_id)) r (evaluate p a r).0 (evaluate p a r).1
      led h e acc' = elim (Bool-cases (state_is_active (fields (r.hashes a.auction_id)).state)) [
        | inl open_state ↦
            rw open_state
              (check_time-Led _ a _ r (state-active _ open_state) refl (rw open_state at acc'))
        | inr shut ↦ cc (rw shut at acc')
      ]

  -- the ways in which a run of a new bid ends, with all that it writes
  pub data Ran (a : Args) (r : Redis) (reply : Reply) (r' : Redis) : Type 0 where
    errs : reply ≡ none → r' ≡ r → Ran a r reply r'
    refuses : (why : Reason) → reply ≡ rejection why → r' ≡ (reject why a r).1 → Ran a r reply r'
    gains : Led a (fields (r.hashes a.auction_id)) r reply r' → Ran a r reply r'

  check_amount-lost :
      (m : Option ℕ) (a : Args) (h : Hash) (r : Redis)
      → is_acceptance (check_amount p m a h r).0 ≡ false
      → Ran a r (check_amount p m a h r).0 (check_amount p m a h r).1
  unfolding check_amount
  check_amount-lost none a h r acc = errs refl refl
  check_amount-lost (some m) a h r acc =
      elim (Bool-cases
        (is_bidder h.highest_bidder a.bidder_id && leb a.amount (or_zero h.highest_bid))) [
          | inl mine ↦ rw mine (refuses self_outbid refl refl)
          | inr other ↦ elim (Bool-cases (p.below_min a.amount (or_zero h.highest_bid) m)) [
            | inl low ↦ rw (other, low) (refuses bid_too_low refl refl)
            | inr high ↦ cc (rw (other, high) at acc)
          ]
        ]

  check_time-lost :
      (m : Option ℕ) (a : Args) (h : Hash) (r : Redis)
      → is_acceptance (check_time p m a h r).0 ≡ false
      → Ran a r (check_time p m a h r).0 (check_time p m a h r).1
  unfolding check_time
  check_time-lost none a h r acc = errs refl refl
  check_time-lost (some end) a h r acc = elim (Bool-cases (leb end a.now_ts)) [
    | inl late ↦ rw late (refuses auction_ended refl refl)
    | inr early ↦ rw early (check_amount-lost h.min_increment a h r (rw early at acc))
  ]

  -- A run of a new bid ends in one of three ways: a script error that changes nothing, a rejection
  -- that writes only the result of this bid, or a lead.
  pub place_bid_lua-Ran :
      (a : Args) (r : Redis)
      → r.results a.bid_id ≡ none
      → Ran a r (place_bid_lua p a r).0 (place_bid_lua p a r).1
  unfolding place_bid_lua
  place_bid_lua-Ran a r new = elim (Bool-cases (is_acceptance (place_bid_lua p a r).0)) [
    | inl won ↦ gains (place_bid_lua-Led a r new won)
    | inr lost ↦ rw new (run_lost (rw new at lost))
  ]
    where
      run_lost :
          is_acceptance (evaluate p a r).0 ≡ false → Ran a r (evaluate p a r).0 (evaluate p a r).1
      run_lost acc = elim (Bool-cases (state_is_active (fields (r.hashes a.auction_id)).state)) [
        | inl open_state ↦
            rw open_state
              (check_time-lost _ a (fields (r.hashes a.auction_id)) r (rw open_state at acc))
        | inr shut ↦ rw shut (refuses auction_not_active refl refl)
      ]
