-- ===== src/Redis/Script/Outcomes.antt =====
-- What one run of place_bid.lua decides, against the rules of the auction.
use sd_online_auction_backen.Common.{
  ℕ, ◌+◌, ◌≤◌, ◌<◌, ◌≡◌, refl, ◌≢◌, ◌⊎◌, inl, inr, Bool, true, false, Option, none, some, [], ◌∷◌,
  arith, ◌==◌, leb, leb→le, leb-false_lt, eq_of_some, Bool-cases, if◌then◌else◌,
}
use native.Mathlib.Decide.{dec_lt}
use sd_online_auction_backen.Platform.{Platform, numeric_limit}
use sd_online_auction_backen.Models.{
  AuctionState, active, Reason, bid_too_low, auction_not_active, auction_ended, self_outbid,
}
use sd_online_auction_backen.Redis.{Hash, Redis, fields}
use sd_online_auction_backen.Redis.Script.{
  Args, int, price, unix, text, Reply, or_nil, or_zero, state_is_active, is_bidder, reject, accept,
  check_amount, check_time, place_bid_lua,
}

abbrev pub rejection : Reason → Reply
rejection why = some (int 0 ∷ text why ∷ [])

-- the reply to a bid that takes the lead
abbrev pub acceptance : Args → Hash → Reply
acceptance a h =
    some (int 1 ∷ price a.amount ∷ int (or_zero h.sequence_num + 1) ∷ or_nil unix h.end_ts ∷ [])

-- status 1
abbrev pub is_acceptance : Reply → Bool
is_acceptance (some (int n ∷ _)) = n == 1
is_acceptance _ = false

-- The rules by which a reply to a new bid is right, for an auction that ends at `end` and whose
-- bids rise by at least `inc`; they leave the case of exactly the least bid open.
pub data Ruling (a : Args) (h : Hash) (end inc : ℕ) (reply : Reply) : Type 0 where
  not_active :
      h.state ≢ some active → reply ≡ rejection auction_not_active → Ruling a h end inc reply
  ended :
      h.state ≡ some active
      → end ≤ a.now_ts
      → reply ≡ rejection auction_ended
      → Ruling a h end inc reply
  outbids_self :
      h.state ≡ some active
      → a.now_ts < end
      → h.highest_bidder ≡ some (some a.bidder_id)
      → a.amount ≤ or_zero h.highest_bid
      → reply ≡ rejection self_outbid
      → Ruling a h end inc reply
  too_low :
      h.state ≡ some active
      → a.now_ts < end
      → (h.highest_bidder ≢ some (some a.bidder_id)) ⊎ (or_zero h.highest_bid < a.amount)
      → a.amount ≤ or_zero h.highest_bid + inc
      → reply ≡ rejection bid_too_low
      → Ruling a h end inc reply
  leads :
      h.state ≡ some active
      → a.now_ts < end
      → or_zero h.highest_bid + inc ≤ a.amount
      → reply ≡ acceptance a h
      → Ruling a h end inc reply

pub state-active : (s : Option AuctionState) → state_is_active s ≡ true → s ≡ some active
state-active s e = ground arith

state-not_active : (s : Option AuctionState) → state_is_active s ≡ false → s ≢ some active
state-not_active s e k = ground arith

is_bidder-eq : (b : Option (Option ℕ)) (n : ℕ) → is_bidder b n ≡ true → b ≡ some (some n)
is_bidder-eq b n e = ground arith

is_bidder-ne : (b : Option (Option ℕ)) (n : ℕ) → is_bidder b n ≡ false → b ≢ some (some n)
is_bidder-ne b n e k = ground arith

module _ (p : Platform) where
  below_min-le :
      (a c i : ℕ) → c < numeric_limit → i < numeric_limit → p.below_min a c i ≡ true → a ≤ c + i
  below_min-le a c i hc hi e = elim (dec_lt (c + i) a) [
    | yes more ↦ cc (e, p.below_min_gt a c i hc hi more)
    | no less ↦ omega arith
  ]

  pub below_min-ge :
      (a c i : ℕ) → c < numeric_limit → i < numeric_limit → p.below_min a c i ≡ false → c + i ≤ a
  below_min-ge a c i hc hi e = elim (dec_lt a (c + i)) [
    | yes less ↦ cc (e, p.below_min_lt a c i hc hi less)
    | no more ↦ omega arith
  ]

  check_amount-Ruling :
      (m : Option ℕ) (a : Args) (h : Hash) (r : Redis) (end inc : ℕ)
      → m ≡ some inc
      → h.state ≡ some active
      → a.now_ts < end
      → or_zero h.highest_bid < numeric_limit
      → inc < numeric_limit
      → Ruling a h end inc (check_amount p m a h r).0
  unfolding check_amount
  check_amount-Ruling none a h r end inc e s t hc hi = cc
  check_amount-Ruling (some m) a h r end inc e s t hc hi =
      elim (Bool-cases (is_bidder h.highest_bidder a.bidder_id)) [
        | inl mine ↦ elim (Bool-cases (leb a.amount (or_zero h.highest_bid))) [
          | inl low ↦ rw (mine, low) (outbids_self s t (is_bidder-eq _ _ mine) (ground arith) refl)
          | inr high ↦ rw (mine, high) (by_test _ refl (inr (ground arith)))
        ]
        | inr other ↦ rw other (by_test _ refl (inl (is_bidder-ne _ _ other)))
      ]
    where
      by_test :
          (b : Bool)
          → p.below_min a.amount (or_zero h.highest_bid) m ≡ b
          → (h.highest_bidder ≢ some (some a.bidder_id)) ⊎ (or_zero h.highest_bid < a.amount)
          → Ruling a h end inc (if b then reject bid_too_low a r else accept a h r).0
      by_test true t' why =
          too_low s t why
            (omega (arith, below_min-le _ _ _ hc (rw (eq_of_some e) hi) t', eq_of_some e)) refl
      by_test false t' why =
          leads s t (omega (arith, below_min-ge _ _ _ hc (rw (eq_of_some e) hi) t', eq_of_some e))
            refl

  check_time-Ruling :
      (m : Option ℕ) (a : Args) (h : Hash) (r : Redis) (end inc : ℕ)
      → m ≡ some end
      → h.state ≡ some active
      → h.min_increment ≡ some inc
      → or_zero h.highest_bid < numeric_limit
      → inc < numeric_limit
      → Ruling a h end inc (check_time p m a h r).0
  unfolding check_time
  check_time-Ruling none a h r end inc e s li lc lin = cc
  check_time-Ruling (some t) a h r end inc e s li lc lin = elim (Bool-cases (leb t a.now_ts)) [
    | inl late ↦ rw late (ended s (omega (arith, leb→le _ _ late, eq_of_some e)) refl)
    | inr early ↦ rw early (
        check_amount-Ruling h.min_increment a h r end inc li s
          (omega (arith, leb-false_lt _ _ early, eq_of_some e)) lc lin)
  ]

  -- The reply to a bid id with no result, on a hash whose auction ends at `end` and rises by `inc`,
  -- follows the rules, if the current price and the increment are in the column's range.
  pub place_bid_lua-Ruling :
      (a : Args) (h : Hash) (r : Redis) (end inc : ℕ)
      → r.results a.bid_id ≡ none
      → r.hashes a.auction_id ≡ some h
      → h.end_ts ≡ some end
      → h.min_increment ≡ some inc
      → or_zero h.highest_bid < numeric_limit
      → inc < numeric_limit
      → Ruling a h end inc (place_bid_lua p a r).0
  unfolding place_bid_lua
  place_bid_lua-Ruling a h r end inc new at he li lc lin =
      rw (new, at)
        (elim (Bool-cases (state_is_active h.state)) [
          | inl open_state ↦
              rw open_state
                (check_time-Ruling h.end_ts a h r end inc he (state-active _ open_state) li lc lin)
          | inr shut ↦ rw shut (not_active (state-not_active _ shut) refl)
        ])

  check_amount-hashes :
      (m : Option ℕ) (a : Args) (h : Hash) (r : Redis)
      → is_acceptance (check_amount p m a h r).0 ≡ false
      → (check_amount p m a h r).1.hashes ≡ r.hashes
  unfolding check_amount
  check_amount-hashes m a h r e = ground arith

  -- A run that does not accept, for whatever reason, a script error included, changes no hash of
  -- any auction.
  pub hashes-place_bid_lua :
      (a : Args) (r : Redis)
      → is_acceptance (place_bid_lua p a r).0 ≡ false
      → (place_bid_lua p a r).1.hashes ≡ r.hashes
  unfolding place_bid_lua
  hashes-place_bid_lua a r e = ground (
    arith,
    check_amount-hashes (fields (r.hashes a.auction_id)).min_increment a
        (fields (r.hashes a.auction_id)) r,
  )
