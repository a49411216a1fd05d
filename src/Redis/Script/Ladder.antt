-- ===== src/Redis/Script/Ladder.antt =====
-- The bids on one auction, over any sequence of runs of place_bid.lua.
use sd_online_auction_backen.Common.{
  ℕ, ◌+◌, ◌≤◌, ◌<◌, ◌≡◌, refl, sym, ap, ◌∙◌, eq_of_some, ◌≢◌, inl, inr, true, false, ◌&&◌, Option,
  none, some, List, [], ◌∷◌, arith, ◌==◌, if◌then◌else◌, Bool-cases, All,
}
use sd_online_auction_backen.Platform.{Platform, numeric_limit}
use sd_online_auction_backen.Models.{active}
use sd_online_auction_backen.Redis.{Hash, Redis, fields}
use sd_online_auction_backen.Redis.Script.{Args, or_zero, take_lead, accept, place_bid_lua}
use sd_online_auction_backen.Redis.Script.Outcomes.{
  below_min-ge, is_acceptance, hashes-place_bid_lua,
}
use sd_online_auction_backen.Redis.Script.Leads.{place_bid_lua-Led}

-- an accepted bid: who, how much, and its number
pub record Win : Type 0 where
  pub bidder : ℕ
  pub amount : ℕ
  pub number : ℕ

-- From a price and a number on, each bid is higher by at least `inc` and has the next number.
abbrev pub Climbs : ℕ → ℕ → ℕ → List Win → Type 0
Climbs inc cur num [] = Unit
Climbs inc cur num (w ∷ ws) =
    (cur + inc ≤ w.amount) × (w.number ≡ num + 1) × Climbs inc w.amount w.number ws

-- the price, the leader and the number that a hash shows
abbrev pub Standing : Type 0
Standing = ℕ × Option (Option ℕ) × ℕ

abbrev pub standing : Hash → Standing
standing h = (or_zero h.highest_bid, h.highest_bidder, or_zero h.sequence_num)

-- The standing after the bids: that of the last one, if there is one.
abbrev pub after : Standing → List Win → Standing
after s [] = s
after s (w ∷ ws) = after (w.amount, some (some w.bidder), w.number) ws

module _ (p : Platform) where
  -- the runs, one after the other
  abbrev pub run : List Args → Redis → Redis
  run [] r = r
  run (a ∷ calls) r = run calls (place_bid_lua p a r).1

  -- each run carries a bid id that has no result yet, as `uuid4` gives
  abbrev pub Fresh : List Args → Redis → Type 0
  Fresh [] r = Unit
  Fresh (a ∷ calls) r = (r.results a.bid_id ≡ none) × Fresh calls (place_bid_lua p a r).1

  -- the accepted bids on auction `k`, in order
  abbrev pub wins : ℕ → List Args → Redis → List Win
  wins k [] r = []
  wins k (a ∷ calls) r =
      let rest = wins k calls (place_bid_lua p a r).1 in
      if a.auction_id == k && is_acceptance (place_bid_lua p a r).0
      then record {
        bidder = a.bidder_id;
        amount = a.amount;
        number = or_zero (fields (r.hashes k)).sequence_num + 1;
      }
        ∷ rest
      else rest

  -- One run changes the hash of its auction by taking the lead, or leaves it; others it leaves.
  pub step :
      (k : ℕ) (a : Args) (r : Redis)
      → r.results a.bid_id ≡ none
      → (fields ((place_bid_lua p a r).1.hashes k) ≡ (
          if a.auction_id == k && is_acceptance (place_bid_lua p a r).0
          then take_lead a (fields (r.hashes k))
          else fields (r.hashes k)))
  unfolding accept
  step k a r new = elim (Bool-cases (is_acceptance (place_bid_lua p a r).0)) [
    | inl won ↦ ground (arith, won, (place_bid_lua-Led p a r new won).writes)
    | inr lost ↦ ground (arith, lost, hashes-place_bid_lua p a r lost)
  ]

  enough :
      (k inc : ℕ) (a : Args) (r : Redis) (h : Hash)
      → fields (r.hashes k) ≡ h
      → r.results a.bid_id ≡ none
      → h.min_increment ≡ some inc
      → inc < numeric_limit
      → or_zero h.highest_bid < numeric_limit
      → (a.auction_id == k && is_acceptance (place_bid_lua p a r).0) ≡ true
      → or_zero h.highest_bid + inc ≤ a.amount
  enough k inc a r h here new mi li hb won =
      let k_eq : a.auction_id ≡ k = ground arith in
      let led = place_bid_lua-Led p a r new (ground arith) in
      let at_k : fields (r.hashes a.auction_id) ≡ h = rw k_eq here in
      let same : inc ≡ led.inc =
        eq_of_some (sym mi ∙ ap (λ x. x.min_increment) (sym at_k) ∙ led.rises) in
      rw (← at_k, same) (below_min-ge p _ _ _ (rw at_k hb) (rw (← same) li) led.enough)

  climb :
      (k inc : ℕ) (calls : List Args) (r : Redis) (h : Hash)
      → fields (r.hashes k) ≡ h
      → Fresh calls r
      → All (λ a. a.amount < numeric_limit) calls
      → h.min_increment ≡ some inc
      → inc < numeric_limit
      → or_zero h.highest_bid < numeric_limit
      → Climbs inc (or_zero h.highest_bid) (or_zero h.sequence_num) (wins k calls r)
        × (standing (fields ((run calls r).hashes k)) ≡ after (standing h) (wins k calls r))
  unfolding take_lead
  climb k inc [] r h here fr am mi li hb = (tt, ap standing here)
  climb k inc (a ∷ calls) r h here fr am mi li hb =
      let test = a.auction_id == k && is_acceptance (place_bid_lua p a r).0 in
      elim (Bool-cases test) [
        | inl won ↦
            let (low, last) =
              climb k inc calls (place_bid_lua p a r).1 (take_lead a h)
                (step k a r fr.0 ∙ rw won (ap (take_lead a) here)) fr.1 am.1 mi li am.0 in
            rw (won, here) ((enough k inc a r h here fr.0 mi li hb won, refl, low), last)
        | inr lost ↦ rw lost (
            climb k inc calls (place_bid_lua p a r).1 h (step k a r fr.0 ∙ rw lost here) fr.1 am.1
              mi li hb)
      ]

  -- On an auction whose bids rise by `inc`, after any runs for it and for others: each accepted bid
  -- is at least `inc` above the one before it, the numbers go up by one without a gap, and the hash
  -- shows the last accepted bid. The prices stay in the column's range.
  pub run-Climbs :
      (k inc : ℕ) (calls : List Args) (r : Redis)
      → Fresh calls r
      → All (λ a. a.amount < numeric_limit) calls
      → (fields (r.hashes k)).min_increment ≡ some inc
      → inc < numeric_limit
      → or_zero (fields (r.hashes k)).highest_bid < numeric_limit
      → Climbs inc
          (or_zero (fields (r.hashes k)).highest_bid)
          (or_zero (fields (r.hashes k)).sequence_num)
          (wins k calls r)
        × (standing (fields ((run calls r).hashes k))
            ≡ after (standing (fields (r.hashes k))) (wins k calls r))
  run-Climbs k inc calls r fr am mi li hb = climb k inc calls r _ refl fr am mi li hb

  -- After any runs for new bids the hash of an auction shows the last bid accepted on it, whatever
  -- their amounts.
  pub run-standing :
      (k : ℕ) (calls : List Args) (r : Redis)
      → Fresh calls r
      → standing (fields ((run calls r).hashes k))
        ≡ after (standing (fields (r.hashes k))) (wins k calls r)
  unfolding take_lead
  run-standing k [] r fr = refl
  run-standing k (a ∷ calls) r fr =
      let test = a.auction_id == k && is_acceptance (place_bid_lua p a r).0 in
      let later = run-standing k calls (place_bid_lua p a r).1 fr.1 in
      elim (Bool-cases test) [
        | inl won ↦ rw won (
            later
            ∙ ap (λ h. after (standing h) (wins k calls (place_bid_lua p a r).1))
                (rw won at (step k a r fr.0)))
        | inr lost ↦ rw lost (
            later
            ∙ ap (λ h. after (standing h) (wins k calls (place_bid_lua p a r).1))
                (rw lost at (step k a r fr.0)))
      ]

  inactive_loses :
      (k : ℕ) (a : Args) (r : Redis)
      → r.results a.bid_id ≡ none
      → (fields (r.hashes k)).state ≢ some active
      → (a.auction_id == k && is_acceptance (place_bid_lua p a r).0) ≡ false
  inactive_loses k a r new shut =
      elim (Bool-cases (a.auction_id == k && is_acceptance (place_bid_lua p a r).0)) [
        | inr lost ↦ lost
        | inl won ↦
            let here : a.auction_id ≡ k = ground arith in
            absurd (shut (rw here at ((place_bid_lua-Led p a r new (ground arith)).was_active)))
      ]

  -- While the hash of an auction does not say that it is active, no run accepts a bid on it, and
  -- its hash stays as it is.
  pub run_inactive :
      (k : ℕ) (calls : List Args) (r : Redis)
      → Fresh calls r
      → (fields (r.hashes k)).state ≢ some active
      → (wins k calls r ≡ []) × (fields ((run calls r).hashes k) ≡ fields (r.hashes k))
  run_inactive k [] r fr shut = (refl, refl)
  run_inactive k (a ∷ calls) r fr shut =
      let lost = inactive_loses k a r fr.0 shut in
      let same : fields ((place_bid_lua p a r).1.hashes k) ≡ fields (r.hashes k) =
        step k a r fr.0 ∙ rw lost in
      let (none_won, stays) =
        run_inactive k calls (place_bid_lua p a r).1 fr.1 (λ e. shut (rw (← same) e)) in
      rw lost (none_won, stays ∙ same)
