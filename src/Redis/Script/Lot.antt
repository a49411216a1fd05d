-- ===== src/Redis/Script/Lot.antt =====
-- What an auction promises, without hashes, results, retries and other auctions: a lot with a price,
-- a leader and a number of bids, to which offers are made.
use sd_online_auction_backen.Common.{
  ℕ, ◌+◌, ◌≡◌, refl, ap, ◌∙◌, inl, inr, Bool, false, ◌&&◌, not, Option, none, some, List, [], ◌∷◌,
  arith, ltb, leb, ◌==◌, All, All-map, Bool-cases, if◌then◌else◌,
}
use sd_online_auction_backen.Platform.{Platform}
use sd_online_auction_backen.Redis.{Hash, Redis, fields}
use sd_online_auction_backen.Redis.Script.{Args, place_bid_lua, or_zero, state_is_active}
use sd_online_auction_backen.Redis.Script.Ladder.{run}
use sd_online_auction_backen.Redis.Script.Once.{
  is_in, without_retries, Ready, Decided, Decided-replays, results-place_bid_lua, Decided-run,
  is_in-Decided, All-Ready, All-Decided,
}

pub record Lot : Type 0 where
  pub is_open : Bool
  pub closes : ℕ
  pub increment : ℕ
  pub price : ℕ
  pub leader : Option ℕ
  pub bids : ℕ

pub record Offer : Type 0 where
  pub bidder : ℕ
  pub amount : ℕ
  pub now : ℕ

abbrev pub leads : Option ℕ → ℕ → Bool
leads none bidder = false
leads (some b) bidder = b == bidder

-- the lot that a hash stands for
abbrev pub flat : Option (Option ℕ) → Option ℕ
flat none = none
flat (some b) = b

abbrev pub lot_of : Hash → Lot
lot_of h = record {
  is_open = state_is_active h.state;
  closes = or_zero h.end_ts;
  increment = or_zero h.min_increment;
  price = or_zero h.highest_bid;
  leader = flat h.highest_bidder;
  bids = or_zero h.sequence_num;
}

abbrev pub offer_of : Args → Offer
offer_of a = record { bidder = a.bidder_id; amount = a.amount; now = a.now_ts }

-- the offers for an auction
abbrev pub offers : ℕ → List Args → List Offer
offers k [] = []
offers k (a ∷ calls) =
    let rest = offers k calls in if a.auction_id == k then offer_of a ∷ rest else rest

module _ (too_low : ℕ → ℕ → ℕ → Bool) where
  -- an offer for an open lot that comes in time, is high enough, and does not lower the leader's own
  abbrev pub takes : Lot → Offer → Bool
  takes l o =
      l.is_open
      && ltb o.now l.closes
      && not (too_low o.amount l.price l.increment)
      && not (leads l.leader o.bidder && leb o.amount l.price)

  abbrev pub make : Lot → Offer → Lot
  make l o =
      if takes l o
      then record l { price = o.amount; leader = some o.bidder; bids = l.bids + 1 }
      else l

  abbrev pub make_all : Lot → List Offer → Lot
  make_all l [] = l
  make_all l (o ∷ os) = make_all (make l o) os

module _ (p : Platform) where
  -- a bid that is new
  makes :
      (k : ℕ) (a : Args) (r : Redis)
      → Ready r a
      → r.results a.bid_id ≡ none
      → lot_of (fields ((place_bid_lua p a r).1.hashes k)) ≡ (
          if a.auction_id == k
          then make p.below_min (lot_of (fields (r.hashes k))) (offer_of a)
          else lot_of (fields (r.hashes k)))
  unfolding place_bid_lua
  makes k a r ready new = ground arith

  -- the bids that are not retries are new
  abbrev New : List ℕ → Redis → Args → Type 0
  New seen r a = is_in a.bid_id seen ≡ false → r.results a.bid_id ≡ none

  All-New :
      (a : Args) (seen : List ℕ) (r : Redis) (calls : List Args)
      → All (New seen r) calls
      → All (New (a.bid_id ∷ seen) (place_bid_lua p a r).1) calls
  All-New a seen r [] new = tt
  All-New a seen r (b ∷ calls) new = (
    λ e.
        results-place_bid_lua p a r b.bid_id (λ q. ground (arith, e, q))
        ∙ new.0 (ground (arith, e)),
    All-New a seen r calls new.1,
  )

  refines :
      (k : ℕ) (seen : List ℕ) (calls : List Args) (r : Redis)
      → All (Decided r) seen
      → All (Ready r) calls
      → All (New seen r) calls
      → lot_of (fields ((run p calls r).hashes k))
        ≡ make_all p.below_min
            (lot_of (fields (r.hashes k)))
            (offers k (without_retries seen calls))
  refines k seen [] r done ready new = refl
  refines k seen (a ∷ calls) r done ready new =
      let r' = (place_bid_lua p a r).1 in
      let os = offers k (without_retries (a.bid_id ∷ seen) calls) in
      let rest =
        refines k (a.bid_id ∷ seen) calls r'
          (Decided-run p a r ready.0, All-Decided p a r seen done) (All-Ready p a r calls ready.1)
          (All-New a seen r calls new.1) in
      elim (Bool-cases (is_in a.bid_id seen)) [
        | inl retry ↦ rw retry (
            rest
            ∙ ap (λ x. make_all p.below_min (lot_of (fields (x.hashes k))) os)
                (Decided-replays p a r (is_in-Decided p r a.bid_id seen done retry)))
        | inr first ↦
            let made = makes k a r ready.0 (new.0 first) in
            elim (Bool-cases (a.auction_id == k)) [
              | inl here ↦
                  rw (first, here) (rest ∙ ap (λ l. make_all p.below_min l os) (rw here at made))
              | inr away ↦
                  rw (first, away) (rest ∙ ap (λ l. make_all p.below_min l os) (rw away at made))
            ]
      ]

  -- On auctions whose hashes have an end and an increment, runs for bids that had no result, in any
  -- order, for any auctions and with retries, show in the hash of an auction what comes of its lot
  -- when the first offer of each bid id is made to it, one after the other. Results do not expire.
  pub run-make_all :
      (k : ℕ) (calls : List Args) (r : Redis)
      → All (Ready r) calls
      → All (λ a. r.results a.bid_id ≡ none) calls
      → lot_of (fields ((run p calls r).hashes k))
        ≡ make_all p.below_min (lot_of (fields (r.hashes k))) (offers k (without_retries [] calls))
  run-make_all k calls r ready new =
      refines k [] calls r tt ready (All-map _ _ calls (λ a x e. x) new)
