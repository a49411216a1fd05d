-- ===== src/Redis/Script/Once.antt =====
-- Runs of place_bid.lua with retries: a bid id that comes again is a bid that is there already.
use sd_online_auction_backen.Common.{
  ℕ, ◌≡◌, ◌≢◌, refl, subst, ap, ◌∙◌, inl, inr, Bool, true, List, [], ◌∷◌, arith, ◌==◌, any, is_some,
  All, Bool-cases, if◌then◌else◌,
}
use sd_online_auction_backen.Platform.{Platform}
use sd_online_auction_backen.Redis.{Hash, Redis, fields}
use sd_online_auction_backen.Redis.Script.{Args, place_bid_lua}
use sd_online_auction_backen.Redis.Script.Ladder.{run}

abbrev pub is_in : ℕ → List ℕ → Bool
is_in k seen = any (λ j. j == k) seen

-- the calls whose bid id has not been seen before
abbrev pub without_retries : List ℕ → List Args → List Args
without_retries seen [] = []
without_retries seen (a ∷ calls) =
    let rest = without_retries (a.bid_id ∷ seen) calls in
    if is_in a.bid_id seen then rest else a ∷ rest

-- the script does not stop at an error on such a hash
abbrev pub CanRun : Hash → Type 0
CanRun h = (is_some h.end_ts ≡ true) × (is_some h.min_increment ≡ true)

abbrev pub Ready : Redis → Args → Type 0
Ready r a = CanRun (fields (r.hashes a.auction_id))

abbrev pub Decided : Redis → ℕ → Type 0
Decided r k = is_some (r.results k) ≡ true

module _ (p : Platform) where
  pub Decided-replays : (a : Args) (r : Redis) → Decided r a.bid_id → (place_bid_lua p a r).1 ≡ r
  unfolding place_bid_lua
  Decided-replays a r seen = ground arith

  pub results-place_bid_lua :
      (a : Args) (r : Redis) (k : ℕ)
      → k ≢ a.bid_id
      → (place_bid_lua p a r).1.results k ≡ r.results k
  unfolding place_bid_lua
  results-place_bid_lua a r k ne = ground arith

  pub Decided-run : (a : Args) (r : Redis) → Ready r a → Decided (place_bid_lua p a r).1 a.bid_id
  unfolding place_bid_lua
  Decided-run a r ready = ground arith

  pub CanRun-place_bid_lua :
      (a : Args) (r : Redis) (k : ℕ)
      → CanRun (fields (r.hashes k))
      → CanRun (fields ((place_bid_lua p a r).1.hashes k))
  unfolding place_bid_lua
  CanRun-place_bid_lua a r k ready = ground arith

  pub Decided-place_bid_lua :
      (a : Args) (r : Redis) (k : ℕ) → Decided r k → Decided (place_bid_lua p a r).1 k
  unfolding place_bid_lua
  Decided-place_bid_lua a r k done = ground arith

  pub All-Ready :
      (a : Args) (r : Redis) (calls : List Args)
      → All (Ready r) calls
      → All (Ready (place_bid_lua p a r).1) calls
  All-Ready a r [] ready = tt
  All-Ready a r (b ∷ calls) ready =
      (CanRun-place_bid_lua a r b.auction_id ready.0, All-Ready a r calls ready.1)

  pub All-Decided :
      (a : Args) (r : Redis) (seen : List ℕ)
      → All (Decided r) seen
      → All (Decided (place_bid_lua p a r).1) seen
  All-Decided a r [] done = tt
  All-Decided a r (k ∷ seen) done =
      (Decided-place_bid_lua a r k done.0, All-Decided a r seen done.1)

  pub is_in-Decided :
      (r : Redis) (k : ℕ) (seen : List ℕ) → All (Decided r) seen → is_in k seen ≡ true → Decided r k
  is_in-Decided r k [] done e = cc e
  is_in-Decided r k (j ∷ seen) done e = elim (Bool-cases (j == k)) [
    | inl same ↦ let id : j ≡ k = ground (arith, same) in subst (Decided r) id done.0
    | inr other ↦ is_in-Decided r k seen done.1 (rw other at e)
  ]

  once :
      (seen : List ℕ) (calls : List Args) (r : Redis)
      → All (Decided r) seen
      → All (Ready r) calls
      → run p calls r ≡ run p (without_retries seen calls) r
  once seen [] r done ready = refl
  once seen (a ∷ calls) r done ready =
      let r' = (place_bid_lua p a r).1 in
      let rest =
        once (a.bid_id ∷ seen) calls r' (Decided-run a r ready.0, All-Decided a r seen done)
          (All-Ready a r calls ready.1) in
      elim (Bool-cases (is_in a.bid_id seen)) [
        | inl retry ↦ rw retry (
            rest
            ∙ ap (run p (without_retries (a.bid_id ∷ seen) calls))
                (Decided-replays a r (is_in-Decided r a.bid_id seen done retry)))
        | inr new ↦ rw new rest
      ]

  -- On auctions whose hashes have an end and an increment, runs in which bid ids come again, with
  -- whatever bidder, amount and time, leave Redis as the runs do in which each id comes only the
  -- first time. Results do not expire.
  pub run-without_retries :
      (calls : List Args) (r : Redis)
      → All (Ready r) calls
      → run p calls r ≡ run p (without_retries [] calls) r
  run-without_retries calls r ready = once [] calls r tt ready
