-- ===== src/System/Overlap/Prices.antt =====
-- The amounts that the history of an auction's bids shows after bids that overlapped.
use sd_online_auction_backen.Common.{
  ℕ, ◌≤◌, ◌<◌, ◌≡◌, ap, inl, inr, Option, none, List, [], ◌∷◌, arith, ltb, filter, All, All-map,
  Bool-cases,
}
use sd_online_auction_backen.Platform.{Platform}
use sd_online_auction_backen.Models.{Bid}
use sd_online_auction_backen.Redis.{Hash, Redis}
use sd_online_auction_backen.Paging.Order.{Below, Falls, order_desc-Falls, All-order_desc}
use sd_online_auction_backen.Bids.History.{number, selected}
use sd_online_auction_backen.Bids.History.Paging.{history, numbers-IsStrict}
use sd_online_auction_backen.System.Overlap.{Busy, Run}
use sd_online_auction_backen.System.Overlap.Held.{count_if, row_claims, claims}
use sd_online_auction_backen.System.Overlap.Hashes.{last_price}
use sd_online_auction_backen.System.Overlap.Rising.{WholeCents, Rising, Run-Rising}
use sd_online_auction_backen.System.Overlap.Histories.{blank, blank-Numbered, Run-Distinct}

-- no bid is above a later one, which stands before it
abbrev pub NeverAbove : List Bid → Type 0
NeverAbove [] = Unit
NeverAbove (b ∷ bids) = All (λ (c : Bid). c.amount ≤ b.amount) bids × NeverAbove bids

selected-claims :
    (k : ℕ) (bids : List Bid)
    → All
        (λ (b : Bid). 0 < count_if (row_claims k (number b) b.amount) bids)
        (filter (selected k none) bids)
selected-claims k [] = tt
selected-claims k (b ∷ bids) =
    let rest =
      All-map _ _ (filter (selected k none) bids)
        (λ (c : Bid) (h : 0 < count_if (row_claims k (number c) c.amount) bids).
          the_more k b c bids h)
        (selected-claims k bids) in
    elim (Bool-cases (selected k none b)) [
      | inr other ↦ rw other rest
      | inl chosen ↦ rw chosen (ground (arith, chosen), rest)
    ]
  where
    the_more :
        (k : ℕ) (b c : Bid) (bids : List Bid)
        → 0 < count_if (row_claims k (number c) c.amount) bids
        → 0 < count_if (row_claims k (number c) c.amount) (b ∷ bids)
    the_more k b c bids h = omega (arith, h)

-- the keys below a number, all along
Below-All :
    (n : ℕ) (bids : List Bid) → Below number ltb n bids → All (λ (c : Bid). number c ≤ n) bids
Below-All n [] h = tt
Below-All n (b ∷ bids) (under, h) =
    let low : number b ≤ n = ground (arith, under) in
    (low, All-map _ _ bids (λ c le. omega (arith, low, le)) (Below-All (number b) bids h))

Below-Falls : (n : ℕ) (bids : List Bid) → Below number ltb n bids → Falls number ltb bids
Below-Falls n [] h = tt
Below-Falls n (b ∷ bids) h = h.1

module _ (p : Platform) where
  -- a bid of the list claims its number in the table
  abbrev Claimed : ℕ → Busy p → Bid → Type 0
  Claimed k t b = 0 < claims p k (number b) b.amount t

  Falls-NeverAbove :
      (k : ℕ) (t : Busy p) (bids : List Bid)
      → Rising p t
      → All (Claimed k t) bids
      → Falls number ltb bids
      → NeverAbove bids
  Falls-NeverAbove k t [] x claimed falls = tt
  Falls-NeverAbove k t (b ∷ bids) x (here, claimed) falls = (
    under bids claimed (Below-All (number b) bids falls),
    Falls-NeverAbove k t bids x claimed (Below-Falls (number b) bids falls),
  )
    where
      under :
          (rows : List Bid)
          → All (Claimed k t) rows
          → All (λ (c : Bid). number c ≤ number b) rows
          → All (λ (c : Bid). c.amount ≤ b.amount) rows
      under [] h le = tt
      under (c ∷ rows) (h, hs) (le, les) =
          (x.order k (number c) (number b) c.amount b.amount h here le, under rows hs les)

  blank-Rising : (r : Redis) → r.hashes ≡ (λ k. none) → Rising p (blank p r)
  blank-Rising r empty = record {
    numbered = blank-Numbered p r empty;
    fair = tt;
    limit = λ k. rw (ap (λ (h : ℕ → Option Hash). h k) empty) (omega arith);
    top = λ k n a c. absurd (omega (arith, c));
    order = λ k m n a b c d le. absurd (omega (arith, c));
  }

  -- On empty tables and a Redis without a hash, whatever follows of bids with new ids, between
  -- whose script and whose session anything else runs, and of other requests and polls, each in one
  -- step, if the amounts have two decimals and are in the column's range: in the history of an
  -- auction, newest first, no bid has a higher amount than one before it, and none a higher one than
  -- the price of the hash. Left out are a start poll or a listing whose commit fails, and a listing
  -- whose HSET reply is lost.
  pub Run-NeverAbove :
      (r : Redis) (t : Busy p)
      → r.hashes ≡ (λ k. none)
      → Run p (WholeCents p) (blank p r) t
      → (k : ℕ)
      → NeverAbove (history k t.world.db.bids)
        × All (λ (b : Bid). b.amount ≤ last_price k t.world.redis) (history k t.world.db.bids)
  Run-NeverAbove r t empty run k =
      let rows = filter (selected k none) t.world.db.bids in
      let x = Run-Rising p (blank p r) t run (blank-Rising r empty) in
      let distinct = (Run-Distinct p (WholeCents p) r t empty run k).0 in
      let claimed = All-order_desc number ltb (Claimed k t) rows (
        All-map _ (Claimed k t) rows (λ c h. omega (arith, h))
          (selected-claims k t.world.db.bids)) in
      (
        Falls-NeverAbove k t (history k t.world.db.bids) x claimed
            (order_desc-Falls number ltb rows numbers-IsStrict distinct),
        All-map (Claimed k t) _ (history k t.world.db.bids) (λ b h. x.top k (number b) b.amount h)
            claimed,
      )
