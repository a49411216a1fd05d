-- ===== src/System/Overlap/Histories.antt =====
-- What the history of an auction's bids shows after bids that overlapped.
use sd_online_auction_backen.Common.{
  ℕ, ◌≤◌, ◌<◌, ◌≡◌, ◌≢◌, refl, ap, inl, inr, true, Option, none, List, [], ◌∷◌, map, arith, ltb,
  length, filter, All, Bool-cases,
}
use sd_online_auction_backen.Platform.{Platform}
use sd_online_auction_backen.Models.{Bid}
use sd_online_auction_backen.Redis.{Hash, Redis}
use sd_online_auction_backen.Paging.Order.{Distinct}
use sd_online_auction_backen.Bids.History.{number, selected, item}
use sd_online_auction_backen.Bids.History.Paging.{history, walk, walk-history}
use sd_online_auction_backen.System.Steps.{no_rows, no_rows-IsValid}
use sd_online_auction_backen.Bids.Recording.{Call}
use sd_online_auction_backen.System.Overlap.{Busy, Run}
use sd_online_auction_backen.System.Overlap.Held.{count_if, row_holds}
use sd_online_auction_backen.System.Overlap.Hashes.{last_number}
use sd_online_auction_backen.System.Overlap.Numbered.{Numbered, Run-Numbered}

abbrev holders : ℕ → ℕ → List Bid → ℕ
holders k n bids = count_if (row_holds k n) bids

selected-holds : (k : ℕ) (b : Bid) → selected k none b ≡ true → row_holds k (number b) b ≡ true
selected-holds k b h = ground arith

no_holder :
    (k n : ℕ) (bids : List Bid)
    → holders k n bids ≡ 0
    → All (λ b. n ≢ number b) (filter (selected k none) bids)
no_holder k n [] h = tt
no_holder k n (b ∷ bids) h = elim (Bool-cases (selected k none b)) [
  | inr other ↦ rw other (no_holder k n bids (omega (arith, h)))
  | inl chosen ↦
      rw chosen ((λ same. ground (arith, h, same, chosen)), no_holder k n bids (omega (arith, h)))
]

holders-Distinct :
    (k : ℕ) (bids : List Bid)
    → ((n : ℕ) → holders k n bids ≤ 1)
    → Distinct number ltb (filter (selected k none) bids)
holders-Distinct k [] h = tt
holders-Distinct k (b ∷ bids) h =
    let rest = holders-Distinct k bids (λ n. omega (arith, h n)) in
    elim (Bool-cases (selected k none b)) [
      | inr other ↦ rw other rest
      | inl chosen ↦
          let here = selected-holds k b chosen in
          rw chosen (no_holder k (number b) bids (ground (arith, h (number b), here)), rest)
    ]

holders-AtMost :
    (k m : ℕ) (bids : List Bid)
    → ((n : ℕ) → m < n → holders k n bids ≡ 0)
    → All (λ b. number b ≤ m) (filter (selected k none) bids)
holders-AtMost k m [] h = tt
holders-AtMost k m (b ∷ bids) h =
    let rest = holders-AtMost k m bids (λ n over. omega (arith, h n over)) in
    elim (Bool-cases (selected k none b)) [
      | inr other ↦ rw other rest
      | inl chosen ↦
          let here = selected-holds k b chosen in
          rw chosen (elim (Bool-cases (ltb m (number b))) [
            | inr under ↦ (ground (arith, under), rest)
            | inl over ↦ ground (arith, h (number b) (ground (arith, over)), here)
          ])
    ]

module _ (p : Platform) where
  -- empty tables, no hash, and no bid under way
  abbrev pub blank : Redis → Busy p
  blank r = record { world = record { db = no_rows; redis = r }; flights = [] }

  no_hash : (r : Redis) (k : ℕ) → r.hashes ≡ (λ j. none) → r.hashes k ≡ none
  no_hash r k e = ap (λ (h : ℕ → Option Hash). h k) e

  pub blank-Numbered : (r : Redis) → r.hashes ≡ (λ k. none) → Numbered p (blank r)
  blank-Numbered r empty = record {
    valid = no_rows-IsValid;
    once = λ k n. omega arith;
    bounded = λ k n h. refl;
    unheld = λ k n off. refl;
    shut = λ k off. rw (no_hash r k empty) refl;
  }

  -- On empty tables and a Redis without a hash, whatever follows of bids with new ids, between
  -- whose script and whose session anything else runs, and of other requests and polls, each in one
  -- step, and whichever of the bids are never recorded: no two accepted bids of an auction in the
  -- table have one sequence number, and none has a number above that of the auction's hash. Left out
  -- are a start poll or a listing whose commit fails, and a listing whose HSET reply is lost.
  pub Run-Distinct :
      (Q : Call p → Type 0) (r : Redis) (t : Busy p)
      → r.hashes ≡ (λ k. none)
      → Run p Q (blank r) t
      → (k : ℕ)
      → Distinct number ltb (filter (selected k none) t.world.db.bids)
        × All
            (λ b. number b ≤ last_number k t.world.redis)
            (filter (selected k none) t.world.db.bids)
  Run-Distinct Q r t empty run k =
      let x = Run-Numbered p Q (blank r) t run (blank-Numbered r empty) in
      (
        holders-Distinct k t.world.db.bids (λ n. omega (arith, x.once k n)),
        holders-AtMost k (last_number k t.world.redis) t.world.db.bids
            (λ n over. omega (arith, x.bounded k n over)),
      )

  -- On empty tables and a Redis without a hash, after bids with new ids, between whose script and
  -- whose session anything else runs, and other requests and polls, each in one step: a client that
  -- starts without a cursor and asks on until a page has none gets each accepted bid of the auction
  -- once, newest first, whatever the limit. A fuel above their number is enough. Left out are a start
  -- poll or a listing whose commit fails, and a listing whose HSET reply is lost.
  pub Run-walk :
      (Q : Call p → Type 0) (r : Redis) (t : Busy p)
      → r.hashes ≡ (λ k. none)
      → Run p Q (blank r) t
      → (k limit fuel : ℕ) → length (history k t.world.db.bids) < fuel
      → walk fuel k limit none t.world.db.bids ≡ map item (history k t.world.db.bids)
  Run-walk Q r t empty run k limit fuel =
      walk-history k limit t.world.db.bids (Run-Distinct Q r t empty run k).0 fuel
