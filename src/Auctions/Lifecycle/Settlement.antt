-- ===== src/Auctions/Lifecycle/Settlement.antt =====
-- How an auction is settled: the row that `close_auction` leaves.
use sd_online_auction_backen.Common.{
  ℕ, ◌<◌, ◌≡◌, sym, ap, ◌∙◌, eq_of_some, ◌+◌, ◌*◌, ◌≢◌, ◌⊎◌, inl, inr, true, false, Option, none,
  some, arith, Bool-cases, Option-cases,
}
use native.Mathlib.Decide.{dec_le, ℕ_discrete}
use sd_online_auction_backen.Common.Int.{ℤ, pos, negsuc, pos_part, neg_part, ◌≤ℤ◌}
use sd_online_auction_backen.Platform.{Platform, numeric_limit}
use sd_online_auction_backen.Models.{Auction, sold, unsold}
use sd_online_auction_backen.Redis.{Hash, fields}
use sd_online_auction_backen.Redis.Script.{or_zero}
use sd_online_auction_backen.Auctions.Lifecycle.{
  resolve_settlement_inner, leader, closed_row, comparison,
}

-- The rules of settlement for an auction with the hash `found`, at the moment of its closing.
pub data Settled (a : Auction) (found : Option Hash) (a' : Auction) : Type 0 where
  -- nobody has bid, and the row has no earlier winner
  no_bids :
      leader found ≡ none
      → a.winner_id ≡ none
      → a' ≡ record a { state = unsold }
      → Settled a found a'
  -- the leader wins: there is no reserve, or the price is not below it
  to_leader :
      {b : ℕ}
      → leader found ≡ some b
      → ((z : ℤ) → a.reserve_price ≡ some z → z ≤ℤ pos (or_zero (fields found).highest_bid))
      → a' ≡ record a {
        state = sold;
        highest_bid = some (or_zero (fields found).highest_bid);
        winner_id = some b;
      }
      → Settled a found a'
  -- the price is below the reserve, or it is the reserve and no whole number of quarters: a double
  -- holds quarters exactly, and may hold another price a little too low. The price is kept, and
  -- there is no winner.
  below_reserve :
      {b : ℕ} {z : ℤ}
      → leader found ≡ some b
      → a.reserve_price ≡ some z
      → (z ≡ pos (or_zero (fields found).highest_bid))
          × ((m : ℕ) → or_zero (fields found).highest_bid ≢ 25 * m)
        ⊎ (¬ (z ≤ℤ pos (or_zero (fields found).highest_bid)))
      → a' ≡ record a {
        state = unsold;
        highest_bid = some (or_zero (fields found).highest_bid);
        winner_id = none;
      }
      → Settled a found a'

-- the row that a close leaves, before the transaction ends
abbrev pub settled_row : Platform → Option Hash → Auction → Auction
settled_row p found a = resolve_settlement_inner (comparison p (leader found)) (closed_row found a)

eq_of_pos : {m n : ℕ} → pos m ≡ pos n → m ≡ n
eq_of_pos e = cc

module _ (p : Platform) where
  -- What `at_least` says is right, up to equality.
  at_least-le : (n : ℕ) (z : ℤ) → n < numeric_limit → p.at_least n z ≡ true → z ≤ℤ pos n
  at_least-le n z lt e =
      elim (dec_le (pos_part z + neg_part (pos n)) (pos_part (pos n) + neg_part z)) [
        | yes below ↦ below
        | no above ↦ cc (e, p.at_least_lt n z lt above)
      ]

  not_quarters : {n : ℕ} (m : ℕ) → n ≡ 25 * m → p.at_least n (pos n) ≡ false → n < numeric_limit → ⊥
  not_quarters m q e lt = cc (p.at_least_quarters m (rw q at lt), rw q at e)

  at_least-not :
      (n : ℕ) (z : ℤ)
      → n < numeric_limit
      → p.at_least n z ≡ false
      → (z ≡ pos n) × ((m : ℕ) → n ≢ 25 * m) ⊎ (¬ (z ≤ℤ pos n))
  at_least-not n (negsuc m) lt e = cc (e, p.at_least_gt n (negsuc m) lt (omega arith) (λ q. cc))
  at_least-not n (pos m) lt e = elim (ℕ_discrete m n) [
    | yes same ↦ inl (ap pos same, λ m q. not_quarters m q (rw same at e) lt)
    | no other ↦ inr (λ le. cc (e, p.at_least_gt n (pos m) lt le (λ q. other (eq_of_pos q))))
  ]

  -- A close settles an auction that has had no winner by the rules, if the price is in range.
  pub settled_row-Settled :
      (found : Option Hash) (a : Auction)
      → a.winner_id ≡ none
      → or_zero (fields found).highest_bid < numeric_limit
      → Settled a found (settled_row p found a)
  unfolding resolve_settlement_inner closed_row
  settled_row-Settled found a nw lt = elim (Option-cases (leader found)) [
    | inl nobody ↦ no_bids nobody nw (ground arith)
    | inr (b, led) ↦ elim (Option-cases a.reserve_price) [
      | inl no_reserve ↦ to_leader led (λ z e. cc) (ground arith)
      | inr (z, reserve) ↦ elim (Bool-cases (p.at_least (or_zero (fields found).highest_bid) z)) [
        | inl met ↦
            to_leader led (λ v e. rw (eq_of_some (sym e ∙ reserve)) (at_least-le _ z lt met))
              (ground arith)
        | inr missed ↦ below_reserve led reserve (at_least-not _ z lt missed) (ground arith)
      ]
    ]
  ]
