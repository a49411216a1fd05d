-- ===== src/Platform.antt =====
-- What the application relies on and does not implement: Python's floats, their text form and
-- their conversion by PostgreSQL, its columns of text, double arithmetic inside Redis, SHA-256 and UUID parsing.
-- Decimal texts with two places and NUMERIC(12, 2) values are whole numbers of cents.
pub mod Exact
use sd_online_auction_backen.Common.{
  ℕ, ◌+◌, ◌*◌, ◌≤◌, ◌<◌, String, ◌≡◌, ◌≢◌, Bool, true, false, Option, List,
}
use sd_online_auction_backen.Common.Int.{ℤ, pos, ◌≤ℤ◌}

-- NUMERIC(12, 2) holds amounts below this number of cents.
abbrev pub numeric_limit : ℕ
numeric_limit = 1000000000000

pub record Platform : Type 1 where
  -- a finite Python float
  pub Float : Type 0
  -- `v > 0`
  pub is_positive : Float → Bool
  -- `f"{v:.2f}"` of a positive float
  pub fixed2 : Float → ℕ
  -- what a NUMERIC(12, 2) column stores for a positive float; `none` is an overflow
  pub numeric : Float → Option ℕ
  -- the same for any float
  pub numeric_signed : Float → Option ℤ
  -- `tonumber(amount) < tonumber(current) + tonumber(min_increment)`, in doubles
  pub below_min : ℕ → ℕ → ℕ → Bool
  -- The doubles of two-place decimals in the column's range add up to within less than a cent, so
  -- only `amount = current + min_increment` is left to rounding.
  pub below_min_lt :
      (a c i : ℕ) → c < numeric_limit → i < numeric_limit → a < c + i → below_min a c i ≡ true
  pub below_min_gt :
      (a c i : ℕ) → c < numeric_limit → i < numeric_limit → c + i < a → below_min a c i ≡ false
  -- and the sum is not below its first addend, whatever the second
  pub below_min_ge :
      (a c i : ℕ) → a < numeric_limit → c < numeric_limit → below_min a c i ≡ false → c ≤ a
  -- `float(price) >= reserve` where `reserve` is a Decimal: Python compares the double exactly, so
  -- only `price = reserve` is left to rounding
  pub at_least : ℕ → ℤ → Bool
  pub at_least_gt :
      (n : ℕ) (z : ℤ) → n < numeric_limit → z ≤ℤ pos n → z ≢ pos n → at_least n z ≡ true
  pub at_least_lt : (n : ℕ) (z : ℤ) → n < numeric_limit → ¬ (z ≤ℤ pos n) → at_least n z ≡ false
  -- a double holds a whole number of quarters exactly
  pub at_least_quarters : (m : ℕ) → 25 * m < numeric_limit → at_least (25 * m) (pos (25 * m)) ≡ true
  -- what a VARCHAR(n) or a TEXT column stores of a text; `none` is a text that is too long or that
  -- PostgreSQL does not hold
  pub varchar : ℕ → String → Option String
  pub text : String → Option String
  -- the hexadecimal digits of the SHA-256 of a bidder's id
  pub hexdigest : ℕ → List ℕ
  -- `uuid.UUID(text)`; `none` is a ValueError
  pub parse_uuid : String → Option ℕ
