-- ===== src/Platform/Exact.antt =====
-- A platform with exact arithmetic, on which the definitions run. A float is a number of mills,
-- tenths of a cent, and is rounded half up; the texts "5", "7" and "9" are ids.
use Prim.Native.String.{count}
use text.Mathlib.Text.{◌==◌ as str_eq}
use sd_online_auction_backen.Common.{
  ℕ, ◌+◌, ◌*◌, ◌/◌, ◌≤◌, ◌<◌, ◌≡◌, ◌≢◌, true, false, Option, none, some, [], ◌∷◌, arith, ltb, leb,
  if◌then◌else◌,
}
use sd_online_auction_backen.Common.Int.{ℤ, pos, ◌≤ℤ◌, leb_ℤ}
use sd_online_auction_backen.Platform.{Platform, numeric_limit}

abbrev pub round_mills : ℕ → ℕ
round_mills x = (x + 5) / 10

abbrev pub column : ℕ → Option ℕ
column x = if ltb (round_mills x) numeric_limit then some (round_mills x) else none

abbrev pub column_signed : ℕ → Option ℤ
column_signed x = if ltb (round_mills x) numeric_limit then some (pos (round_mills x)) else none

pub exact_lt :
    (a c i : ℕ) → c < numeric_limit → i < numeric_limit → a < c + i → ltb a (c + i) ≡ true
exact_lt a c i _ _ h = ground arith

pub exact_gt :
    (a c i : ℕ) → c < numeric_limit → i < numeric_limit → c + i < a → ltb a (c + i) ≡ false
exact_gt a c i _ _ h = ground arith

pub exact_ge : (a c i : ℕ) → a < numeric_limit → c < numeric_limit → ltb a (c + i) ≡ false → c ≤ a
exact_ge a c i _ _ h = ground (arith, h)

pub exact_at_least :
    (n : ℕ) (z : ℤ) → n < numeric_limit → z ≤ℤ pos n → z ≢ pos n → leb_ℤ z (pos n) ≡ true
exact_at_least n z _ h _ = ground arith

pub exact_below : (n : ℕ) (z : ℤ) → n < numeric_limit → ¬ (z ≤ℤ pos n) → leb_ℤ z (pos n) ≡ false
exact_below n z _ h = ground arith

pub exact_quarters : (m : ℕ) → 25 * m < numeric_limit → leb_ℤ (pos (25 * m)) (pos (25 * m)) ≡ true
exact_quarters m _ = ground arith

abbrev pub exact : Platform
exact = record {
  Float = ℕ;
  is_positive = λ x. ltb 0 x;
  fixed2 = round_mills;
  numeric = column;
  numeric_signed = column_signed;
  below_min = λ a c i. ltb a (c + i);
  below_min_lt = exact_lt;
  below_min_gt = exact_gt;
  below_min_ge = exact_ge;
  at_least = λ n z. leb_ℤ z (pos n);
  at_least_gt = exact_at_least;
  at_least_lt = exact_below;
  at_least_quarters = exact_quarters;
  varchar = λ n s. if leb (count s) n then some s else none;
  text = some;
  hexdigest = λ n. n ∷ 0 ∷ 1 ∷ 2 ∷ 3 ∷ 4 ∷ 5 ∷ 6 ∷ 7 ∷ 8 ∷ [];
  parse_uuid = λ s.
      if str_eq s "5"
      then some 5
      else if str_eq s "7"
      then some 7
      else if str_eq s "9"
      then some 9
      else none;
}
