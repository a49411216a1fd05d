-- ===== src/System/Overlap/Held.antt =====
-- The sequence numbers that an auction's accepted bids hold: in the rows of the table, and in the
-- replies of bids that are still to be recorded.
use sd_online_auction_backen.Common.{
  ℕ, ◌+◌, ◌≡◌, Bool, false, ◌&&◌, Option, none, some, List, [], ◌∷◌, ◌++◌, arith, ◌==◌,
  if◌then◌else◌,
}
use sd_online_auction_backen.Platform.{Platform}
use sd_online_auction_backen.Models.{Bid, is_accepted}
use sd_online_auction_backen.Redis.Script.{Reply}
use sd_online_auction_backen.Bids.Place.{Decision, won, parse_reply}
use sd_online_auction_backen.System.Overlap.{Flight, Busy}

abbrev pub count_if {ℓ} : {A : Type ℓ} → (A → Bool) → List A → ℕ
count_if test [] = 0
count_if test (x ∷ xs) = (if test x then 1 else 0) + count_if test xs

pub count_if-append {ℓ} :
    {A : Type ℓ} (test : A → Bool) (xs ys : List A)
    → count_if test (xs ++ ys) ≡ count_if test xs + count_if test ys
count_if-append test [] ys = omega arith
count_if-append test (x ∷ xs) ys = omega (arith, count_if-append test xs ys)

-- the number of an accepted bid
abbrev pub won_number : Decision → Option ℕ
won_number (won _ n) = some n
won_number _ = none

abbrev pub reply_number : Reply → Option ℕ
reply_number none = none
reply_number (some values) = won_number (parse_reply values)

abbrev pub is_number : Option ℕ → ℕ → Bool
is_number none n = false
is_number (some m) n = m == n

abbrev pub row_holds : ℕ → ℕ → Bid → Bool
row_holds k n b = b.auction_id == k && is_accepted b.status && b.sequence_num == n

-- the same with the bid's amount
abbrev pub row_claims : ℕ → ℕ → ℕ → Bid → Bool
row_claims k n a b = row_holds k n b && b.amount == a

module _ (p : Platform) where
  abbrev pub flight_holds : ℕ → ℕ → Flight p → Bool
  flight_holds k n f = f.call.auction_id == k && is_number (reply_number f.reply) n

  -- how often an auction's number is held
  abbrev pub held : ℕ → ℕ → Busy p → ℕ
  held k n s = count_if (row_holds k n) s.world.db.bids + count_if (flight_holds k n) s.flights

  -- a bid in flight has the amount that its script has compared
  abbrev pub flight_claims : ℕ → ℕ → ℕ → Flight p → Bool
  flight_claims k n a f = flight_holds k n f && p.fixed2 f.call.amount == a

  abbrev pub claims : ℕ → ℕ → ℕ → Busy p → ℕ
  claims k n a s =
      count_if (row_claims k n a) s.world.db.bids + count_if (flight_claims k n a) s.flights
