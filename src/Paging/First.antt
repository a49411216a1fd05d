-- ===== src/Paging/First.antt =====
-- The page that is cut from the first rows of a list.
use native.Mathlib.Numerals.{add-one}
use sd_online_auction_backen.Common.{
  ℕ, suc, ◌+◌, ◌≡◌, refl, ap, inl, inr, List, arith, ltb, true, is_some, length, take, length-take,
  Bool-cases, ltb→lt, lt→ltb, ltb-false_le,
}
use sd_online_auction_backen.Paging.{cut}
use sd_online_auction_backen.Paging.Walk.{last_of_take, take-take-suc, take_all}

-- A page of at least one row, cut from one row more than it holds, has the first rows, and a row
-- to go on from exactly if there are more.
pub cut-take :
    {A : Type 0} (m : ℕ) (xs : List A)
    → ((cut (suc m) (take (suc m + 1) xs)).rows ≡ take (suc m) xs)
      × (is_some (cut (suc m) (take (suc m + 1) xs)).last ≡ ltb (suc m) (length xs))
unfolding cut
cut-take m xs = elim (Bool-cases (ltb (suc m) (length xs))) [
  | inl more ↦
      let room = ltb→lt (suc m) (length xs) more in
      let (front, b, e, l) = last_of_take m xs (omega arith) in
      let test : ltb (suc m) (length (take (suc (suc m)) xs)) ≡ true =
        lt→ltb _ _ (omega (arith, length-take (suc (suc m)) xs)) in
      rw (add-one (suc m), test, take-take-suc (suc m) xs, more) (refl, ap is_some l)
  | inr all ↦
      let short = ltb-false_le (suc m) (length xs) all in
      rw (add-one (suc m), take_all (suc (suc m)) xs (omega arith), take_all (suc m) xs short, all)
        (refl, refl)
]
