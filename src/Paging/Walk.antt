-- ===== src/Paging/Walk.antt =====
-- The pages of a list, one after the other, against the whole list.
use mathlib.Core.List.{append_assoc, append-nil}
use native.Mathlib.Numerals.{add-one}
use sd_online_auction_backen.Common.{
  ℕ, zero, suc, ◌+◌, ◌-◌, ◌≤◌, ◌<◌, ◌≡◌, refl, sym, ap, ◌∙◌, inl, inr, Bool, true, Option, none,
  some, List, [], ◌∷◌, ◌++◌, arith, ltb, length, take, drop, filter, get_last?, length-take,
  take-append-drop, Bool-cases, ltb→lt, lt→ltb, ltb-false_le,
}
use sd_online_auction_backen.Paging.{clamp_limit, Page, cut, order_desc, before}
use sd_online_auction_backen.Paging.Order.{
  IsStrict, Falls, Distinct, filter-order_desc, order_desc-Falls, filter-suffix,
}

-- A full page ends in its last row.
module _ {ℓ} {A : Type ℓ} where
  pub last_of_take :
      (m : ℕ) (xs : List A)
      → m < length xs
      → (front : List A) × (b : A) × (take (suc m) xs ≡ front ++ b ∷ [])
        × (get_last? (take (suc m) xs) ≡ some b)
  last_of_take zero [] h = absurd (omega arith)
  last_of_take zero (x ∷ xs) h = ([], x, refl, refl)
  last_of_take (suc m) [] h = absurd (omega arith)
  last_of_take (suc m) (x ∷ []) h = absurd (omega arith)
  last_of_take (suc m) (x ∷ y ∷ xs) h =
      let (front, b, e, l) = last_of_take m (y ∷ xs) (omega arith) in
      (x ∷ front, b, ap (λ r. x ∷ r) e, l)

  pub take-take-suc : (m : ℕ) (xs : List A) → take m (take (suc m) xs) ≡ take m xs
  take-take-suc zero xs = refl
  take-take-suc (suc m) [] = refl
  take-take-suc (suc m) (x ∷ xs) = ap (λ r. x ∷ r) (take-take-suc m xs)

  pub take_all : (m : ℕ) (xs : List A) → length xs ≤ m → take m xs ≡ xs
  take_all zero [] h = refl
  take_all zero (x ∷ xs) h = absurd (omega arith)
  take_all (suc m) [] h = refl
  take_all (suc m) (x ∷ xs) h = ap (λ r. x ∷ r) (take_all m xs (omega arith))

  length-drop_lt : (m : ℕ) (xs : List A) → m < length xs → length (drop (suc m) xs) < length xs
  length-drop_lt m [] h = absurd (omega arith)
  length-drop_lt zero (x ∷ xs) h = omega arith
  length-drop_lt (suc m) (x ∷ xs) h = omega (arith, length-drop_lt m xs (omega arith))

pub clamp_limit-pos : (limit : ℕ) → (m : ℕ) × (clamp_limit limit ≡ suc m)
unfolding clamp_limit
clamp_limit-pos limit = (clamp_limit limit - 1, omega arith)

abbrev pub follow : {A B : Type 0} → Option A → (A → List B) → List B
follow none ask = []
follow (some a) ask = ask a

module _ {A : Type 0} where
  split_at :
      (m : ℕ) (done rem front : List A) (b : A)
      → take (suc m) rem ≡ front ++ b ∷ []
      → done ++ rem ≡ (done ++ front) ++ b ∷ drop (suc m) rem
  split_at m done rem front b e =
      ap (λ r. done ++ r)
        (sym (take-append-drop (suc m) rem)
          ∙ ap (λ r. r ++ drop (suc m) rem) e
          ∙ append_assoc front (b ∷ []) (drop (suc m) rem))
      ∙ sym (append_assoc done front (b ∷ drop (suc m) rem))

module _ {A K : Type 0} (key : A → K) (lt : K → K → Bool) where
  -- the rows that a statement fetches, LIMIT `limit + 1`
  abbrev pub fetched : ℕ → Option K → List A → List A
  fetched limit cursor xs = take (limit + 1) (order_desc key lt (filter (before key lt cursor) xs))

  -- the rows that a client collects by asking on with each page's cursor; the fuel bounds the pages
  unfoldable pub walk : ℕ → ℕ → Option K → List A → List A
  walk zero limit cursor xs = []
  walk (suc fuel) limit cursor xs =
      let page = cut limit (fetched limit cursor xs) in
      page.rows ++ follow page.last (λ b. walk fuel limit (some (key b)) xs)

  -- how a page goes on: it has all that is left, or its cursor leaves what stands after it
  data Goes (m : ℕ) (done rem : List A) (page : Page A) : Type 0 where
    final : page.rows ≡ rem → page.last ≡ none → Goes m done rem page
    partial :
        (b : A)
        → page.rows ≡ take (suc m) rem
        → page.last ≡ some b
        → filter (before key lt (some (key b))) (done ++ rem) ≡ drop (suc m) rem
        → m < length rem
        → Goes m done rem page

  cut-Goes :
      (m : ℕ) (done rem : List A)
      → IsStrict lt
      → Falls key lt (done ++ rem)
      → Goes m done rem (cut (suc m) (take (suc (suc m)) rem))
  unfolding cut
  cut-Goes m done rem s f = elim (Bool-cases (ltb (suc m) (length rem))) [
    | inl more ↦
        let room = ltb→lt (suc m) (length rem) more in
        let (front, b, e, l) = last_of_take m rem (omega arith) in
        let split = split_at m done rem front b e in
        let test : ltb (suc m) (length (take (suc (suc m)) rem)) ≡ true =
          lt→ltb _ _ (omega (arith, length-take (suc (suc m)) rem)) in
        rw (test, take-take-suc (suc m) rem)
          (partial b refl l
            (ap (filter (before key lt (some (key b)))) split
              ∙ filter-suffix key lt (done ++ front) b (drop (suc m) rem) s (rw split at f))
            (omega arith))
    | inr all ↦
        let short = ltb-false_le (suc m) (length rem) all in
        rw (take_all (suc (suc m)) rem (omega arith), all) (final refl refl)
  ]

  filter-none : (xs : List A) → filter (before key lt none) xs ≡ xs
  filter-none [] = refl
  filter-none (x ∷ xs) = ap (λ r. x ∷ r) (filter-none xs)

  module _ (m : ℕ) (xs : List A) (strict : IsStrict lt) (distinct : Distinct key lt xs) where
    walk_rem :
        (fuel : ℕ) (cursor : Option K) (done rem : List A)
        → order_desc key lt xs ≡ done ++ rem
        → filter (before key lt cursor) (order_desc key lt xs) ≡ rem
        → length rem < fuel
        → walk fuel (suc m) cursor xs ≡ rem
    unfolding walk
    walk_rem zero cursor done rem split left enough = absurd (omega arith)
    walk_rem (suc fuel) cursor done rem split left enough =
        let sorted = order_desc-Falls key lt xs strict distinct in
        let page : Goes m done rem (cut (suc m) (fetched (suc m) cursor xs)) =
          rw (← filter-order_desc key lt cursor xs strict, left, add-one)
            (cut-Goes m done rem strict (rw split at sorted)) in
        elim page [
          | final rows end ↦ rw (rows, end) (append-nil _)
          | partial b rows next rest room ↦
              rw (rows, next)
                (ap (λ r. take (suc m) rem ++ r)
                    (walk_rem fuel (some (key b)) (done ++ take (suc m) rem) (drop (suc m) rem)
                      (split
                        ∙ ap (λ r. done ++ r) (sym (take-append-drop (suc m) rem))
                        ∙ sym (append_assoc done (take (suc m) rem) (drop (suc m) rem)))
                      (ap (filter (before key lt (some (key b)))) split ∙ rest)
                      (omega (arith, length-drop_lt m rem room)))
                  ∙ take-append-drop (suc m) rem)
        ]

    -- Asking on until a page has no cursor collects the whole list in its order, whatever the size
    -- of a page. A fuel above the number of rows is enough.
    pub walk-order_desc :
        (fuel : ℕ)
        → length (order_desc key lt xs) < fuel
        → walk fuel (suc m) none xs ≡ order_desc key lt xs
    walk-order_desc fuel enough =
        walk_rem fuel none [] (order_desc key lt xs) refl (filter-none (order_desc key lt xs))
          enough
