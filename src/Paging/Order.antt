-- ===== src/Paging/Order.antt =====
-- The order of a paged list, and what a cursor leaves of it.
use sd_online_auction_backen.Common.{
  ◌≡◌, ◌≢◌, refl, inl, inr, Bool, true, false, Option, none, some, List, [], ◌∷◌, ◌++◌, arith,
  if◌then◌else◌, All, filter, Bool-cases,
}
use sd_online_auction_backen.Paging.{insert_desc, order_desc, before}

-- a strict order, total on different keys
pub record IsStrict {K : Type 0} (lt : K → K → Bool) : Type 0 where
  pub trans : (a b c : K) → lt a b ≡ true → lt b c ≡ true → lt a c ≡ true
  pub irrefl : (a : K) → lt a a ≡ false
  pub weak : (a b c : K) → lt a b ≡ false → lt a c ≡ true → lt b c ≡ true
  pub total : (a b : K) → a ≢ b → lt a b ≡ false → lt b a ≡ true

module _ {A K : Type 0} (key : A → K) (lt : K → K → Bool) where
  -- the keys fall from each row to the next
  abbrev pub Below : K → List A → Type 0
  Below k [] = Unit
  Below k (b ∷ bs) = (lt (key b) k ≡ true) × Below (key b) bs

  abbrev pub Falls : List A → Type 0
  Falls [] = Unit
  Falls (b ∷ bs) = Below (key b) bs

  -- no two rows have one key
  abbrev pub Distinct : List A → Type 0
  Distinct [] = Unit
  Distinct (b ∷ bs) = All (λ c. key b ≢ key c) bs × Distinct bs

  All-insert_desc :
      (P : A → Type 0) (b : A) (xs : List A) → P b → All P xs → All P (insert_desc key lt b xs)
  unfolding insert_desc
  All-insert_desc P b [] h a = (h, tt)
  All-insert_desc P b (x ∷ xs) h a = elim (Bool-cases (lt (key b) (key x))) [
    | inl over ↦ rw over (a.0, All-insert_desc P b xs h a.1)
    | inr under ↦ rw under (h, a)
  ]

  pub All-order_desc : (P : A → Type 0) (xs : List A) → All P xs → All P (order_desc key lt xs)
  unfolding order_desc
  All-order_desc P [] a = tt
  All-order_desc P (x ∷ xs) a =
      All-insert_desc P x (order_desc key lt xs) a.0 (All-order_desc P xs a.1)

  filter-insert_desc :
      (c : Option K) (b : A) (xs : List A)
      → IsStrict lt
      → filter (before key lt c) (insert_desc key lt b xs) ≡ (
          if before key lt c b
          then insert_desc key lt b (filter (before key lt c) xs)
          else filter (before key lt c) xs)
  unfolding insert_desc
  filter-insert_desc c b [] s = ground arith
  filter-insert_desc none b (x ∷ xs) s = ground (arith, filter-insert_desc none b xs s)
  filter-insert_desc (some c) b (x ∷ xs) s =
      ground (arith, filter-insert_desc (some c) b xs s, s.weak (key b) (key x) c)

  pub filter-order_desc :
      (c : Option K) (xs : List A)
      → IsStrict lt
      → filter (before key lt c) (order_desc key lt xs)
        ≡ order_desc key lt (filter (before key lt c) xs)
  unfolding order_desc
  filter-order_desc c [] s = refl
  filter-order_desc c (x ∷ xs) s =
      ground (arith, filter-insert_desc c x (order_desc key lt xs) s, filter-order_desc c xs s)

  insert_desc-Below :
      (k : K) (b : A) (xs : List A)
      → IsStrict lt
      → lt (key b) k ≡ true
      → All (λ c. key b ≢ key c) xs
      → Below k xs
      → Below k (insert_desc key lt b xs)
  unfolding insert_desc
  insert_desc-Below k b [] s h a f = (h, tt)
  insert_desc-Below k b (x ∷ xs) s h a f = elim (Bool-cases (lt (key b) (key x))) [
    | inl over ↦ rw over (f.0, insert_desc-Below (key x) b xs s over a.1 f.1)
    | inr under ↦ rw under (h, (s.total (key b) (key x) a.0 under, f.1))
  ]

  insert_desc-Falls :
      (b : A) (xs : List A)
      → IsStrict lt
      → All (λ c. key b ≢ key c) xs
      → Falls xs
      → Falls (insert_desc key lt b xs)
  unfolding insert_desc
  insert_desc-Falls b [] s a f = tt
  insert_desc-Falls b (x ∷ xs) s a f = elim (Bool-cases (lt (key b) (key x))) [
    | inl over ↦ rw over (insert_desc-Below (key x) b xs s over a.1 f)
    | inr under ↦ rw under (s.total (key b) (key x) a.0 under, f)
  ]

  -- Rows with different keys are put in the order of their keys.
  pub order_desc-Falls : (xs : List A) → IsStrict lt → Distinct xs → Falls (order_desc key lt xs)
  unfolding order_desc
  order_desc-Falls [] s d = tt
  order_desc-Falls (x ∷ xs) s d =
      insert_desc-Falls x (order_desc key lt xs) s (All-order_desc (λ c. key x ≢ key c) xs d.0)
        (order_desc-Falls xs s d.1)

  Below-member :
      (k : K) (xs : List A) (b : A) (rest : List A)
      → IsStrict lt
      → Below k (xs ++ b ∷ rest)
      → lt (key b) k ≡ true
  Below-member k [] b rest s h = h.0
  Below-member k (x ∷ xs) b rest s h =
      s.trans (key b) (key x) k (Below-member (key x) xs b rest s h.1) h.0

  Below-weaken : (k l : K) (xs : List A) → IsStrict lt → lt k l ≡ true → Below k xs → Below l xs
  Below-weaken k l [] s h f = tt
  Below-weaken k l (x ∷ xs) s h f = (s.trans (key x) k l f.0 h, f.1)

  Below-filter :
      (k : K) (xs : List A) → IsStrict lt → Below k xs → filter (before key lt (some k)) xs ≡ xs
  Below-filter k [] s f = refl
  Below-filter k (x ∷ xs) s f =
      rw (f.0, Below-filter k xs s (Below-weaken (key x) k xs s f.0 f.1)) refl

  Below-Falls : (k : K) (xs : List A) → Below k xs → Falls xs
  Below-Falls k [] f = tt
  Below-Falls k (x ∷ xs) f = f.1

  after_false : (a b : K) → IsStrict lt → lt a b ≡ true → lt b a ≡ false
  after_false a b s h = elim (Bool-cases (lt b a)) [
    | inl back ↦ let loop = s.trans a b a h back in cc (loop, s.irrefl a)
    | inr other ↦ other
  ]

  -- Beyond the key of a row stands what comes after it.
  pub filter-suffix :
      (xs : List A) (b : A) (rest : List A)
      → IsStrict lt
      → Falls (xs ++ b ∷ rest)
      → filter (before key lt (some (key b))) (xs ++ b ∷ rest) ≡ rest
  filter-suffix [] b rest s f = rw (s.irrefl (key b)) (Below-filter (key b) rest s f)
  filter-suffix (x ∷ xs) b rest s f =
      rw (after_false (key b) (key x) s (Below-member (key x) xs b rest s f))
        (filter-suffix xs b rest s (Below-Falls (key x) (xs ++ b ∷ rest) f))
