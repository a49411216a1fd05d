-- ===== src/Scheduler/Queue.antt =====
-- The rows of the auction table that a poll selects.
use sd_online_auction_backen.Common.{
  ℕ, zero, suc, ◌≤◌, ◌≡◌, refl, ap, Bool, false, some, List, [], ◌∷◌, arith, ◌==◌, any, filter,
  length, take, All, ◌≢◌, sym, Bool-cases, inl, inr,
}
use sd_online_auction_backen.Common.Dict.{find}
use sd_online_auction_backen.Models.{Auction}

abbrev pub has_id : ℕ → List Auction → Bool
has_id k rows = any (λ a. a.auction_id == k) rows

-- the primary key
abbrev pub UniqueIds : List Auction → Type 0
UniqueIds [] = Unit
UniqueIds (a ∷ rows) = (has_id a.auction_id rows ≡ false) × UniqueIds rows

filter-has_id :
    (p : Auction → Bool) (k : ℕ) (rows : List Auction)
    → has_id k rows ≡ false
    → has_id k (filter p rows) ≡ false
filter-has_id p k [] h = refl
filter-has_id p k (a ∷ rows) h = ground (arith, filter-has_id p k rows)

has_id-find :
    (p : Auction → Bool) (k : ℕ) (rows : List Auction) (a : Auction)
    → UniqueIds rows
    → find (λ (x : Auction). x.auction_id) k rows ≡ some a
    → has_id k (filter p rows) ≡ p a
unfolding find
has_id-find p k [] a u h = cc
has_id-find p k (x ∷ rows) a u h =
    ground (arith, has_id-find p k rows a u.1, filter-has_id p k rows)

pub take-all {ℓ} : {A : Type ℓ} (n : ℕ) (xs : List A) → length xs ≤ n → take n xs ≡ xs
take-all zero [] h = refl
take-all zero (x ∷ xs) h = absurd (omega (arith, h))
take-all (suc n) [] h = refl
take-all (suc n) (x ∷ xs) h = ap (λ l. x ∷ l) (take-all n xs (omega arith))

-- A batch that is large enough has the row with the id exactly if the row is due.
pub has_id-take :
    (p : Auction → Bool) (k n : ℕ) (rows : List Auction) (a : Auction)
    → UniqueIds rows
    → length (filter p rows) ≤ n
    → find (λ (x : Auction). x.auction_id) k rows ≡ some a
    → has_id k (take n (filter p rows)) ≡ p a
has_id-take p k n rows a u fits h =
    rw (take-all n (filter p rows) fits) (has_id-find p k rows a u h)

-- a property that the rows with another id than `k` have
pub All-others :
    {P Q : Auction → Type 0} (k : ℕ) (rows : List Auction)
    → ((b : Auction) → k ≢ b.auction_id → P b → Q b)
    → has_id k rows ≡ false
    → All P rows
    → All Q rows
All-others k [] f h all = tt
All-others k (b ∷ rows) f h all =
    (f b (λ e. ground (arith, sym e)) all.0, All-others k rows f (ground arith) all.1)

All-filter :
    (P : Auction → Type 0) (p : Auction → Bool) (rows : List Auction)
    → All P rows
    → All P (filter p rows)
All-filter P p [] all = tt
All-filter P p (b ∷ rows) all = elim (Bool-cases (p b)) [
  | inl yes_p ↦ rw yes_p (all.0, All-filter P p rows all.1)
  | inr no_p ↦ rw no_p (All-filter P p rows all.1)
]

pub All-take :
    (P : Auction → Type 0) (n : ℕ) (rows : List Auction) → All P rows → All P (take n rows)
All-take P zero rows all = tt
All-take P (suc n) [] all = tt
All-take P (suc n) (b ∷ rows) all = (all.0, All-take P n rows all.1)

take-has_id :
    (n k : ℕ) (rows : List Auction) → has_id k rows ≡ false → has_id k (take n rows) ≡ false
take-has_id zero k rows h = refl
take-has_id (suc n) k [] h = refl
take-has_id (suc n) k (b ∷ rows) h = ground (arith, take-has_id n k rows)

UniqueIds-filter :
    (p : Auction → Bool) (rows : List Auction) → UniqueIds rows → UniqueIds (filter p rows)
UniqueIds-filter p [] u = tt
UniqueIds-filter p (b ∷ rows) u = elim (Bool-cases (p b)) [
  | inl yes_p ↦ rw yes_p (filter-has_id p b.auction_id rows u.0, UniqueIds-filter p rows u.1)
  | inr no_p ↦ rw no_p (UniqueIds-filter p rows u.1)
]

UniqueIds-take : (n : ℕ) (rows : List Auction) → UniqueIds rows → UniqueIds (take n rows)
UniqueIds-take zero rows u = tt
UniqueIds-take (suc n) [] u = tt
UniqueIds-take (suc n) (b ∷ rows) u =
    (take-has_id n b.auction_id rows u.0, UniqueIds-take n rows u.1)

-- Each row of a table is the one that its id finds.
All-find :
    (rows : List Auction)
    → UniqueIds rows
    → All (λ a. find (λ (x : Auction). x.auction_id) a.auction_id rows ≡ some a) rows
unfolding find
All-find [] u = tt
All-find (b ∷ rows) u = (
  ground arith,
  All-others b.auction_id rows (λ c ne found. ground (arith, ne, found)) u.0 (All-find rows u.1),
)

-- The rows of a batch have different ids, and each is found by its id.
pub UniqueIds-batch :
    (p : Auction → Bool) (n : ℕ) (rows : List Auction)
    → UniqueIds rows
    → UniqueIds (take n (filter p rows))
      × All
          (λ a. find (λ (x : Auction). x.auction_id) a.auction_id rows ≡ some a)
          (take n (filter p rows))
UniqueIds-batch p n rows u = (
  UniqueIds-take n (filter p rows) (UniqueIds-filter p rows u),
  All-take _ n (filter p rows) (All-filter _ p rows (All-find rows u)),
)

pub All-both :
    (P Q : Auction → Type 0) (rows : List Auction)
    → All P rows
    → All Q rows
    → All (λ a. P a × Q a) rows
All-both P Q [] ps qs = tt
All-both P Q (a ∷ rows) ps qs = ((ps.0, qs.0), All-both P Q rows ps.1 qs.1)
