-- ===== src/Common/Dict.antt =====
-- Keyed stores: a map as a function from keys, and a table as a list of rows with a numeric key.
use Prim.Native.Nat.{ℕ}
use mathlib.Core.Path.{◌≡◌, refl}
use mathlib.Core.Logic.{◌≢◌}
use mathlib.Core.Option.{Option, none, some}
use mathlib.Core.List.{List, [], ◌∷◌, ◌++◌}
use native.Mathlib.Omega.{arith}
use sd_online_auction_backen.Common.Tests.{◌==◌, if◌then◌else◌}

-- `f` with the value at `k` replaced.
abbrev pub update {ℓ} : {V : Type ℓ} → (ℕ → V) → ℕ → V → ℕ → V
update f k v j = if k == j then v else f j

module _ {ℓ} {A : Type ℓ} (key : A → ℕ) where
  -- the first row with the key
  unfoldable pub find : ℕ → List A → Option A
  find k [] = none
  find k (x ∷ xs) = let rest = find k xs in if key x == k then some x else rest

  -- the first row with the key of `a` becomes `a`
  unfoldable pub replace : A → List A → List A
  replace a [] = []
  replace a (x ∷ xs) = let rest = replace a xs in if key x == key a then a ∷ xs else x ∷ rest

module _ {ℓ} {A : Type ℓ} (key : A → ℕ) where
  pub find-key : (k : ℕ) (xs : List A) (a : A) → find key k xs ≡ some a → key a ≡ k
  unfolding find
  find-key k [] a h = cc
  find-key k (x ∷ xs) a h = ground (arith, find-key k xs a)

  pub find-replace_self :
      (a b : A) (xs : List A)
      → find key (key a) xs ≡ some b
      → find key (key a) (replace key a xs) ≡ some a
  unfolding find replace
  find-replace_self a b [] h = cc
  find-replace_self a b (x ∷ xs) h = ground (arith, find-replace_self a b xs)

  pub find-replace_ne :
      (a : A) (k : ℕ) (xs : List A) → key a ≢ k → find key k (replace key a xs) ≡ find key k xs
  unfolding find replace
  find-replace_ne a k [] h = refl
  find-replace_ne a k (x ∷ xs) h = ground (arith, find-replace_ne a k xs h)

  pub find-append_none :
      (k : ℕ) (a : A) (xs : List A)
      → find key k xs ≡ none
      → find key k (xs ++ a ∷ []) ≡ (if key a == k then some a else none)
  unfolding find
  find-append_none k a [] h = ground arith
  find-append_none k a (x ∷ xs) h = ground (arith, find-append_none k a xs)

  pub find-append_some :
      (k : ℕ) (a b : A) (xs : List A) → find key k xs ≡ some b → find key k (xs ++ a ∷ []) ≡ some b
  unfolding find
  find-append_some k a b [] h = cc
  find-append_some k a b (x ∷ xs) h = ground (arith, find-append_some k a b xs)
