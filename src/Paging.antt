-- ===== src/Paging.antt =====
-- What the two paged queries share, the bid history of src/auction_app/services/bid_service.py and
-- the search of src/auction_app/services/search_service.py: ORDER BY a key, descending; the rows
-- beyond a cursor, which is a key; LIMIT one more than a page, to see whether there is more.
pub mod Order
pub mod Walk
pub mod First
use sd_online_auction_backen.Common.{
  ℕ, ◌+◌, Bool, true, false, Option, none, some, List, [], ◌∷◌, ltb, if◌then◌else◌, length, take,
  get_last?, min, max,
}

-- `max(min(limit, 100), 1)`; a negative limit ends as 1, as 0 does
unfoldable pub clamp_limit : ℕ → ℕ
clamp_limit limit = max (min limit 100) 1

-- a page's rows, and the row whose key is the next cursor
pub record Page (A : Type 0) : Type 0 where
  pub rows : List A
  pub last : Option A

abbrev pub last_of : {A : Type 0} → Bool → List A → Option A
last_of true rows = get_last? rows
last_of false rows = none

-- the page of the rows that were fetched
unfoldable pub cut : {A : Type 0} → ℕ → List A → Page A
cut limit fetched =
    let has_more = ltb limit (length fetched) in
    let rows = if has_more then take limit fetched else fetched in
    record { rows = rows; last = last_of has_more rows }

module _ {A K : Type 0} (key : A → K) (lt : K → K → Bool) where
  unfoldable pub insert_desc : A → List A → List A
  insert_desc b [] = b ∷ []
  insert_desc b (x ∷ xs) =
      let rest = insert_desc b xs in if lt (key b) (key x) then x ∷ rest else b ∷ x ∷ xs

  unfoldable pub order_desc : List A → List A
  unfolding insert_desc
  order_desc [] = []
  order_desc (b ∷ bs) = insert_desc b (order_desc bs)

  abbrev pub before : Option K → A → Bool
  before none a = true
  before (some c) a = lt (key a) c
