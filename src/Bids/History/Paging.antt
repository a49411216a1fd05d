-- ===== src/Bids/History/Paging.antt =====
-- The pages of a bid history, one after the other, against the whole history.
use mathlib.Core.List.{map-append}
use sd_online_auction_backen.Common.{
  ℕ, zero, suc, ◌<◌, ◌≡◌, refl, sym, ap, ◌∙◌, Option, none, some, List, [], ◌∷◌, ◌++◌, map, arith,
  ltb, length, filter,
}
use sd_online_auction_backen.Models.{Bid}
use sd_online_auction_backen.Paging.{Page, clamp_limit, cut, order_desc, before}
use sd_online_auction_backen.Paging.Order.{IsStrict, Distinct}
use sd_online_auction_backen.Paging.Walk as Pages
use sd_online_auction_backen.Paging.Walk.{clamp_limit-pos, walk-order_desc}
use sd_online_auction_backen.Bids.History.{
  BidHistoryItem, number, selected, item, cursor_of, fetched, page_of, history_page,
}

-- the accepted bids of an auction, newest first
abbrev pub history : ℕ → List Bid → List Bid
history auction_id bids = order_desc number ltb (filter (selected auction_id none) bids)

-- The items that a client collects by asking on with each page's cursor; the fuel bounds the pages.
abbrev pub follow : Option ℕ → (Option ℕ → List BidHistoryItem) → List BidHistoryItem
follow none ask = []
follow (some n) ask = ask (some n)

pub walk : ℕ → ℕ → ℕ → Option ℕ → List Bid → List BidHistoryItem
walk zero auction_id limit cursor bids = []
walk (suc fuel) auction_id limit cursor bids =
    let page = history_page auction_id cursor limit bids in
    page.bids ++ follow page.next_cursor (λ c. walk fuel auction_id limit c bids)

pub numbers-IsStrict : IsStrict ltb
numbers-IsStrict = record {
  trans = λ a b c h k. ground arith;
  irrefl = λ a. ground arith;
  weak = λ a b c h k. ground arith;
  total = λ a b h k. ground arith;
}

filter-selected :
    (k : ℕ) (c : Option ℕ) (bids : List Bid)
    → filter (selected k c) bids ≡ filter (before number ltb c) (filter (selected k none) bids)
filter-selected k c [] = refl
filter-selected k c (b ∷ bs) = ground (arith, filter-selected k c bs)

follow_rows :
    (ask : Option ℕ → List BidHistoryItem) (rows : Bid → List Bid)
    → ((b : Bid) → ask (some (number b)) ≡ map item (rows b))
    → (last : Option Bid) → follow (cursor_of last) ask ≡ map item (Pages.follow last rows)
follow_rows ask rows same none = refl
follow_rows ask rows same (some b) = same b

module _ (k limit : ℕ) (bids : List Bid) where
  page : Option ℕ → Page Bid
  page cursor =
      cut (clamp_limit limit)
        (Pages.fetched number ltb (clamp_limit limit) cursor (filter (selected k none) bids))

  -- the client's walk is the walk over the rows
  walk-rows :
      (fuel : ℕ) (cursor : Option ℕ)
      → walk fuel k limit cursor bids
        ≡ map item
            (Pages.walk number ltb fuel (clamp_limit limit) cursor (filter (selected k none) bids))
  unfolding walk Pages.walk history_page page_of fetched page
  walk-rows zero cursor = refl
  walk-rows (suc fuel) cursor = rw (filter-selected k cursor bids) (
      ap (λ r. map item (page cursor).rows ++ r)
        (follow_rows _ _ (λ b. walk-rows fuel (some (number b))) (page cursor).last)
      ∙ sym (map-append item (page cursor).rows _))

  -- A client that starts without a cursor and asks on until a page has none gets each accepted bid
  -- of the auction once, newest first, whatever the limit, if no two of them have one number. A
  -- fuel above their number is enough.
  pub walk-history :
      (distinct : Distinct number ltb (filter (selected k none) bids)) (fuel : ℕ)
      → length (history k bids) < fuel
      → walk fuel k limit none bids ≡ map item (history k bids)
  walk-history distinct fuel enough =
      let (m, c) = clamp_limit-pos limit in
      walk-rows fuel none
      ∙ rw c (
          ap (map item) (
            walk-order_desc number ltb m (filter (selected k none) bids) numbers-IsStrict distinct
              fuel enough))
