-- ===== src/Search/Answers.antt =====
-- What one page of a search says, and what it makes of a cursor.
use text.Mathlib.Text.{◌==◌ as str_eq}
use sd_online_auction_backen.Common.{
  ℕ, suc, ◌+◌, ◌≤◌, ◌≡◌, refl, ap, ◌∙◌, inl, inr, String, Bool, true, ◌&&◌, Option, none, some,
  List, [], ◌∷◌, map, arith, length, take, filter, length-take, Bool-cases, Option-cases,
  eq_of_some,
}
use sd_online_auction_backen.Platform.{Platform}
use sd_online_auction_backen.Models.{Auction}
use sd_online_auction_backen.Session.{World, statement_error, ok, raised}
use sd_online_auction_backen.Paging.{clamp_limit, cut, insert_desc, order_desc}
use sd_online_auction_backen.Search.{
  Engine, Query, SearchResult, key, key_lt, encode_cursor, decode_cursor, selected, beyond,
  build_where, item, cursor_of, result_of, search_auctions,
}
use sd_online_auction_backen.Search.Cursor.{decode_cursor-encode_cursor}
use sd_online_auction_backen.Search.Matching.{matching, filter-and_true}

eq_of_ok : {a b : SearchResult} → ok a ≡ ok b → a ≡ b
eq_of_ok e = cc

length-map : {A B : Type 0} (f : A → B) (xs : List A) → length (map f xs) ≡ length xs
length-map f [] = refl
length-map f (x ∷ xs) = ap suc (length-map f xs)

length-insert_desc :
    (b : Auction) (xs : List Auction) → length (insert_desc key key_lt b xs) ≡ suc (length xs)
unfolding insert_desc
length-insert_desc b [] = refl
length-insert_desc b (x ∷ xs) = ground (arith, length-insert_desc b xs)

length-order_desc : (xs : List Auction) → length (order_desc key key_lt xs) ≡ length xs
unfolding order_desc
length-order_desc [] = refl
length-order_desc (x ∷ xs) =
    length-insert_desc x (order_desc key key_lt xs) ∙ ap suc (length-order_desc xs)

length-filter_and :
    (f g : Auction → Bool) (rows : List Auction)
    → length (filter (λ a. f a && g a) rows) ≤ length (filter f rows)
length-filter_and f g [] = omega arith
length-filter_and f g (a ∷ rows) = ground (arith, length-filter_and f g rows)

length-cut :
    (limit : ℕ) (rows : List Auction)
    → (length (cut limit rows).rows ≤ limit) × (length (cut limit rows).rows ≤ length rows)
unfolding cut
length-cut limit rows = ground (arith, length-take limit rows)

module _ (p : Platform) (e : Engine p) where
  -- the answer whose cursor asks for `after`
  abbrev answer : Query p → World → (Auction → Bool) → SearchResult
  answer query w after =
      result_of p e (clamp_limit query.limit)
        (length (filter (λ a. selected p e query a && true) w.db.auctions))
        (take (clamp_limit query.limit + 1)
          (order_desc key key_lt (filter (λ a. selected p e query a && after a) w.db.auctions)))

  search_auctions-answer :
      (query : Query p) (w : World) (page : SearchResult)
      → (search_auctions p e query w).0 ≡ ok page
      → (after : Auction → Bool) × (answer query w after ≡ page)
  unfolding search_auctions build_where
  search_auctions-answer query w page h = elim (Option-cases (beyond p e query.cursor)) [
    | inl broken ↦ cc (rw broken at h)
    | inr (after, e') ↦ (after, eq_of_ok (rw e' at h))
  ]

  answer-bounds :
      (query : Query p) (w : World) (after : Auction → Bool)
      → ((answer query w after).total ≡ length (matching p e query w))
        × (length (answer query w after).auctions ≤ clamp_limit query.limit)
        × (length (answer query w after).auctions ≤ (answer query w after).total)
  unfolding result_of
  answer-bounds query w after =
      let found =
        order_desc key key_lt (filter (λ a. selected p e query a && after a) w.db.auctions) in
      let fetched = take (clamp_limit query.limit + 1) found in
      let all = ap length (filter-and_true (selected p e query) w.db.auctions) in
      let shown = length-map (item p e) (cut (clamp_limit query.limit) fetched).rows in
      let (fits, fewer) = length-cut (clamp_limit query.limit) fetched in
      let taken = length-take (clamp_limit query.limit + 1) found in
      let ordered =
        length-order_desc (filter (λ a. selected p e query a && after a) w.db.auctions) in
      let fewer_matching = length-filter_and (selected p e query) after w.db.auctions in
      (
        all,
        omega (arith, shown, fits),
        omega (arith, shown, fewer, taken, ordered, fewer_matching, all),
      )

  clamp_limit-bound : (limit : ℕ) → clamp_limit limit ≤ 100
  unfolding clamp_limit
  clamp_limit-bound limit = omega arith

  beyond_dead_end :
      (last : Option Auction) (cursor : String)
      → ((created id : e.Json) → e.row_less created id ≡ none)
      → cursor_of p e last ≡ some cursor
      → beyond p e (some cursor) ≡ none
  unfolding beyond encode_cursor
  beyond_dead_end none cursor fails next = cc
  beyond_dead_end (some a) cursor fails next =
      rw
        (
          ← eq_of_some next,
          e.b64encode_pair (e.isoformat a.created_at) (e.uuid_text a.auction_id),
          decode_cursor-encode_cursor p e (e.isoformat a.created_at) (e.uuid_text a.auction_id),
        )
        (fails _ _)

  -- A page of a search that returns has at most as many auctions as its limit, clamped to 100, and
  -- as its total, which counts the auctions that match the filters, whatever the cursor.
  pub search_auctions-bounds :
      (query : Query p) (w : World) (page : SearchResult)
      → (search_auctions p e query w).0 ≡ ok page
      → (page.total ≡ length (matching p e query w))
        × (length page.auctions ≤ clamp_limit query.limit)
        × (clamp_limit query.limit ≤ 100)
        × (length page.auctions ≤ page.total)
  search_auctions-bounds query w page h =
      let (after, same) = search_auctions-answer query w page h in
      let (counts, fits, fewer) = answer-bounds query w after in
      rw (← same) (counts, fits, clamp_limit-bound query.limit, fewer)

  -- A cursor that does not decode is answered with the first page.
  pub search_auctions_bad_cursor :
      (query : Query p) (cursor : String) (w : World)
      → decode_cursor p e cursor ≡ none
      → search_auctions p e (record query { cursor = some cursor }) w
        ≡ search_auctions p e (record query { cursor = none }) w
  unfolding search_auctions build_where beyond selected
  search_auctions_bad_cursor query cursor w bad = elim (Bool-cases (str_eq cursor "")) [
    | inl empty ↦ rw empty refl
    | inr given ↦ rw (given, bad) refl
  ]

  -- If the row comparison fails whatever its values, every answer with a next cursor is a dead end:
  -- the search with that cursor raises and changes nothing.
  pub search_auctions_dead_end :
      (query : Query p) (w : World) (page : SearchResult) (cursor : String)
      → ((created id : e.Json) → e.row_less created id ≡ none)
      → (search_auctions p e query w).0 ≡ ok page
      → page.next_cursor ≡ some cursor
      → search_auctions p e (record query { cursor = some cursor }) w ≡ (raised statement_error, w)
  unfolding search_auctions build_where result_of
  search_auctions_dead_end query w page cursor fails h next =
      let (after, same) = search_auctions-answer query w page h in
      let dead = beyond_dead_end _ cursor fails (ap (λ x. x.next_cursor) same ∙ next) in
      rw dead refl
