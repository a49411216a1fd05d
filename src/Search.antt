-- ===== src/Search.antt =====
-- SearchService, src/auction_app/services/search_service.py, with the query of
-- src/auction_app/routers/search.py and src/auction_app/schemas/search.py.
pub mod Cursor
pub mod Matching
pub mod Answers
pub mod Sample
use Prim.Native.String.{◌++◌ as str_append}
use text.Mathlib.Text.{◌==◌ as str_eq}
use sd_online_auction_backen.Common.{
  ℕ, ◌+◌, String, Bool, true, false, ◌&&◌, ◌≡◌, Option, none, some, List, [], ◌∷◌, map, length,
  take, filter, not, ltb, ◌==◌, if◌then◌else◌,
}
use sd_online_auction_backen.Platform.{Platform}
use sd_online_auction_backen.Models.{
  Auction, AuctionState, upcoming, active, closed, sold, unsold, PriceText, cents,
}
use sd_online_auction_backen.Session.{World, statement_error, Action, pure, gets, ◌>>=◌}
use sd_online_auction_backen.Session.Tables.{or_raise}
use sd_online_auction_backen.Paging.{Page, clamp_limit, cut, order_desc, before}

-- What a search takes from outside: Python's json, base64 and text, PostgreSQL's text search and
-- comparison of a NUMERIC with a float, and the row comparison that a cursor asks for.
pub record Engine (p : Platform) : Type 1 where
  pub isoformat : ℕ → String
  pub uuid_text : ℕ → String
  -- a value that `json.loads` returns, and the array of two texts
  pub Json : Type 0
  pub text : String → Json
  pub pair : String → String → Json
  pub dumps : Json → String
  -- `none` is an exception
  pub loads : String → Option Json
  pub b64encode : String → String
  pub b64decode : String → Option String
  pub len : Json → Option ℕ
  pub index : Json → ℕ → Option Json
  pub loads_dumps : (a b : String) → loads (dumps (pair a b)) ≡ some (pair a b)
  pub b64decode_b64encode : (s : String) → b64decode (b64encode s) ≡ some s
  pub len_pair : (a b : String) → len (pair a b) ≡ some 2
  pub index_pair :
      (a b : String) → (index (pair a b) 0 ≡ some (text a)) × (index (pair a b) 1 ≡ some (text b))
  -- no text of base64 that stands for a pair is empty
  pub b64encode_pair : (a b : String) → str_eq (b64encode (dumps (pair a b))) "" ≡ false
  -- `not q.strip()`
  pub is_blank : String → Bool
  -- `to_tsvector('english', title || ' ' || description) @@ plainto_tsquery('english', q)`
  pub matches : String → String → Bool
  pub price_at_least : ℕ → p.Float → Bool
  pub price_at_most : ℕ → p.Float → Bool
  -- `literal_column("(auction.created_at, auction.auction_id::text) < (:ct, :cid)").bindparams(...)`
  -- as PostgreSQL runs it; `none` is an exception on the way
  pub row_less : Json → Json → Option (Auction → Bool)

-- the parameters of the request
pub record Query (p : Platform) : Type 0 where
  pub category : Option String
  pub price_min : Option p.Float
  pub price_max : Option p.Float
  pub q : Option String
  pub state : String
  pub cursor : Option String
  pub limit : ℕ

pub record SearchResultItem : Type 0 where
  pub auction_id : String
  pub title : String
  pub category : String
  pub current_price : PriceText
  pub state : AuctionState
  pub start_ts : String
  pub end_ts : String
  pub bid_count : ℕ

pub record SearchResult : Type 0 where
  pub auctions : List SearchResultItem
  pub next_cursor : Option String
  pub total : ℕ

-- a text is false when it is empty
abbrev pub is_given : String → Bool
is_given s = not (str_eq s "")

-- `state in allowed_states`, or "ACTIVE"
unfoldable pub wanted_state : String → AuctionState
wanted_state s =
    if str_eq s "UPCOMING"
    then upcoming
    else if str_eq s "CLOSED"
    then closed
    else if str_eq s "SOLD"
    then sold
    else if str_eq s "UNSOLD"
    then unsold
    else active

abbrev pub state_number : AuctionState → ℕ
state_number upcoming = 0
state_number active = 1
state_number closed = 2
state_number sold = 3
state_number unsold = 4

abbrev pub in_category : Option String → Auction → Bool
in_category none a = true
in_category (some c) a = if is_given c then str_eq a.category c else true

-- `coalesce(highest_bid, starting_price)`
abbrev pub coalesced : Option ℕ → ℕ → ℕ
coalesced none start = start
coalesced (some n) start = n

abbrev pub price_of : Auction → ℕ
price_of a = coalesced a.highest_bid a.starting_price

-- `coalesce(description, '')`
abbrev pub described : Option String → String
described none = ""
described (some d) = d

-- the order of the rows: created_at, then auction_id
abbrev pub Key : Type 0
Key = ℕ × ℕ

abbrev pub key : Auction → Key
key a = (a.created_at, a.auction_id)

unfoldable pub key_lt : Key → Key → Bool
key_lt (c, i) (d, j) = if ltb c d then true else if c == d then ltb i j else false

module _ (p : Platform) (e : Engine p) where
  unfoldable pub encode_cursor : String → String → String
  encode_cursor created_at auction_id = e.b64encode (e.dumps (e.pair created_at auction_id))

  -- `return parts[0], parts[1]`
  abbrev pub both : Option e.Json → Option e.Json → Option (e.Json × e.Json)
  both (some a) (some b) = some (a, b)
  both _ _ = none

  -- `if len(parts) == 2`
  abbrev pub two_parts : Option ℕ → e.Json → Option (e.Json × e.Json)
  two_parts none parts = none
  two_parts (some n) parts = if n == 2 then both (e.index parts 0) (e.index parts 1) else none

  abbrev pub parts_of : Option e.Json → Option (e.Json × e.Json)
  parts_of none = none
  parts_of (some parts) = two_parts (e.len parts) parts

  abbrev pub decode_payload : Option String → Option (e.Json × e.Json)
  decode_payload none = none
  decode_payload (some payload) = parts_of (e.loads payload)

  unfoldable pub decode_cursor : String → Option (e.Json × e.Json)
  decode_cursor cursor = decode_payload (e.b64decode cursor)

  abbrev pub above_min : Option p.Float → Auction → Bool
  above_min none a = true
  above_min (some x) a = e.price_at_least (price_of a) x

  abbrev pub below_max : Option p.Float → Auction → Bool
  below_max none a = true
  below_max (some x) a = e.price_at_most (price_of a) x

  -- `if q and q.strip()`
  abbrev pub mentions : Option String → Auction → Bool
  mentions none a = true
  mentions (some q) a =
      if e.is_blank q
      then true
      else e.matches (str_append a.title (str_append " " (described a.description))) q

  -- the filters before the cursor
  unfoldable pub selected : Query p → Auction → Bool
  unfolding wanted_state
  selected query a =
      state_number a.state == state_number (wanted_state query.state)
      && in_category query.category a
      && above_min query.price_min a
      && below_max query.price_max a
      && mentions query.q a

  -- a cursor that does not decode is left out
  abbrev pub beyond_parts : Option (e.Json × e.Json) → Option (Auction → Bool)
  beyond_parts none = some (λ a. true)
  beyond_parts (some (created, id)) = e.row_less created id

  unfoldable pub beyond : Option String → Option (Auction → Bool)
  unfolding decode_cursor
  beyond none = some (λ a. true)
  beyond (some cursor) =
      if is_given cursor then beyond_parts (decode_cursor cursor) else some (λ a. true)

  abbrev pub with_filters : Query p → Option (Auction → Bool) → Option (Auction → Bool)
  with_filters query none = none
  with_filters query (some after) = some (λ a. selected query a && after a)

  unfoldable pub build_where : Query p → Option String → Option (Auction → Bool)
  unfolding beyond
  build_where query cursor = with_filters query (beyond cursor)

  unfoldable pub item : Auction → SearchResultItem
  item a = record {
    auction_id = e.uuid_text a.auction_id;
    title = a.title;
    category = a.category;
    current_price = cents (coalesced a.highest_bid a.starting_price);
    state = a.state;
    start_ts = e.isoformat a.start_ts;
    end_ts = e.isoformat a.end_ts;
    bid_count = 0;
  }

  abbrev pub cursor_of : Option Auction → Option String
  cursor_of none = none
  cursor_of (some a) = some (encode_cursor (e.isoformat a.created_at) (e.uuid_text a.auction_id))

  -- the answer for `total` and the rows that were fetched
  unfoldable pub result_of : ℕ → ℕ → List Auction → SearchResult
  result_of limit total rows =
      let page = cut limit rows in
      record { auctions = map item page.rows; next_cursor = cursor_of page.last; total = total }

  unfoldable pub search_auctions : Query p → Action SearchResult
  unfolding result_of
  search_auctions query = do
    filtered ← or_raise (build_where query query.cursor) statement_error
    counted ← or_raise (build_where query none) statement_error
    rows ← gets (λ w. w.db.auctions)
    let limit = clamp_limit query.limit
    let fetched = take (limit + 1) (order_desc key key_lt (filter filtered rows))
    pure (result_of limit (length (filter counted rows)) fetched)

  -- the framework asks for a limit from 1 to 100
  unfoldable pub search_auctions_route : Query p → Action SearchResult
  unfolding search_auctions
  search_auctions_route query = search_auctions query
