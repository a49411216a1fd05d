-- ===== src/Tests/Searches.antt =====
-- Searches over three auctions.
use sd_online_auction_backen.Common.{◌≡◌, refl, some, none, [], ◌∷◌, length, ◌≤◌}
use sd_online_auction_backen.Platform.Exact.{exact}
use sd_online_auction_backen.Models.{Auction, sold}
use sd_online_auction_backen.Session.{World, raised, statement_error}
use sd_online_auction_backen.Paging.{clamp_limit, cut, order_desc}
use sd_online_auction_backen.Search.{
  Engine, Query, SearchResult, key_lt, encode_cursor, selected, build_where, item, result_of,
  search_auctions,
}
use sd_online_auction_backen.Search.Matching.{matching}
use sd_online_auction_backen.Search.Answers.{search_auctions-bounds, search_auctions_dead_end}
use sd_online_auction_backen.Search.Sample.{sample}
use sd_online_auction_backen.Tests.Fixtures.{auction, db, world}

abbrev early : Auction
early = record auction { auction_id = 2; created_at = 3 }

abbrev late : Auction
late = record auction { auction_id = 3; created_at = 4; highest_bid = some 900 }

abbrev gone : Auction
gone = record auction { auction_id = 4; created_at = 5; state = sold }

abbrev listed : World
listed = record world { db = record db { auctions = early ∷ late ∷ gone ∷ [] } }

abbrev query : Query exact
query = record {
  category = some "watches";
  price_min = some 500;
  price_max = none;
  q = some "watch";
  state = "ACTIVE";
  cursor = none;
  limit = 1;
}

-- the first of two pages
abbrev page : SearchResult
page = record {
  auctions = item exact sample late ∷ [];
  next_cursor = some (encode_cursor exact sample "||||" "|||");
  total = 2;
}

search_auctions-bounds_example :
    (page.total ≡ length (matching exact sample query listed))
    × (length page.auctions ≤ clamp_limit query.limit)
    × (clamp_limit query.limit ≤ 100)
    × (length page.auctions ≤ page.total)
unfolding search_auctions sample selected order_desc key_lt build_where clamp_limit result_of cut
search_auctions-bounds_example = search_auctions-bounds exact sample query listed page refl

-- a row comparison that raises
abbrev broken : Engine exact
broken = record sample { row_less = λ a b. none }

abbrev dead_page : SearchResult
dead_page = record {
  auctions = item exact broken late ∷ [];
  next_cursor = some (encode_cursor exact broken "||||" "|||");
  total = 2;
}

search_auctions_dead_end_example :
    search_auctions exact broken
      (record query { cursor = some (encode_cursor exact broken "||||" "|||") })
      listed
    ≡ (raised statement_error, listed)
unfolding search_auctions sample selected order_desc key_lt build_where clamp_limit result_of cut
    encode_cursor
search_auctions_dead_end_example =
    search_auctions_dead_end exact broken query listed dead_page
      (encode_cursor exact broken "||||" "|||") (λ a b. refl) refl refl
