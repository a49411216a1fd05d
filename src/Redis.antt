-- ===== src/Redis.antt =====
-- What the application keeps in Redis: one hash, one stream and one channel for each auction, and
-- a result for each bid id. A text that a field holds is read as what it stands for. Streams and
-- results are kept whole: Redis's trimming and expiry, which the program never reads, are left out.
pub mod Script
use sd_online_auction_backen.Common.{ℕ, Bool, Option, none, some, List, [], ◌∷◌, ◌++◌}
use sd_online_auction_backen.Common.Dict.{update}
use sd_online_auction_backen.Models.{AuctionState, Reason, PriceText}

-- HASH auction:{id}; a field that is not set is `none`. A `highest_bidder` of "" is `some none`.
pub record Hash : Type 0 where
  pub state : Option AuctionState
  pub highest_bid : Option ℕ
  pub highest_bidder : Option (Option ℕ)
  pub end_ts : Option ℕ
  pub start_ts : Option ℕ
  pub sequence_num : Option ℕ
  pub extensions_used : Option ℕ
  pub min_increment : Option ℕ
  pub last_bid_ts : Option ℕ

abbrev pub no_fields : Hash
no_fields = record {
  state = none;
  highest_bid = none;
  highest_bidder = none;
  end_ts = none;
  start_ts = none;
  sequence_num = none;
  extensions_used = none;
  min_increment = none;
  last_bid_ts = none;
}

-- STRING bid_result:{id}: "ACCEPTED" or a reason
pub data Cached : Type 0 where
  cached_accepted : Cached
  cached_rejected : Reason → Cached

-- an entry of STREAM auction:{id}:bids
pub record StreamEntry : Type 0 where
  pub bid_id : ℕ
  pub bidder_id : ℕ
  pub amount : ℕ
  pub is_proxy : Bool
  pub client_ts : ℕ

-- a message on channel fanout:auction:{id}
pub record Message : Type 0 where
  pub auction_id : ℕ
  pub sequence_num : ℕ
  pub current_price : PriceText
  pub high_bidder_masked : List ℕ
  pub end_ts : ℕ

pub record Redis : Type 0 where
  pub hashes : ℕ → Option Hash
  -- the result of a bid id, with its time to live
  pub results : ℕ → Option (Cached × ℕ)
  pub streams : ℕ → List StreamEntry
  pub published : List Message

-- HGET and HGETALL of a key that is not there see no field
abbrev pub fields : Option Hash → Hash
fields none = no_fields
fields (some h) = h

abbrev pub set_hash : ℕ → Hash → Redis → Redis
set_hash k h r = record r { hashes = update r.hashes k (some h) }

-- SET bid_result:{id} value EX ttl
abbrev pub set_result : ℕ → Cached → ℕ → Redis → Redis
set_result k v ttl r = record r { results = update r.results k (some (v, ttl)) }

-- XADD
abbrev pub xadd : ℕ → StreamEntry → Redis → Redis
xadd k e r = record r { streams = update r.streams k (r.streams k ++ e ∷ []) }

-- PUBLISH
abbrev pub publish : Message → Redis → Redis
publish m r = record r { published = r.published ++ m ∷ [] }
