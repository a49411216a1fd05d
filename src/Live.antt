-- ===== src/Live.antt =====
-- The WebSocket of src/auction_app/routers/websocket.py, with `mask_bidder_id` of
-- src/auction_app/services/fanout_service.py.
pub mod Frames
pub mod Connection
pub mod Fanout
use sd_online_auction_backen.Common.{ℕ, Bool, Option, none, some, List, [], ◌∷◌, take}
use sd_online_auction_backen.Platform.{Platform}
use sd_online_auction_backen.Models.{PriceText, cents}
use sd_online_auction_backen.Redis.{Hash, Redis, Message, fields}
use sd_online_auction_backen.Redis.Script.{or_zero}

-- what is sent to a watcher, as JSON
pub record Frame : Type 0 where
  pub sequence_num : ℕ
  pub current_price : PriceText
  pub high_bidder_masked : List ℕ
  pub end_ts : ℕ

unfoldable pub mask_bidder_id : Platform → ℕ → List ℕ
mask_bidder_id p bidder_id = take 8 (p.hexdigest bidder_id)

-- "" for an auction without a leader
abbrev pub mask_leader : Platform → Option (Option ℕ) → List ℕ
mask_leader p (some (some bidder)) = mask_bidder_id p bidder
mask_leader p _ = []

-- step 1; without a hash all fields have their defaults
unfoldable pub initial : Platform → Option Hash → Frame
initial p found = record {
  sequence_num = or_zero (fields found).sequence_num;
  current_price = cents (or_zero (fields found).highest_bid);
  high_bidder_masked = mask_leader p (fields found).highest_bidder;
  end_ts = or_zero (fields found).end_ts;
}

-- the payload of a message on the channel
abbrev pub payload : Message → Frame
payload m = record {
  sequence_num = m.sequence_num;
  current_price = m.current_price;
  high_bidder_masked = m.high_bidder_masked;
  end_ts = m.end_ts;
}
