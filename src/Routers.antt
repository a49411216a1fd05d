-- ===== src/Routers.antt =====
-- The HTTP handlers of src/auction_app/routers/bids.py and auctions.py.
pub mod Bidding
pub mod Listing
use sd_online_auction_backen.Common.{
  ℕ, String, ◌≡◌, ap, Bool, true, Option, none, some, if◌then◌else◌,
}
use text.Mathlib.Text.{◌==◌ as str_eq}
use sd_online_auction_backen.Platform.{Platform}
use sd_online_auction_backen.Models.{
  Auction, accepted, rejected, Status, Reason, auction_not_found, lua_script_error, PriceText,
  none_text,
}
use sd_online_auction_backen.Session.{
  World, Exception, http, seller_not_found, start_too_early, end_before_start, Result, ok, raised,
  Action, pure, raise, ◌>>=◌, get_session,
}
use sd_online_auction_backen.Session.Tables.{or_raise}
use sd_online_auction_backen.Auctions.Create.{AuctionCreate, create_auction, Env as CreateEnv}
use sd_online_auction_backen.Auctions.Detail.{AuctionDetail, get_auction_detail}
use sd_online_auction_backen.Bids.Place.{place_bid}
use sd_online_auction_backen.Bids.Recording.{Call, Env, BidResult}
use sd_online_auction_backen.Bids.History.{BidHistoryPage, get_bid_history}

-- `BidRequest`
pub record BidRequest (p : Platform) : Type 0 where
  pub amount : p.Float
  pub is_proxy : Bool
  pub proxy_max : Option p.Float

-- The body of a bid's answer. A missing reason is the text "UNKNOWN".
pub data BidBody : Type 0 where
  created : ℕ → Option ℕ → Option PriceText → BidBody
  conflict : Option Reason → PriceText → BidBody

-- `str(result.get("current_price", "0"))`; the key is always there
abbrev pub str_price : Option PriceText → PriceText
str_price none = none_text
str_price (some t) = t

-- the answer to a rejected bid
abbrev pub respond_rejected : Option Reason → BidResult → Action BidBody
respond_rejected (some auction_not_found) res = raise (http 404)
respond_rejected (some lua_script_error) res = raise (http 500)
respond_rejected why res = pure (conflict why (str_price res.current_price))

abbrev pub respond_with : Status → BidResult → Action BidBody
respond_with rejected res = respond_rejected res.reason res
respond_with accepted res = pure (created res.bid_id res.sequence_num res.current_price)

unfoldable pub respond : BidResult → Action BidBody
respond res = respond_with res.status res

-- the exceptions that are a ValueError become an HTTPException
abbrev pub value_error : Exception → Exception
value_error seller_not_found = http 404
value_error start_too_early = http 400
value_error end_before_start = http 400
value_error e = e

abbrev pub catching : {A : Type 0} → Result A × World → Result A × World
catching (ok a, w) = (ok a, w)
catching (raised e, w) = (raised (value_error e), w)

-- `if x is None: raise HTTPException(status_code=404, ...)`
abbrev pub or_404 : {A : Type 0} → Option A → Action A
or_404 none = raise (http 404)
or_404 (some a) = pure a

-- the rest of a handler after a step that has returned
pub bind-ok :
    {A B : Type 0} (m : Action A) (f : A → Action B) (a : A) (w w' : World)
    → m w ≡ (ok a, w')
    → (m >>= f) w ≡ f a w'
bind-ok m f a w w' h =
    ap (λ x. let (r, v) = x in elim r [ ok b ↦ f b v | raised e ↦ (raised e, v) ]) h

module _ (p : Platform) where
  unfoldable pub parse_user_id : Option String → Action ℕ
  parse_user_id none = raise (http 400)
  parse_user_id (some text) =
      if str_eq text "" then raise (http 400) else or_raise (p.parse_uuid text) (http 400)

  abbrev pub call_of : ℕ → ℕ → BidRequest p → Call p
  call_of auction_id bidder_id request = record {
    auction_id = auction_id;
    bidder_id = bidder_id;
    amount = request.amount;
    is_proxy = request.is_proxy;
    proxy_max = request.proxy_max;
  }

  unfoldable pub place_bid_route : Env → Option String → ℕ → BidRequest p → Action BidBody
  place_bid_route env x_user_id auction_id request = do
    bidder_id ← parse_user_id x_user_id
    result ← place_bid p env (call_of auction_id bidder_id request)
    respond result

  -- the answer, `AuctionResponse`, copies fields of the row
  unfoldable pub create_auction_route : CreateEnv → Option String → AuctionCreate p → Action Auction
  create_auction_route env x_user_id request = do
    seller_id ← parse_user_id x_user_id
    auction ← λ w. catching (create_auction p env seller_id request true w)
    pure auction

unfoldable pub view_auction : ℕ → ℕ → Bool → Action AuctionDetail
view_auction auction_id now hgetall_fails = do
  detail ← get_auction_detail auction_id now hgetall_fails
  or_404 detail

unfoldable pub bid_history : ℕ → Option ℕ → ℕ → Action BidHistoryPage
bid_history auction_id cursor limit = do page ← get_bid_history auction_id cursor limit; or_404 page
