-- ===== src/Bids/Place/Persistence.antt =====
-- Steps 3 to 5 of `place_bid`: the row, the proxy and the fan-out of a decided bid.
use sd_online_auction_backen.Common.{
  ℕ, ◌≡◌, Bool, true, false, some, [], ◌∷◌, ◌++◌, arith, inl, inr, Option-cases,
}
use sd_online_auction_backen.Platform.{Platform}
use sd_online_auction_backen.Models.{Auction, Status, accepted}
use sd_online_auction_backen.Redis.{Redis, Message, publish}
use sd_online_auction_backen.Session.{World, Exception, ok, raised}
use sd_online_auction_backen.Session.Tables.{bid_keys_hold}
use sd_online_auction_backen.Bids.Recording.{
  Call, Env, BidResult, Outcome, bid_row, persist, store_proxy, fan_out, fanout_message,
  record_outcome,
}

-- the dict that a decided bid returns
abbrev pub result_of : Env → Outcome → BidResult
result_of env o = record {
  bid_id = env.bid_id;
  status = o.status;
  reason = o.reason;
  current_price = some o.current_price;
  sequence_num = some o.sequence_num;
}

-- What is published: an accepted bid's message, unless that fails.
abbrev pub fanned_out : Status → Bool → Message → Redis → Redis
fanned_out accepted false m r = publish m r
fanned_out _ _ m r = r

module _ (p : Platform) where
  pub record Recorded (env : Env) (c : Call p) (auction : Auction) (o : Outcome) (w w' : World)
      : Type 0 where
    pub amount : ℕ
    pub stored_as : p.numeric c.amount ≡ some amount
    pub keys : bid_keys_hold (bid_row p env c o amount) w.db ≡ true
    pub bids : w'.db.bids ≡ w.db.bids ++ bid_row p env c o amount ∷ []
    pub users : w'.db.users ≡ w.db.users
    pub auctions : w'.db.auctions ≡ w.db.auctions
    pub redis :
        w'.redis ≡ fanned_out o.status env.publish_fails (fanout_message p c auction o) w.redis

  store_proxy-keeps :
      (env : Env) (c : Call p) (w : World)
      → ((store_proxy p env c w).1.redis ≡ w.redis)
        × ((store_proxy p env c w).1.db.bids ≡ w.db.bids)
        × ((store_proxy p env c w).1.db.users ≡ w.db.users)
        × ((store_proxy p env c w).1.db.auctions ≡ w.db.auctions)
  unfolding store_proxy
  store_proxy-keeps env c w = ground arith

  -- A decided bid whose recording returns: the result shows the decision, one row has been added
  -- under keys that hold, and the message of an accepted bid is published.
  pub record_outcome-ok :
      (env : Env) (c : Call p) (auction : Auction) (o : Outcome) (w : World) (res : BidResult)
      → (record_outcome p env c auction o w).0 ≡ ok res
      → (res ≡ result_of env o) × Recorded env c auction o w (record_outcome p env c auction o w).1
  unfolding record_outcome persist fan_out
  record_outcome-ok env c auction o w res h = elim (Option-cases (p.numeric c.amount)) [
    | inl over ↦ ground (arith, over)
    | inr (m, e) ↦ (
      ground (arith, e, store_proxy-keeps env c (persist p env c o w).1),
      record {
        amount = m;
        stored_as = e;
        keys = ground (arith, e, store_proxy-keeps env c (persist p env c o w).1);
        bids = ground (arith, e, store_proxy-keeps env c (persist p env c o w).1);
        users = ground (arith, e, store_proxy-keeps env c (persist p env c o w).1);
        auctions = ground (arith, e, store_proxy-keeps env c (persist p env c o w).1);
        redis = ground (arith, e, store_proxy-keeps env c (persist p env c o w).1);
      },
    )
  ]

  -- A recording that raises has left Redis as it was.
  pub record_outcome-raised :
      (env : Env) (c : Call p) (auction : Auction) (o : Outcome) (w : World) (e : Exception)
      → (record_outcome p env c auction o w).0 ≡ raised e
      → (record_outcome p env c auction o w).1.redis ≡ w.redis
  unfolding record_outcome persist fan_out
  record_outcome-raised env c auction o w e h =
      ground (arith, store_proxy-keeps env c (persist p env c o w).1)
