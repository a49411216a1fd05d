-- ===== src/Bids/Place/Shown.antt =====
-- What the auction's page shows after a bid.
use sd_online_auction_backen.Common.{
  ℕ, ◌+◌, ◌≡◌, refl, ap, ◌∙◌, true, false, Bool, Option, some, arith,
}
use sd_online_auction_backen.Platform.{Platform}
use sd_online_auction_backen.Models.{Auction, cents, active, Status, accepted, rejected}
use sd_online_auction_backen.Redis.{Hash, Redis, Message}
use sd_online_auction_backen.Session.{World, ok}
use sd_online_auction_backen.Session.Tables.{get_auction}
use sd_online_auction_backen.Redis.Script.{take_lead, accept, or_zero}
use sd_online_auction_backen.Auctions.Detail.{AuctionDetail, current, detail, get_auction_detail}
use sd_online_auction_backen.Bids.Recording.{Call, Env, BidResult, Outcome, fanout_message}
use sd_online_auction_backen.Bids.Place.{script_args, won_outcome}
use sd_online_auction_backen.Bids.Place.Persistence.{fanned_out, Recorded}
use sd_online_auction_backen.Auctions.Lifecycle.Transitions.{get_auction-key}
use sd_online_auction_backen.Bids.Place.Evaluation.{Accepted, before, scripted}

get_auction-auctions :
    (k : ℕ) (w w' : World) (a : Auction)
    → w'.db.auctions ≡ w.db.auctions
    → get_auction k w.db ≡ some a
    → get_auction k w'.db ≡ some a
unfolding get_auction
get_auction-auctions k w w' a same row = simp same row

module _ (p : Platform) where
  fanned_out-hashes :
      (s : Status) (fails : Bool) (m : Message) (r : Redis)
      → (fanned_out s fails m r).hashes ≡ r.hashes
  fanned_out-hashes accepted true m r = refl
  fanned_out-hashes accepted false m r = refl
  fanned_out-hashes rejected fails m r = refl

  Recorded-hashes :
      (env : Env) (c : Call p) (auction : Auction) (o : Outcome) (w w' : World)
      → Recorded p env c auction o w w'
      → w'.redis.hashes ≡ w.redis.hashes
  Recorded-hashes env c auction o w w' x =
      ap (λ (r : Redis). r.hashes) x.redis
      ∙ fanned_out-hashes o.status env.publish_fails (fanout_message p c auction o) w.redis

  pub Accepted-hash :
      (env : Env) (c : Call p) (auction : Auction) (w w' : World) (res : BidResult)
      → Accepted p env c auction w res w'
      → w'.redis.hashes c.auction_id ≡ some (take_lead (script_args p env c auction) (before p c w))
  unfolding script_args accept
  Accepted-hash env c auction w w' res x =
      let led : (scripted p env c auction w.redis).1.hashes c.auction_id
          ≡ some (take_lead (script_args p env c auction) (before p c w)) =
        rw x.led.writes (ground arith) in
      ap (λ (f : ℕ → Option Hash). f c.auction_id)
        (Recorded-hashes env c auction
          (won_outcome (cents (p.fixed2 c.amount)) (or_zero (before p c w).sequence_num + 1))
          (record w { redis = (scripted p env c auction w.redis).1 }) w' x.recorded)
      ∙ led

  -- After an accepted bid, a call of the auction's detail whose HGETALL works answers with the price
  -- of the bid's answer and the state ACTIVE, and changes nothing.
  pub get_auction_detail-Accepted :
      (env : Env) (c : Call p) (auction : Auction) (w w' : World) (res : BidResult) (now : ℕ)
      → get_auction c.auction_id w.db ≡ some auction
      → Accepted p env c auction w res w'
      → (d : AuctionDetail) × (get_auction_detail c.auction_id now false w' ≡ (ok (some d), w'))
        × (res.current_price ≡ some d.current_price)
        × (d.state ≡ active)
  unfolding get_auction_detail detail current take_lead won_outcome script_args
  get_auction_detail-Accepted env c auction w w' res now row x =
      let id = get_auction-key c.auction_id w.db auction row in
      let held = get_auction-auctions c.auction_id w w' auction x.recorded.auctions row in
      let hash : w'.redis.hashes auction.auction_id
          ≡ some (take_lead (script_args p env c auction) (before p c w)) =
        ap w'.redis.hashes id ∙ Accepted-hash env c auction w w' res x in
      (
        detail now w'.db.bids (w'.redis.hashes auction.auction_id) auction,
        rw held refl,
        ap (λ (r : BidResult). r.current_price) x.answers ∙ rw hash refl,
        rw hash (rw x.led.was_active refl),
      )
