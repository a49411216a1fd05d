-- ===== src/Live/Frames.antt =====
-- The frames that an accepted bid brings to the watchers of its auction.
use sd_online_auction_backen.Common.{◌+◌, ◌≡◌, ap}
use sd_online_auction_backen.Platform.{Platform}
use sd_online_auction_backen.Models.{Auction, cents}
use sd_online_auction_backen.Redis.Script.{or_zero, take_lead}
use sd_online_auction_backen.Session.{World}
use sd_online_auction_backen.Bids.Recording.{Call, Env, BidResult, fanout_message, mask_bidder}
use sd_online_auction_backen.Bids.Place.{won_outcome, script_args}
use sd_online_auction_backen.Bids.Place.Evaluation.{Accepted, before}
use sd_online_auction_backen.Bids.Place.Shown.{Accepted-hash}
use sd_online_auction_backen.Live.{mask_bidder_id, initial, payload}

module _ (p : Platform) where
  -- The first frame of a watcher who connects after an accepted bid shows what the bid's message
  -- shows, its number, its price and its masked bidder, with the end that the auction's
  -- hash has had before the bid.
  pub initial-Accepted :
      (env : Env) (c : Call p) (auction : Auction) (w w' : World) (res : BidResult)
      → Accepted p env c auction w res w'
      → initial p (w'.redis.hashes c.auction_id)
        ≡ record (payload (
            fanout_message p c auction (
              won_outcome (cents (p.fixed2 c.amount)) (or_zero (before p c w).sequence_num + 1)))) {
                end_ts = or_zero (before p c w).end_ts;
              }
  unfolding initial take_lead script_args fanout_message won_outcome mask_bidder mask_bidder_id
  initial-Accepted env c auction w w' res x =
      ap (initial p) (Accepted-hash p env c auction w w' res x)
