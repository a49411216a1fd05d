-- ===== src/Bids/Place/Returns.antt =====
-- When `place_bid` returns.
use sd_online_auction_backen.Common.{ℕ, ◌+◌, ◌<◌, ◌≡◌, refl, ap, subst, false, true, some, arith}
use sd_online_auction_backen.Platform.{Platform}
use sd_online_auction_backen.Models.{Auction, cents}
use sd_online_auction_backen.Redis.{Redis}
use sd_online_auction_backen.Redis.Script.{Reply, or_zero}
use sd_online_auction_backen.Redis.Script.Leads.{Led}
use sd_online_auction_backen.Session.{World, Result, ok, raised, get_session, closing}
use sd_online_auction_backen.Session.Tables.{bid_keys_hold}
use sd_online_auction_backen.Bids.Recording.{
  Call, Env, BidResult, Outcome, bid_row, persist, store_proxy, fan_out, record_outcome,
}
use sd_online_auction_backen.Bids.Place.{won_outcome, script_args, decide, on_reply, place_bid}
use sd_online_auction_backen.Bids.Place.Persistence.{result_of}
use sd_online_auction_backen.Bids.Place.Evaluation.{
  Reaches, before, streamed, place_bid-scripted, Accepted, place_bid-Accepted,
}
use sd_online_auction_backen.Bids.Place.Conflict.{ScriptAccepts, scripted-Led}

closing-ok :
    (w : World) (x : Result BidResult × World) (res : BidResult)
    → x.0 ≡ ok res
    → x ≡ closing false w x
closing-ok w (ok r, v) res h = refl
closing-ok w (raised e, v) res h = cc

module _ (p : Platform) where
  -- what the script's acceptance stands for
  abbrev pub gained : Call p → World → Outcome
  gained c w = won_outcome (cents (p.fixed2 c.amount)) (or_zero (before p c w).sequence_num + 1)

  persist_returns :
      (env : Env) (c : Call p) (shown n m : ℕ) (w : World)
      → p.numeric c.amount ≡ some m
      → n < 2147483648
      → bid_keys_hold (bid_row p env c (won_outcome (cents shown) n) m) w.db ≡ true
      → (persist p env c (won_outcome (cents shown) n) w).0 ≡ ok tt
  unfolding persist won_outcome
  persist_returns env c shown n m w fits small keys = ground arith

  leads_returns :
      (env : Env) (c : Call p) (auction : Auction) (w : World) (reply : Reply) (r' : Redis) (m : ℕ)
      → Led p (script_args p env c auction) (before p c w) (streamed p env c w.redis) reply r'
      → p.numeric c.amount ≡ some m
      → or_zero (before p c w).sequence_num + 1 < 2147483648
      → bid_keys_hold (bid_row p env c (gained c w) m) w.db ≡ true
      → c.is_proxy ≡ false
      → (on_reply p env c auction reply (record w { redis = r' })).0
        ≡ ok (result_of env (gained c w))
  unfolding on_reply decide record_outcome script_args store_proxy fan_out
  leads_returns env c auction w reply r' m led fits small keys plain = rw led.replies (
      ground (
        arith,
        persist_returns env c (p.fixed2 c.amount) (or_zero (before p c w).sequence_num + 1) m
            (record w { redis = r' }) fits small keys,
      ))

  -- A bid that is no proxy, has a new id and reaches the script, which accepts it, whose amount and
  -- number fit their columns and whose row's keys hold, is answered as accepted and committed so, if
  -- the database commits.
  pub place_bid_returns :
      (env : Env) (c : Call p) (auction : Auction) (w : World) (m : ℕ)
      → Reaches p env c auction w
      → ScriptAccepts p env c auction w
      → p.numeric c.amount ≡ some m
      → or_zero (before p c w).sequence_num + 1 < 2147483648
      → bid_keys_hold (bid_row p env c (gained c w) m) w.db ≡ true
      → c.is_proxy ≡ false
      → let y = get_session false (place_bid p env c) w in
        (y.0 ≡ ok (result_of env (gained c w)))
        × Accepted p env c auction w (result_of env (gained c w)) y.1
  unfolding get_session won_outcome
  place_bid_returns env c auction w m x won fits small keys plain =
      let led = scripted-Led p env c auction w x.new_id won in
      let back : (place_bid p env c w).0 ≡ ok (result_of env (gained c w)) =
        rw (place_bid-scripted p env c auction w x)
          (leads_returns env c auction w _ _ m led fits small keys plain) in
      let kept = closing-ok w (place_bid p env c w) (result_of env (gained c w)) back in
      (
        rw back refl,
        subst (λ v. Accepted p env c auction w (result_of env (gained c w)) v) (ap (λ y. y.1) kept)
            (place_bid-Accepted p env c auction w _ x back refl),
      )
