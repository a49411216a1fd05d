-- ===== src/Routers/Bidding.antt =====
-- What a bid over HTTP has committed, by its answer.
use sd_online_auction_backen.Common.{
  ℕ, Bool, true, false, String, ◌≡◌, refl, ap, ◌⊎◌, inl, inr, Option, none, some,
}
use sd_online_auction_backen.Platform.{Platform}
use sd_online_auction_backen.Models.{
  Auction, Status, accepted, rejected, Reason, bid_too_low, auction_not_active, auction_ended,
  self_outbid, auction_not_found, lua_script_error, unknown_error,
}
use sd_online_auction_backen.Session.{
  World, Exception, Result, ok, raised, commit_error, get_session, closing, ◌>>=◌,
}
use sd_online_auction_backen.Bids.Place.{place_bid}
use sd_online_auction_backen.Bids.Recording.{Call, Env, BidResult}
use sd_online_auction_backen.Bids.Place.Evaluation.{
  Reaches, scripted, Accepted, place_bid-Accepted, Rejected, place_bid-Rejected,
}
use sd_online_auction_backen.Routers.{
  BidRequest, BidBody, created, conflict, str_price, respond, respond_rejected, call_of,
  parse_user_id, place_bid_route, bind-ok,
}

-- how the handler goes on from the service's result
abbrev answer_to : Result BidResult × World → Result BidBody × World
answer_to x = let (r, w) = x in elim r [ ok res ↦ respond res w | raised e ↦ (raised e, w) ]

respond_rejected-cases :
    (why : Option Reason) (res : BidResult) (w : World)
    → (respond_rejected why res w ≡ (ok (conflict why (str_price res.current_price)), w))
      ⊎ ((e : Exception) × (respond_rejected why res w ≡ (raised e, w)))
respond_rejected-cases none res w = inl refl
respond_rejected-cases (some auction_not_found) res w = inr (_, refl)
respond_rejected-cases (some lua_script_error) res w = inr (_, refl)
respond_rejected-cases (some unknown_error) res w = inl refl
respond_rejected-cases (some bid_too_low) res w = inl refl
respond_rejected-cases (some auction_not_active) res w = inl refl
respond_rejected-cases (some auction_ended) res w = inl refl
respond_rejected-cases (some self_outbid) res w = inl refl

Status-cases : (s : Status) → (s ≡ accepted) ⊎ (s ≡ rejected)
Status-cases accepted = inl refl
Status-cases rejected = inr refl

module _ (p : Platform) where
  -- the three ways in which a request for a bid ends: its answer, and what stays
  pub data Answered (env : Env) (c : Call p) (auction : Auction) (w : World)
      (answer : Result BidBody) (w' : World) : Type 0 where
    won :
        (res : BidResult)
        → answer ≡ ok (created res.bid_id res.sequence_num res.current_price)
        → Accepted p env c auction w res w'
        → Answered env c auction w answer w'
    lost :
        (res : BidResult)
        → answer ≡ ok (conflict res.reason (str_price res.current_price))
        → Rejected p env c auction w
            (scripted p env c auction w.redis).0
            (scripted p env c auction w.redis).1
            res
            w'
        → Answered env c auction w answer w'
    failed : (e : Exception) → answer ≡ raised e → w'.db ≡ w.db → Answered env c auction w answer w'

  place_bid_route-call :
      (commit_fails : Bool) (env : Env) (header : Option String) (request : BidRequest p)
      (k bidder : ℕ) (w : World)
      → parse_user_id p header w ≡ (ok bidder, w)
      → get_session commit_fails (place_bid_route p env header k request) w
        ≡ closing commit_fails w (answer_to (place_bid p env (call_of p k bidder request) w))
  unfolding get_session place_bid_route
  place_bid_route-call commit_fails env header request k bidder w known =
      ap (closing commit_fails w) (
        bind-ok (parse_user_id p header) (λ b. place_bid p env (call_of p k b request) >>= respond)
          bidder w w known)

  -- without the session's commit, no row stays
  uncommitted :
      (env : Env) (c : Call p) (auction : Auction) (w : World) (x : Result BidBody × World)
      → Answered env c auction w (closing true w x).0 (closing true w x).1
  uncommitted env c auction w (raised e, w') = failed e refl refl
  uncommitted env c auction w (ok body, w') = failed commit_error refl refl

  answered :
      (env : Env) (c : Call p) (auction : Auction) (w : World) (r : Result BidResult × World)
      → Reaches p env c auction w
      → place_bid p env c w ≡ r
      → Answered env c auction w (closing false w (answer_to r)).0 (closing false w (answer_to r)).1
  unfolding respond
  answered env c auction w (raised e, w') x h = failed e refl refl
  answered env c auction w (ok res, w') x h =
      let returns : (place_bid p env c w).0 ≡ ok res = rw h refl in
      elim (Status-cases res.status) [
        | inl taken ↦
            let accepts = place_bid-Accepted p env c auction w res x returns taken in
            simp taken (won res refl (rw h at accepts))
        | inr refused ↦
            let rejects = place_bid-Rejected p env c auction w res x returns refused in
            elim (respond_rejected-cases res.reason res w') [
              | inl shown ↦ simp (refused, shown) (lost res refl (rw h at rejects))
              | inr (e, known) ↦ simp (refused, known) (failed e refl refl)
            ]
      ]

  -- A request for a bid by a known header, on an auction that is there, with the script registered,
  -- a new id and no lost reply: its answer is that of an accepted bid, and what it commits is so; or
  -- it is a conflict, and what it commits is a rejection; or it or its commit raises, and no row
  -- stays.
  pub place_bid_route-Answered :
      (commit_fails : Bool) (env : Env) (header : Option String) (request : BidRequest p)
      (k bidder : ℕ) (auction : Auction) (w : World)
      → parse_user_id p header w ≡ (ok bidder, w)
      → Reaches p env (call_of p k bidder request) auction w
      → let x = get_session commit_fails (place_bid_route p env header k request) w in
        Answered env (call_of p k bidder request) auction w x.0 x.1
  place_bid_route-Answered commit_fails env header request k bidder auction w known x =
      rw (place_bid_route-call commit_fails env header request k bidder w known)
        (by_commit commit_fails)
    where
      answer : Result BidBody × World
      answer = answer_to (place_bid p env (call_of p k bidder request) w)

      by_commit :
          (fails : Bool)
          → Answered env
              (call_of p k bidder request)
              auction
              w
              (closing fails w answer).0
              (closing fails w answer).1
      by_commit true = uncommitted env (call_of p k bidder request) auction w answer
      by_commit false = answered env (call_of p k bidder request) auction w _ x refl
