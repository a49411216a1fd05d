-- ===== src/Routers/Listing.antt =====
-- What a new listing over HTTP has committed, by its answer.
use sd_online_auction_backen.Common.{
  ℕ, String, ◌≡◌, refl, ap, ◌∙◌, Bool, true, false, Option, ◌⊎◌, inl, inr, arith,
}
use sd_online_auction_backen.Platform.{Platform}
use sd_online_auction_backen.Models.{Auction, active}
use sd_online_auction_backen.Session.{
  World, Exception, seller_not_found, http, commit_error, redis_error, Result, ok, raised,
  get_session, closing,
}
use sd_online_auction_backen.Session.Tables.{has_user, has_auction}
use sd_online_auction_backen.Auctions.Hash.{init_redis_hash}
use sd_online_auction_backen.Auctions.Create.{AuctionCreate, Env, create_auction}
use sd_online_auction_backen.Auctions.Create.Outcomes.{
  Listed, create_auction-Listed, create_auction-hash, create_auction-raised,
}
use sd_online_auction_backen.Routers.{
  value_error, catching, parse_user_id, create_auction_route, bind-ok,
}

abbrev answer_to : Result Auction × World → Result Auction × World
answer_to x = let (r, w) = catching x in elim r [ ok a ↦ (ok a, w) | raised e ↦ (raised e, w) ]

module _ (p : Platform) where
  -- the three ways in which a request for a listing ends: its answer, and what stays
  pub data Answered (commit_fails : Bool) (env : Env) (seller : ℕ) (request : AuctionCreate p)
      (w : World) (answer : Result Auction) (w' : World) : Type 0 where
    listed :
        (a : Auction)
        → answer ≡ ok a
        → commit_fails ≡ false
        → Listed p env seller request w a w'
        → Answered commit_fails env seller request w answer w'
    -- nothing has changed
    refused :
        (e : Exception)
        → answer ≡ raised (value_error e)
        → w' ≡ w
        → Answered commit_fails env seller request w answer w'
    -- the new auction is active, and its hash stays in Redis without a row
    orphaned :
        (a : Auction) (e : Exception)
        → answer ≡ raised e
        → (commit_fails ≡ true) × (e ≡ commit_error) ⊎ (env.hset_lost ≡ true) × (e ≡ redis_error)
        → a.state ≡ active
        → has_auction a.auction_id w.db ≡ false
        → w' ≡ record w { redis = init_redis_hash a w.redis }
        → Answered commit_fails env seller request w answer w'

  create_auction_route-call :
      (commit_fails : Bool) (env : Env) (header : Option String) (request : AuctionCreate p)
      (seller : ℕ) (w : World)
      → parse_user_id p header w ≡ (ok seller, w)
      → get_session commit_fails (create_auction_route p env header request) w
        ≡ closing commit_fails w (answer_to (create_auction p env seller request true w))
  unfolding get_session create_auction_route
  create_auction_route-call commit_fails env header request seller w known =
      ap (closing commit_fails w) (
        bind-ok (parse_user_id p header) (λ s w. answer_to (create_auction p env s request true w))
          seller w w known)

  create_auction_unknown_seller :
      (env : Env) (seller : ℕ) (request : AuctionCreate p) (w : World)
      → has_user seller w.db ≡ false
      → create_auction p env seller request true w ≡ (raised seller_not_found, w)
  unfolding create_auction
  create_auction_unknown_seller env seller request w unknown = ground arith

  -- the session of a created auction
  committed :
      (commit_fails : Bool) (env : Env) (seller : ℕ) (request : AuctionCreate p) (w : World)
      (a : Auction) (w' : World)
      → create_auction p env seller request true w ≡ (ok a, w')
      → let x = closing commit_fails w (answer_to (ok a, w')) in
        Answered commit_fails env seller request w x.0 x.1
  committed false env seller request w a w' h =
      let lists = create_auction-Listed p env seller request true w a (rw h refl) in
      listed a refl refl (rw h at lists)
  committed true env seller request w a w' h =
      let returns : (create_auction p env seller request true w).0 ≡ ok a = rw h refl in
      let lists = create_auction-Listed p env seller request true w a returns in
      elim (create_auction-hash p env seller request true w a returns) [
        | inl (on, given, hash) ↦
            orphaned a commit_error refl (inl (refl, refl)) on lists.new_id
              (ap (λ r. record w { redis = r }) (rw h at hash))
        | inr (why, same) ↦
            refused commit_error refl (ap (λ r. record w { redis = r }) (rw h at same))
      ]

  answered :
      (commit_fails : Bool) (env : Env) (seller : ℕ) (request : AuctionCreate p) (w : World)
      (x : Result Auction × World)
      → create_auction p env seller request true w ≡ x
      → let y = closing commit_fails w (answer_to x) in
        Answered commit_fails env seller request w y.0 y.1
  answered commit_fails env seller request w (ok a, w') h =
      committed commit_fails env seller request w a w' h
  answered commit_fails env seller request w (raised e, w') h =
      elim (create_auction-raised p env seller request true w e (rw h refl)) [
        | inl same ↦ refused e refl (ap (λ r. record w { redis = r }) (rw h at same))
        | inr (a, x) ↦
            orphaned a redis_error (ap (λ y. raised (value_error y)) x.lost.1)
              (inr (x.lost.0, refl)) x.on.0 x.new_id
              (ap (λ r. record w { redis = r }) (rw h at x.hash))
      ]

  -- A request for a listing by a known header answers with an auction that it has committed; or
  -- raises and leaves the tables and Redis as they were; or its commit fails or the reply of its HSET
  -- is lost, and then it raises and leaves the tables as they were, but Redis with the initial hash
  -- of the active auction that is not in the table.
  pub create_auction_route-Answered :
      (commit_fails : Bool) (env : Env) (header : Option String) (request : AuctionCreate p)
      (seller : ℕ) (w : World)
      → parse_user_id p header w ≡ (ok seller, w)
      → let x = get_session commit_fails (create_auction_route p env header request) w in
        Answered commit_fails env seller request w x.0 x.1
  create_auction_route-Answered commit_fails env header request seller w known =
      rw (create_auction_route-call commit_fails env header request seller w known)
        (answered commit_fails env seller request w _ refl)

  -- A listing by somebody who is no user is a 404, and nothing changes.
  pub create_auction_route_unknown_seller :
      (commit_fails : Bool) (env : Env) (header : Option String) (request : AuctionCreate p)
      (seller : ℕ) (w : World)
      → parse_user_id p header w ≡ (ok seller, w)
      → has_user seller w.db ≡ false
      → get_session commit_fails (create_auction_route p env header request) w
        ≡ (raised (http 404), w)
  create_auction_route_unknown_seller commit_fails env header request seller w known unknown =
      create_auction_route-call commit_fails env header request seller w known
      ∙ ap (λ x. closing commit_fails w (answer_to x))
          (create_auction_unknown_seller env seller request w unknown)
