-- ===== src/System/Overlap/Requests.antt =====
-- The other requests that change the tables, beside the bids.
use sd_online_auction_backen.Common.{
  ℕ, Bool, ◌≤◌, ◌≡◌, refl, sym, ap, subst, ◌∙◌, ◌⊎◌, inl, inr, true, false, Option, none, some,
  String, [], ◌∷◌, ◌++◌, arith, ◌==◌, Bool-cases, Option-cases,
}
use sd_online_auction_backen.Platform.{Platform}
use sd_online_auction_backen.Models.{Auction, Db}
use sd_online_auction_backen.Redis.{Hash, Redis, fields}
use sd_online_auction_backen.Redis.Script.{or_zero, state_is_active}
use sd_online_auction_backen.Session.{World, Result, ok, raised, get_session, closing, pure, ◌>>=◌}
use sd_online_auction_backen.Session.Tables.{get_auction, has_auction}
use sd_online_auction_backen.Auctions.Hash.{init_redis_hash}
use sd_online_auction_backen.Auctions.Create.{AuctionCreate, Env, create_auction}
use sd_online_auction_backen.Auctions.Create.Outcomes.{
  create_auction-Listed, create_auction-raised, create_auction-hash,
}
use sd_online_auction_backen.Routers.{catching, parse_user_id, create_auction_route}
use sd_online_auction_backen.Users as Users
use sd_online_auction_backen.Users.{UserCreate, create_user}
use sd_online_auction_backen.System.Changes.{Changes, get_auction-append}
use sd_online_auction_backen.System.Requests.{create_user-Changes, create_auction_route-Changes}
use sd_online_auction_backen.System.Overlap.Hashes.{
  last_price, row_started, started, HashStep, kept, opened, Quiet, Quiet-self,
}

-- equal stores are no step of a hash
pub HashStep-same : (k : ℕ) (w v : World) → v.redis.hashes ≡ w.redis.hashes → HashStep k w v
HashStep-same k w v same =
    kept (ap (λ (h : ℕ → Option Hash). or_zero (fields (h k)).sequence_num) same)
      (ap (λ (h : ℕ → Option Hash). or_zero (fields (h k)).highest_bid) same)
      (λ q. ap (λ (h : ℕ → Option Hash). state_is_active (fields (h k)).state) same ∙ q)

has_auction-none : (k : ℕ) (db : Db) → has_auction k db ≡ false → get_auction k db ≡ none
unfolding has_auction
has_auction-none k db h = elim (Option-cases (get_auction k db)) [
  | inl gone ↦ gone
  | inr (a, there) ↦ cc (rw there at h)
]

-- the row of an auction that has been added
added_row :
    (a : Auction) (db : Db)
    → get_auction a.auction_id db ≡ none
    → get_auction a.auction_id (record db { auctions = db.auctions ++ a ∷ [] }) ≡ some a
added_row a db absent = get_auction-append a.auction_id a db ∙ rw absent (ground arith)

-- the hash that is written starts at 0
init-low :
    (a : Auction) (w v : World)
    → v.redis ≡ init_redis_hash a w.redis
    → last_price a.auction_id v.redis ≤ last_price a.auction_id w.redis
unfolding init_redis_hash
init-low a w v e =
    subst (λ r. last_price a.auction_id r ≤ last_price a.auction_id w.redis) (sym e) (ground arith)

init-other :
    (a : Auction) (w v : World) (k : ℕ)
    → v.redis ≡ init_redis_hash a w.redis
    → (a.auction_id == k) ≡ false
    → HashStep k w v
unfolding init_redis_hash
init-other a w v k e other =
    subst (λ r. HashStep k w (record v { redis = r })) (sym e)
      (kept (ground (arith, other)) (ground (arith, other)) (λ h. ground (arith, other, h)))

module _ (p : Platform) where
  create_user-stays :
      (commit_fails : Bool) (env : Users.Env) (request : UserCreate) (w : World)
      → let v = (get_session commit_fails (create_user p env request) w).1 in
        (v.db.bids ≡ w.db.bids) × (v.redis ≡ w.redis)
  unfolding create_user get_session
  create_user-stays commit_fails env request w = ground arith

  pub create_user-Quiet :
      (commit_fails : Bool) (env : Users.Env) (request : UserCreate) (w : World)
      → Quiet w (get_session commit_fails (create_user p env request) w).1
  create_user-Quiet commit_fails env request w =
      let (bids, redis) = create_user-stays commit_fails env request w in
      record {
        changes = create_user-Changes p commit_fails env request w;
        bids = bids;
        hashes = λ k. HashStep-same k w _ (ap (λ (r : Redis). r.hashes) redis);
      }

  listed-HashStep :
      (env : Env) (seller : ℕ) (d : AuctionCreate p) (w : World) (a : Auction) (k : ℕ)
      → (create_auction p env seller d true w).0 ≡ ok a
      → HashStep k w (create_auction p env seller d true w).1
  listed-HashStep env seller d w a k returns =
      elim (create_auction-hash p env seller d true w a returns) [
        | inr (why, same) ↦ HashStep-same k w _ (ap (λ (r : Redis). r.hashes) same)
        | inl (on, given, init) ↦ elim (Bool-cases (a.auction_id == k)) [
          | inr other ↦ init-other a w _ k init other
          | inl here ↦
              let listed = create_auction-Listed p env seller d true w a returns in
              let absent = has_auction-none a.auction_id w.db listed.new_id in
              let row = added_row a w.db absent in
              subst (λ j. HashStep j w (create_auction p env seller d true w).1)
                (ground (arith, here))
                (opened (rw absent refl)
                  (ap (started a.auction_id) listed.stored ∙ ap row_started row ∙ (rw on refl))
                  (init-low a w (create_auction p env seller d true w).1 init))
        ]
      ]

  created-Quiet :
      (env : Env) (seller : ℕ) (d : AuctionCreate p) (w : World) (a : Auction)
      → (create_auction p env seller d true w).0 ≡ ok a
      → Changes w.db (create_auction p env seller d true w).1.db
      → Quiet w (create_auction p env seller d true w).1
  created-Quiet env seller d w a returns changes = record {
    changes = changes;
    bids = ap (λ (x : Db). x.bids) (create_auction-Listed p env seller d true w a returns).stored;
    hashes = λ k. listed-HashStep env seller d w a k returns;
  }

  parse_user_id-world : (header : Option String) (w : World) → (parse_user_id p header w).1 ≡ w
  unfolding parse_user_id
  parse_user_id-world header w = ground arith

  -- a request for a listing leaves the world, or has created an auction
  abbrev Ends : Env → AuctionCreate p → World → World → Type 0
  Ends env request w v =
      (v ≡ w)
      ⊎ ((seller : ℕ) × (a : Auction) × ((create_auction p env seller request true w).0 ≡ ok a)
          × (v ≡ (create_auction p env seller request true w).1))

  create_auction_route-world :
      (env : Env) (header : Option String) (request : AuctionCreate p) (w : World)
      → env.hset_lost ≡ false
      → Ends env request w (get_session false (create_auction_route p env header request) w).1
  unfolding get_session create_auction_route
  create_auction_route-world env header request w heard =
      by_seller (parse_user_id p header w) (parse_user_id-world header w)
    where
      answer : ℕ → World → Result Auction × World
      answer seller u = catching (create_auction p env seller request true u)

      by_result :
          (seller : ℕ) (x : Result Auction × World)
          → create_auction p env seller request true w ≡ x
          → Ends env request w (closing false w (((λ (u : World). catching x) >>= pure) w)).1
      by_result seller (ok a, v) h = inr (seller, a, rw h refl, rw h refl)
      by_result seller (raised e, v) h =
          elim (create_auction-raised p env seller request true w e (rw h refl)) [
            | inl same ↦ inl (ap (λ r. record w { redis = r }) (rw h at same))
            | inr (a, x) ↦ cc (heard, x.lost.0)
          ]

      by_seller :
          (x : Result ℕ × World)
          → x.1 ≡ w
          → Ends env request w
              (closing false w (((λ (u : World). x) >>= λ s. answer s >>= pure) w)).1
      by_seller (ok seller, v) same =
          subst (λ u. Ends env request w (closing false w ((answer seller >>= pure) u)).1)
            (sym same) (by_result seller (create_auction p env seller request true w) refl)
      by_seller (raised e, v) same = inl (ap (λ (u : World). record u { db = w.db }) same)

  pub create_auction_route-Quiet :
      (env : Env) (header : Option String) (request : AuctionCreate p) (w : World)
      → env.hset_lost ≡ false
      → Quiet w (get_session false (create_auction_route p env header request) w).1
  create_auction_route-Quiet env header request w heard =
      elim (create_auction_route-world env header request w heard) [
        | inl same ↦ subst (Quiet w) (sym same) (Quiet-self w)
        | inr (seller, a, returns, same) ↦ subst (Quiet w) (sym same) (
            created-Quiet env seller request w a returns (
              subst (λ (v : World). Changes w.db v.db) same
                (create_auction_route-Changes p false env header request w)))
      ]
