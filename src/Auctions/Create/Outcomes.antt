-- ===== src/Auctions/Create/Outcomes.antt =====
-- What `create_auction` leaves behind, when it returns and when it raises.
use sd_online_auction_backen.Common.{
  ℕ, ◌-◌, ◌≤◌, ◌<◌, ◌≡◌, ◌⊎◌, inl, inr, refl, sym, ap, ◌∙◌, Bool, true, false, none, some, [], ◌∷◌,
  ◌++◌, arith, not, ◌&&◌, ltb, leb, Bool-cases,
}
use sd_online_auction_backen.Platform.{Platform}
use sd_online_auction_backen.Models.{Auction, active, upcoming, is_active}
use sd_online_auction_backen.Redis.{Redis}
use sd_online_auction_backen.Session.{
  World, Exception, seller_not_found, start_too_early, end_before_start, Action, raise_if, gets,
  pure, ◌>>=◌, ◌>>◌, Result, ok, raised, redis_error,
}
use sd_online_auction_backen.Session.Tables.{has_user, has_auction, insert_auction}
use sd_online_auction_backen.Auctions.Hash.{init_redis_hash}
use sd_online_auction_backen.Auctions.Create.{
  InputTime, aware, naive, AuctionCreate, Env, comparable, init_if, five_minutes, initial_state,
  new_auction, create_auction,
}

-- what a returned auction has met, and what has been written for it
pub record Listed (p : Platform) (env : Env) (seller_id : ℕ) (d : AuctionCreate p) (w : World)
    (a : Auction) (w' : World) : Type 0 where
  pub known_seller : has_user seller_id w.db ≡ true
  pub starts : d.start_ts ≡ aware a.start_ts
  pub ends : d.end_ts ≡ aware a.end_ts
  pub not_early : env.now - five_minutes ≤ a.start_ts
  pub lasts : a.start_ts < a.end_ts
  pub prices :
      (p.numeric d.starting_price ≡ some a.starting_price)
      × (p.numeric d.min_increment ≡ some a.min_increment)
  pub texts : (p.varchar 255 d.title ≡ some a.title) × (p.varchar 100 d.category ≡ some a.category)
  pub begins :
      (a.state ≡ active) × (a.start_ts ≤ env.now) ⊎ (a.state ≡ upcoming) × (env.now < a.start_ts)
  pub unsold_yet : (a.highest_bid ≡ none) × (a.winner_id ≡ none)
  pub owner : (a.seller_id ≡ seller_id) × (a.auction_id ≡ env.auction_id)
  pub stored : w'.db ≡ record w.db { auctions = w.db.auctions ++ a ∷ [] }
  pub new_id : has_auction a.auction_id w.db ≡ false

InputTime-cases : (t : InputTime) → ((n : ℕ) × (t ≡ aware n)) ⊎ ((n : ℕ) × (t ≡ naive n))
InputTime-cases (aware n) = inl (n, refl)
InputTime-cases (naive n) = inr (n, refl)

Result-cases :
    (r : Result Auction) → ((a : Auction) × (r ≡ ok a)) ⊎ ((e : Exception) × (r ≡ raised e))
Result-cases (ok a) = inl (a, refl)
Result-cases (raised e) = inr (e, refl)

-- what a row that has been flushed has met
record Flushed (p : Platform) (env : Env) (seller_id : ℕ) (d : AuctionCreate p) (start end : ℕ)
    (w : World) (a : Auction) (w' : World) : Type 0 where
  prices :
      (p.numeric d.starting_price ≡ some a.starting_price)
      × (p.numeric d.min_increment ≡ some a.min_increment)
  texts : (p.varchar 255 d.title ≡ some a.title) × (p.varchar 100 d.category ≡ some a.category)
  times : (a.start_ts ≡ start) × (a.end_ts ≡ end)
  state : a.state ≡ initial_state start env.now
  unsold_yet : (a.highest_bid ≡ none) × (a.winner_id ≡ none)
  owner : (a.seller_id ≡ seller_id) × (a.auction_id ≡ env.auction_id)
  stored : w'.db ≡ record w.db { auctions = w.db.auctions ++ a ∷ [] }
  new_id : has_auction a.auction_id w.db ≡ false

module _ (p : Platform) where
  new_auction-Flushed :
      (env : Env) (seller_id : ℕ) (d : AuctionCreate p) (start end : ℕ) (w : World) (a : Auction)
      → (new_auction p env seller_id d start end w).0 ≡ ok a
      → Flushed p env seller_id d start end w a (new_auction p env seller_id d start end w).1
  unfolding new_auction insert_auction
  new_auction-Flushed env seller_id d start end w a h = ground arith

  -- `create_auction` around the row that it makes
  abbrev framed : (ℕ → ℕ → Action Auction) → Env → ℕ → AuctionCreate p → Bool → Action Auction
  framed make env seller_id d with_redis = do
    raise_if (not (has_user seller_id (← gets (λ w. w.db)))) seller_not_found
    start ← comparable d.start_ts
    raise_if (ltb start (env.now - five_minutes)) start_too_early
    end ← comparable d.end_ts
    raise_if (leb end start) end_before_start
    auction ← make start end
    init_if (is_active auction.state && with_redis) env auction
    pure auction

  -- what an auction that it returns has met
  record Framed (make : ℕ → ℕ → Action Auction) (env : Env) (seller_id : ℕ) (with_redis : Bool)
      (start end : ℕ) (w : World) (a : Auction) (w' : World) : Type 0 where
    known_seller : has_user seller_id w.db ≡ true
    not_early : env.now - five_minutes ≤ start
    lasts : start < end
    made : (make start end w).0 ≡ ok a
    stays : w'.db ≡ (make start end w).1.db
    hash :
        ((is_active a.state && with_redis) ≡ true)
          × (w'.redis ≡ init_redis_hash a (make start end w).1.redis)
        ⊎ ((is_active a.state && with_redis) ≡ false) × (w'.redis ≡ (make start end w).1.redis)

  framed-Framed :
      (make : ℕ → ℕ → Action Auction) (env : Env) (seller_id : ℕ) (d : AuctionCreate p)
      (with_redis : Bool) (start end : ℕ) (w : World) (a : Auction)
      → d.start_ts ≡ aware start
      → d.end_ts ≡ aware end
      → (framed make env seller_id d with_redis w).0 ≡ ok a
      → Framed make env seller_id with_redis start end w a
          (framed make env seller_id d with_redis w).1
  framed-Framed make env seller_id d with_redis start end w a starts ends h =
      ground (arith, starts, ends)

  framed-aware :
      (make : ℕ → ℕ → Action Auction) (env : Env) (seller_id : ℕ) (d : AuctionCreate p)
      (with_redis : Bool) (w : World) (a : Auction)
      → (framed make env seller_id d with_redis w).0 ≡ ok a
      → (start : ℕ) × (end : ℕ) × (d.start_ts ≡ aware start) × (d.end_ts ≡ aware end)
  framed-aware make env seller_id d with_redis w a h = elim (InputTime-cases d.start_ts) [
    | inr (t, e) ↦ ground (arith, e)
    | inl (start, starts) ↦ elim (InputTime-cases d.end_ts) [
      | inr (t, e) ↦ ground (arith, starts, e)
      | inl (end, ends) ↦ (start, end, starts, ends)
    ]
  ]

  new_auction-redis :
      (env : Env) (seller_id : ℕ) (d : AuctionCreate p) (start end : ℕ) (w : World)
      → (new_auction p env seller_id d start end w).1.redis ≡ w.redis
  unfolding new_auction insert_auction
  new_auction-redis env seller_id d start end w = ground arith

  -- the hash of an active auction, whose row is not there, is all that is new, and HSET's reply was
  -- lost
  pub record Orphan (env : Env) (with_redis : Bool) (w : World) (e : Exception) (a : Auction)
      (r : Redis) : Type 0 where
    pub on : (a.state ≡ active) × (with_redis ≡ true)
    pub new_id : has_auction a.auction_id w.db ≡ false
    pub lost : (env.hset_lost ≡ true) × (e ≡ redis_error)
    pub hash : r ≡ init_redis_hash a w.redis

  framed-raised :
      (make : ℕ → ℕ → Action Auction) (env : Env) (seller_id : ℕ) (d : AuctionCreate p)
      (with_redis : Bool) (start end : ℕ) (w : World) (e : Exception)
      → d.start_ts ≡ aware start
      → d.end_ts ≡ aware end
      → (make start end w).1.redis ≡ w.redis
      → (framed make env seller_id d with_redis w).0 ≡ raised e
      → let r = (framed make env seller_id d with_redis w).1.redis in
        (r ≡ w.redis)
        ⊎ ((a : Auction) × ((make start end w).0 ≡ ok a)
            × (is_active a.state ≡ true)
            × (with_redis ≡ true)
            × (env.hset_lost ≡ true)
            × (e ≡ redis_error)
            × (r ≡ init_redis_hash a w.redis))
  framed-raised make env seller_id d with_redis start end w e starts ends keeps h =
      let checks =
        has_user seller_id w.db
        && not (ltb start (env.now - five_minutes))
        && not (leb end start) in
      elim (Bool-cases checks) [
        | inr stopped ↦ inl (ground (arith, starts, ends, stopped))
        | inl passed ↦ elim (Result-cases (make start end w).0) [
          | inr (x, broken) ↦ inl (ground (arith, starts, ends, passed, broken, keeps))
          | inl (a, made) ↦ elim (Bool-cases (is_active a.state && with_redis)) [
            | inr either ↦ inl (ground (arith, starts, ends, passed, made, either, keeps))
            | inl both ↦ elim (Bool-cases env.hset_fails) [
              | inl refused ↦ inl (ground (arith, starts, ends, passed, made, both, refused, keeps))
              | inr reached ↦ inr (
                a,
                made,
                ground (arith, both),
                ground (arith, both),
                ground (arith, starts, ends, passed, made, both, reached),
                ground (arith, starts, ends, passed, made, both, reached),
                ground (arith, starts, ends, passed, made, both, reached, keeps),
              )
            ]
          ]
        ]
      ]

  naive-raised :
      (make : ℕ → ℕ → Action Auction) (env : Env) (seller_id : ℕ) (d : AuctionCreate p)
      (with_redis : Bool) (w : World)
      → ((start : ℕ) × (end : ℕ) × (d.start_ts ≡ aware start) × (d.end_ts ≡ aware end))
        ⊎ ((framed make env seller_id d with_redis w).1.redis ≡ w.redis)
  naive-raised make env seller_id d with_redis w = elim (InputTime-cases d.start_ts) [
    | inr (t, n) ↦ inr (ground (arith, n))
    | inl (start, starts) ↦ elim (InputTime-cases d.end_ts) [
      | inr (t, n) ↦ inr (ground (arith, starts, n))
      | inl (end, ends) ↦ inl (start, end, starts, ends)
    ]
  ]

  -- A creation that raises has left Redis as it was, or HSET's reply was lost: then Redis has the
  -- initial hash of an active auction whose row is rolled back.
  pub create_auction-raised :
      (env : Env) (seller_id : ℕ) (d : AuctionCreate p) (with_redis : Bool) (w : World)
      (e : Exception)
      → (create_auction p env seller_id d with_redis w).0 ≡ raised e
      → let r = (create_auction p env seller_id d with_redis w).1.redis in
        (r ≡ w.redis) ⊎ ((a : Auction) × Orphan env with_redis w e a r)
  unfolding create_auction
  create_auction-raised env seller_id d with_redis w e h =
      let make = new_auction p env seller_id d in
      elim (naive-raised make env seller_id d with_redis w) [
        | inr same ↦ inl same
        | inl (start, end, starts, ends) ↦
            let keeps = new_auction-redis env seller_id d start end w in
            elim (framed-raised make env seller_id d with_redis start end w e starts ends keeps h) [
              | inl same ↦ inl same
              | inr (a, made, on, given, lost, error, hash) ↦ inr (
                a,
                record {
                  on = (ground (arith, on), given);
                  new_id = (new_auction-Flushed env seller_id d start end w a made).new_id;
                  lost = (lost, error);
                  hash = hash;
                },
              )
            ]
      ]

  -- A returned auction has a seller who is a user, aware times, a start at most five minutes ago and
  -- an end after it, a title, a category, a starting price and an increment as the columns store
  -- them, the state that its start asks for, no bid and no winner, and a new id; and it is the one
  -- row that has been added.
  pub create_auction-Listed :
      (env : Env) (seller_id : ℕ) (d : AuctionCreate p) (with_redis : Bool) (w : World)
      (a : Auction)
      → (create_auction p env seller_id d with_redis w).0 ≡ ok a
      → Listed p env seller_id d w a (create_auction p env seller_id d with_redis w).1
  unfolding create_auction initial_state
  create_auction-Listed env seller_id d with_redis w a h =
      let make = new_auction p env seller_id d in
      let (start, end, starts, ends) = framed-aware make env seller_id d with_redis w a h in
      let x = framed-Framed make env seller_id d with_redis start end w a starts ends h in
      let f = new_auction-Flushed env seller_id d start end w a x.made in
      record {
        known_seller = x.known_seller;
        starts = starts ∙ ap aware (sym f.times.0);
        ends = ends ∙ ap aware (sym f.times.1);
        not_early = omega (arith, x.not_early, f.times.0);
        lasts = omega (arith, x.lasts, f.times.0, f.times.1);
        prices = f.prices;
        texts = f.texts;
        begins = ground (arith, f.state, f.times.0);
        unsold_yet = f.unsold_yet;
        owner = f.owner;
        stored = x.stays ∙ f.stored;
        new_id = f.new_id;
      }

  -- When a creation returns, Redis has the hash of the new auction exactly if the auction is active
  -- and Redis was given, and is unchanged else.
  pub create_auction-hash :
      (env : Env) (seller_id : ℕ) (d : AuctionCreate p) (with_redis : Bool) (w : World)
      (a : Auction)
      → (create_auction p env seller_id d with_redis w).0 ≡ ok a
      → let r = (create_auction p env seller_id d with_redis w).1.redis in
        (a.state ≡ active) × (with_redis ≡ true) × (r ≡ init_redis_hash a w.redis)
        ⊎ ((a.state ≡ upcoming) ⊎ (with_redis ≡ false)) × (r ≡ w.redis)
  unfolding create_auction initial_state
  create_auction-hash env seller_id d with_redis w a h =
      let make = new_auction p env seller_id d in
      let (start, end, starts, ends) = framed-aware make env seller_id d with_redis w a h in
      let x = framed-Framed make env seller_id d with_redis start end w a starts ends h in
      let f = new_auction-Flushed env seller_id d start end w a x.made in
      let quiet = new_auction-redis env seller_id d start end w in
      elim x.hash [
        | inl (both, written) ↦ inl (ground (arith, both, written, quiet))
        | inr (either, same) ↦ inr (ground (arith, either, same, quiet, f.state))
      ]
