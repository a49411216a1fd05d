-- ===== src/System/Overlap/Bids.antt =====
-- The two steps of a bid, and the numbers that they hold.
use sd_online_auction_backen.Common.{
  ℕ, ◌+◌, ◌≤◌, ◌≡◌, refl, sym, subst, ap, ◌∙◌, inl, inr, Bool, true, false, not, ◌&&◌, Option, none,
  some, arith, ◌==◌, Bool-cases, eq_of_some,
}
use sd_online_auction_backen.Platform.{Platform}
use sd_online_auction_backen.Models.{Auction}
use sd_online_auction_backen.Redis.{Hash, Redis, fields, xadd, StreamEntry}
use sd_online_auction_backen.Redis.Script.{
  Reply, Args, or_zero, state_is_active, take_lead, place_bid_lua,
}
use sd_online_auction_backen.Redis.Script.Outcomes.{is_acceptance, acceptance}
use sd_online_auction_backen.Redis.Script.Leads.{place_bid_lua-Led}
use sd_online_auction_backen.Redis.Script.Ladder.{step}
use sd_online_auction_backen.Session.{World, key_error, raise_if, Result, ok, raised, ◌>>◌}
use sd_online_auction_backen.Bids.Recording.{
  Call, Env, Evalsha, replies, refused, reply_lost, unless,
}
use sd_online_auction_backen.Bids.Place.{parse_reply, evalsha, script_args, stream_entry}
use sd_online_auction_backen.System.Overlap.{evaluated}
use sd_online_auction_backen.System.Overlap.Held.{reply_number, is_number}
use sd_online_auction_backen.System.Overlap.Hashes.{last_number, last_price, takes_bids}

-- only an acceptance has a number
reply_number-acceptance :
    (reply : Reply) (n : ℕ) → reply_number reply ≡ some n → is_acceptance reply ≡ true
unfolding parse_reply
reply_number-acceptance reply n h = ground arith

is_number-some : (o : Option ℕ) (n : ℕ) → is_number o n ≡ true → o ≡ some n
is_number-some o n h = ground arith

and-left : (a b : Bool) → (a && b) ≡ true → a ≡ true
and-left a b h = ground arith

and-right : (a b : Bool) → (a && b) ≡ true → b ≡ true
and-right a b h = ground arith

reply_number-accepts :
    (a : Args) (h : Hash) → reply_number (acceptance a h) ≡ some (or_zero h.sequence_num + 1)
unfolding parse_reply
reply_number-accepts a h = refl

module _ (p : Platform) where
  -- the price stays, or is the bid's, which the script's test lets through
  pub data Priced (c : Call p) (k : ℕ) (r r' : Redis) : Type 0 where
    same : last_price k r' ≡ last_price k r → Priced c k r r'
    paid :
        (inc : ℕ)
        → last_price k r' ≡ p.fixed2 c.amount
        → p.below_min (p.fixed2 c.amount) (last_price k r) inc ≡ false
        → Priced c k r r'

  -- what a run of the script that has replied does to the hash of `k`
  pub record Evaluated (c : Call p) (reply : Reply) (k : ℕ) (r r' : Redis) : Type 0 where
    pub state : takes_bids k r' ≡ takes_bids k r
    pub rises : last_number k r ≤ last_number k r'
    pub next :
        (n : ℕ)
        → (c.auction_id == k && is_number (reply_number reply) n) ≡ true
        → (n ≡ last_number k r + 1)
          × (last_number k r' ≡ n)
          × (takes_bids k r ≡ true)
          × (last_price k r' ≡ p.fixed2 c.amount)
    pub price : Priced c k r r'

  script-gains :
      (c : Call p) (a : Args) (k : ℕ) (r : Redis)
      → a.auction_id ≡ k
      → a.amount ≡ p.fixed2 c.amount
      → r.results a.bid_id ≡ none
      → is_acceptance (place_bid_lua p a r).0 ≡ true
      → fields ((place_bid_lua p a r).1.hashes k) ≡ take_lead a (fields (r.hashes k))
      → Evaluated c (place_bid_lua p a r).0 k r (place_bid_lua p a r).1
  unfolding take_lead
  script-gains c a k r here asks new leads writes =
      let led = place_bid_lua-Led p a r new leads in
      let numbered =
        ap reply_number led.replies ∙ reply_number-accepts a (fields (r.hashes a.auction_id)) in
      let at_k = ap (λ j. or_zero (fields (r.hashes j)).sequence_num) here in
      let shows = ap (λ (h : Hash). or_zero h.sequence_num) writes in
      let paid_now = ap (λ (h : Hash). or_zero h.highest_bid) writes ∙ asks in
      record {
        state = ap (λ (h : Hash). state_is_active h.state) writes;
        rises = omega (arith, shows);
        price = paid led.inc paid_now (
            subst (λ x. p.below_min x (last_price k r) led.inc ≡ false) asks
              (subst (λ j. p.below_min a.amount (last_price j r) led.inc ≡ false) here led.enough));
        next = λ n e.
            let named = is_number-some _ n (and-right (c.auction_id == k) _ e) in
            let num = eq_of_some (sym numbered ∙ named) in
            (
              omega (arith, num, at_k),
              omega (arith, num, at_k, shows),
              ap (λ j. state_is_active (fields (r.hashes j)).state) (sym here)
                  ∙ ap state_is_active led.was_active,
              paid_now,
            );
      }

  script-loses :
      (c : Call p) (a : Args) (k : ℕ) (r : Redis)
      → (a.auction_id == k && is_acceptance (place_bid_lua p a r).0) ≡ false
      → a.auction_id ≡ c.auction_id
      → fields ((place_bid_lua p a r).1.hashes k) ≡ fields (r.hashes k)
      → Evaluated c (place_bid_lua p a r).0 k r (place_bid_lua p a r).1
  script-loses c a k r misses id stays = record {
    state = ap (λ (h : Hash). state_is_active h.state) stays;
    rises = omega (arith, ap (λ (h : Hash). or_zero h.sequence_num) stays);
    price = same (ap (λ (h : Hash). or_zero h.highest_bid) stays);
    next = λ n e.
        let named = is_number-some _ n (and-right (c.auction_id == k) _ e) in
        let here = and-left (c.auction_id == k) _ e in
        let leads = reply_number-acceptance (place_bid_lua p a r).0 n named in
        cc (ap (λ j. j == k) id ∙ here, leads, misses);
  }

  script-Evaluated :
      (c : Call p) (a : Args) (k : ℕ) (r : Redis)
      → a.auction_id ≡ c.auction_id
      → a.amount ≡ p.fixed2 c.amount
      → r.results a.bid_id ≡ none
      → Evaluated c (place_bid_lua p a r).0 k r (place_bid_lua p a r).1
  script-Evaluated c a k r id asks new =
      elim (Bool-cases (a.auction_id == k && is_acceptance (place_bid_lua p a r).0)) [
        | inl both ↦
            script-gains c a k r (ground arith) asks new (ground arith)
              (step p k a r new ∙ rw both refl)
        | inr misses ↦ script-loses c a k r misses id (step p k a r new ∙ rw misses refl)
      ]

  -- a script whose reply is lost
  unheard :
      (c : Call p) (reply : Reply) (k : ℕ) (r r' : Redis)
      → Evaluated c reply k r r'
      → Evaluated c none k r r'
  unheard c reply k r r' x = record {
    state = x.state;
    rises = x.rises;
    price = x.price;
    next = λ n e. cc (and-right (c.auction_id == k) false e);
  }

  unevaluated : (c : Call p) (k : ℕ) (r : Redis) → Evaluated c none k r r
  unevaluated c k r = record {
    state = refl;
    rises = omega arith;
    price = same refl;
    next = λ n e. cc (and-right (c.auction_id == k) false e);
  }

  -- what has happened when the first step of a bid ends
  abbrev pub Ran : Call p → World → Result Reply × World → Type 0
  Ran c w (ok reply, v) = (v.db ≡ w.db) × ((k : ℕ) → Evaluated c reply k w.redis v.redis)
  Ran c w (raised e, v) = (v.db ≡ w.db) × (v.redis.hashes ≡ w.redis.hashes)

  evalsha-Ran :
      (how : Evalsha) (c : Call p) (a : Args) (w : World)
      → a.auction_id ≡ c.auction_id
      → a.amount ≡ p.fixed2 c.amount
      → w.redis.results a.bid_id ≡ none
      → Ran c w (evalsha p how a w)
  unfolding evalsha
  evalsha-Ran replies c a w id asks new = (refl, λ k. script-Evaluated c a k w.redis id asks new)
  evalsha-Ran refused c a w id asks new = (refl, λ k. unevaluated c k w.redis)
  evalsha-Ran reply_lost c a w id asks new =
      (refl, λ k. unheard c _ k w.redis _ (script-Evaluated c a k w.redis id asks new))

  Priced-xadd :
      (c : Call p) (j k : ℕ) (e : StreamEntry) (r r' : Redis)
      → Priced c k (xadd j e r) r'
      → Priced c k r r'
  Priced-xadd c j k e r r' (same h) = same h
  Priced-xadd c j k e r r' (paid inc h enough) = paid inc h enough

  Ran-xadd :
      (c : Call p) (k : ℕ) (e : StreamEntry) (w : World) (x : Result Reply × World)
      → Ran c (record w { redis = xadd k e w.redis }) x
      → Ran c w x
  Ran-xadd c k e w (ok reply, v) (db, h) = (
    db,
    λ j. record {
      state = (h j).state;
      rises = (h j).rises;
      price = Priced-xadd c k j e w.redis v.redis (h j).price;
      next = (h j).next;
    },
  )
  Ran-xadd c k e w (raised err, v) h = h

  pub evaluated-Ran :
      (env : Env) (c : Call p) (auction : Auction) (w : World)
      → w.redis.results env.bid_id ≡ none
      → Ran c w (evaluated p env c auction w)
  unfolding evaluated script_args
  evaluated-Ran env c auction w new = by_tests env.xadd_fails env.script_registered
    where
      a : Args
      a = script_args p env c auction

      by_tests :
          (broken known : Bool)
          → Ran c w (
              (unless broken (xadd c.auction_id (stream_entry p env c))
                  >> (raise_if (not known) key_error >> evalsha p env.evalsha a))
                w)
      by_tests true true = evalsha-Ran env.evalsha c a w refl refl new
      by_tests false true =
          let streamed = record w { redis = xadd c.auction_id (stream_entry p env c) w.redis } in
          Ran-xadd c c.auction_id (stream_entry p env c) w (evalsha p env.evalsha a streamed)
            (evalsha-Ran env.evalsha c a streamed refl refl new)
      by_tests true false = (refl, refl)
      by_tests false false = (refl, refl)
