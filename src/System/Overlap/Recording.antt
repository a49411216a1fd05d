-- ===== src/System/Overlap/Recording.antt =====
-- The second step of a bid: what it adds to the rows.
use sd_online_auction_backen.Common.{
  ℕ, ◌+◌, ◌≤◌, ◌≡◌, refl, sym, eq_of_some, ap, subst, ◌∙◌, inl, inr, Bool, true, false, Option,
  none, some, List, [], ◌∷◌, ◌++◌, arith, if◌then◌else◌, Bool-cases,
}
use sd_online_auction_backen.Platform.{Platform}
use sd_online_auction_backen.Models.{Auction, Bid, accepted, rejected, is_accepted, Status, Reason}
use sd_online_auction_backen.Redis.{Redis}
use sd_online_auction_backen.Redis.Script.{Reply}
use sd_online_auction_backen.Session.{
  World, Exception, Result, ok, raised, get_session, closing, ◌>>=◌,
}
use sd_online_auction_backen.Bids.Recording.{Call, Env, BidResult, Outcome, bid_row, record_outcome}
use sd_online_auction_backen.Bids.Place.{
  Decision, short, fault, won, lost, won_outcome, lost_outcome, parse_reply, decide, on_reply,
}
use sd_online_auction_backen.Bids.Place.Persistence.{
  fanned_out, record_outcome-ok, record_outcome-raised,
}
use sd_online_auction_backen.Routers.{BidBody, respond, respond_with}
use sd_online_auction_backen.System.Changes.{Changes}
use sd_online_auction_backen.System.Keeps.{Keeps-bind, get_session-Changes}
use sd_online_auction_backen.System.Requests.{on_reply-Changes, respond-Changes}
use sd_online_auction_backen.System.Overlap.{Flight, recorded}
use sd_online_auction_backen.System.Overlap.Held.{
  won_number, reply_number, row_holds, row_claims, flight_claims, flight_holds, count_if,
  count_if-append,
}

-- what a recorded decision adds to the holders of a number
abbrev pub once_if : Bool → ℕ
once_if b = if b then 1 else 0

module _ (p : Platform) where
  -- how a test on rows counts the row of a bid whose reply has the number `number`
  pub record Counts (test : Bid → Bool) (c : Call p) (number : Option ℕ) (counted : Bool)
      : Type 0 where
    pub accepts :
        (b : Bid) (n : ℕ)
        → number ≡ some n
        → p.numeric c.amount ≡ some b.amount
        → b.auction_id ≡ c.auction_id
        → is_accepted b.status ≡ true
        → b.sequence_num ≡ n
        → test b ≡ counted
    pub rejects : (b : Bid) → is_accepted b.status ≡ false → test b ≡ false

  -- a world after a recorded outcome, for a test on its rows
  abbrev pub Adds : (Bid → Bool) → Bool → World → World → Type 0
  Adds test counted w v =
      (v.redis.hashes ≡ w.redis.hashes)
      × (count_if test v.db.bids ≤ count_if test w.db.bids + once_if counted)

  fanned_out-hashes :
      (s : Status) (fails : Bool) (m : _) (r : Redis) → (fanned_out s fails m r).hashes ≡ r.hashes
  fanned_out-hashes accepted true m r = refl
  fanned_out-hashes accepted false m r = refl
  fanned_out-hashes rejected fails m r = refl

  appended :
      (test : Bid → Bool) (bids : List Bid) (b : Bid) (all : List Bid)
      → all ≡ bids ++ b ∷ []
      → count_if test all ≤ count_if test bids + once_if (test b)
  appended test bids b all e =
      omega (arith, ap (count_if test) e, count_if-append test bids (b ∷ []))

  outcome-Adds :
      (env : Env) (c : Call p) (auction : Auction) (o : Outcome) (w : World) (res : BidResult)
      (test : Bid → Bool) (counted : Bool)
      → ((amount : ℕ)
          → p.numeric c.amount ≡ some amount
          → once_if (test (bid_row p env c o amount)) ≤ once_if counted)
      → (record_outcome p env c auction o w).0 ≡ ok res
      → Adds test counted w (record_outcome p env c auction o w).1
  outcome-Adds env c auction o w res test counted row h =
      let x = (record_outcome-ok p env c auction o w res h).1 in
      (
        ap (λ (r : Redis). r.hashes) x.redis ∙ fanned_out-hashes o.status _ _ w.redis,
        omega (
          arith,
          row x.amount x.stored_as,
          appended test w.db.bids (bid_row p env c o x.amount) _ x.bids,
        ),
      )

  decide-Adds :
      (env : Env) (c : Call p) (auction : Auction) (d : Decision) (w : World) (res : BidResult)
      (test : Bid → Bool) (counted : Bool)
      → Counts test c (won_number d) counted
      → (decide p env c auction d w).0 ≡ ok res
      → Adds test counted w (decide p env c auction d w).1
  unfolding decide won_outcome lost_outcome bid_row
  decide-Adds env c auction short w res test counted x h = (refl, omega arith)
  decide-Adds env c auction fault w res test counted x h = cc h
  decide-Adds env c auction (won shown m) w res test counted x h =
      let o = won_outcome shown m in
      outcome-Adds env c auction o w res test counted
        (λ amount stored.
          let row = x.accepts (bid_row p env c o amount) m refl stored refl refl refl in
          omega (arith, ap once_if row))
        h
  decide-Adds env c auction (lost why) w res test counted x h =
      elim (Bool-cases env.hgetall_fails) [
        | inl broken ↦ cc (rw broken at h)
        | inr read ↦
            let o = lost_outcome why (w.redis.hashes c.auction_id) in
            simp read (
              outcome-Adds env c auction o w res test counted
                (λ amount stored.
                  omega (arith, ap once_if (x.rejects (bid_row p env c o amount) refl)))
                (simp read at h))
      ]

  on_reply-Adds :
      (f : Flight p) (w : World) (res : BidResult) (test : Bid → Bool) (counted : Bool)
      → Counts test f.call (reply_number f.reply) counted
      → (on_reply p f.env f.call f.auction f.reply w).0 ≡ ok res
      → Adds test counted w (on_reply p f.env f.call f.auction f.reply w).1
  unfolding on_reply
  on_reply-Adds f w res test counted x h = by_reply f.reply x h
    where
      by_reply :
          (reply : Reply)
          → Counts test f.call (reply_number reply) counted
          → (on_reply p f.env f.call f.auction reply w).0 ≡ ok res
          → Adds test counted w (on_reply p f.env f.call f.auction reply w).1
      by_reply none x h = (refl, omega arith)
      by_reply (some values) x h =
          decide-Adds f.env f.call f.auction (parse_reply values) w res test counted x h

  decide_raised :
      (env : Env) (c : Call p) (auction : Auction) (d : Decision) (w : World) (e : Exception)
      → (decide p env c auction d w).0 ≡ raised e
      → (decide p env c auction d w).1.redis.hashes ≡ w.redis.hashes
  unfolding decide
  decide_raised env c auction short w e h = refl
  decide_raised env c auction fault w e h = refl
  decide_raised env c auction (won shown m) w e h =
      ap (λ (r : Redis). r.hashes)
        (record_outcome-raised p env c auction (won_outcome shown m) w e h)
  decide_raised env c auction (lost why) w e h = elim (Bool-cases env.hgetall_fails) [
    | inl broken ↦ rw broken refl
    | inr read ↦
        let o = lost_outcome why (w.redis.hashes c.auction_id) in
        simp read (
          ap (λ (r : Redis). r.hashes)
            (record_outcome-raised p env c auction o w e (simp read at h)))
  ]

  on_reply_raised :
      (f : Flight p) (reply : Reply) (w : World) (e : Exception)
      → (on_reply p f.env f.call f.auction reply w).0 ≡ raised e
      → (on_reply p f.env f.call f.auction reply w).1.redis.hashes ≡ w.redis.hashes
  unfolding on_reply
  on_reply_raised f none w e h = refl
  on_reply_raised f (some values) w e h =
      decide_raised f.env f.call f.auction (parse_reply values) w e h

  respond-world : (res : BidResult) (w : World) → (respond res w).1 ≡ w
  unfolding respond
  respond-world res w = by_status res.status res.reason
    where
      by_status :
          (s : Status) (why : Option Reason)
          → (respond_with s (record res { status = s; reason = why }) w).1 ≡ w
      by_status s why = ground arith

  -- The second step adds at most the flight to what a test counts, and leaves the hashes.
  pub recorded-Adds :
      (commit_fails : Bool) (f : Flight p) (w : World) (test : Bid → Bool) (counted : Bool)
      → Counts test f.call (reply_number f.reply) counted
      → Adds test counted w (get_session commit_fails (recorded p f) w).1
  unfolding get_session recorded
  recorded-Adds commit_fails f w test counted x =
      by_result (on_reply p f.env f.call f.auction f.reply w)
        (λ res h. on_reply-Adds f w res test counted x h) (λ e h. on_reply_raised f f.reply w e h)
    where
      answered :
          (fails : Bool) (v : World) (y : Result BidBody × World)
          → y.1 ≡ v
          → Adds test counted w v
          → Adds test counted w (closing fails w y).1
      answered false v (ok body, u) same adds = subst (Adds test counted w) (sym same) adds
      answered true v (ok body, u) same adds =
          (ap (λ (x : World). x.redis.hashes) same ∙ adds.0, omega arith)
      answered fails v (raised e, u) same adds =
          (ap (λ (x : World). x.redis.hashes) same ∙ adds.0, omega arith)

      by_result :
          (x : Result BidResult × World)
          → ((res : BidResult) → x.0 ≡ ok res → Adds test counted w x.1)
          → ((e : Exception) → x.0 ≡ raised e → x.1.redis.hashes ≡ w.redis.hashes)
          → Adds test counted w (closing commit_fails w (((λ (u : World). x) >>= respond) w)).1
      by_result (ok res, v) adds stays =
          answered commit_fails v (respond res v) (respond-world res v) (adds res refl)
      by_result (raised e, v) adds stays = (stays e refl, omega arith)

  pub row_holds-Counts :
      (f : Flight p) (k n : ℕ)
      → Counts (row_holds k n) f.call (reply_number f.reply) (flight_holds p k n f)
  row_holds-Counts f k n = record {
    accepts =
        λ b m number stored here won numbered. rw number (ground (arith, here, won, numbered));
    rejects = λ b lost. ground (arith, lost);
  }

  -- an amount with two decimals is stored as the script has compared it
  pub row_claims-Counts :
      (f : Flight p) (k n a : ℕ)
      → p.numeric f.call.amount ≡ some (p.fixed2 f.call.amount)
      → Counts (row_claims k n a) f.call (reply_number f.reply) (flight_claims p k n a f)
  row_claims-Counts f k n a exact = record {
    accepts = λ b m number stored here won numbered.
        let same : b.amount ≡ p.fixed2 f.call.amount = eq_of_some (sym stored ∙ exact) in
        rw number (ground (arith, here, won, numbered, same));
    rejects = λ b lost. ground (arith, lost);
  }

  pub recorded-Changes :
      (commit_fails : Bool) (f : Flight p) (w : World)
      → Changes w.db (get_session commit_fails (recorded p f) w).1.db
  unfolding recorded
  recorded-Changes commit_fails f w =
      get_session-Changes commit_fails (on_reply p f.env f.call f.auction f.reply >>= respond)
        (Keeps-bind (on_reply p f.env f.call f.auction f.reply) respond
          (on_reply-Changes p f.env f.call f.auction f.reply) (respond-Changes p))
        w
