-- ===== src/System/Requests.antt =====
-- How the requests change the tables.
use sd_online_auction_backen.Common.{
  ℕ, Bool, ◌≡◌, sym, subst, ◌⊎◌, inl, inr, true, false, Option, none, some, [], ◌∷◌, ◌++◌, arith,
  any, not, String, Bool-cases, Option-cases,
}
use sd_online_auction_backen.Platform.{Platform}
use sd_online_auction_backen.Models.{User, Auction, Db, Status, Reason}
use sd_online_auction_backen.Redis.Script.{Args, Reply}
use sd_online_auction_backen.Redis.{xadd}
use sd_online_auction_backen.Session.{World, key_error, raise_if, pure, ◌>>=◌, ok, get_session}
use sd_online_auction_backen.Session.Tables.{has_user, get_auction}
use sd_online_auction_backen.Auctions.Create as Create
use sd_online_auction_backen.Auctions.Create.{AuctionCreate, create_auction}
use sd_online_auction_backen.Auctions.Create.Outcomes.{create_auction-Listed}
use sd_online_auction_backen.Bids.Recording.{
  Call, Env, Evalsha, replies, refused, reply_lost, unless, BidResult, Outcome, bid_row,
}
use sd_online_auction_backen.Bids.Place.{
  Decision, short, fault, won, lost, won_outcome, lost_outcome, parse_reply, decide, on_reply,
  bid_on, evalsha, place_bid, script_args, stream_entry,
}
use sd_online_auction_backen.Bids.Place.Persistence.{Recorded, record_outcome-ok}
use sd_online_auction_backen.Routers.{
  BidRequest, call_of, respond, respond_with, catching, parse_user_id, place_bid_route,
  create_auction_route,
}
use sd_online_auction_backen.Users as Users
use sd_online_auction_backen.Users.{UserCreate, has_email, create_user}
use sd_online_auction_backen.System.Changes.{
  Changes, unchanged, user_added, auction_added, bid_added,
}
use sd_online_auction_backen.System.Keeps.{
  Keeps, Keeps-bind, get_session-Changes, unless-Changes, raise_if-Changes, catching-Changes,
}

module _ (p : Platform) where
  -- a request for a user leaves the tables, or adds the row `u`
  abbrev AddsUser : User → World → Db → Type 0
  AddsUser u w d =
      (has_user u.user_id w.db ≡ false)
      × (any (has_email u.email) w.db.users ≡ false)
      × (d ≡ record w.db { users = w.db.users ++ u ∷ [] })

  create_user-row :
      (commit_fails : Bool) (env : Users.Env) (request : UserCreate) (w : World)
      (name email : String)
      → p.varchar 255 request.display_name ≡ some name
      → p.varchar 255 request.email ≡ some email
      → let d = (get_session commit_fails (create_user p env request) w).1.db in
        let u : User = record {
          user_id = env.user_id;
          display_name = name;
          email = email;
          created_at = env.created_at;
        } in
        (d ≡ w.db) ⊎ AddsUser u w d
  unfolding create_user get_session
  create_user-row commit_fails env request w name email named known = ground (arith, named, known)

  create_user-cases :
      (commit_fails : Bool) (env : Users.Env) (request : UserCreate) (w : World)
      → let d = (get_session commit_fails (create_user p env request) w).1.db in
        (d ≡ w.db) ⊎ ((u : User) × AddsUser u w d)
  unfolding create_user get_session
  create_user-cases commit_fails env request w =
      elim (Option-cases (p.varchar 255 request.display_name)) [
        | inl bad ↦ inl (ground (arith, bad))
        | inr (name, named) ↦ elim (Option-cases (p.varchar 255 request.email)) [
          | inl bad ↦ inl (ground (arith, named, bad))
          | inr (email, known) ↦
              elim (create_user-row commit_fails env request w name email named known) [
                | inl same ↦ inl same
                | inr adds ↦ inr (_, adds)
              ]
        ]
      ]

  pub create_user-Changes :
      (commit_fails : Bool) (env : Users.Env) (request : UserCreate) (w : World)
      → Changes w.db (get_session commit_fails (create_user p env request) w).1.db
  create_user-Changes commit_fails env request w =
      elim (create_user-cases commit_fails env request w) [
        | inl same ↦ subst (Changes w.db) (sym same) (unchanged w.db)
        | inr (u, (new, free, added)) ↦
            subst (Changes w.db) (sym added) (user_added u w.db new free)
      ]

  create_auction-Changes :
      (env : Create.Env) (seller : ℕ) (d : AuctionCreate p)
      → Keeps (create_auction p env seller d true)
  create_auction-Changes env seller d w a h =
      let lists = create_auction-Listed p env seller d true w a h in
      subst (Changes w.db) (sym lists.stored)
        (auction_added a w.db lists.new_id (rw lists.owner.0 lists.known_seller) lists.unsold_yet.1)

  Recorded-Changes :
      (env : Env) (c : Call p) (auction : Auction) (o : Outcome) (w v : World)
      → Recorded p env c auction o w v
      → Changes w.db v.db
  Recorded-Changes env c auction o w v x =
      let users = sym x.users in
      let auctions = sym x.auctions in
      let bids = sym x.bids in
      subst (Changes w.db)
        (λ i. record {
          users = users i;
          auctions = auctions i;
          bids = bids i;
          proxy_bids = v.db.proxy_bids;
        })
        (bid_added (bid_row p env c o x.amount) v.db.proxy_bids w.db x.keys)

  decide-Changes :
      (env : Env) (c : Call p) (auction : Auction) (d : Decision) (w : World) (res : BidResult)
      → (decide p env c auction d w).0 ≡ ok res
      → Changes w.db (decide p env c auction d w).1.db
  unfolding decide
  decide-Changes env c auction short w res h = unchanged w.db
  decide-Changes env c auction fault w res h = cc
  decide-Changes env c auction (won shown n) w res h =
      Recorded-Changes env c auction (won_outcome shown n) w _
        (record_outcome-ok p env c auction (won_outcome shown n) w res h).1
  decide-Changes env c auction (lost why) w res h = elim (Bool-cases env.hgetall_fails) [
    | inl broken ↦ cc (rw broken at h)
    | inr read ↦ simp read (
        Recorded-Changes env c auction (lost_outcome why (w.redis.hashes c.auction_id)) w _
          (record_outcome-ok p env c auction (lost_outcome why (w.redis.hashes c.auction_id)) w res
            (simp read at h)).1)
  ]

  pub on_reply-Changes :
      (env : Env) (c : Call p) (auction : Auction) (reply : Reply) (w : World) (res : BidResult)
      → (on_reply p env c auction reply w).0 ≡ ok res
      → Changes w.db (on_reply p env c auction reply w).1.db
  unfolding on_reply
  on_reply-Changes env c auction none w res h = unchanged w.db
  on_reply-Changes env c auction (some reply) w res h =
      decide-Changes env c auction (parse_reply reply) w res h

  evalsha-Changes : (how : Evalsha) (a : Args) → Keeps (evalsha p how a)
  unfolding evalsha
  evalsha-Changes replies a w reply h = unchanged w.db
  evalsha-Changes refused a w reply h = unchanged w.db
  evalsha-Changes reply_lost a w reply h = unchanged w.db

  bid_on-Changes :
      (env : Env) (c : Call p) (auction : Option Auction) → Keeps (bid_on p env c auction)
  unfolding bid_on
  bid_on-Changes env c none = λ w res h. unchanged w.db
  bid_on-Changes env c (some auction) =
      let run = evalsha p env.evalsha (script_args p env c auction) in
      let answer = on_reply p env c auction in
      let registered = raise_if (not env.script_registered) key_error in
      let ran =
        Keeps-bind run answer (evalsha-Changes env.evalsha _) (on_reply-Changes env c auction) in
      let checked = Keeps-bind registered (λ u. run >>= answer) (raise_if-Changes _ _) (λ u. ran) in
      Keeps-bind (unless env.xadd_fails (xadd c.auction_id (stream_entry p env c)))
        (λ u. registered >>= λ v. run >>= answer) (unless-Changes env.xadd_fails _) (λ u. checked)

  place_bid-Changes : (env : Env) (c : Call p) → Keeps (place_bid p env c)
  unfolding place_bid
  place_bid-Changes env c w = bid_on-Changes env c (get_auction c.auction_id w.db) w

  pub respond-Changes : (res : BidResult) → Keeps (respond res)
  unfolding respond
  respond-Changes res w body h = subst (Changes w.db) (stays res.status res.reason) (unchanged w.db)
    where
      stays :
          (s : Status) (why : Option Reason)
          → w.db ≡ (respond_with s (record res { status = s; reason = why }) w).1.db
      stays s why = ground arith

  parse_user_id-stays :
      (header : Option String) (w : World) → w.db ≡ (parse_user_id p header w).1.db
  unfolding parse_user_id
  parse_user_id-stays header w = ground arith

  parse_user_id-Changes : (header : Option String) → Keeps (parse_user_id p header)
  parse_user_id-Changes header w k h =
      subst (Changes w.db) (parse_user_id-stays header w) (unchanged w.db)

  pub place_bid_route-Changes :
      (commit_fails : Bool) (env : Env) (header : Option String) (auction_id : ℕ)
      (request : BidRequest p) (w : World)
      → Changes w.db
          (get_session commit_fails (place_bid_route p env header auction_id request) w).1.db
  unfolding place_bid_route
  place_bid_route-Changes commit_fails env header auction_id request =
      let call = λ (bidder : ℕ). place_bid p env (call_of p auction_id bidder request) in
      get_session-Changes commit_fails _ (
        Keeps-bind (parse_user_id p header) (λ bidder. call bidder >>= respond)
          (parse_user_id-Changes header)
          (λ bidder. Keeps-bind (call bidder) respond (place_bid-Changes env _) respond-Changes))

  pub create_auction_route-Changes :
      (commit_fails : Bool) (env : Create.Env) (header : Option String) (request : AuctionCreate p)
      (w : World)
      → Changes w.db (get_session commit_fails (create_auction_route p env header request) w).1.db
  unfolding create_auction_route
  create_auction_route-Changes commit_fails env header request =
      let call =
        λ (seller : ℕ) (w : World). catching (create_auction p env seller request true w) in
      get_session-Changes commit_fails _ (
        Keeps-bind (parse_user_id p header) (λ seller. call seller >>= pure)
          (parse_user_id-Changes header)
          (λ seller.
            Keeps-bind (call seller) pure
              (catching-Changes _ (create_auction-Changes env seller request))
              (λ a w b h. unchanged w.db)))
