-- ===== src/Scheduler/Closes.antt =====
-- What `poll_due_closes` does to each auction.
use sd_online_auction_backen.Common.{
  ℕ, ◌*◌, ◌<◌, ◌≡◌, ◌≢◌, refl, ap, ◌∙◌, inl, inr, true, false, Option, none, some, List, [], ◌∷◌,
  arith, All, Option-cases,
}
use sd_online_auction_backen.Platform.{Platform, numeric_limit}
use sd_online_auction_backen.Models.{Auction}
use sd_online_auction_backen.Redis.{fields}
use sd_online_auction_backen.Redis.Script.{or_zero}
use sd_online_auction_backen.Session.{World, Result, ok}
use sd_online_auction_backen.Session.Tables.{
  get_auction, put_auction, winner_exists, get_user, has_user,
}
use sd_online_auction_backen.Auctions.Lifecycle.{leader, close_auction}
use sd_online_auction_backen.Auctions.Lifecycle.Settlement.{Settled}
use sd_online_auction_backen.Auctions.Lifecycle.Transitions.{
  OnlyAt, no_faults, close_auction-Closes, get_auction-put_self, get_auction-put_ne,
}
use sd_online_auction_backen.Scheduler.{
  Faults, Turn, went_on, turn_of, extended_to, close_turn, close_all, due_closes, poll_due_closes,
  is_due_close, batch_size,
}
use sd_online_auction_backen.Scheduler.Queue.{
  has_id, UniqueIds, All-others, UniqueIds-batch, All-both,
}

abbrev pub no_poll_faults : Faults
no_poll_faults = record {
  connect_fails = false;
  init_fails = λ k. false;
  read_fails = λ k. false;
  close_faults = λ k. no_faults;
  commit_fails = false;
}

-- an auction that a close can settle
pub record Closable (w : World) (a : Auction) : Type 0 where
  pub no_winner : a.winner_id ≡ none
  pub no_price : a.highest_bid ≡ none
  pub in_range : or_zero (fields (w.redis.hashes a.auction_id)).highest_bid < numeric_limit
  pub known : winner_exists (leader (w.redis.hashes a.auction_id)) w.db ≡ true

-- what a poll at `now` has done to the auction `a`
pub data Handled (now : ℕ) (w w' : World) (a : Auction) : Type 0 where
  settles :
      (row : Auction)
      → extended_to (w.redis.hashes a.auction_id) now ≡ none
      → Settled a (w.redis.hashes a.auction_id) row
      → get_auction a.auction_id w'.db ≡ some row
      → (fields (w'.redis.hashes a.auction_id)).state ≡ some row.state
      → Handled now w w' a
  extends :
      (e : ℕ)
      → extended_to (w.redis.hashes a.auction_id) now ≡ some e
      → get_auction a.auction_id w'.db ≡ some (record a { end_ts = e * 1000000 })
      → w'.redis.hashes a.auction_id ≡ w.redis.hashes a.auction_id
      → Handled now w w' a

-- the row and the hash of `k` are the same
abbrev pub Same : ℕ → World → World → Type 0
Same k w w' = (get_auction k w'.db ≡ get_auction k w.db) × (w'.redis.hashes k ≡ w.redis.hashes k)

Handled-later :
    (now : ℕ) (w v w' : World) (a : Auction)
    → Same a.auction_id v w'
    → Handled now w v a
    → Handled now w w' a
Handled-later now w v w' a same (settles row e s stored shown) =
    settles row e s (same.0 ∙ stored) (ap (λ h. (fields h).state) same.1 ∙ shown)
Handled-later now w v w' a same (extends e x stored hash) =
    extends e x (same.0 ∙ stored) (same.1 ∙ hash)

Handled-earlier :
    (now : ℕ) (w v w' : World) (a : Auction)
    → v.redis.hashes a.auction_id ≡ w.redis.hashes a.auction_id
    → Handled now v w' a
    → Handled now w w' a
Handled-earlier now w v w' a same (settles row e s stored shown) =
    settles row (rw (← same) e) (rw (← same) s) stored shown
Handled-earlier now w v w' a same (extends e x stored hash) =
    extends e (rw (← same) x) stored (hash ∙ same)

winner_exists-users :
    (k : Option ℕ) (w v : World)
    → v.db.users ≡ w.db.users
    → winner_exists k w.db ≡ true
    → winner_exists k v.db ≡ true
unfolding has_user get_user
winner_exists-users none w v same h = refl
winner_exists-users (some b) w v same h = simp same h

-- a turn that the loop survives
record Turned (now : ℕ) (a : Auction) (w : World) (t : Turn) : Type 0 where
  next : World
  goes : t ≡ went_on next
  handled : Handled now w next a
  others : OnlyAt a.auction_id w next

turn_of-ok : (x : Result Unit × World) → x.0 ≡ ok tt → turn_of x ≡ went_on x.1
turn_of-ok x e = rw e refl

OnlyAt-Same : (k j : ℕ) (w v : World) → OnlyAt k w v → k ≢ j → Same j w v
OnlyAt-Same k j w v only ne = (only.rows j ne, only.hashes j ne)

-- what another auction's turn leaves as it was
Closable-later :
    (k : ℕ) (w v : World) (a : Auction)
    → OnlyAt k w v
    → k ≢ a.auction_id
    → (get_auction a.auction_id w.db ≡ some a) × Closable w a
    → (get_auction a.auction_id v.db ≡ some a) × Closable v a
Closable-later k w v a only ne (row, c) =
    let same = only.hashes a.auction_id ne in
    (
      only.rows a.auction_id ne ∙ row,
      record {
        no_winner = c.no_winner;
        no_price = c.no_price;
        in_range = rw same c.in_range;
        known = rw same (winner_exists-users _ w v only.users c.known);
      },
    )

-- a loop that goes on to its end
record Finished (now : ℕ) (rows : List Auction) (w : World) (t : Turn) : Type 0 where
  end : World
  goes : t ≡ went_on end
  handled : All (Handled now w end) rows
  others : (j : ℕ) → has_id j rows ≡ false → Same j w end

module _ (p : Platform) where
  close_turn-Turned :
      (now : ℕ) (a : Auction) (w : World)
      → get_auction a.auction_id w.db ≡ some a
      → Closable w a
      → Turned now a w (turn_of (close_turn p now no_poll_faults a w))
  unfolding close_turn
  close_turn-Turned now a w row c =
      elim (Option-cases (extended_to (w.redis.hashes a.auction_id) now)) [
        | inl over ↦
            let (returns, closes) =
              close_auction-Closes p a.auction_id a w row c.no_winner c.no_price c.in_range
                c.known in
            record {
              next = (close_auction p a.auction_id no_faults w).1;
              goes = rw over (turn_of-ok _ returns);
              handled = settles closes.row over closes.settled closes.stored closes.shown;
              others = closes.others;
            }
        | inr (e, longer) ↦ record {
          next = record w { db = put_auction (record a { end_ts = e * 1000000 }) w.db };
          goes = rw longer refl;
          handled = extends e longer (get_auction-put_self a.auction_id _ a w.db row refl) refl;
          others = record {
            rows = λ j ne. get_auction-put_ne j _ w.db ne;
            hashes = λ j ne. refl;
            bids = unfold put_auction in refl;
            users = unfold put_auction in refl;
          };
        }
      ]

  close_all-Finished :
      (now : ℕ) (rows : List Auction) (w : World)
      → UniqueIds rows
      → All (λ a. (get_auction a.auction_id w.db ≡ some a) × Closable w a) rows
      → Finished now rows w (close_all p now no_poll_faults rows w)
  unfolding close_all
  close_all-Finished now [] w u ready = record {
    end = w;
    goes = refl;
    handled = tt;
    others = λ j h. (refl, refl);
  }
  close_all-Finished now (a ∷ rows) w u ready =
      let turn = close_turn-Turned now a w ready.0.0 ready.0.1 in
      let v = turn.next in
      let rest = close_all-Finished now rows v u.1 (
        All-others a.auction_id rows (λ b ne x. Closable-later a.auction_id w v b turn.others ne x)
          u.0 ready.1) in
      record {
        end = rest.end;
        goes = rw (close_all, turn.goes) rest.goes;
        handled = (
          Handled-later now w v rest.end a (rest.others a.auction_id u.0) turn.handled,
          All-others a.auction_id rows
              (λ b ne x. Handled-earlier now w v rest.end b (turn.others.hashes b.auction_id ne) x)
              u.0 rest.handled,
        );
        others = λ j h.
            let apart : a.auction_id ≢ j = λ e. ground arith in
            let (row, hash) = rest.others j (ground arith) in
            (row ∙ turn.others.rows j apart, hash ∙ turn.others.hashes j apart);
      }

  -- One poll at `now` that meets no fault, over a table with unique ids, where each auction of its
  -- batch has no winner yet, a price in range and a leader who is a user: each of them is closed by the rules in its row and in
  -- its hash, unless its hash has a later end, which its row takes over instead; and the rows and
  -- hashes of all other auctions are as they were.
  pub poll_due_closes_lem :
      (now : ℕ) (w : World)
      → UniqueIds w.db.auctions
      → All (Closable w) (due_closes now w.db)
      → let w' = poll_due_closes p now no_poll_faults w in
        All (Handled now w w') (due_closes now w.db)
        × ((j : ℕ) → has_id j (due_closes now w.db) ≡ false → Same j w w')
  unfolding poll_due_closes due_closes get_auction
  poll_due_closes_lem now w unique closable =
      let (ids, found) = UniqueIds-batch (is_due_close now) batch_size w.db.auctions unique in
      let done =
        close_all-Finished now (due_closes now w.db) w ids (All-both _ _ _ found closable) in
      rw done.goes (done.handled, done.others)
