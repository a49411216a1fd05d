-- ===== src/System/Overlap/Numbered.antt =====
-- The numbers of an auction's accepted bids, over bids that overlap.
use sd_online_auction_backen.Common.{
  ℕ, ◌+◌, ◌≤◌, ◌<◌, ◌≡◌, refl, sym, ap, subst, ◌∙◌, inl, inr, Bool, true, false, Option, List, ◌∷◌,
  ◌++◌, arith, Bool-cases,
}
use sd_online_auction_backen.Platform.{Platform}
use sd_online_auction_backen.Models.{Db}
use sd_online_auction_backen.Redis.{Hash, fields}
use sd_online_auction_backen.Redis.Script.{or_zero, state_is_active}
use sd_online_auction_backen.Session.{World, get_session}
use sd_online_auction_backen.System.Changes.{Changes, unchanged, IsValid}
use sd_online_auction_backen.System.Valid.{Changes-IsValid}
use sd_online_auction_backen.Bids.Recording.{Call}
use sd_online_auction_backen.System.Overlap.{
  Flight, Busy, Beside, registers, lists, starts, closes, elsewhere, Moves, evaluates, fails,
  records, vanishes, beside, Run, start, then_move, recorded,
}
use sd_online_auction_backen.System.Overlap.Held.{
  count_if, count_if-append, row_holds, flight_holds, held,
}
use sd_online_auction_backen.System.Overlap.Hashes.{
  last_number, takes_bids, started, HashStep, kept, opened, Quiet, unstarted-earlier,
}
use sd_online_auction_backen.System.Overlap.Starts.{poll_due_starts-Quiet}
use sd_online_auction_backen.System.Overlap.Closes.{poll_due_closes-Quiet}
use sd_online_auction_backen.System.Overlap.Requests.{
  create_user-Quiet, create_auction_route-Quiet, HashStep-same,
}
use sd_online_auction_backen.System.Overlap.Bids.{Ran, Evaluated, evaluated-Ran}
use sd_online_auction_backen.System.Overlap.Recording.{
  once_if, recorded-Adds, row_holds-Counts, recorded-Changes,
}

module _ (p : Platform) where
  -- The numbers that the accepted bids of an auction hold, in rows and in flight, are different, and
  -- none is above the hash's; an auction that has not started has none, and takes no bids.
  pub record Numbered (s : Busy p) : Type 0 where
    pub valid : IsValid s.world.db
    pub once : (k n : ℕ) → held p k n s ≤ 1
    pub bounded : (k n : ℕ) → last_number k s.world.redis < n → held p k n s ≡ 0
    pub unheld : (k n : ℕ) → started k s.world.db ≡ false → held p k n s ≡ 0
    pub shut : (k : ℕ) → started k s.world.db ≡ false → takes_bids k s.world.redis ≡ false

  Quiet-Numbered :
      (s : Busy p) (v : World) → Quiet s.world v → Numbered s → Numbered (record s { world = v })
  Quiet-Numbered s v q x = record {
    valid = Changes-IsValid q.changes x.valid;
    once = λ k n. omega (arith, x.once k n, same k n);
    bounded = λ k n above. same k n ∙ by_hash k n above (q.hashes k);
    unheld = λ k n off. same k n ∙ x.unheld k n (earlier k off);
    shut = λ k off. by_shut k off (q.hashes k);
  }
    where
      same : (k n : ℕ) → held p k n (record s { world = v }) ≡ held p k n s
      same k n =
          ap (λ l. count_if (row_holds k n) l + count_if (flight_holds p k n) s.flights) q.bids

      earlier : (k : ℕ) → started k v.db ≡ false → started k s.world.db ≡ false
      earlier k off = unstarted-earlier k s.world.db v.db q.changes off

      by_hash : (k n : ℕ) → last_number k v.redis < n → HashStep k s.world v → held p k n s ≡ 0
      by_hash k n above (kept number price stays) = x.bounded k n (omega (arith, number))
      by_hash k n above (opened b a low) = x.unheld k n b

      by_shut :
          (k : ℕ) → started k v.db ≡ false → HashStep k s.world v → takes_bids k v.redis ≡ false
      by_shut k off (kept number price stays) = stays (x.shut k (earlier k off))
      by_shut k off (opened b a low) = cc (off, a)

  evaluates-Numbered :
      (s : Busy p) (f : Flight p) (v : World)
      → v.db ≡ s.world.db
      → ((k : ℕ) → Evaluated p f.call f.reply k s.world.redis v.redis)
      → Numbered s
      → Numbered (record { world = v; flights = f ∷ s.flights })
  evaluates-Numbered s f v db ran x = record {
    valid = subst IsValid (sym db) x.valid;
    once = λ k n. elim (Bool-cases (flight_holds p k n f)) [
      | inr away ↦ omega (arith, x.once k n, same k n, ap once_if away)
      | inl here ↦ omega (arith, x.bounded k n (above k n here), same k n, ap once_if here)
    ];
    bounded = λ k n h. elim (Bool-cases (flight_holds p k n f)) [
      | inr away ↦
          omega (arith, x.bounded k n (omega (arith, (ran k).rises)), same k n, ap once_if away)
      | inl here ↦ absurd (omega (arith, ((ran k).next n here).1))
    ];
    unheld = λ k n off. elim (Bool-cases (flight_holds p k n f)) [
      | inr away ↦
          omega (arith, x.unheld k n (ap (started k) (sym db) ∙ off), same k n, ap once_if away)
      | inl here ↦ cc (((ran k).next n here).2, x.shut k (ap (started k) (sym db) ∙ off))
    ];
    shut = λ k off. (ran k).state ∙ x.shut k (ap (started k) (sym db) ∙ off);
  }
    where
      same :
          (k n : ℕ)
          → held p k n (record { world = v; flights = f ∷ s.flights })
            ≡ held p k n s + once_if (flight_holds p k n f)
      same k n = omega (arith, ap (λ (d : Db). count_if (row_holds k n) d.bids) db)

      above : (k n : ℕ) → flight_holds p k n f ≡ true → last_number k s.world.redis < n
      above k n here = omega (arith, ((ran k).next n here).0)

  fails-Numbered :
      (s : Busy p) (v : World)
      → v.db ≡ s.world.db
      → v.redis.hashes ≡ s.world.redis.hashes
      → Numbered s
      → Numbered (record s { world = v })
  fails-Numbered s v db same = Quiet-Numbered s v (record {
    changes = subst (Changes s.world.db) (sym db) (unchanged s.world.db);
    bids = ap (λ (d : Db). d.bids) db;
    hashes = λ k. HashStep-same k s.world v same;
  })

  -- taking a flight out
  pub without :
      (before : List (Flight p)) (f : Flight p) (after : List (Flight p)) (test : Flight p → Bool)
      → count_if test (before ++ f ∷ after) ≡ count_if test (before ++ after) + once_if (test f)
  without before f after test =
      omega (arith, count_if-append test before (f ∷ after), count_if-append test before after)

  -- a step that holds no number more often, and leaves the hashes
  fewer-Numbered :
      (s t : Busy p)
      → Changes s.world.db t.world.db
      → t.world.redis.hashes ≡ s.world.redis.hashes
      → ((k n : ℕ) → held p k n t ≤ held p k n s)
      → Numbered s
      → Numbered t
  fewer-Numbered s t changes same fewer x = record {
    valid = Changes-IsValid changes x.valid;
    once = λ k n. omega (arith, fewer k n, x.once k n);
    bounded = λ k n h. omega (arith, fewer k n, x.bounded k n (omega (arith, number k)));
    unheld = λ k n off. omega (arith, fewer k n, x.unheld k n (earlier k off));
    shut = λ k off. takes k ∙ x.shut k (earlier k off);
  }
    where
      number : (k : ℕ) → last_number k t.world.redis ≡ last_number k s.world.redis
      number k = ap (λ (h : ℕ → Option Hash). or_zero (fields (h k)).sequence_num) same

      takes : (k : ℕ) → takes_bids k t.world.redis ≡ takes_bids k s.world.redis
      takes k = ap (λ (h : ℕ → Option Hash). state_is_active (fields (h k)).state) same

      earlier : (k : ℕ) → started k t.world.db ≡ false → started k s.world.db ≡ false
      earlier k off = unstarted-earlier k s.world.db t.world.db changes off

  records-Numbered :
      (commit_fails : Bool) (s : Busy p) (before : List (Flight p)) (f : Flight p)
      (after : List (Flight p))
      → s.flights ≡ before ++ f ∷ after
      → Numbered s
      → Numbered (record {
        world = (get_session commit_fails (recorded p f) s.world).1;
        flights = before ++ after;
      })
  records-Numbered commit_fails s before f after e =
      fewer-Numbered s _ (recorded-Changes p commit_fails f s.world)
        (recorded-Adds p commit_fails f s.world (row_holds 0 0) _ (row_holds-Counts p f 0 0)).0
        (λ k n. omega (
          arith,
          (recorded-Adds p commit_fails f s.world (row_holds k n) _ (row_holds-Counts p f k n)).1,
          without before f after (flight_holds p k n),
          ap (count_if (flight_holds p k n)) e,
        ))

  vanishes-Numbered :
      (s : Busy p) (before : List (Flight p)) (f : Flight p) (after : List (Flight p))
      → s.flights ≡ before ++ f ∷ after
      → Numbered s
      → Numbered (record s { flights = before ++ after })
  vanishes-Numbered s before f after e = fewer-Numbered s _ (unchanged s.world.db) refl (λ k n.
      omega
        (arith, without before f after (flight_holds p k n), ap (count_if (flight_holds p k n)) e))

  pub Beside-Quiet : (w v : World) → IsValid w.db → Beside p w v → Quiet w v
  Beside-Quiet w _ valid (registers commit_fails env request) =
      create_user-Quiet p commit_fails env request w
  Beside-Quiet w _ valid (lists env header request heard) =
      create_auction_route-Quiet p env header request w heard
  Beside-Quiet w _ valid (starts now faults commits) =
      poll_due_starts-Quiet now faults w valid commits
  Beside-Quiet w _ valid (closes now faults) = poll_due_closes-Quiet p now faults w valid
  Beside-Quiet w _ valid (elsewhere r same) = record {
    changes = unchanged w.db;
    bids = refl;
    hashes = λ k. HashStep-same k w (record w { redis = r }) same;
  }

  pub Moves-Numbered :
      (Q : Call p → Type 0) (s t : Busy p) → Moves p Q s t → Numbered s → Numbered t
  Moves-Numbered Q s _ (evaluates env c auction reply v fair new e) x =
      let (db, ran) = subst (Ran p c s.world) e (evaluated-Ran p env c auction s.world new) in
      evaluates-Numbered s (record { env = env; call = c; auction = auction; reply = reply }) v db
        ran x
  Moves-Numbered Q s _ (fails env c auction err v fair new e) x =
      let (db, same) = subst (Ran p c s.world) e (evaluated-Ran p env c auction s.world new) in
      fails-Numbered s v db same x
  Moves-Numbered Q s _ (records commit_fails before f after e) x =
      records-Numbered commit_fails s before f after e x
  Moves-Numbered Q s _ (vanishes before f after e) x = vanishes-Numbered s before f after e x
  Moves-Numbered Q s _ (beside v step) x =
      Quiet-Numbered s v (Beside-Quiet s.world v x.valid step) x

  pub Run-Numbered : (Q : Call p → Type 0) (s t : Busy p) → Run p Q s t → Numbered s → Numbered t
  Run-Numbered Q s _ start x = x
  Run-Numbered Q s t (then_move {u} run move) x =
      Moves-Numbered Q u t move (Run-Numbered Q s u run x)
