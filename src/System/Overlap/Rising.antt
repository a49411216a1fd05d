-- ===== src/System/Overlap/Rising.antt =====
-- The amounts of an auction's accepted bids, over bids that overlap.
use sd_online_auction_backen.Common.{
  ℕ, ◌+◌, ◌≤◌, ◌<◌, ◌≡◌, refl, ap, ◌∙◌, subst, inl, inr, Bool, true, ◌&&◌, Option, some, List, [],
  ◌∷◌, ◌++◌, ◌⊎◌, arith, ◌==◌, All, Bool-cases,
}
use sd_online_auction_backen.Platform.{Platform, numeric_limit}
use sd_online_auction_backen.Models.{Db}
use sd_online_auction_backen.Redis.{Hash, fields}
use sd_online_auction_backen.Redis.Script.{or_zero}
use sd_online_auction_backen.Session.{World, get_session}
use sd_online_auction_backen.Bids.Recording.{Call}
use sd_online_auction_backen.System.Overlap.{
  Flight, Busy, Moves, evaluates, fails, records, vanishes, beside, Run, start, then_move, recorded,
}
use sd_online_auction_backen.System.Overlap.Held.{
  count_if, row_holds, flight_holds, row_claims, flight_claims, held, claims,
}
use sd_online_auction_backen.System.Overlap.Hashes.{
  last_number, last_price, HashStep, kept, opened, Quiet,
}
use sd_online_auction_backen.System.Overlap.Bids.{Ran, Evaluated, Priced, same, paid, evaluated-Ran}
use sd_online_auction_backen.System.Overlap.Recording.{once_if, recorded-Adds, row_claims-Counts}
use sd_online_auction_backen.System.Overlap.Numbered.{
  Numbered, without, Beside-Quiet, Moves-Numbered,
}

count_if-and :
    {A : Type 0} (t u : A → Bool) (xs : List A) → count_if (λ x. t x && u x) xs ≤ count_if t xs
count_if-and t u [] = omega arith
count_if-and t u (x ∷ xs) = ground (arith, count_if-and t u xs)

All-without :
    {A : Type 0} (P : A → Type 0) (before : List A) (f : A) (after : List A)
    → All P (before ++ f ∷ after)
    → P f × All P (before ++ after)
All-without P [] f after h = h
All-without P (x ∷ before) f after (h, rest) =
    let (here, others) = All-without P before f after rest in (here, (h, others))

module _ (p : Platform) where
  -- An amount with two decimals that is in the column's range: the column stores it as the script
  -- has compared it.
  abbrev pub WholeCents : Call p → Type 0
  WholeCents c =
      (p.numeric c.amount ≡ some (p.fixed2 c.amount)) × (p.fixed2 c.amount < numeric_limit)

  -- The price of a hash bounds the amounts of its auction's accepted bids, in rows and in flight,
  -- and the amounts rise with the numbers.
  pub record Rising (s : Busy p) : Type 0 where
    pub numbered : Numbered p s
    pub fair : All (λ (f : Flight p). WholeCents f.call) s.flights
    pub limit : (k : ℕ) → last_price k s.world.redis < numeric_limit
    pub top : (k n a : ℕ) → 0 < claims p k n a s → a ≤ last_price k s.world.redis
    pub order : (k m n a b : ℕ) → 0 < claims p k m a s → 0 < claims p k n b s → m ≤ n → a ≤ b

  pub claims-held : (s : Busy p) (k n a : ℕ) → claims p k n a s ≤ held p k n s
  claims-held s k n a = omega (
    arith,
    count_if-and (row_holds k n) (λ b. b.amount == a) s.world.db.bids,
    count_if-and (flight_holds p k n) (λ f. p.fixed2 f.call.amount == a) s.flights,
  )

  Quiet-Rising :
      (s : Busy p) (v : World)
      → Quiet s.world v
      → Numbered p (record s { world = v })
      → Rising s
      → Rising (record s { world = v })
  Quiet-Rising s v q numbered x = record {
    numbered = numbered;
    fair = x.fair;
    limit = λ k. by_limit k (q.hashes k);
    top = λ k n a c. by_top k n a (omega (arith, c, equal k n a)) (q.hashes k);
    order = λ k m n a b c d.
        x.order k m n a b (omega (arith, c, equal k m a)) (omega (arith, d, equal k n b));
  }
    where
      equal : (k n a : ℕ) → claims p k n a (record s { world = v }) ≡ claims p k n a s
      equal k n a =
          ap (λ l. count_if (row_claims k n a) l + count_if (flight_claims p k n a) s.flights)
            q.bids

      by_limit : (k : ℕ) → HashStep k s.world v → last_price k v.redis < numeric_limit
      by_limit k (kept number price stays) = omega (arith, price, x.limit k)
      by_limit k (opened b a low) = omega (arith, low, x.limit k)

      by_top : (k n a : ℕ) → 0 < claims p k n a s → HashStep k s.world v → a ≤ last_price k v.redis
      by_top k n a c (kept number price stays) = omega (arith, price, x.top k n a c)
      by_top k n a c (opened b after low) =
          absurd (omega (arith, c, claims-held s k n a, x.numbered.unheld k n b))

  -- a bid whose script has replied
  module _ (s : Busy p) (f : Flight p) (v : World) (x : Rising s) (fair : WholeCents f.call)
      (ran : (k : ℕ) → Evaluated p f.call f.reply k s.world.redis v.redis) where
    price_low : (k : ℕ) → last_price k s.world.redis ≤ last_price k v.redis
    price_low k = by_price (ran k).price
      where
        by_price :
            Priced p f.call k s.world.redis v.redis
            → last_price k s.world.redis ≤ last_price k v.redis
        by_price (same e) = omega (arith, e)
        by_price (paid inc e enough) =
            omega (arith, e, p.below_min_ge _ _ inc fair.1 (x.limit k) enough)

    price_limit : (k : ℕ) → last_price k v.redis < numeric_limit
    price_limit k = by_price (ran k).price
      where
        by_price : Priced p f.call k s.world.redis v.redis → last_price k v.redis < numeric_limit
        by_price (same e) = omega (arith, e, x.limit k)
        by_price (paid inc e enough) = omega (arith, e, fair.1)

    abbrev claimed : Busy p
    claimed = record { world = v; flights = f ∷ s.flights }

    -- who claims a number is the bid, or has claimed it before
    claim-cases :
        (k n a : ℕ)
        → v.db ≡ s.world.db
        → 0 < claims p k n a claimed
        → (0 < claims p k n a s) ⊎ (flight_claims p k n a f ≡ true)
    claim-cases k n a db c = elim (Bool-cases (flight_claims p k n a f)) [
      | inl here ↦ inr here
      | inr away ↦ inl (
          omega (arith, c, ap once_if away, ap (λ (d : Db). count_if (row_claims k n a) d.bids) db))
    ]

    claim-new :
        (k n a : ℕ)
        → flight_claims p k n a f ≡ true
        → (n ≡ last_number k s.world.redis + 1) × (last_price k v.redis ≡ a)
    claim-new k n a here =
        let next = (ran k).next n (ground (arith, here)) in
        let amount : p.fixed2 f.call.amount ≡ a = ground (arith, here) in (next.0, next.3 ∙ amount)

  evaluates-Rising :
      (s : Busy p) (f : Flight p) (v : World)
      → v.db ≡ s.world.db
      → ((k : ℕ) → Evaluated p f.call f.reply k s.world.redis v.redis)
      → WholeCents f.call
      → Numbered p (record { world = v; flights = f ∷ s.flights })
      → Rising s
      → Rising (record { world = v; flights = f ∷ s.flights })
  evaluates-Rising s f v db ran fair numbered x = record {
    numbered = numbered;
    fair = (fair, x.fair);
    limit = price_limit s f v x fair ran;
    top = tops;
    order = λ k m n a b c d le. elim (claim-cases s f v x fair ran k n b db d) [
      | inr new ↦ omega (arith, tops k m a c, (claim-new s f v x fair ran k n b new).1)
      | inl old ↦ elim (claim-cases s f v x fair ran k m a db c) [
        | inl older ↦ x.order k m n a b older old le
        | inr newer ↦ absurd (
            omega (
              arith,
              le,
              old,
              claims-held s k n b,
              (claim-new s f v x fair ran k m a newer).0,
              x.numbered.bounded k n,
            ))
      ]
    ];
  }
    where
      tops :
          (k n a : ℕ)
          → 0 < claims p k n a (record { world = v; flights = f ∷ s.flights })
          → a ≤ last_price k v.redis
      tops k n a c = elim (claim-cases s f v x fair ran k n a db c) [
        | inl old ↦ omega (arith, x.top k n a old, price_low s f v x fair ran k)
        | inr new ↦ omega (arith, (claim-new s f v x fair ran k n a new).1)
      ]

  -- a step that claims nothing more, and leaves the hashes
  fewer-Rising :
      (s t : Busy p)
      → t.world.redis.hashes ≡ s.world.redis.hashes
      → ((k n a : ℕ) → claims p k n a t ≤ claims p k n a s)
      → All (λ (f : Flight p). WholeCents f.call) t.flights
      → Numbered p t
      → Rising s
      → Rising t
  fewer-Rising s t same_hashes fewer fair numbered x = record {
    numbered = numbered;
    fair = fair;
    limit = λ k. omega (arith, price k, x.limit k);
    top = λ k n a c. omega (arith, price k, x.top k n a (omega (arith, c, fewer k n a)));
    order = λ k m n a b c d.
        x.order k m n a b (omega (arith, c, fewer k m a)) (omega (arith, d, fewer k n b));
  }
    where
      price : (k : ℕ) → last_price k t.world.redis ≡ last_price k s.world.redis
      price k = ap (λ (h : ℕ → Option Hash). or_zero (fields (h k)).highest_bid) same_hashes

  records-Rising :
      (commit_fails : Bool) (s : Busy p) (before : List (Flight p)) (f : Flight p)
      (after : List (Flight p))
      → s.flights ≡ before ++ f ∷ after
      → let t : Busy p = record {
        world = (get_session commit_fails (recorded p f) s.world).1;
        flights = before ++ after;
      } in
        Numbered p t → Rising s → Rising t
  records-Rising commit_fails s before f after e numbered x =
      let (whole, others) =
        All-without (λ (g : Flight p). WholeCents g.call) before f after
          (subst (All (λ (g : Flight p). WholeCents g.call)) e x.fair) in
      let adds = λ (k n a : ℕ).
        recorded-Adds p commit_fails f s.world (row_claims k n a) _
          (row_claims-Counts p f k n a whole.0) in
      fewer-Rising s _ (adds 0 0 0).0
        (λ k n a. omega (
          arith,
          (adds k n a).1,
          without p before f after (flight_claims p k n a),
          ap (count_if (flight_claims p k n a)) e,
        ))
        others numbered x

  vanishes-Rising :
      (s : Busy p) (before : List (Flight p)) (f : Flight p) (after : List (Flight p))
      → s.flights ≡ before ++ f ∷ after
      → Numbered p (record s { flights = before ++ after })
      → Rising s
      → Rising (record s { flights = before ++ after })
  vanishes-Rising s before f after e numbered x =
      fewer-Rising s _ refl
        (λ k n a. omega (
          arith,
          without p before f after (flight_claims p k n a),
          ap (count_if (flight_claims p k n a)) e,
        ))
        (All-without (λ (g : Flight p). WholeCents g.call) before f after
          (subst (All (λ (g : Flight p). WholeCents g.call)) e x.fair)).1
        numbered x

  Moves-Rising : (s t : Busy p) → Moves p WholeCents s t → Numbered p t → Rising s → Rising t
  Moves-Rising s _ (evaluates env c auction reply v fair new e) numbered x =
      let (db, ran) = subst (Ran p c s.world) e (evaluated-Ran p env c auction s.world new) in
      evaluates-Rising s (record { env = env; call = c; auction = auction; reply = reply }) v db ran
        fair numbered x
  Moves-Rising s _ (fails env c auction err v fair new e) numbered x =
      let (db, hashes) = subst (Ran p c s.world) e (evaluated-Ran p env c auction s.world new) in
      fewer-Rising s _ hashes
        (λ k n a. omega (arith, ap (λ (d : Db). count_if (row_claims k n a) d.bids) db)) x.fair
        numbered x
  Moves-Rising s _ (records commit_fails before f after e) numbered x =
      records-Rising commit_fails s before f after e numbered x
  Moves-Rising s _ (vanishes before f after e) numbered x =
      vanishes-Rising s before f after e numbered x
  Moves-Rising s _ (beside v step) numbered x =
      Quiet-Rising s v (Beside-Quiet p s.world v x.numbered.valid step) numbered x

  pub Run-Rising : (s t : Busy p) → Run p WholeCents s t → Rising s → Rising t
  Run-Rising s _ start x = x
  Run-Rising s t (then_move {u} run move) x =
      let y = Run-Rising s u run x in
      Moves-Rising u t move (Moves-Numbered p WholeCents u t move y.numbered) y
