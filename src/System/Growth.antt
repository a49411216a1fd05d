-- ===== src/System/Growth.antt =====
-- What every change of the tables leaves in place: the users and the bids that are there, and for
-- each auction its terms, with its state going forward and its end going later.
use sd_online_auction_backen.Common.{
  append_assoc, append-nil, ℕ, ◌≤◌, ◌≡◌, refl, sym, ap, subst, ◌∙◌, inl, inr, some, List, [], ◌∷◌,
  ◌++◌, arith, Bool-cases, ◌==◌, eq_of_some,
}
use sd_online_auction_backen.Models.{Auction, Db}
use sd_online_auction_backen.Session.Tables.{get_auction, put_auction}
use sd_online_auction_backen.Auctions.Lifecycle.Transitions.{
  get_auction-put_self, get_auction-put_ne,
}
use sd_online_auction_backen.System.Changes.{
  rank, terms, Moves, Changes, unchanged, user_added, auction_added, bid_added, row_changed,
  and_then, get_auction-append,
}

-- the row of `k`, once `a`, in later tables
pub record Later (k : ℕ) (a : Auction) (e : Db) : Type 0 where
  pub row : Auction
  pub stored : get_auction k e ≡ some row
  pub same_terms : terms row ≡ terms a
  pub forward : rank a.state ≤ rank row.state
  pub later : a.end_ts ≤ row.end_ts

-- `ys` is `xs` with more at its end
pub record Extends {A : Type 0} (xs ys : List A) : Type 0 where
  pub more : List A
  pub appended : ys ≡ xs ++ more

pub record Grows (d e : Db) : Type 0 where
  pub users : Extends d.users e.users
  pub bids : Extends d.bids e.bids
  pub rows : (k : ℕ) (a : Auction) → get_auction k d ≡ some a → Later k a e

Extends-self : {A : Type 0} (xs : List A) → Extends xs xs
Extends-self xs = record { more = []; appended = sym (append-nil xs) }

Extends-trans : {A : Type 0} (xs ys zs : List A) → Extends xs ys → Extends ys zs → Extends xs zs
Extends-trans xs ys zs x y = record {
  more = x.more ++ y.more;
  appended = y.appended ∙ ap (λ l. l ++ y.more) x.appended ∙ append_assoc xs x.more y.more;
}

Later-same : (k : ℕ) (a : Auction) (e : Db) → get_auction k e ≡ some a → Later k a e
Later-same k a e h = record {
  row = a;
  stored = h;
  same_terms = refl;
  forward = omega arith;
  later = omega arith;
}

row_changed-Later :
    (a b c : Auction) (k : ℕ) (db : Db)
    → get_auction a.auction_id db ≡ some b
    → Moves b a
    → get_auction k db ≡ some c
    → Later k c (put_auction a db)
row_changed-Later a b c k db there moves h = elim (Bool-cases (a.auction_id == k)) [
  | inr other ↦
      Later-same k c (put_auction a db) (get_auction-put_ne k a db (λ q. ground (arith, other)) ∙ h)
  | inl same ↦
      let id : a.auction_id ≡ k = ground (arith, same) in
      let old : b ≡ c = eq_of_some (sym there ∙ ap (λ j. get_auction j db) id ∙ h) in
      subst (λ x. Later k x (put_auction a db)) old
        (record {
          row = a;
          stored = get_auction-put_self k a c db h id;
          same_terms = moves.same_terms;
          forward = moves.forward;
          later = moves.later;
        })
]

pub Changes-Grows : {d e : Db} → Changes d e → Grows d e
Changes-Grows (unchanged db) = record {
  users = Extends-self db.users;
  bids = Extends-self db.bids;
  rows = λ k a h. Later-same k a db h;
}
Changes-Grows (user_added u db new free) = record {
  users = record { more = u ∷ []; appended = refl };
  bids = Extends-self db.bids;
  rows = λ k a h. Later-same k a _ (unfold get_auction in h);
}
Changes-Grows (auction_added a db new seller nobody) = record {
  users = Extends-self db.users;
  bids = Extends-self db.bids;
  rows = λ k b h. Later-same k b _ (get_auction-append k a db ∙ rw h refl);
}
Changes-Grows (bid_added b proxies db keys) = record {
  users = Extends-self db.users;
  bids = record { more = b ∷ []; appended = refl };
  rows = λ k a h. Later-same k a _ (unfold get_auction in h);
}
Changes-Grows (row_changed a b db there moves winner) = record {
  users = unfold put_auction in Extends-self db.users;
  bids = unfold put_auction in Extends-self db.bids;
  rows = λ k c h. row_changed-Later a b c k db there moves h;
}
Changes-Grows {d} {e} (and_then c f) =
    let first = Changes-Grows c in
    let second = Changes-Grows f in
    record {
      users = Extends-trans d.users _ e.users first.users second.users;
      bids = Extends-trans d.bids _ e.bids first.bids second.bids;
      rows = λ k a h.
          let x = first.rows k a h in
          let y = second.rows k x.row x.stored in
          record {
            row = y.row;
            stored = y.stored;
            same_terms = y.same_terms ∙ x.same_terms;
            forward = omega (arith, x.forward, y.forward);
            later = omega (arith, x.later, y.later);
          };
    }
