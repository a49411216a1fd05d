-- ===== src/System/Moves.antt =====
-- What starting, closing, settling and giving more time do to a row.
use sd_online_auction_backen.Common.{
  ℕ, ◌*◌, ◌<◌, ◌≤◌, ◌≡◌, refl, inl, inr, true, Option, none, some, arith, Bool-cases, Option-cases,
  eq_of_some, ltb,
}
use sd_online_auction_backen.Platform.{Platform}
use sd_online_auction_backen.Models.{Auction, active, Db}
use sd_online_auction_backen.Redis.{Hash}
use sd_online_auction_backen.Session.Tables.{winner_exists}
use sd_online_auction_backen.Auctions.Hash.{unix}
use sd_online_auction_backen.Auctions.Lifecycle.{closed_row, resolve_settlement_inner, settle_won}
use sd_online_auction_backen.Auctions.Lifecycle.Settlement.{settled_row}
use sd_online_auction_backen.Scheduler.{extended_to, is_due_start, is_due_close}
use sd_online_auction_backen.System.Changes.{Moves}

pub upcoming_Moves :
    (now : ℕ) (a : Auction) → is_due_start now a ≡ true → Moves a (record a { state = active })
unfolding is_due_start
upcoming_Moves now a due = record {
  open_row = ground arith;
  same_terms = refl;
  forward = ground arith;
  later = omega arith;
}

pub closed_row-Moves :
    (now : ℕ) (found : Option Hash) (a : Auction)
    → is_due_close now a ≡ true
    → ((closed_row found a).auction_id ≡ a.auction_id) × Moves a (closed_row found a)
unfolding closed_row is_due_close
closed_row-Moves now found a due = (
  ground arith,
  record {
    open_row = ground arith;
    same_terms = ground arith;
    forward = ground arith;
    later = ground arith;
  },
)

-- settling keeps the winner or has none
pub settled_row-Moves :
    (p : Platform) (found : Option Hash) (a : Auction) (db : Db)
    → winner_exists (closed_row found a).winner_id db ≡ true
    → ((settled_row p found a).auction_id ≡ a.auction_id)
      × Moves (closed_row found a) (settled_row p found a)
      × (winner_exists (settled_row p found a).winner_id db ≡ true)
unfolding closed_row resolve_settlement_inner settle_won
settled_row-Moves p found a db h = (
  ground arith,
  record {
    open_row = ground arith;
    same_terms = ground arith;
    forward = ground arith;
    later = ground arith;
  },
  ground arith,
)

-- a later end in Redis
extended_to-after :
    (found : Option Hash) (now e : ℕ) → extended_to found now ≡ some e → now ≤ e * 1000000
extended_to-after none now e h = cc h
extended_to-after (some f) now e h = elim (Option-cases f.end_ts) [
  | inl gone ↦ cc (rw gone at h)
  | inr (t, there) ↦ elim (Bool-cases (ltb (unix now) t)) [
    | inr early ↦ cc (rw (there, early) at h)
    | inl late ↦
        let same : t ≡ e = eq_of_some (rw (there, late) at h) in
        let lt : unix now < t = ground arith in omega (arith, lt, same)
  ]
]

pub extended_Moves :
    (now e : ℕ) (found : Option Hash) (a : Auction)
    → is_due_close now a ≡ true
    → extended_to found now ≡ some e
    → Moves a (record a { end_ts = e * 1000000 })
unfolding is_due_close
extended_Moves now e found a due longer = record {
  open_row = ground arith;
  same_terms = refl;
  forward = omega arith;
  later =
      let before : a.end_ts ≤ now = ground arith in
      omega (arith, before, extended_to-after found now e longer);
}
