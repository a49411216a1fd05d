-- ===== src/System/Overlap/Hashes.antt =====
-- What requests and polls beside the bids do to the hashes of the auctions.
use sd_online_auction_backen.Common.{
  ℕ, ◌≤◌, ◌≡◌, refl, ◌∙◌, inl, inr, Bool, true, false, not, Option, none, some, arith, Option-cases,
  Bool-cases,
}
use sd_online_auction_backen.Models.{
  Auction, AuctionState, upcoming, active, closed, sold, unsold, is_upcoming, Db,
}
use sd_online_auction_backen.Redis.{Redis, fields}
use sd_online_auction_backen.Redis.Script.{or_zero, state_is_active}
use sd_online_auction_backen.Session.{World}
use sd_online_auction_backen.Session.Tables.{get_auction}
use sd_online_auction_backen.System.Changes.{Changes, unchanged, and_then, rank}
use sd_online_auction_backen.System.Growth.{Changes-Grows}

-- the number and the price of the last accepted bid, and whether the script takes bids
abbrev pub last_number : ℕ → Redis → ℕ
last_number k r = or_zero (fields (r.hashes k)).sequence_num

abbrev pub last_price : ℕ → Redis → ℕ
last_price k r = or_zero (fields (r.hashes k)).highest_bid

abbrev pub takes_bids : ℕ → Redis → Bool
takes_bids k r = state_is_active (fields (r.hashes k)).state

-- whether the row of an auction says that it has started
abbrev pub row_started : Option Auction → Bool
row_started none = false
row_started (some a) = not (is_upcoming a.state)

abbrev pub started : ℕ → Db → Bool
started k db = row_started (get_auction k db)

rank-upcoming :
    (s t : AuctionState)
    → rank s ≤ rank t
    → not (is_upcoming t) ≡ false
    → not (is_upcoming s) ≡ false
rank-upcoming upcoming t h e = refl
rank-upcoming active upcoming h e = absurd (omega arith)
rank-upcoming closed upcoming h e = absurd (omega arith)
rank-upcoming sold upcoming h e = absurd (omega arith)
rank-upcoming unsold upcoming h e = absurd (omega arith)
rank-upcoming s active h e = cc
rank-upcoming s closed h e = cc
rank-upcoming s sold h e = cc
rank-upcoming s unsold h e = cc

-- an auction that has not started has not started before
pub unstarted-earlier : (k : ℕ) (d e : Db) → Changes d e → started k e ≡ false → started k d ≡ false
unstarted-earlier k d e c h = elim (Option-cases (get_auction k d)) [
  | inl gone ↦ rw gone refl
  | inr (a, there) ↦
      let later = (Changes-Grows c).rows k a there in
      rw there (rank-upcoming a.state later.row.state later.forward (rw later.stored at h))
]

pub data HashStep (k : ℕ) (w v : World) : Type 0 where
  -- the number and the price stay, and a hash that takes no bids still takes none
  kept :
      last_number k v.redis ≡ last_number k w.redis
      → last_price k v.redis ≡ last_price k w.redis
      → (takes_bids k w.redis ≡ false → takes_bids k v.redis ≡ false)
      → HashStep k w v
  -- the auction starts, and its hash with it
  opened :
      started k w.db ≡ false
      → started k v.db ≡ true
      → last_price k v.redis ≤ last_price k w.redis
      → HashStep k w v

pub record Quiet (w v : World) : Type 0 where
  pub changes : Changes w.db v.db
  pub bids : v.db.bids ≡ w.db.bids
  pub hashes : (k : ℕ) → HashStep k w v

pub Quiet-self : (w : World) → Quiet w w
Quiet-self w = record {
  changes = unchanged w.db;
  bids = refl;
  hashes = λ k. kept refl refl (λ h. h);
}

HashStep-trans :
    (k : ℕ) (w u v : World)
    → Changes w.db u.db
    → Changes u.db v.db
    → HashStep k w u
    → HashStep k u v
    → HashStep k w v
HashStep-trans k w u v c d (kept n q o) (kept n' q' o') = kept (n' ∙ n) (q' ∙ q) (λ h. o' (o h))
HashStep-trans k w u v c d (kept n q o) (opened b a h) =
    opened (unstarted-earlier k w.db u.db c b) a (omega (arith, q, h))
HashStep-trans k w u v c d (opened b a h) (opened b' a' h') = opened b a' (omega (arith, h, h'))
HashStep-trans k w u v c d (opened b a h) (kept n q o) = elim (Bool-cases (started k v.db)) [
  | inl on ↦ opened b on (omega (arith, q, h))
  | inr off ↦ cc (unstarted-earlier k u.db v.db d off, a)
]

pub Quiet-trans : (w u v : World) → Quiet w u → Quiet u v → Quiet w v
Quiet-trans w u v x y = record {
  changes = and_then x.changes y.changes;
  bids = y.bids ∙ x.bids;
  hashes = λ k. HashStep-trans k w u v x.changes y.changes (x.hashes k) (y.hashes k);
}
