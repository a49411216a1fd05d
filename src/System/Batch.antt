-- ===== src/System/Batch.antt =====
-- The rows that a poll has selected, while it goes through them.
use sd_online_auction_backen.Common.{
  false, All-map, ℕ, ◌≡◌, ◌≢◌, ◌∙◌, inl, inr, Bool, true, some, List, [], ◌∷◌, All, filter, take,
  Bool-cases,
}
use sd_online_auction_backen.Models.{Auction}
use sd_online_auction_backen.Session.{World}
use sd_online_auction_backen.Session.Tables.{get_auction}
use sd_online_auction_backen.Scheduler.{commit, batch_size}
use sd_online_auction_backen.Scheduler.Queue.{UniqueIds, UniqueIds-batch, All-both, All-take}
use sd_online_auction_backen.System.Changes.{Changes, unchanged, IsValid}

-- a row of the batch that is still as it was selected
pub record Pending (due : Auction → Bool) (w : World) (a : Auction) : Type 0 where
  pub stored : get_auction a.auction_id w.db ≡ some a
  pub selected : due a ≡ true

-- only the row `k` has changed
abbrev pub OthersStay : ℕ → World → World → Type 0
OthersStay k w v = (j : ℕ) → k ≢ j → get_auction j v.db ≡ get_auction j w.db

pub Pending-later :
    (due : Auction → Bool) (k : ℕ) (w v : World) (b : Auction)
    → OthersStay k w v
    → k ≢ b.auction_id
    → Pending due w b
    → Pending due v b
Pending-later due k w v b stay ne x = record {
  stored = stay b.auction_id ne ∙ x.stored;
  selected = x.selected;
}

filter-All :
    (due : Auction → Bool) (rows : List Auction) → All (λ a. due a ≡ true) (filter due rows)
filter-All due [] = tt
filter-All due (a ∷ rows) = elim (Bool-cases (due a)) [
  | inl yes_due ↦ rw yes_due (yes_due, filter-All due rows)
  | inr not_due ↦ rw not_due (filter-All due rows)
]

-- the rows that a poll selects are pending
pub batch-Pending :
    (due : Auction → Bool) (w : World)
    → IsValid w.db
    → UniqueIds (take batch_size (filter due w.db.auctions))
      × All (Pending due w) (take batch_size (filter due w.db.auctions))
unfolding get_auction
batch-Pending due w valid =
    let (ids, found) = UniqueIds-batch due batch_size w.db.auctions valid.auction_ids in
    let due_rows = All-take _ batch_size _ (filter-All due w.db.auctions) in
    (
      ids,
      All-map _ _ _ (λ a x. record { stored = x.0; selected = x.1 })
          (All-both _ _ _ found due_rows),
    )

pub commit-Changes :
    (fails : Bool) (w v : World) → Changes w.db v.db → Changes w.db (commit fails w v).db
commit-Changes true w v c = unchanged w.db
commit-Changes false w v c = c
