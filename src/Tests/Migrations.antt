-- ===== src/Tests/Migrations.antt =====
-- The schema beside Alembic's own table, and three new rows.
use sd_online_auction_backen.Common.{◌≡◌, refl, false, none, some, [], ◌∷◌, ◌++◌, if◌then◌else◌}
use sd_online_auction_backen.Models.{Auction, accepted}
use sd_online_auction_backen.Session.{ok, raised, integrity_error}
use sd_online_auction_backen.Session.Tables.{insert_auction, insert_bid}
use sd_online_auction_backen.Users.{insert_user}
use sd_online_auction_backen.Migration.{
  Table, varchar, then_do, upgrade, downgrade, user_table, auction_table, bid_table,
}
use sd_online_auction_backen.Migration.Keys.{
  keys_hold, rows_of, user_values, auction_values, bid_values, insert-keys_hold,
}
use sd_online_auction_backen.Migration.Reversal.{downgrade-upgrade}
use sd_online_auction_backen.Tests.Fixtures.{user, auction, row, db, world}

abbrev alembic_version : Table
alembic_version = record {
  name = "alembic_version";
  columns =
      record {
        name = "version_num";
        column_type = varchar 32;
        nullable = false;
        server_default = none;
      }
      ∷ [];
  primary_key = "version_num";
  foreign_keys = [];
  uniques = [];
  indexes = [];
}

downgrade-upgrade_example :
    then_do (upgrade (alembic_version ∷ [])) downgrade ≡ some (alembic_version ∷ [])
downgrade-upgrade_example = downgrade-upgrade (alembic_version ∷ []) (
  record { unnamed = refl; unreferred = refl },
  (
    record { unnamed = refl; unreferred = refl },
    (
      record { unnamed = refl; unreferred = refl },
      (record { unnamed = refl; unreferred = refl }, tt),
    ),
  ),
)

-- the seller of the auction is no user
abbrev orphan : Auction
orphan = record auction { auction_id = 4; seller_id = 6 }

insert-keys_hold_example :
    (insert_user (user 9) world ≡ (
      if keys_hold user_table (rows_of db) (user_values (user 9))
      then (ok tt, record world { db = record db { users = db.users ++ user 9 ∷ [] } })
      else (raised integrity_error, world)))
    × (insert_auction orphan world ≡ (
        if keys_hold auction_table (rows_of db) (auction_values orphan)
        then (ok tt, record world { db = record db { auctions = db.auctions ++ orphan ∷ [] } })
        else (raised integrity_error, world)))
    × (insert_bid (row 25 4 accepted) world ≡ (
        if keys_hold bid_table (rows_of db) (bid_values (row 25 4 accepted))
        then (ok tt, record world { db = record db { bids = db.bids ++ row 25 4 accepted ∷ [] } })
        else (raised integrity_error, world)))
insert-keys_hold_example = insert-keys_hold (user 9) orphan (row 25 4 accepted) world refl refl
