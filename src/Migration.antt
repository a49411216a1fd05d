-- ===== src/Migration.antt =====
-- The schema that alembic/versions/001_initial.py creates, as data, and what its keys ask of a row.
pub mod Keys
pub mod Reversal
use text.Mathlib.Text.{◌==◌ as str_eq}
use sd_online_auction_backen.Common.{
  ℕ, String, Bool, true, false, ◌&&◌, ◌||◌, not, Option, none, some, List, [], ◌∷◌, ◌++◌, any,
  filter, if◌then◌else◌,
}
use sd_online_auction_backen.Models.{User, Auction, Bid, Db}

pub data ColumnType : Type 0 where
  uuid unlimited timestamp integer boolean : ColumnType
  varchar : ℕ → ColumnType
  numeric : ℕ → ℕ → ColumnType

pub record Column : Type 0 where
  pub name : String
  pub column_type : ColumnType
  pub nullable : Bool
  pub server_default : Option String

pub record ForeignKey : Type 0 where
  pub name : String
  pub column : String
  pub table : String
  pub referred : String

-- an index: its name and its columns
abbrev pub Index : Type 0
Index = String × List String

pub record Table : Type 0 where
  pub name : String
  pub columns : List Column
  pub primary_key : String
  pub foreign_keys : List ForeignKey
  pub uniques : List (List String)
  pub indexes : List Index

abbrev required : String → ColumnType → Column
required name t = record { name = name; column_type = t; nullable = false; server_default = none }

abbrev optional : String → ColumnType → Column
optional name t = record { name = name; column_type = t; nullable = true; server_default = none }

abbrev defaulted : String → ColumnType → String → Column
defaulted name t d = record {
  name = name;
  column_type = t;
  nullable = false;
  server_default = some d;
}

abbrev refers : String → String → String → String → ForeignKey
refers name column table referred = record {
  name = name;
  column = column;
  table = table;
  referred = referred;
}

abbrev pub user_table : Table
user_table = record {
  name = "user";
  columns =
      defaulted "user_id" uuid "gen_random_uuid()"
      ∷ required "display_name" (varchar 255)
      ∷ required "email" (varchar 255)
      ∷ defaulted "created_at" timestamp "now()"
      ∷ [];
  primary_key = "user_id";
  foreign_keys = [];
  uniques = ("email" ∷ []) ∷ [];
  indexes = [];
}

abbrev pub auction_table : Table
auction_table = record {
  name = "auction";
  columns =
      defaulted "auction_id" uuid "gen_random_uuid()"
      ∷ required "seller_id" uuid
      ∷ required "title" (varchar 255)
      ∷ optional "description" unlimited
      ∷ required "category" (varchar 100)
      ∷ required "starting_price" (numeric 12 2)
      ∷ optional "reserve_price" (numeric 12 2)
      ∷ defaulted "min_increment" (numeric 12 2) "1.00"
      ∷ required "start_ts" timestamp
      ∷ required "end_ts" timestamp
      ∷ defaulted "state" (varchar 20) "'UPCOMING'"
      ∷ optional "highest_bid" (numeric 12 2)
      ∷ optional "winner_id" uuid
      ∷ defaulted "created_at" timestamp "now()"
      ∷ [];
  primary_key = "auction_id";
  foreign_keys =
      refers "fk_auction_seller_id_user" "seller_id" "user" "user_id"
      ∷ refers "fk_auction_winner_id_user" "winner_id" "user" "user_id"
      ∷ [];
  uniques = [];
  indexes =
      ("ix_auction_state", "state" ∷ [])
      ∷ ("ix_auction_category", "category" ∷ [])
      ∷ ("ix_auction_end_ts", "end_ts" ∷ [])
      ∷ ("ix_auction_seller_id", "seller_id" ∷ [])
      ∷ [];
}

abbrev pub bid_table : Table
bid_table = record {
  name = "bid";
  columns =
      defaulted "bid_id" uuid "gen_random_uuid()"
      ∷ required "auction_id" uuid
      ∷ required "bidder_id" uuid
      ∷ required "amount" (numeric 12 2)
      ∷ defaulted "is_proxy" boolean "false"
      ∷ required "sequence_num" integer
      ∷ defaulted "status" (varchar 20) "'ACCEPTED'"
      ∷ optional "rejection_reason" unlimited
      ∷ defaulted "created_ts" timestamp "now()"
      ∷ [];
  primary_key = "bid_id";
  foreign_keys =
      refers "fk_bid_auction_id_auction" "auction_id" "auction" "auction_id"
      ∷ refers "fk_bid_bidder_id_user" "bidder_id" "user" "user_id"
      ∷ [];
  uniques = ("auction_id" ∷ "bidder_id" ∷ "amount" ∷ "created_ts" ∷ []) ∷ [];
  indexes =
      ("ix_bid_auction_id_seq", "auction_id" ∷ "sequence_num DESC" ∷ [])
      ∷ ("ix_bid_bidder_id", "bidder_id" ∷ [])
      ∷ [];
}

abbrev pub proxy_bid_table : Table
proxy_bid_table = record {
  name = "proxy_bid";
  columns =
      defaulted "proxy_id" uuid "gen_random_uuid()"
      ∷ required "auction_id" uuid
      ∷ required "bidder_id" uuid
      ∷ required "max_bid" (numeric 12 2)
      ∷ defaulted "active" boolean "true"
      ∷ defaulted "entered_ts" timestamp "now()"
      ∷ [];
  primary_key = "proxy_id";
  foreign_keys =
      refers "fk_proxy_bid_auction_id_auction" "auction_id" "auction" "auction_id"
      ∷ refers "fk_proxy_bid_bidder_id_user" "bidder_id" "user" "user_id"
      ∷ [];
  uniques = ("auction_id" ∷ "bidder_id" ∷ []) ∷ [];
  indexes = [];
}

-- whether each foreign key refers to one of the tables
abbrev pub all_known : List ForeignKey → List Table → Bool
all_known [] tables = true
all_known (f ∷ keys) tables =
    any (λ (t : Table). str_eq t.name f.table) tables && all_known keys tables

abbrev pub is_named : String → Table → Bool
is_named name t = str_eq t.name name

abbrev pub refers_into : String → Table → Bool
refers_into name t = any (λ (f : ForeignKey). str_eq f.table name) t.foreign_keys

-- CREATE TABLE: the name is free, and each foreign key refers to a table or to the new one
unfoldable pub create_table : Table → List Table → Option (List Table)
create_table t tables =
    if any (is_named t.name) tables
    then none
    else if all_known t.foreign_keys (tables ++ t ∷ [])
    then some (tables ++ t ∷ [])
    else none

-- DROP TABLE: the table is there, and no other one refers to it
unfoldable pub drop_table : String → List Table → Option (List Table)
drop_table name tables =
    if any (is_named name) tables
      && not (any (λ t. not (is_named name t) && refers_into name t) tables)
    then some (filter (λ t. not (is_named name t)) tables)
    else none

abbrev pub then_do {ℓ} : {A : Type ℓ} → Option A → (A → Option A) → Option A
then_do none f = none
then_do (some a) f = f a

unfoldable pub upgrade : List Table → Option (List Table)
unfolding create_table
upgrade tables =
    then_do
      (then_do (then_do (create_table user_table tables) (create_table auction_table))
        (create_table bid_table))
      (create_table proxy_bid_table)

unfoldable pub downgrade : List Table → Option (List Table)
unfolding drop_table
downgrade tables =
    then_do
      (then_do (then_do (drop_table "proxy_bid" tables) (drop_table "bid")) (drop_table "auction"))
      (drop_table "user")
