-- ===== src/Users.antt =====
-- The users' router, src/auction_app/routers/users.py, with src/auction_app/schemas/user.py.
pub mod Emails
use sd_online_auction_backen.Common.{
  ℕ, String, Bool, true, false, ◌||◌, Option, none, some, List, [], ◌∷◌, ◌++◌, any, filter,
}
use text.Mathlib.Text.{◌==◌ as str_eq}
use sd_online_auction_backen.Platform.{Platform}
use sd_online_auction_backen.Models.{User, Db}
use sd_online_auction_backen.Session.{
  integrity_error, data_error, http, Action, pure, raise, raise_if, gets, modify_db, ◌>>=◌, ◌>>◌,
}
use sd_online_auction_backen.Session.Tables.{or_raise, has_user, scalar_one_or_none}

pub record UserCreate : Type 0 where
  pub display_name : String
  pub email : String

-- the new row's id and time
pub record Env : Type 0 where
  pub user_id : ℕ
  pub created_at : ℕ

abbrev pub has_email : String → User → Bool
has_email email u = str_eq u.email email

-- flushing a new user: its id, and the unique key of its email
unfoldable pub insert_user : User → Action Unit
insert_user u = do
  db ← gets (λ w. w.db)
  raise_if (has_user u.user_id db || any (has_email u.email) db.users) integrity_error
  modify_db (λ db. record db { users = db.users ++ u ∷ [] })

module _ (p : Platform) where
  -- the texts as the columns of the new row store them
  unfoldable pub new_user : Env → UserCreate → Action User
  new_user env request = do
    display_name ← or_raise (p.varchar 255 request.display_name) data_error
    email ← or_raise (p.varchar 255 request.email) data_error
    pure (record {
      user_id = env.user_id;
      display_name = display_name;
      email = email;
      created_at = env.created_at;
    })

  unfoldable pub add_user : Env → UserCreate → Action User
  unfolding insert_user new_user
  add_user env request = do user ← new_user env request; insert_user user; pure user

  abbrev pub unless_taken : Option User → Env → UserCreate → Action User
  unless_taken (some _) env request = raise (http 409)
  unless_taken none env request = add_user env request

  unfoldable pub create_user : Env → UserCreate → Action User
  unfolding add_user
  create_user env request = do
    users ← gets (λ w. w.db.users)
    existing ← scalar_one_or_none (filter (has_email request.email) users)
    unless_taken existing env request
