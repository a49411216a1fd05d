-- ===== src/Users/Emails.antt =====
-- Emails stay unique, and a second registration is a 409.
use sd_online_auction_backen.Common.{
  String, Option, none, some, Option-cases, ◌≡◌, refl, sym, ap, ◌∙◌, Bool, true, false, List, [],
  ◌∷◌, ◌++◌, arith, any, filter, if◌then◌else◌, Bool-cases, inl, inr,
}
use text.Mathlib.Text.{◌==◌ as str_eq}
use text.Mathlib.TextEquality.{eq_iff}
use sd_online_auction_backen.Platform.{Platform}
use sd_online_auction_backen.Models.{User}
use sd_online_auction_backen.Session.{
  World, Result, ok, raised, http, data_error, integrity_error, commit_error, get_session, ◌>>=◌,
}
use sd_online_auction_backen.Session.Tables.{has_user, scalar_one_or_none}
use sd_online_auction_backen.Users.{UserCreate, Env, has_email, add_user, unless_taken, create_user}

-- no two rows have one email
abbrev pub UniqueEmails : List User → Type 0
UniqueEmails [] = Unit
UniqueEmails (u ∷ users) = (any (has_email u.email) users ≡ false) × UniqueEmails users

-- the row that a request asks for, from what its columns store
abbrev pub row_of : Env → Option String → Option String → Option User
row_of env (some display_name) (some email) = some (record {
  user_id = env.user_id;
  display_name = display_name;
  email = email;
  created_at = env.created_at;
})
row_of env _ _ = none

-- how the new row ends
abbrev pub added : Bool → World → Option User → Result User × World
added commit_fails w none = (raised data_error, w)
added commit_fails w (some u) =
    if any (has_email u.email) w.db.users
    then (raised integrity_error, w)
    else if commit_fails
    then (raised commit_error, w)
    else (ok u, record w { db = record w.db { users = w.db.users ++ u ∷ [] } })

filter-none :
    (email : String) (users : List User)
    → any (has_email email) users ≡ false
    → filter (has_email email) users ≡ []
filter-none email [] h = refl
filter-none email (u ∷ users) h = ground (arith, filter-none email users)

email_sym : (a b : String) → str_eq a b ≡ false → str_eq b a ≡ false
email_sym a b h = elim (Bool-cases (str_eq b a)) [
  | inl same ↦ let back = (eq_iff a b).1 (sym ((eq_iff b a).0 same)) in cc (h, back)
  | inr other ↦ other
]

-- the one row with a taken email
filter-taken :
    (email : String) (users : List User)
    → UniqueEmails users
    → any (has_email email) users ≡ true
    → (u : User) × (filter (has_email email) users ≡ u ∷ [])
filter-taken email [] unique taken = cc
filter-taken email (u ∷ users) unique taken = elim (Bool-cases (has_email email u)) [
  | inl this ↦
      let rest : any (has_email email) users ≡ false =
        ap (λ e. any (has_email e) users) (sym ((eq_iff u.email email).0 this)) ∙ unique.0 in
      (u, rw (this, filter-none email users rest) refl)
  | inr other ↦
      let (v, found) = filter-taken email users unique.1 (rw other at taken) in
      (v, rw (other, found) refl)
]

any-append_other :
    (email : String) (users : List User) (v : User)
    → any (has_email email) users ≡ false
    → has_email email v ≡ false
    → any (has_email email) (users ++ v ∷ []) ≡ false
any-append_other email [] v h other = ground arith
any-append_other email (u ∷ users) v h other = ground (arith, any-append_other email users v)

pub UniqueEmails-append :
    (users : List User) (v : User)
    → UniqueEmails users
    → any (has_email v.email) users ≡ false
    → UniqueEmails (users ++ v ∷ [])
UniqueEmails-append [] v unique free = (refl, tt)
UniqueEmails-append (u ∷ users) v unique free = (
  any-append_other u.email users v unique.0 (email_sym u.email v.email (ground arith)),
  UniqueEmails-append users v unique.1 (ground arith),
)

added-UniqueEmails :
    (commit_fails : Bool) (w : World) (u : Option User)
    → UniqueEmails w.db.users
    → UniqueEmails (added commit_fails w u).1.db.users
added-UniqueEmails fails w none unique = unique
added-UniqueEmails fails w (some u) unique =
    elim (Bool-cases (any (has_email u.email) w.db.users)) [
      | inl taken ↦ rw taken unique
      | inr free ↦ elim (Bool-cases fails) [
        | inl broken ↦ rw (free, broken) unique
        | inr commits ↦ rw (free, commits) (UniqueEmails-append w.db.users u unique free)
      ]
    ]

module _ (p : Platform) where
  abbrev pub asked : Env → UserCreate → Option User
  asked env request = row_of env (p.varchar 255 request.display_name) (p.varchar 255 request.email)

  -- a request whose email is free, by what the columns store
  add_user-added :
      (commit_fails : Bool) (env : Env) (request : UserCreate) (w : World)
      → has_user env.user_id w.db ≡ false
      → get_session commit_fails (add_user p env request) w
        ≡ added commit_fails w (asked env request)
  unfolding add_user get_session
  add_user-added commit_fails env request w new =
      elim (Option-cases (p.varchar 255 request.display_name)) [
        | inl bad ↦ rw bad refl
        | inr (name, named) ↦ elim (Option-cases (p.varchar 255 request.email)) [
          | inl bad ↦ rw (named, bad) refl
          | inr (email, known) ↦ rw (named, known) (ground (arith, new))
        ]
      ]

  create_user-free :
      (commit_fails : Bool) (env : Env) (request : UserCreate) (w : World)
      → any (has_email request.email) w.db.users ≡ false
      → has_user env.user_id w.db ≡ false
      → get_session commit_fails (create_user p env request) w
        ≡ added commit_fails w (asked env request)
  unfolding create_user get_session
  create_user-free commit_fails env request w free new =
      ap
        (λ (l : List User).
          get_session commit_fails (scalar_one_or_none l >>= λ x. unless_taken p x env request) w)
        (filter-none request.email w.db.users free)
      ∙ add_user-added commit_fails env request w new

  create_user-taken :
      (commit_fails : Bool) (env : Env) (request : UserCreate) (w : World)
      → UniqueEmails w.db.users
      → any (has_email request.email) w.db.users ≡ true
      → get_session commit_fails (create_user p env request) w ≡ (raised (http 409), w)
  unfolding create_user get_session
  create_user-taken commit_fails env request w unique taken =
      rw (filter-taken request.email w.db.users unique taken).1 refl

  -- A request for a new user, with a new id and over a table whose emails are unique, raises a 409
  -- if the email is taken, a data error if its name or its email does not fit its column, an
  -- integrity error if the email is taken as its column stores it, and an error if its commit fails,
  -- and changes nothing; else it adds the user with the texts as their columns store them. The
  -- emails stay unique.
  pub create_user_lem :
      (commit_fails : Bool) (env : Env) (request : UserCreate) (w : World)
      → UniqueEmails w.db.users
      → has_user env.user_id w.db ≡ false
      → let x = get_session commit_fails (create_user p env request) w in
        (x ≡ (
          if any (has_email request.email) w.db.users
          then (raised (http 409), w)
          else added commit_fails w (asked env request)))
        × UniqueEmails x.1.db.users
  create_user_lem commit_fails env request w unique new =
      elim (Bool-cases (any (has_email request.email) w.db.users)) [
        | inl taken ↦
            rw (taken, create_user-taken commit_fails env request w unique taken) (refl, unique)
        | inr free ↦
            rw (free, create_user-free commit_fails env request w free new)
              (refl, added-UniqueEmails commit_fails w (asked env request) unique)
      ]
