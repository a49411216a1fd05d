-- ===== src/Session.antt =====
-- A request's session: src/auction_app/database.py, and the statements that the services send.
-- An action reads and changes the tables, as its own transaction sees them, and Redis, and ends
-- with a value or an exception. What was written before an exception stays written until the
-- session rolls back.
pub mod Tables
use sd_online_auction_backen.Common.{ℕ, Bool, true, false, Option, none, some, List, if◌then◌else◌}
use sd_online_auction_backen.Models.{Db}
use sd_online_auction_backen.Redis.{Redis}

pub record World : Type 0 where
  pub db : Db
  pub redis : Redis

-- the exceptions that leave a service; `http` is an HTTPException with its status code
pub data Exception : Type 0 where
  integrity_error data_error multiple_results key_error redis_error type_error : Exception
  statement_error commit_error : Exception
  seller_not_found start_too_early end_before_start : Exception
  http : ℕ → Exception

pub data Result (A : Type 0) : Type 0 where
  ok : A → Result A
  raised : Exception → Result A

abbrev pub Action : Type 0 → Type 0
Action A = World → Result A × World

module _ {A : Type 0} where
  abbrev pub pure : A → Action A
  pure a w = (ok a, w)

  abbrev pub raise : Exception → Action A
  raise e w = (raised e, w)

  abbrev pub gets : (World → A) → Action A
  gets f w = (ok (f w), w)

  -- A call of Redis that may fail before it has an effect. A write whose reply is lost raises after
  -- its effect; where the exception is caught, it leaves what a write that goes through leaves.
  abbrev pub or_fails : Bool → Action A → Action A
  or_fails fails m w = if fails then (raised redis_error, w) else m w

infixl 5 ◌>>=◌ ◌>>◌
abbrev pub ◌>>=◌ : {A B : Type 0} → Action A → (A → Action B) → Action B
◌>>=◌ m f w = let (r, w') = m w in elim r [ ok a ↦ f a w' | raised e ↦ (raised e, w') ]

abbrev pub ◌>>◌ : {A B : Type 0} → Action A → Action B → Action B
m >> k = m >>= λ _. k

abbrev pub raise_if : Bool → Exception → Action (Unit {0})
raise_if test e w = (if test then raised e else ok tt, w)

abbrev pub modify_redis : (Redis → Redis) → Action (Unit {0})
modify_redis f w = (ok tt, record w { redis = f w.redis })

abbrev pub modify_db : (Db → Db) → Action (Unit {0})
modify_db f w = (ok tt, record w { db = f w.db })

-- `get_session`: commit after the request's handler, and roll the tables back when the handler or
-- the commit raises. Redis is not rolled back. The framework is taken to end the dependency before
-- it sends the answer, as FastAPI 0.115 does.
abbrev pub closing : {A : Type 0} → Bool → World → Result A × World → Result A × World
closing commit_fails w (ok a, w') =
    if commit_fails then (raised commit_error, record w' { db = w.db }) else (ok a, w')
closing commit_fails w (raised e, w') = (raised e, record w' { db = w.db })

unfoldable pub get_session : {A : Type 0} → Bool → Action A → Action A
get_session commit_fails handler w = closing commit_fails w (handler w)
