-- ===== src/App.antt =====
-- Start-up: src/auction_app/main.py, with the module state of src/auction_app/redis_client.py and
-- `create_scheduler` of src/auction_app/services/scheduler_service.py.
pub mod Startup
use sd_online_auction_backen.Common.{
  is_some, ℕ, String, Bool, true, false, ◌||◌, Option, none, some, List, [], ◌∷◌, if◌then◌else◌,
}
use sd_online_auction_backen.Session.{Exception, key_error, redis_error, Result, ok, raised}
use sd_online_auction_backen.Bids.Recording.{Env}

-- the functions that the scheduler calls
pub data Poll : Type 0 where
  poll_due_starts poll_due_closes : Poll

-- an argument list of `add_job`
pub record Job : Type 0 where
  pub func : Poll
  pub seconds : ℕ
  pub id : String
  pub replace_existing : Bool
  pub max_instances : ℕ

abbrev pub poll_interval_seconds : ℕ
poll_interval_seconds = 1

abbrev pub interval_job : Poll → String → Job
interval_job func id = record {
  func = func;
  seconds = poll_interval_seconds;
  id = id;
  replace_existing = true;
  max_instances = 1;
}

unfoldable pub create_scheduler : List Job
create_scheduler =
    interval_job poll_due_starts "poll_due_starts"
    ∷ interval_job poll_due_closes "poll_due_closes"
    ∷ []

-- What the process keeps: `_lua_sha["place_bid"]`, `_pool` and the started `_scheduler`. A pool is
-- known by a number.
pub record Process : Type 0 where
  pub lua_sha : Option ℕ
  pub pool : Option ℕ
  pub scheduler : Option (List Job)

-- when the modules have been imported
abbrev pub imported : Process
imported = record { lua_sha = none; pool = none; scheduler = none }

-- `get_pool`; `fresh` is the pool that `_create_pool` would make
abbrev pub pool_or : Option ℕ → ℕ → ℕ
pool_or none fresh = fresh
pool_or (some pool) fresh = pool

unfoldable pub get_pool : ℕ → Process → ℕ × Process
get_pool fresh s = (pool_or s.pool fresh, record s { pool = some (pool_or s.pool fresh) })

-- What start-up meets: whether PING, SCRIPT LOAD and the closing of the connection fail, and the
-- SHA that SCRIPT LOAD returns.
pub record StartEnv : Type 0 where
  pub fresh_pool : ℕ
  pub ping_fails : Bool
  pub load_fails : Bool
  pub close_fails : Bool
  pub sha : ℕ

unfoldable pub register_scripts : StartEnv → Process → Process
register_scripts env s = if env.load_fails then s else record s { lua_sha = some env.sha }

-- the `try` with its warning
unfoldable pub register_or_warn : StartEnv → Process → Process
unfolding register_scripts
register_or_warn env s = if env.ping_fails then s else register_scripts env s

unfoldable pub start_scheduler : Process → Process
start_scheduler s = record s { scheduler = some create_scheduler }

-- `lifespan` up to its `yield`
unfoldable pub lifespan : StartEnv → Process → Result Unit × Process
unfolding register_or_warn start_scheduler get_pool
lifespan env s =
    let tried = register_or_warn env (get_pool env.fresh_pool s).1 in
    if env.close_fails then (raised redis_error, tried) else (ok tt, start_scheduler tried)

-- `get_lua_sha("place_bid")`
unfoldable pub get_lua_sha : Process → Result ℕ
get_lua_sha s = elim s.lua_sha [ none ↦ raised key_error | some sha ↦ ok sha ]

-- what a bid takes from the process
unfoldable pub served_by : Process → Env → Env
served_by s env = record env { script_registered = is_some s.lua_sha }
