-- ===== src/Lib.antt =====
-- The auction backend of src/auction_app: a FastAPI service over PostgreSQL and Redis. An auction is
-- a row; while it is active, its price, its leader and its end live in a Redis hash, and a Lua script
-- decides each bid there in one step. PostgreSQL keeps the history. A scheduler starts and closes
-- the auctions that are due.
--
-- The parts, and the files that model them:
--   Platform           what is outside the repository: Python's floats and their text, double
--                      arithmetic, SHA-256, as a record of functions with their documented laws;
--                      Platform/Exact fills it with exact arithmetic
--   Models             src/auction_app/models/: users, auctions, bids, proxy bids, and the tables
--   Redis              the hash, results, stream and channel of an auction
--   Redis/Script       place_bid.lua of src/auction_app/redis_client.py; its children prove what a
--                      run decides (Outcomes), what it writes (Leads), what it replays (Idempotent),
--                      any sequence of runs (Ladder), retries in it (Once), and the abstract auction
--                      that the runs implement (Lot)
--   Session            the state and exception monad of a request, get_session of
--                      src/auction_app/database.py, and the constraints of
--                      alembic/versions/001_initial.py (Tables)
--   Auctions           src/auction_app/services/auction_service.py: create_auction (Create),
--                      start_auction, close_auction and _resolve_settlement_inner (Lifecycle),
--                      get_auction_detail (Detail), _init_redis_hash (Hash)
--   Bids               src/auction_app/services/bid_service.py: place_bid (Place; its steps 3 to
--                      5 in Recording) and get_bid_history (History)
--   Scheduler          src/auction_app/services/scheduler_service.py: poll_due_starts and
--                      poll_due_closes
--   Routers            src/auction_app/routers/bids.py and auctions.py: the handlers of bids (Bidding)
--                      and of listings (Listing)
--   Users              src/auction_app/routers/users.py: create_user
--   Search             src/auction_app/services/search_service.py: search_auctions (its rows in
--                      Matching, one page in Answers, the cursor in Cursor); what it takes from
--                      json, base64 and PostgreSQL is a record of functions, which Sample fills
--   Paging             what the two paged queries share: order, cursor and page (First), and the walk
--                      from page to page (Walk)
--   App                start-up: src/auction_app/main.py, get_pool and get_lua_sha of
--                      src/auction_app/redis_client.py, create_scheduler
--   Migration          alembic/versions/001_initial.py: its tables, upgrade and downgrade (Reversal),
--                      and the declared keys against those that Session/Tables tests (Keys)
--   System             the parts together: every request and every poll as a step (Steps), what a
--                      step may change (Changes, from Requests, Starts, Closes and Reads), and what
--                      that keeps (Valid, Growth). In Overlap a bid is two steps, up to the reply of
--                      the script and from there, with anything else between them
--   Live               src/auction_app/routers/websocket.py: the first frame and the payloads of
--                      one watcher (Frames), and its connection to the end (Connection);
--                      src/auction_app/services/fanout_service.py (Fanout)
--   Tests              concrete runs
--
-- The functions keep their names. A service call is an action on a `World`, the tables as its
-- transaction sees them and Redis, that returns or raises; what it takes from outside (clocks, new
-- ids, which Redis commands fail) is its `Env` argument. A UUID is a number, a datetime is a number
-- of microseconds, a price is a number of cents, below the limit of NUMERIC(12, 2) where a theorem
-- says so, and a float is a value of `Platform.Float`. A statement without ORDER BY reads a table
-- in the order of its rows. PostgreSQL's INTEGER and NUMERIC ranges, and what a VARCHAR or a TEXT
-- column stores, are tested where a flush does.
-- The only fuel is that of a client who walks the pages of a history; more than the number of rows
-- is enough.
-- A request's commit may fail, and then its tables are rolled back and its answer is an error; Redis
-- keeps what the request has written. Where a call of Redis fails whose exception is caught, a lost
-- reply leaves what a call that goes through leaves, so only EVALSHA and the HSET of create_auction
-- have a lost reply of their own. In System/Overlap start polls and listings commit, and no reply of
-- a listing's HSET is lost.
--
-- Not modelled: the framework's own validation of a request and its 422; the mounting of the
-- routers, configuration and health, which are wiring; Redis's expiry and stream trimming, which
-- the program does not read; and what interleaves between the Redis and database calls of a request
-- or a poll, but for bids (System/Overlap) and runs of the script during a close
-- (Auctions/Lifecycle/Between).
pub mod Common
pub mod Platform
pub mod Models
pub mod Paging
pub mod Redis
pub mod Session
pub mod Auctions
pub mod Bids
pub mod Scheduler
pub mod Routers
pub mod Live
pub mod Users
pub mod Search
pub mod App
pub mod System
pub mod Migration
pub mod Tests
