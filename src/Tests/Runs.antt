-- ===== src/Tests/Runs.antt =====
-- Runs of the whole application.
use sd_online_auction_backen.Common.{
  false, ℕ, ◌≡◌, refl, subst, true, inl, inr, some, [], ◌∷◌, ◌==◌, Bool-cases, eq_of_some,
}
use sd_online_auction_backen.Platform.Exact.{exact}
use sd_online_auction_backen.Models.{Auction, sold}
use sd_online_auction_backen.Session.{World, get_session}
use sd_online_auction_backen.Session.Tables.{get_auction, has_user, winner_exists}
use sd_online_auction_backen.Bids.Recording.{replies}
use sd_online_auction_backen.Users.{UserCreate, Env, create_user}
use sd_online_auction_backen.Routers.{place_bid_route, create_auction_route, view_auction}
use sd_online_auction_backen.Scheduler.{poll_due_closes}
use sd_online_auction_backen.Scheduler.Closes.{no_poll_faults}
use sd_online_auction_backen.System.Changes.{IsValid}
use sd_online_auction_backen.System.Steps.{
  Steps, registers, lists, bids, views, closes, start, then_step, no_rows, Steps-IsValid,
  Steps-settled, Steps-Grows,
}
use sd_online_auction_backen.System.Growth.{Grows}
use sd_online_auction_backen.Search.Sample.{sample}
use sd_online_auction_backen.Tests.Fixtures.{store, auction, world, env, user, db}
use sd_online_auction_backen.Tests.Routes.{listing, create_env, request}

abbrev nothing : World
nothing = record { db = no_rows; redis = store }

abbrev pub user_env : Env
user_env = record { user_id = 7; created_at = 1 }

abbrev pub registration : UserCreate
registration = record { display_name = "user"; email = "user@example.com" }

-- user 7 registers, lists an auction and bids on it, and a poll closes it
abbrev registered : World
registered = (get_session false (create_user exact user_env registration) nothing).1

abbrev listed : World
listed = (get_session false (create_auction_route exact create_env (some "7") listing) registered).1

abbrev bid : World
bid = (get_session false (place_bid_route exact (env replies) (some "7") 2 request) listed).1

abbrev over : World
over = poll_due_closes exact 1900000000 no_poll_faults bid

run_to_close : Steps exact sample nothing over
run_to_close =
    then_step
      (then_step
        (then_step (then_step start (registers false user_env registration))
          (lists false create_env (some "7") listing))
        (bids false (env replies) (some "7") 2 request))
      (closes 1900000000 no_poll_faults)

Steps-IsValid_example : IsValid over.db
Steps-IsValid_example = Steps-IsValid exact sample refl run_to_close

-- two users and one auction
abbrev fair : Auction → World
fair a = record world {
  db = record db {
    users = user 5 ∷ record (user 7) { email = "b@example.com" } ∷ [];
    auctions = a ∷ [];
    bids = [];
  };
}

fair-row :
    (a b : Auction) (k : ℕ) (P : Auction → Type 0) → get_auction k (fair a).db ≡ some b → P a → P b
unfolding get_auction
fair-row a b k P e h = elim (Bool-cases (a.auction_id == k)) [
  | inl same ↦ subst P (eq_of_some (rw same at e)) h
  | inr other ↦ cc (rw other at e)
]

fair-IsValid :
    (a : Auction)
    → has_user a.seller_id (fair a).db ≡ true
    → winner_exists a.winner_id (fair a).db ≡ true
    → IsValid (fair a).db
fair-IsValid a seller winner = record {
  auction_ids = (refl, tt);
  emails = (refl, (refl, tt));
  sellers = λ k b e. fair-row a b k (λ x. has_user x.seller_id (fair a).db ≡ true) e seller;
  winners = λ k b e. fair-row a b k (λ x. winner_exists x.winner_id (fair a).db ≡ true) e winner;
  bids = tt;
}

abbrev gone : Auction
gone = record auction { state = sold; winner_id = some 7; highest_bid = some 500 }

abbrev after_view : Auction → World
after_view a = (get_session false (view_auction 1 1500000000 false) (fair a)).1

abbrev after_bid : Auction → World
after_bid a =
    (get_session false (place_bid_route exact (env replies) (some "7") 1 request) (after_view a)).1

abbrev after_close : Auction → World
after_close a = poll_due_closes exact 3000000000 no_poll_faults (after_bid a)

bid_and_close : (a : Auction) → Steps exact sample (fair a) (after_close a)
bid_and_close a =
    then_step
      (then_step (then_step start (views false 1 1500000000 false))
        (bids false (env replies) (some "7") 1 request))
      (closes 3000000000 no_poll_faults)

Steps-settled_example : get_auction 1 (after_close gone).db ≡ some gone
unfolding get_auction has_user
Steps-settled_example =
    Steps-settled exact sample 1 gone (fair-IsValid gone refl refl) refl refl (bid_and_close gone)

Steps-Grows_example : Grows (fair auction).db (after_close auction).db
unfolding has_user
Steps-Grows_example =
    Steps-Grows exact sample (fair-IsValid auction refl refl) (bid_and_close auction)
