-- ===== src/Tests/Registration.antt =====
-- Registrations.
use sd_online_auction_backen.Common.{false, ◌≡◌, refl, [], ◌∷◌, any, if◌then◌else◌}
use sd_online_auction_backen.Platform.Exact.{exact}
use sd_online_auction_backen.Session.{World, raised, http, get_session}
use sd_online_auction_backen.Session.Tables.{has_user}
use sd_online_auction_backen.Users.{UserCreate, Env, has_email, create_user}
use sd_online_auction_backen.Users.Emails.{UniqueEmails, asked, added, create_user_lem}
use sd_online_auction_backen.Tests.Fixtures.{db, user, world}

abbrev one_user : World
one_user = record world { db = record db { users = user 5 ∷ [] } }

abbrev again : UserCreate
again = record { display_name = "other"; email = "user@example.com" }

abbrev env : Env
env = record { user_id = 6; created_at = 1500000000 }

create_user_lem_example :
    let x = get_session false (create_user exact env again) one_user in
    (x ≡ (
      if any (has_email again.email) one_user.db.users
      then (raised (http 409), one_user)
      else added false one_user (asked exact env again)))
    × UniqueEmails x.1.db.users
unfolding has_user
create_user_lem_example = create_user_lem exact false env again one_user (refl, tt) refl
