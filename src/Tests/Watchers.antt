-- ===== src/Tests/Watchers.antt =====
-- A watcher who goes away after the first of three messages.
use sd_online_auction_backen.Common.{
  ℕ, ◌*◌, ◌≡◌, refl, true, false, List, [], ◌∷◌, any, if◌then◌else◌,
}
use sd_online_auction_backen.Models.{cents}
use sd_online_auction_backen.Live.{Frame}
use sd_online_auction_backen.Live.Connection.{
  Event, message, other, Calls, connection, connection_lem, delivered, ends,
}

abbrev frame : ℕ → Frame
frame n = record {
  sequence_num = n;
  current_price = cents (n * 100);
  high_bidder_masked = [];
  end_ts = 2000;
}

abbrev no_errors : Calls
no_errors = record {
  hgetall_raises = false;
  first_send_raises = false;
  subscribe_raises = false;
  unsubscribe_raises = false;
  aclose_raises = false;
}

abbrev events : List Event
events = other ∷ message (frame 2) true ∷ message (frame 3) false ∷ message (frame 4) false ∷ []

connection_lem_example : connection (frame 1) no_errors events ≡ record {
  sent = frame 1 ∷ delivered events;
  subscribed = if any ends events then false else true;
  client_open = if any ends events then false else true;
}
connection_lem_example = connection_lem (frame 1) no_errors events refl refl refl

stays_subscribed : (connection (frame 1) no_errors events).subscribed ≡ true
unfolding connection
stays_subscribed = refl
