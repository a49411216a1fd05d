-- ===== src/Live/Connection.antt =====
-- One connection of `auction_live` from its start to its end.
use sd_online_auction_backen.Common.{
  ◌≡◌, refl, sym, append_assoc, append-nil, ap, ◌∙◌, Bool, true, false, List, [], ◌∷◌, ◌++◌, any,
  if◌then◌else◌, arith,
}
use sd_online_auction_backen.Live.{Frame}

-- what the loop over `pubsub.listen()` meets: a message, with whether `json.loads` and `send_json`
-- go through; another message, as the confirmation of a subscription; or an exception
pub data Event : Type 0 where
  message : Frame → Bool → Event
  other : Event
  listen_raises : Event

-- which of the other calls raise
pub record Calls : Type 0 where
  pub hgetall_raises : Bool
  pub first_send_raises : Bool
  pub subscribe_raises : Bool
  pub unsubscribe_raises : Bool
  pub aclose_raises : Bool

-- what the watcher has been sent, whether the channel is subscribed to, and whether the handler has
-- left its client of Redis open
pub record Connection : Type 0 where
  pub sent : List Frame
  pub subscribed : Bool
  pub client_open : Bool

-- the handler waits for the next message, or has left its loop
pub data Progress : Type 0 where
  waits : Connection → Progress
  left : Connection → Progress

-- step 3; `except Exception: pass` round each message, and `sleep(0)` does not raise
unfoldable pub relay : Connection → List Event → Progress
relay c [] = waits c
relay c (message f true ∷ events) = relay (record c { sent = c.sent ++ f ∷ [] }) events
relay c (message f false ∷ events) = relay c events
relay c (other ∷ events) = relay c events
relay c (listen_raises ∷ events) = left c

-- `finally`
unfoldable pub release : Calls → Connection → Connection
release calls c = record c {
  subscribed = if calls.unsubscribe_raises then c.subscribed else false;
  client_open = if calls.aclose_raises then c.client_open else false;
}

abbrev pub released : Calls → Progress → Connection
released calls (waits c) = c
released calls (left c) = release calls c

-- the steps before the loop, each of which may leave the `try` block
abbrev pub begin : Frame → Calls → List Event → Progress
begin first calls events =
    let nothing : Connection = record { sent = []; subscribed = false; client_open = true } in
    let greeted = record nothing { sent = first ∷ [] } in
    let listening = relay (record greeted { subscribed = true }) events in
    if calls.hgetall_raises
    then left nothing
    else if calls.first_send_raises
    then left nothing
    else if calls.subscribe_raises
    then left greeted
    else listening

unfoldable pub connection : Frame → Calls → List Event → Connection
unfolding relay release
connection first calls events = released calls (begin first calls events)

abbrev pub ends : Event → Bool
ends listen_raises = true
ends _ = false

-- the frames that go through before the loop ends
abbrev pub delivered : List Event → List Frame
delivered [] = []
delivered (message f true ∷ events) = f ∷ delivered events
delivered (message f false ∷ events) = delivered events
delivered (other ∷ events) = delivered events
delivered (listen_raises ∷ events) = []

abbrev with_sent : Connection → List Frame → Bool → Progress
with_sent c fs true = left (record c { sent = fs })
with_sent c fs false = waits (record c { sent = fs })

relay_lem :
    (c : Connection) (events : List Event)
    → relay c events ≡ with_sent c (c.sent ++ delivered events) (any ends events)
unfolding relay
relay_lem c [] = ap (λ fs. waits (record c { sent = fs })) (sym (append-nil c.sent))
relay_lem c (message f true ∷ events) =
    relay_lem (record c { sent = c.sent ++ f ∷ [] }) events
    ∙ ap (λ fs. with_sent c fs (any ends events)) (append_assoc c.sent (f ∷ []) (delivered events))
relay_lem c (message f false ∷ events) = relay_lem c events
relay_lem c (other ∷ events) = relay_lem c events
relay_lem c (listen_raises ∷ events) =
    ap (λ fs. left (record c { sent = fs })) (sym (append-nil c.sent))

-- A connection that has been set up sends its watcher the first frame and then each message that
-- goes through, until listening raises; only then are its subscription and its client of Redis
-- released, if their calls go through. Sends that raise, as to a watcher who has gone, end nothing.
pub connection_lem :
    (first : Frame) (calls : Calls) (events : List Event)
    → calls.hgetall_raises ≡ false
    → calls.first_send_raises ≡ false
    → calls.subscribe_raises ≡ false
    → connection first calls events ≡ record {
      sent = first ∷ delivered events;
      subscribed = if any ends events then calls.unsubscribe_raises else true;
      client_open = if any ends events then calls.aclose_raises else true;
    }
unfolding connection
connection_lem first calls events read greeted listens =
    simp (read, greeted, listens)
      (ap (released calls) (relay_lem _ events) ∙ by_end (any ends events))
  where
    listening : Connection
    listening = record { sent = first ∷ []; subscribed = true; client_open = true }

    by_end :
        (over : Bool)
        → released calls (with_sent listening (first ∷ delivered events) over) ≡ record {
          sent = first ∷ delivered events;
          subscribed = if over then calls.unsubscribe_raises else true;
          client_open = if over then calls.aclose_raises else true;
        }
    by_end true = ground arith
    by_end false = refl
