-- ===== src/WebClient.antt =====
-- packages/web/src/lib/ws-client.ts: the socket of a browser, which it opens again when it is lost,
-- after the last event that it was given. A timer stands as its delay while it is set; what a frame
-- is parsed to is an argument, and `none` where it is not of the shape that its kind has.
pub mod Cursors
pub mod Resuming
use codevil.Base.{
  ℕ, zero, suc, ◌*◌, min, max, Bool, true, false, List, [], ◌∷◌, ◌++◌, Option, none, some, is_some,
  if◌then◌else◌, power_of_two,
}
use codevil.Host.{Event}
use codevil.ClientMessages.{ClientMessage}
use codevil.EventLog.{Checkpoint}
use codevil.Projections.{SessionSnapshot}

pub record EventEnvelope : Type 0 where
  pub cursor : ℕ
  pub event : Event

-- What the callbacks are given: `onSnapshot`, `onReplayBatch`, which is taken to be there, and
-- `onEvent`. A batch has its oldest event first.
pub data Delivery : Type 0 where
  on_snapshot : (frame : Checkpoint SessionSnapshot) → Delivery
  on_replay_batch : (events : List EventEnvelope) → Delivery
  on_event : (envelope : EventEnvelope) → Delivery

-- A message of the socket, by what it was seen to be.
pub data Incoming : Type 0 where
  binary : Incoming
  snapshot_frame : (result : Option (Checkpoint SessionSnapshot)) → Incoming
  replay_batch_frame : (result : Option (List EventEnvelope)) → Incoming
  envelope : (result : Option EventEnvelope) → Incoming

pub data ReadyState : Type 0 where
  connecting opened closing closed : ReadyState

abbrev pub is_opened : ReadyState → Bool
is_opened connecting = false
is_opened opened = true
is_opened closing = false
is_opened closed = false

-- `takes_snapshots` is whether there is an `onSnapshot`. `requested` are the cursors that sockets were
-- opened with and `delivered` what the callbacks were given, newest first; `sent` is what the sockets
-- were given, the first one first.
pub record WebSocketClient : Type 0 where
  pub ready_state : ReadyState
  pub cursor : ℕ
  pub reconnect_attempt : ℕ
  pub reconnect_timer : Option ℕ
  pub explicitly_closed : Bool
  pub takes_snapshots : Bool
  pub outbox : List ClientMessage
  pub requested : List ℕ
  pub delivered : List Delivery
  pub sent : List ClientMessage

unfoldable pub open_socket : WebSocketClient → WebSocketClient
open_socket c = record c { ready_state = connecting; requested = c.cursor ∷ c.requested }

unfoldable pub connect_web_socket : ℕ → Bool → WebSocketClient
connect_web_socket initial_cursor takes_snapshots = open_socket (record {
  ready_state = closed;
  cursor = initial_cursor;
  reconnect_attempt = 0;
  reconnect_timer = none;
  explicitly_closed = false;
  takes_snapshots = takes_snapshots;
  outbox = [];
  requested = [];
  delivered = [];
  sent = [];
})

unfoldable pub on_open : WebSocketClient → WebSocketClient
on_open c = record c {
  ready_state = opened;
  reconnect_attempt = 0;
  outbox = [];
  sent = c.sent ++ c.outbox;
}

-- The cursor of the last event of a batch, or `cursor` if it is empty.
unfoldable pub advance_to_last : ℕ → List EventEnvelope → ℕ
advance_to_last cursor [] = cursor
advance_to_last cursor (e ∷ []) = max cursor e.cursor
advance_to_last cursor (e ∷ f ∷ events) = advance_to_last cursor (f ∷ events)

unfoldable pub on_message : Incoming → WebSocketClient → WebSocketClient
on_message binary c = c
on_message (snapshot_frame none) c = c
on_message (snapshot_frame (some frame)) c =
    if c.takes_snapshots
    then record c {
      cursor = max c.cursor frame.cursor;
      delivered = on_snapshot frame ∷ c.delivered;
    }
    else c
on_message (replay_batch_frame none) c = c
on_message (replay_batch_frame (some events)) c = record c {
  cursor = advance_to_last c.cursor events;
  delivered = on_replay_batch events ∷ c.delivered;
}
on_message (envelope none) c = c
on_message (envelope (some e)) c = record c {
  cursor = max c.cursor e.cursor;
  delivered = on_event e ∷ c.delivered;
}

abbrev pub max_reconnect_delay_ms : ℕ
max_reconnect_delay_ms = 5_000

unfoldable pub on_close : WebSocketClient → WebSocketClient
on_close c0 =
    let c = record c0 { ready_state = closed } in
    if c.explicitly_closed then c else record c {
      reconnect_timer = some (min (500 * power_of_two c.reconnect_attempt) max_reconnect_delay_ms);
      reconnect_attempt = suc c.reconnect_attempt;
    }

-- The timer fires: what it holds no longer matters, and another socket is opened.
unfoldable pub on_reconnect_timer : WebSocketClient → WebSocketClient
on_reconnect_timer c = open_socket (record c { reconnect_timer = none })

unfoldable pub send : ClientMessage → WebSocketClient → WebSocketClient
send msg c =
    if is_opened c.ready_state
    then record c { sent = c.sent ++ msg ∷ [] }
    else record c { outbox = c.outbox ++ msg ∷ [] }

-- `ws.close`: a socket that is closed stays so, and another one closes.
abbrev pub close_ready_state : ReadyState → ReadyState
close_ready_state connecting = closing
close_ready_state opened = closing
close_ready_state closing = closing
close_ready_state closed = closed

unfoldable pub close : WebSocketClient → WebSocketClient
close c = record c {
  explicitly_closed = true;
  reconnect_timer = none;
  ready_state = close_ready_state c.ready_state;
}
