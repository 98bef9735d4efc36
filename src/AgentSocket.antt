-- ===== src/AgentSocket.antt =====
-- packages/sandbox-image/src/socket-client.ts: the socket of the agent in the sandbox, which it opens
-- again when it is lost. Sockets are numbered, a timer stands as whether it is set, and a socket is
-- open from its open event on.
pub mod Sound
use codevil.Base.{
  ℕ, zero, suc, ◌*◌, min, Bool, true, false, not, ◌&&◌, ◌||◌, String, List, [], ◌∷◌, ◌++◌, Option,
  none, some, is_some, ◌==◌, if◌then◌else◌, power_of_two,
}

-- `socket` is the current one, `is_open` whether it can send, `reconnect_timer` the delay of the timer
-- that is set, and `sent` what the sockets were given, the first one first.
pub record ReconnectingWebSocketClient : Type 0 where
  pub socket : Option ℕ
  pub is_open : Bool
  pub next_socket : ℕ
  pub heartbeat_timer : Bool
  pub pong_timer : Bool
  pub reconnect_timer : Option ℕ
  pub reconnect_attempt : ℕ
  pub reconnect_base_delay_ms : ℕ
  pub reconnect_max_delay_ms : ℕ
  pub stopped : Bool
  pub outbox : List String
  pub sent : List String

abbrev pub Client : Type 0
Client = ReconnectingWebSocketClient

unfoldable pub new_client : ℕ → ℕ → Client
new_client base_delay max_delay = record {
  socket = none;
  is_open = false;
  next_socket = 0;
  heartbeat_timer = false;
  pong_timer = false;
  reconnect_timer = none;
  reconnect_attempt = 0;
  reconnect_base_delay_ms = base_delay;
  reconnect_max_delay_ms = max_delay;
  stopped = true;
  outbox = [];
  sent = [];
}

abbrev pub is_current : ℕ → Client → Bool
is_current id c = elim c.socket [ none ↦ false | some current ↦ current == id ]

unfoldable pub connect : Client → Client
connect c =
    if c.stopped
    then c
    else record c { socket = some c.next_socket; is_open = false; next_socket = suc c.next_socket }

unfoldable pub clear_connection_timers : Client → Client
clear_connection_timers c = record c { heartbeat_timer = false; pong_timer = false }

unfoldable pub start : Client → Client
start c = if not c.stopped then c else connect (record c { stopped = false })

unfoldable pub stop : Client → Client
stop c = record (clear_connection_timers c) {
  stopped = true;
  reconnect_timer = none;
  socket = none;
  is_open = false;
}

unfoldable pub reconnect_now : Client → Client
reconnect_now c =
    if c.stopped
    then c
    else connect (record (clear_connection_timers c) {
      reconnect_timer = none;
      socket = none;
      is_open = false;
      reconnect_attempt = 0;
    })

unfoldable pub send : String → Client → Client
send value c =
    if is_some c.socket && c.is_open
    then record c { sent = c.sent ++ value ∷ [] }
    else record c { outbox = c.outbox ++ value ∷ [] }

unfoldable pub flush_outbox : Client → Client
flush_outbox c = record c { sent = c.sent ++ c.outbox; outbox = [] }

unfoldable pub schedule_heartbeat : Client → Client
schedule_heartbeat c = record c { heartbeat_timer = true }

unfoldable pub on_open : ℕ → Client → Client
on_open id c =
    if not (is_current id c) || c.stopped
    then c
    else schedule_heartbeat (flush_outbox (record c { reconnect_attempt = 0; is_open = true }))

unfoldable pub on_pong : ℕ → Client → Client
on_pong id c =
    if not (is_current id c) || c.stopped
    then c
    else schedule_heartbeat (record c { pong_timer = false })

-- The heartbeat of a socket: it is pinged if it is the current one and open.
unfoldable pub on_heartbeat : ℕ → Client → Client
on_heartbeat id c0 =
    let c = record c0 { heartbeat_timer = false } in
    if not (is_current id c) || not c.is_open || c.stopped
    then c
    else record c { pong_timer = true }

-- The pong of a socket is overdue: the current socket is terminated, its close event follows.
unfoldable pub on_pong_timeout : ℕ → Client → Client
on_pong_timeout id c0 =
    let c = record c0 { pong_timer = false } in
    if is_current id c && not c.stopped then record c { is_open = false } else c

unfoldable pub schedule_reconnect : Client → Client
schedule_reconnect c = if c.stopped || is_some c.reconnect_timer then c else record c {
  reconnect_timer =
      some (
        min (c.reconnect_base_delay_ms * power_of_two c.reconnect_attempt)
          c.reconnect_max_delay_ms);
  reconnect_attempt = suc c.reconnect_attempt;
}

unfoldable pub on_close : ℕ → Client → Client
on_close id c =
    if not (is_current id c)
    then c
    else schedule_reconnect (record (clear_connection_timers c) { socket = none; is_open = false })

unfoldable pub on_reconnect_timer : Client → Client
on_reconnect_timer c = connect (record c { reconnect_timer = none })
