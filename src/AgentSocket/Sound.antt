-- ===== src/AgentSocket/Sound.antt =====
-- What the agent's socket client promises (packages/sandbox-image/src/socket-client.ts).
use codevil.Base.{
  ℕ, ◌≤◌, ◌≡◌, true, false, ◌&&◌, ◌||◌, String, List, [], ◌∷◌, ◌++◌, Option, none, some, is_some,
  arith, if_cases, append-nil, append-empty_outbox, append-outbox,
}
use codevil.AgentSocket.{
  Client, new_client, connect, clear_connection_timers, start, stop, reconnect_now, send,
  flush_outbox, schedule_heartbeat, on_open, on_pong, on_heartbeat, on_pong_timeout,
  schedule_reconnect, on_close, on_reconnect_timer,
}

-- The delay of a timer that is set is bounded.
abbrev pub IsBoundedBy : ℕ → Option ℕ → Type 0
IsBoundedBy limit none = Unit
IsBoundedBy limit (some delay) = delay ≤ limit

-- `given` are the values passed to `send` so far. They went out or wait, in their order; none waits
-- while a socket is open; and a client that was not stopped has a socket or a timer for one.
pub record IsSound (given : List String) (c : Client) : Type 0 where
  pub in_order : (c.sent ++ c.outbox) ≡ given
  pub attached : c.is_open ≡ true → is_some c.socket ≡ true
  pub drained : c.is_open ≡ true → c.outbox ≡ []
  pub trying : c.stopped ≡ false → (is_some c.socket || is_some c.reconnect_timer) ≡ true
  pub bounded : IsBoundedBy c.reconnect_max_delay_ms c.reconnect_timer

-- One call or event. Only a timer that is set fires.
pub data IsCall (given : List String) (c : Client) : List String → Client → Type 0 where
  started : IsCall given c given (start c)
  halted : IsCall given c given (stop c)
  reconnected : IsCall given c given (reconnect_now c)
  sending : (value : String) → IsCall given c (given ++ value ∷ []) (send value c)
  opened : (id : ℕ) → IsCall given c given (on_open id c)
  ponged : (id : ℕ) → IsCall given c given (on_pong id c)
  beaten : (id : ℕ) → IsCall given c given (on_heartbeat id c)
  overdue : (id : ℕ) → IsCall given c given (on_pong_timeout id c)
  closing : IsCall given c given (record c { is_open = false })
  closed : (id : ℕ) → IsCall given c given (on_close id c)
  fired : is_some c.reconnect_timer ≡ true → IsCall given c given (on_reconnect_timer c)

pub data IsRun (base_delay max_delay : ℕ) : List String → Client → Type 0 where
  fresh : IsRun base_delay max_delay [] (new_client base_delay max_delay)
  call :
      {given : List String} {c : Client} {given' : List String} {c' : Client}
      → IsRun base_delay max_delay given c
      → IsCall given c given' c'
      → IsRun base_delay max_delay given' c'

fresh-IsSound : (base max : ℕ) → IsSound [] (new_client base max)
unfolding new_client
fresh-IsSound base max = ground arith

connect-IsSound :
    (g : List String) (c : Client)
    → (c.sent ++ c.outbox) ≡ g
    → IsBoundedBy c.reconnect_max_delay_ms c.reconnect_timer
    → c.is_open ≡ false
    → IsSound g (connect c)
unfolding connect
connect-IsSound g c o b f = ground arith

start-IsSound : (g : List String) (c : Client) → IsSound g c → IsSound g (start c)
unfolding start connect
start-IsSound g c s = ground arith

stop-IsSound : (g : List String) (c : Client) → IsSound g c → IsSound g (stop c)
unfolding stop clear_connection_timers
stop-IsSound g c s = ground arith

reconnect_now-IsSound : (g : List String) (c : Client) → IsSound g c → IsSound g (reconnect_now c)
unfolding reconnect_now clear_connection_timers connect
reconnect_now-IsSound g c s = ground arith

send-IsSound :
    (v : String) (g : List String) (c : Client) → IsSound g c → IsSound (g ++ v ∷ []) (send v c)
unfolding send
send-IsSound v g c s =
    if_cases (IsSound (g ++ v ∷ [])) (is_some c.socket && c.is_open)
      (λ e. record {
        in_order = append-empty_outbox v c.sent c.outbox s.in_order (s.drained (ground (arith, e)));
        attached = s.attached;
        drained = s.drained;
        trying = s.trying;
        bounded = s.bounded;
      })
      (λ e. record {
        in_order = append-outbox v c.sent c.outbox s.in_order;
        attached = s.attached;
        drained = λ f. absurd (ground (arith, e, f, s.attached f));
        trying = s.trying;
        bounded = s.bounded;
      })

on_open-IsSound : (id : ℕ) (g : List String) (c : Client) → IsSound g c → IsSound g (on_open id c)
unfolding on_open schedule_heartbeat flush_outbox
on_open-IsSound id g c s = ground (arith, append-nil (c.sent ++ c.outbox))

on_pong-IsSound : (id : ℕ) (g : List String) (c : Client) → IsSound g c → IsSound g (on_pong id c)
unfolding on_pong schedule_heartbeat
on_pong-IsSound id g c s = ground arith

on_heartbeat-IsSound :
    (id : ℕ) (g : List String) (c : Client) → IsSound g c → IsSound g (on_heartbeat id c)
unfolding on_heartbeat
on_heartbeat-IsSound id g c s = ground arith

overdue-IsSound :
    (id : ℕ) (g : List String) (c : Client) → IsSound g c → IsSound g (on_pong_timeout id c)
unfolding on_pong_timeout
overdue-IsSound id g c s = ground arith

closing-IsSound :
    (g : List String) (c : Client) → IsSound g c → IsSound g (record c { is_open = false })
closing-IsSound g c s = ground arith

on_close-IsSound : (id : ℕ) (g : List String) (c : Client) → IsSound g c → IsSound g (on_close id c)
unfolding on_close schedule_reconnect clear_connection_timers
on_close-IsSound id g c s = ground arith

fired-IsSound : (g : List String) (c : Client) → IsSound g c → IsSound g (on_reconnect_timer c)
unfolding on_reconnect_timer connect
fired-IsSound g c s = ground arith

call-IsSound :
    {given : List String} {c : Client} {given' : List String} {c' : Client}
    → IsCall given c given' c'
    → IsSound given c
    → IsSound given' c'
call-IsSound started s = start-IsSound _ _ s
call-IsSound halted s = stop-IsSound _ _ s
call-IsSound reconnected s = reconnect_now-IsSound _ _ s
call-IsSound (sending value) s = send-IsSound value _ _ s
call-IsSound (opened id) s = on_open-IsSound id _ _ s
call-IsSound (ponged id) s = on_pong-IsSound id _ _ s
call-IsSound (beaten id) s = on_heartbeat-IsSound id _ _ s
call-IsSound (overdue id) s = overdue-IsSound id _ _ s
call-IsSound closing s = closing-IsSound _ _ s
call-IsSound (closed id) s = on_close-IsSound id _ _ s
call-IsSound (fired _) s = fired-IsSound _ _ s

-- Whatever calls and events a new client sees, the values that it was asked to send went out or wait
-- in the order in which they were given, none is lost or repeated, and none waits while a socket is
-- open; a client that was not stopped has a socket or a timer that will open one, after at most the
-- greatest delay.
pub run-IsSound :
    (base_delay max_delay : ℕ) (given : List String) (c : Client)
    → IsRun base_delay max_delay given c
    → IsSound given c
run-IsSound base_delay max_delay _ _ fresh = fresh-IsSound base_delay max_delay
run-IsSound base_delay max_delay _ _ (call r s) =
    call-IsSound s (run-IsSound base_delay max_delay _ _ r)
