-- ===== src/WebClient/Resuming.antt =====
-- What the socket of a browser promises (packages/web/src/lib/ws-client.ts): which events it asks for
-- again, and that no message is lost.
use codevil.Base.{
  ℕ, ◌≤◌, max, ◌≡◌, refl, Bool, true, false, List, [], ◌∷◌, ◌++◌, Option, none, some, is_some,
  arith, if_cases, append-nil, append-empty_outbox, append-outbox,
}
use codevil.ClientMessages.{ClientMessage}
use codevil.WebClient.{
  Delivery, on_snapshot, on_replay_batch, on_event, Incoming, binary, snapshot_frame,
  replay_batch_frame, envelope, ReadyState, connecting, opened, closing, closed, is_opened,
  WebSocketClient, open_socket, connect_web_socket, on_open, advance_to_last, on_message,
  max_reconnect_delay_ms, on_close, on_reconnect_timer, send, close,
}
use codevil.WebClient.Cursors.{
  IsOrdered, IsReached, IsAdvancing, IsReached-step, IsAdvancing-step, advance_to_last-grows,
  batch-IsWithin,
}

abbrev pub IsPrompt : Option ℕ → Type 0
IsPrompt none = Unit
IsPrompt (some delay) = delay ≤ max_reconnect_delay_ms

-- A socket that is closed is opened again by a timer, unless the client was closed.
abbrev pub IsRetried : ReadyState → Bool → Option ℕ → Type 0
IsRetried closed false timer = is_some timer ≡ true
IsRetried closed true timer = timer ≡ none
IsRetried connecting _ timer = timer ≡ none
IsRetried opened _ timer = timer ≡ none
IsRetried closing _ timer = timer ≡ none

-- `given` are the messages passed to `send` so far. They went out or wait, in their order, and none
-- waits while the socket is open; the cursor is not behind anything that was handed on, and the
-- cursors asked for never go back.
pub record IsSound (given : List ClientMessage) (c : WebSocketClient) : Type 0 where
  pub in_order : (c.sent ++ c.outbox) ≡ given
  pub drained : is_opened c.ready_state ≡ true → c.outbox ≡ []
  pub reached : IsReached c.cursor c.delivered
  pub advancing : IsAdvancing c.cursor c.requested
  pub prompt : IsPrompt c.reconnect_timer
  pub retried : IsRetried c.ready_state c.explicitly_closed c.reconnect_timer

-- A socket whose close event is still to come.
abbrev pub is_live : ReadyState → Bool
is_live connecting = true
is_live opened = true
is_live closing = true
is_live closed = false

-- A batch of the server is in order.
abbrev pub IsFromServer : Incoming → Type 0
IsFromServer binary = Unit
IsFromServer (snapshot_frame result) = Unit
IsFromServer (replay_batch_frame none) = Unit
IsFromServer (replay_batch_frame (some events)) = IsOrdered events
IsFromServer (envelope result) = Unit

-- One call or event. A socket opens while it connects, gives messages while it is open, and closes
-- once; only a timer that is set fires.
pub data IsCall (given : List ClientMessage) (c : WebSocketClient)
    : List ClientMessage → WebSocketClient → Type 0 where
  opening : c.ready_state ≡ connecting → IsCall given c given (on_open c)
  receiving :
      (i : Incoming)
      → IsFromServer i
      → c.ready_state ≡ opened
      → IsCall given c given (on_message i c)
  leaving :
      is_opened c.ready_state ≡ true → IsCall given c given (record c { ready_state = closing })
  losing : is_live c.ready_state ≡ true → IsCall given c given (on_close c)
  firing : is_some c.reconnect_timer ≡ true → IsCall given c given (on_reconnect_timer c)
  sending : (msg : ClientMessage) → IsCall given c (given ++ msg ∷ []) (send msg c)
  stopping : IsCall given c given (close c)

pub data IsRun (initial_cursor : ℕ) (takes_snapshots : Bool)
    : List ClientMessage → WebSocketClient → Type 0 where
  fresh :
      IsRun initial_cursor takes_snapshots [] (connect_web_socket initial_cursor takes_snapshots)
  call :
      {given : List ClientMessage} {c : WebSocketClient} {given' : List ClientMessage}
      {c' : WebSocketClient}
      → IsRun initial_cursor takes_snapshots given c
      → IsCall given c given' c'
      → IsRun initial_cursor takes_snapshots given' c'

fresh-IsSound : (n : ℕ) (b : Bool) → IsSound [] (connect_web_socket n b)
unfolding connect_web_socket open_socket
fresh-IsSound n b = record {
  in_order = refl;
  drained = λ _. refl;
  reached = tt;
  advancing = (ground arith, tt);
  prompt = tt;
  retried = refl;
}

on_open-IsSound :
    (g : List ClientMessage) (c : WebSocketClient)
    → c.ready_state ≡ connecting
    → IsSound g c
    → IsSound g (on_open c)
unfolding on_open
on_open-IsSound g c e s = ground (arith, append-nil (c.sent ++ c.outbox))

-- A cursor goes on and more is handed on.
delivered-IsSound :
    (g : List ClientMessage) (c : WebSocketClient) (cursor : ℕ) (d : Delivery)
    → c.cursor ≤ cursor
    → IsReached cursor (d ∷ [])
    → IsSound g c
    → IsSound g (record c { cursor = cursor; delivered = d ∷ c.delivered })
delivered-IsSound g c cursor d l r s = record {
  in_order = s.in_order;
  drained = s.drained;
  reached = add d r (IsReached-step c.delivered l s.reached);
  advancing = IsAdvancing-step c.requested l s.advancing;
  prompt = s.prompt;
  retried = s.retried;
}
  where
    add :
        (d : Delivery)
        → IsReached cursor (d ∷ [])
        → IsReached cursor c.delivered
        → IsReached cursor (d ∷ c.delivered)
    add (on_snapshot frame) (x, _) rest = (x, rest)
    add (on_replay_batch events) (x, _) rest = (x, rest)
    add (on_event e) (x, _) rest = (x, rest)

on_message-IsSound :
    (i : Incoming) (g : List ClientMessage) (c : WebSocketClient)
    → IsFromServer i
    → IsSound g c
    → IsSound g (on_message i c)
unfolding on_message
on_message-IsSound binary g c o s = s
on_message-IsSound (snapshot_frame none) g c o s = s
on_message-IsSound (snapshot_frame (some frame)) g c o s =
    if_cases (IsSound g) c.takes_snapshots
      (λ _.
        delivered-IsSound g c (max c.cursor frame.cursor) (on_snapshot frame) (ground arith)
          (ground arith, tt) s)
      (λ _. s)
on_message-IsSound (replay_batch_frame none) g c o s = s
on_message-IsSound (replay_batch_frame (some events)) g c o s =
    delivered-IsSound g c (advance_to_last c.cursor events) (on_replay_batch events)
      (advance_to_last-grows c.cursor events) (batch-IsWithin c.cursor events o, tt) s
on_message-IsSound (envelope none) g c o s = s
on_message-IsSound (envelope (some e)) g c o s =
    delivered-IsSound g c (max c.cursor e.cursor) (on_event e) (ground arith) (ground arith, tt) s

leaving-IsSound :
    (g : List ClientMessage) (c : WebSocketClient)
    → is_opened c.ready_state ≡ true
    → IsSound g c
    → IsSound g (record c { ready_state = closing })
leaving-IsSound g c e s = ground arith

on_close-IsSound :
    (g : List ClientMessage) (c : WebSocketClient)
    → is_live c.ready_state ≡ true
    → IsSound g c
    → IsSound g (on_close c)
unfolding on_close
on_close-IsSound g c e s = ground arith

fired-IsSound :
    (g : List ClientMessage) (c : WebSocketClient)
    → is_some c.reconnect_timer ≡ true
    → IsSound g c
    → IsSound g (on_reconnect_timer c)
unfolding on_reconnect_timer open_socket
fired-IsSound g c e s = record {
  in_order = s.in_order;
  drained = λ e. ground (arith, e);
  reached = s.reached;
  advancing = (ground arith, s.advancing);
  prompt = tt;
  retried = refl;
}

close-IsSound : (g : List ClientMessage) (c : WebSocketClient) → IsSound g c → IsSound g (close c)
unfolding close
close-IsSound g c s = ground arith

send-IsSound :
    (m : ClientMessage) (g : List ClientMessage) (c : WebSocketClient)
    → IsSound g c
    → IsSound (g ++ m ∷ []) (send m c)
unfolding send
send-IsSound m g c s =
    if_cases (IsSound (g ++ m ∷ [])) (is_opened c.ready_state)
      (λ e. record {
        in_order = append-empty_outbox m c.sent c.outbox s.in_order (s.drained e);
        drained = s.drained;
        reached = s.reached;
        advancing = s.advancing;
        prompt = s.prompt;
        retried = s.retried;
      })
      (λ e. record {
        in_order = append-outbox m c.sent c.outbox s.in_order;
        drained = λ f. absurd (ground (arith, e, f));
        reached = s.reached;
        advancing = s.advancing;
        prompt = s.prompt;
        retried = s.retried;
      })

call-IsSound :
    {given : List ClientMessage} {c : WebSocketClient} {given' : List ClientMessage}
    {c' : WebSocketClient}
    → IsCall given c given' c'
    → IsSound given c
    → IsSound given' c'
call-IsSound (opening e) s = on_open-IsSound _ _ e s
call-IsSound (receiving i o e) s = on_message-IsSound i _ _ o s
call-IsSound (leaving e) s = leaving-IsSound _ _ e s
call-IsSound (losing e) s = on_close-IsSound _ _ e s
call-IsSound (firing e) s = fired-IsSound _ _ e s
call-IsSound (sending m) s = send-IsSound m _ _ s
call-IsSound stopping s = close-IsSound _ _ s

-- Whatever calls and events the socket of a browser sees, where the batches that come are in order:
-- its cursor is not behind any snapshot or event that was handed on, nor behind those that its sockets
-- were opened with, which never go back; the messages given went out or wait, in their order,
-- each once, and none waits while the socket is open; and a socket that is closed is opened again
-- after at most five seconds, unless the client was closed.
pub runs-IsSound :
    (initial_cursor : ℕ) (takes_snapshots : Bool) (given : List ClientMessage) (c : WebSocketClient)
    → IsRun initial_cursor takes_snapshots given c
    → IsSound given c
runs-IsSound initial_cursor takes_snapshots _ _ fresh = fresh-IsSound initial_cursor takes_snapshots
runs-IsSound initial_cursor takes_snapshots _ _ (call r s) =
    call-IsSound s (runs-IsSound initial_cursor takes_snapshots _ _ r)
