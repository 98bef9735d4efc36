-- ===== src/Tests/WebClient.antt =====
-- The theorem on the socket of a browser, at a run in which it is lost.
use codevil.Base.{ℕ, ◌≡◌, refl, true, [], ◌∷◌, some, arith}
use codevil.Host.{complete}
use codevil.ClientMessages.{ClientMessage, human_message}
use codevil.WebClient.{
  EventEnvelope, replay_batch_frame, envelope, WebSocketClient, connect_web_socket, open_socket,
  on_open, on_message, advance_to_last, on_close, on_reconnect_timer, send,
}
use codevil.WebClient.Resuming.{
  IsSound, IsRun, fresh, call, opening, receiving, losing, firing, sending, runs-IsSound,
}

abbrev event_at : ℕ → EventEnvelope
event_at n = record { cursor = n; event = complete "" }

abbrev hello : ClientMessage
hello = human_message "hello"

-- A socket that had a batch and an event, was lost, and opened again with a message waiting.
abbrev again : WebSocketClient
again = on_open (
    on_reconnect_timer (
      send hello (
        on_close (
          on_message (envelope (some (event_at 9))) (
            on_message (replay_batch_frame (some (event_at 7 ∷ event_at 8 ∷ [])))
              (on_open (connect_web_socket 6 true)))))))

again-IsRun : IsRun 6 true (hello ∷ []) again
unfolding connect_web_socket open_socket on_open on_message advance_to_last on_close
    on_reconnect_timer send
again-IsRun =
    call
      (call
        (call
          (call
            (call
              (call (call fresh (opening refl)) (
                receiving (replay_batch_frame (some (event_at 7 ∷ event_at 8 ∷ [])))
                  (ground arith, tt) refl))
              (receiving (envelope (some (event_at 9))) tt refl))
            (losing refl))
          (sending hello))
        (firing refl))
      (opening refl)

asked_again_test : again.requested ≡ 9 ∷ 6 ∷ []
unfolding connect_web_socket open_socket on_open on_message advance_to_last on_close
    on_reconnect_timer send
asked_again_test = ground arith

runs-IsSound_example : IsSound (hello ∷ []) again
runs-IsSound_example = runs-IsSound 6 true (hello ∷ []) again again-IsRun
