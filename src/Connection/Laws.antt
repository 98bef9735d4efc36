-- ===== src/Connection/Laws.antt =====
-- Sockets that the session closed, and which connections it takes
-- (packages/worker/src/sandbox-connection.ts).
use codevil.Base.{
  ℕ, ◌≤◌, ◌≡◌, ◌≢◌, ◌↔◌, ◌⊎◌, refl, true, false, List, [], ◌∷◌, Option, none, arith, is_some, ◌||◌,
  All,
}
use codevil.Session.{SessionState, provisioning_sandbox, initializing, is_terminal_state}
use codevil.Connection.{
  SandboxSocket, is_live_sandbox_socket, is_closing_sandbox_socket, live_sandbox_sockets,
  close_sandbox_socket, close_sandbox_sockets, sandbox_connection_mode, initialize, reject,
}

-- A socket whose closing can be seen: its attachment can be written, or it has a state.
abbrev pub IsObservable : SandboxSocket → Type 0
IsObservable s = (s.has_attachment || is_some s.ready_state) ≡ true

closed-not_live :
    (s : SandboxSocket) → IsObservable s → is_live_sandbox_socket (close_sandbox_socket s) ≡ false
unfolding close_sandbox_socket is_live_sandbox_socket is_closing_sandbox_socket
closed-not_live s o = ground arith

-- After the session has closed its sockets none of them counts as attached, though the peers may
-- not have answered, if the closing of each can be seen.
pub close_sandbox_sockets-none_live :
    (sockets : List SandboxSocket)
    → All IsObservable sockets
    → live_sandbox_sockets (close_sandbox_sockets sockets) ≡ []
unfolding live_sandbox_sockets close_sandbox_sockets
close_sandbox_sockets-none_live [] o = refl
close_sandbox_sockets-none_live (s ∷ ss) o =
    rw (closed-not_live s o.0) (close_sandbox_sockets-none_live ss o.1)

-- A sandbox's socket is refused exactly if the session is terminal, or it does not wait for its
-- first sandbox, has not lost one, and is not started yet or has one attached; it initializes the
-- session exactly if the session waits for its first sandbox.
pub sandbox_connection_lem :
    (state : SessionState) (lost : Option ℕ) (attached : ℕ)
    → ((sandbox_connection_mode state lost attached ≡ reject) ↔ (
        (is_terminal_state state ≡ true)
        ⊎ ((state ≢ provisioning_sandbox)
            × (lost ≡ none)
            × ((state ≡ initializing) ⊎ (1 ≤ attached)))))
      × ((sandbox_connection_mode state lost attached ≡ initialize)
          ↔ (state ≡ provisioning_sandbox))
unfolding sandbox_connection_mode is_terminal_state
sandbox_connection_lem state lost attached = ground arith
