-- ===== src/Connection.antt =====
-- packages/worker/src/sandbox-connection.ts: which sockets of the sandbox count as attached, and
-- what a new or a lost socket means.
pub mod Laws
use codevil.Base.{
  ℕ, ◌+◌, Bool, true, false, not, ◌&&◌, ◌||◌, List, [], ◌∷◌, Option, none, some, is_some, is_empty,
  length, leb, ◌==◌, if◌then◌else◌, any, keep, map,
}
use codevil.Room.{SandboxState}
use codevil.Session.{
  SessionState, initializing, provisioning_sandbox, cloning_repo, is_state, is_terminal_state,
}

abbrev pub sandbox_reconnect_grace_ms : ℕ
sandbox_reconnect_grace_ms = 60_000

pub data SandboxConnectionMode : Type 0 where
  initialize resume reject : SandboxConnectionMode

unfoldable pub sandbox_connection_mode : SessionState → Option ℕ → ℕ → SandboxConnectionMode
unfolding is_terminal_state
sandbox_connection_mode state disconnected_at attached_sandbox_count =
    if is_state state provisioning_sandbox
    then initialize
    else if not (is_terminal_state state) && is_some disconnected_at
    then resume
    else if attached_sandbox_count == 0
        && not (is_state state initializing)
        && not (is_terminal_state state)
    then resume
    else reject

-- A WebSocket of the sandbox: its identity, `readyState` where it is a number, whether its
-- attachment can be read and written, and whether the attachment says `closing`.
pub record SandboxSocket : Type 0 where
  pub id : ℕ
  pub ready_state : Option ℕ
  pub has_attachment : Bool
  pub closing : Bool

abbrev pub websocket_open : ℕ
websocket_open = 1

unfoldable pub is_closing_sandbox_socket : SandboxSocket → Bool
is_closing_sandbox_socket socket = socket.has_attachment && socket.closing

unfoldable pub is_live_sandbox_socket : SandboxSocket → Bool
unfolding is_closing_sandbox_socket
is_live_sandbox_socket socket = elim socket.ready_state [
  | none ↦ not (is_closing_sandbox_socket socket)
  | some state ↦
      if not (state == websocket_open) then false else not (is_closing_sandbox_socket socket)
]

unfoldable pub live_sandbox_sockets : List SandboxSocket → List SandboxSocket
unfolding is_live_sandbox_socket
live_sandbox_sockets sockets = keep is_live_sandbox_socket sockets

abbrev pub websocket_closing : ℕ
websocket_closing = 2

-- The attachment is marked first; `close()` then moves a socket that has a state to CLOSING.
unfoldable pub close_sandbox_socket : SandboxSocket → SandboxSocket
close_sandbox_socket socket = record socket {
  closing = socket.has_attachment || socket.closing;
  ready_state = elim socket.ready_state [ none ↦ none | some state ↦ some (max_state state) ];
}
  where
    max_state : ℕ → ℕ
    max_state state = if leb websocket_closing state then state else websocket_closing

unfoldable pub close_sandbox_sockets : List SandboxSocket → List SandboxSocket
unfolding close_sandbox_socket
close_sandbox_sockets sockets = map close_sandbox_socket sockets

-- `sockets` are those that the session holds; two are the same if their identities are.
unfoldable pub is_unexpected_sandbox_disconnect :
    Bool → SessionState → SandboxSocket → List SandboxSocket → Bool
unfolding is_terminal_state is_closing_sandbox_socket is_live_sandbox_socket
is_unexpected_sandbox_disconnect expected_close state closed_socket sockets =
    if expected_close || is_terminal_state state
    then false
    else if is_closing_sandbox_socket closed_socket
    then false
    else not (any (λ s. not (s.id == closed_socket.id) && is_live_sandbox_socket s) sockets)

unfoldable pub sandbox_reconnect_expired : ℕ → ℕ → Bool
sandbox_reconnect_expired disconnected_at now =
    leb (disconnected_at + sandbox_reconnect_grace_ms) now

unfoldable pub sandbox_reconnect_deadline : ℕ → ℕ
sandbox_reconnect_deadline disconnected_at = disconnected_at + sandbox_reconnect_grace_ms

unfoldable pub sandbox_reconnect_directory_state : SessionState → SandboxState
sandbox_reconnect_directory_state state =
    if is_state state cloning_repo then SandboxState.cloning else SandboxState.ready
