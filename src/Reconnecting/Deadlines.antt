-- ===== src/Reconnecting/Deadlines.antt =====
-- What the alarm does with a deadline that has passed, and what a reconnection restores
-- (packages/worker/src/orchestrator.ts, packages/worker/src/sandbox-connection.ts).
use codevil.Base.{
  ℕ, ◌+◌, ◌≡◌, refl, sym, ◌∙◌, Bool, true, false, ◌||◌, ◌∷◌, none, some, leb, arith, length, subst,
}
use codevil.Session.{SessionState, provisioning_sandbox, is_terminal_state, is_state}
use codevil.Connection.{SandboxSocket, resume, sandbox_connection_mode, live_sandbox_sockets}
use codevil.Host.{Host, save_meta, emit, update_directory}
use codevil.CliHandlers.{drain_queued_agent_work_if_ready}
use codevil.Coordinator.Frame.{KeepsSandbox, KeepsSandbox-trans, arm_next_alarm-KeepsSandbox}
use codevil.Preview.Replay.{flush-KeepsSandbox}
use codevil.Pausing.Settled.{drain-KeepsSandbox}
use codevil.Reconnecting.{
  complete_sandbox_reconnect, finish_reconnect, take_socket, accept_sandbox_web_socket,
  reconnect_is_overdue, provisioning_is_overdue,
}

-- The session's time is over.
unfoldable pub is_over_time : Host → Bool
is_over_time h = elim h.meta.max_time_ms [
  | none ↦ false
  | some limit ↦ leb (h.meta.created_at + limit) h.now
]

-- A deadline of a live session that an alarm at its time finds passed.
abbrev pub is_overdue : Host → Bool
is_overdue h = is_over_time h || reconnect_is_overdue h.now h || provisioning_is_overdue h.now h

resume-mode :
    (state : SessionState) (at n : ℕ)
    → is_terminal_state state ≡ false
    → is_state state provisioning_sandbox ≡ false
    → sandbox_connection_mode state (some at) n ≡ resume
unfolding sandbox_connection_mode
resume-mode state at n live started = ground (arith, live, started)

-- What a reconnection makes of the session's connection.
pub record IsRestored (socket : SandboxSocket) (h g : Host) : Type 0 where
  pub connected : g.meta.sandbox_disconnected_at ≡ none
  pub attached : g.sockets ≡ socket ∷ h.sockets
  pub paused_at : g.meta.sandbox_paused_at ≡ h.meta.sandbox_paused_at
  pub expected_close : g.meta.expected_close ≡ h.meta.expected_close

completed-IsRestored :
    (socket : SandboxSocket) (h : Host)
    → let drained = drain_queued_agent_work_if_ready (record h { sockets = socket ∷ h.sockets }) in
      IsRestored socket h (complete_sandbox_reconnect drained)
unfolding complete_sandbox_reconnect emit save_meta update_directory
completed-IsRestored socket h =
    let kept = drain-KeepsSandbox (record h { sockets = socket ∷ h.sockets }) in
    record {
      connected = refl;
      attached = kept.sockets;
      paused_at = kept.paused_at;
      expected_close = kept.expected_close;
    }

KeepsSandbox-IsRestored :
    (socket : SandboxSocket) (h g f : Host)
    → IsRestored socket h g
    → KeepsSandbox g f
    → IsRestored socket h f
KeepsSandbox-IsRestored socket h g f r k = record {
  connected = k.disconnected_at ∙ r.connected;
  attached = k.sockets ∙ r.attached;
  paused_at = k.paused_at ∙ r.paused_at;
  expected_close = k.expected_close ∙ r.expected_close;
}

-- A live session past provisioning that has lost its sandbox takes the sandbox's next socket: it
-- is connected again, the socket is attached beside those that it holds, and neither the pause
-- marker nor the expected close has changed, whatever queued run or preview command went out.
pub accept-IsRestored :
    (socket : SandboxSocket) (h : Host) (at : ℕ)
    → is_terminal_state h.meta.state ≡ false
    → is_state h.meta.state provisioning_sandbox ≡ false
    → h.meta.sandbox_disconnected_at ≡ some at
    → ((accept_sandbox_web_socket socket h).1 ≡ true)
      × IsRestored socket h (accept_sandbox_web_socket socket h).0
unfolding accept_sandbox_web_socket
accept-IsRestored socket h at live started lost =
    subst
      (λ mode.
        ((take_socket mode h (finish_reconnect mode drained)).1 ≡ true)
        × IsRestored socket h (take_socket mode h (finish_reconnect mode drained)).0)
      (sym mode_eq)
      (
        refl,
        KeepsSandbox-IsRestored socket h _ _ (completed-IsRestored socket h)
            (KeepsSandbox-trans (arm_next_alarm-KeepsSandbox _ _) (flush-KeepsSandbox _)),
      )
  where
    drained : Host
    drained = drain_queued_agent_work_if_ready (record h { sockets = socket ∷ h.sockets })

    mode_eq :
        sandbox_connection_mode h.meta.state h.meta.sandbox_disconnected_at
          (length (live_sandbox_sockets h.sockets))
        ≡ resume
    mode_eq = rw lost (resume-mode h.meta.state at _ live started)
