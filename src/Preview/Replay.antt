-- ===== src/Preview/Replay.antt =====
-- The replay of a remembered preview command
-- (packages/worker/src/orchestrator/sandbox-session-lifecycle.ts).
use codevil.Base.{
  ◌∷◌, ◌≡◌, refl, true, false, Option, none, some, arith, not, ◌||◌, is_some, Bool, inl, inr,
  Bool-cases, if◌then◌else◌, is_empty, Option-cases,
}
use codevil.Host.{
  SessionMeta, start, stop, Host, SandboxMessage, send_to_sandbox, PendingPreviewAction, save_meta,
}
use codevil.Consistency.{IsConsistent}
use codevil.Consistency.Steps.{send_to_sandbox-IsConsistent}
use codevil.Coordinator.Frame.{
  KeepsSandbox, KeepsSandbox-refl, KeepsSandbox-trans, send_to_sandbox-KeepsSandbox,
}
use codevil.Preview.{set_pending, flush_pending_preview_action, replay, build_preview_start_message}
use codevil.Connection.{live_sandbox_sockets}
use codevil.Session.{is_terminal_state}
use codevil.Activity.{sandbox_socket_attached}

pub set_pending-IsConsistent :
    (action : Option PendingPreviewAction) (h : Host)
    → IsConsistent h
    → IsConsistent (set_pending action h)
unfolding set_pending save_meta
set_pending-IsConsistent action h c = ground arith

nothing_to_flush :
    (h : Host) → h.meta.pending_preview_action ≡ none → flush_pending_preview_action h ≡ (h, false)
unfolding flush_pending_preview_action
nothing_to_flush h e = ground (arith, e)

-- The command can be taken: the session is not paused, has not ended, and its agent is attached.
abbrev pub refuses : Host → Bool
refuses h =
    is_some h.meta.sandbox_paused_at
    || is_terminal_state h.meta.state
    || not (sandbox_socket_attached h)

abbrev pub takes : Host → Bool
takes h = not (refuses h)

flush_some :
    (h : Host) (action : PendingPreviewAction)
    → h.meta.pending_preview_action ≡ some action
    → flush_pending_preview_action h ≡ (
        if refuses h
        then (h, false)
        else (send_to_sandbox (replay h.meta action) (set_pending none h), true))
unfolding flush_pending_preview_action
flush_some h action e = ground (arith, e)

attached : (h : Host) → refuses h ≡ false → is_empty (live_sandbox_sockets h.sockets) ≡ false
unfolding sandbox_socket_attached
attached h r = ground arith

-- The message that a command stands for, by the session's meta.
abbrev pub IsReplayOf : SessionMeta → PendingPreviewAction → SandboxMessage → Type 0
IsReplayOf meta action message =
    (action.action_type ≡ start
      → message
        ≡ SandboxMessage.preview_start meta.plan_model meta.provider meta.prompt action.app_key)
    × (action.action_type ≡ stop → message ≡ SandboxMessage.preview_stop)

replay-IsReplayOf :
    (meta : SessionMeta) (action : PendingPreviewAction)
    → IsReplayOf meta action (replay meta action)
unfolding replay build_preview_start_message
replay-IsReplayOf meta action = ground arith

sent_once :
    (h : Host)
    → is_empty (live_sandbox_sockets h.sockets) ≡ false
    → (m : SandboxMessage)
    → let g = send_to_sandbox m (set_pending none h) in
      (g.meta.pending_preview_action ≡ none) × (g.saved ≡ g.meta) × (g.sent ≡ m ∷ h.sent)
unfolding send_to_sandbox set_pending save_meta
sent_once h e m = rw (e, send_to_sandbox) (refl, refl, refl)

-- A remembered command is replayed once: if the session is not paused, has not ended and its agent
-- is attached, exactly one message is sent, that of the command with the session's models and prompt,
-- and the command is forgotten, in the meta and its row, so that a second flush changes nothing;
-- otherwise the flush leaves the session as it is.
pub flush-once :
    (h : Host) (action : PendingPreviewAction)
    → h.meta.pending_preview_action ≡ some action
    → let (g, flushed) = flush_pending_preview_action h in
      (flushed ≡ takes h)
      × (takes h ≡ false → g ≡ h)
      × (takes h ≡ true
          → (g.saved ≡ g.meta)
            × ((m : SandboxMessage) × (g.sent ≡ m ∷ h.sent) × IsReplayOf h.meta action m)
            × (flush_pending_preview_action g ≡ (g, false)))
flush-once h action e = elim (Bool-cases (refuses h)) [
  | inl r ↦ rw (flush_some h action e, r) (refl, λ _. refl, λ t. absurd (ground (arith, t)))
  | inr r ↦
      let once = sent_once h (attached h r) (replay h.meta action) in
      rw (flush_some h action e, r)
        (
          refl,
          λ t. absurd (ground (arith, t)),
          λ _. (
            once.1,
            (replay h.meta action, once.2, replay-IsReplayOf h.meta action),
            nothing_to_flush _ (once.0),
          ),
        )
]

set_pending-KeepsSandbox :
    (a : Option PendingPreviewAction) (h : Host) → KeepsSandbox h (set_pending a h)
unfolding set_pending save_meta
set_pending-KeepsSandbox a h = ground arith

pub flush-KeepsSandbox : (h : Host) → KeepsSandbox h (flush_pending_preview_action h).0
unfolding flush_pending_preview_action
flush-KeepsSandbox h = elim (Option-cases h.meta.pending_preview_action) [
  | inl e ↦ ground (arith, e, KeepsSandbox-refl h)
  | inr (a, e) ↦ ground (
    arith,
    e,
    KeepsSandbox-refl h,
    KeepsSandbox-trans (set_pending-KeepsSandbox none h)
        (send_to_sandbox-KeepsSandbox (replay h.meta a) (set_pending none h)),
  )
]

pub flush-IsConsistent :
    (h : Host) → IsConsistent h → IsConsistent (flush_pending_preview_action h).0
unfolding flush_pending_preview_action
flush-IsConsistent h c = elim (Option-cases h.meta.pending_preview_action) [
  | inl e ↦ ground (arith, e)
  | inr (a, e) ↦ ground (
    arith,
    e,
    send_to_sandbox-IsConsistent (replay h.meta a) (set_pending none h)
        (set_pending-IsConsistent none h c),
  )
]
