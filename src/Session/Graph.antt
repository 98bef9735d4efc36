-- ===== src/Session/Graph.antt =====
-- The graph of transitions of packages/shared/src/session.ts and the histories along it.
use codevil.Base.{Bool, ◌≡◌, true, false, List, [], ◌∷◌, arith}
use codevil.Session.{
  completed, timed_out, SessionState, failed, is_valid_transition, is_terminal_state,
}

-- The states that a session has been in, the last one first, each reached by a valid transition.
pub data IsHistory : List SessionState → Type 0 where
  begin : {s : SessionState} → IsHistory (s ∷ [])
  move :
      {s t : SessionState} {ss : List SessionState}
      → IsHistory (s ∷ ss)
      → is_valid_transition s t ≡ true
      → IsHistory (t ∷ s ∷ ss)

-- The states that a session has ended in.
abbrev pub has_ended : SessionState → Bool
has_ended completed = true
has_ended failed = true
has_ended timed_out = true
has_ended _ = false

left_is_live : (s t : SessionState) → is_valid_transition s t ≡ true → has_ended s ≡ false
unfolding is_valid_transition
left_is_live s t v = ground arith

can_fail : (s : SessionState) → has_ended s ≡ false → is_valid_transition s failed ≡ true
unfolding is_valid_transition
can_fail s live = ground arith

abbrev pub AllLive : List SessionState → Type 0
AllLive [] = Unit {0}
AllLive (s ∷ ss) = (has_ended s ≡ false) × AllLive ss

earlier-AllLive : {s : SessionState} {ss : List SessionState} → IsHistory (s ∷ ss) → AllLive ss
earlier-AllLive begin = tt
earlier-AllLive (move h v) = (left_is_live _ _ v, earlier-AllLive h)

-- In a history of valid transitions no state but the last one is `completed`, `failed` or `timed_out`:
-- a session that has ended so stays as it is. As long as it has not, it can fail at once, and
-- `isTerminalState` says whether it has.
pub IsHistory-AllLive :
    (s : SessionState) (ss : List SessionState)
    → IsHistory (s ∷ ss)
    → AllLive ss
      × (has_ended s ≡ false → IsHistory (failed ∷ s ∷ ss))
      × (is_terminal_state s ≡ has_ended s)
unfolding is_terminal_state
IsHistory-AllLive s ss h = (earlier-AllLive h, λ live. move h (can_fail s live), ended s)
  where
    ended : (t : SessionState) → is_terminal_state t ≡ has_ended t
    ended t = ground arith
