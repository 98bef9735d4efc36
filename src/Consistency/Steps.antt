-- ===== src/Consistency/Steps.antt =====
-- The invariant and the operations that every handler is made of.
use codevil.Base.{ℕ, arith}
use codevil.Host.{
  Host, Event, SandboxMessage, DirectoryPatch, CostInfo, emit, send_to_sandbox, update_directory,
  save_meta, track_cost, request_sandbox_resume,
}
use codevil.Activity.{record_session_activity, ActivitySource, mark_activity, arm_next_alarm}
use codevil.Consistency.{IsConsistent}

pub emit-IsConsistent : (e : Event) (h : Host) → IsConsistent h → IsConsistent (emit e h)
unfolding emit
emit-IsConsistent e h c = ground arith

pub send_to_sandbox-IsConsistent :
    (m : SandboxMessage) (h : Host) → IsConsistent h → IsConsistent (send_to_sandbox m h)
unfolding send_to_sandbox emit
send_to_sandbox-IsConsistent m h c = ground arith

pub update_directory-IsConsistent :
    (p : DirectoryPatch) (h : Host) → IsConsistent h → IsConsistent (update_directory p h)
unfolding update_directory
update_directory-IsConsistent p h c = ground arith

pub track_cost-IsConsistent :
    (cost : CostInfo) (h : Host) → IsConsistent h → IsConsistent (track_cost cost h)
unfolding track_cost emit save_meta
track_cost-IsConsistent cost h c = ground arith

pub request_sandbox_resume-IsConsistent :
    (h : Host) → IsConsistent h → IsConsistent (request_sandbox_resume h)
unfolding request_sandbox_resume
request_sandbox_resume-IsConsistent h c = ground arith

pub arm_next_alarm-IsConsistent :
    (now : ℕ) (h : Host) → IsConsistent h → IsConsistent (arm_next_alarm now h)
unfolding arm_next_alarm
arm_next_alarm-IsConsistent now h c = ground arith

mark_activity-IsConsistent : (h : Host) → IsConsistent h → IsConsistent (mark_activity h)
unfolding mark_activity save_meta
mark_activity-IsConsistent h c = ground arith

pub record_activity-IsConsistent :
    (s : ActivitySource) (h : Host) → IsConsistent h → IsConsistent (record_session_activity s h)
unfolding record_session_activity
record_activity-IsConsistent s h c =
    ground
      (arith, mark_activity-IsConsistent h c, arm_next_alarm-IsConsistent h.now (mark_activity h))

pub ruleset consistent_steps = (
  emit-IsConsistent, send_to_sandbox-IsConsistent, update_directory-IsConsistent,
  track_cost-IsConsistent, request_sandbox_resume-IsConsistent, record_activity-IsConsistent,
)
