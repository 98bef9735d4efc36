-- ===== src/Tests/Pausing.antt =====
-- The theorems on pauses, resumes, sockets and alarms, at concrete sessions.
use codevil.Base.{◌<◌, ℕ, ◌≡◌, refl, true, [], none, some, ◌==◌, if◌then◌else◌}
use codevil.Session.{ready, is_terminal_state}
use codevil.Host.{Host, with_meta}
use codevil.Examples.{meta_in, host_of, live_socket}
use codevil.Connection.{SandboxSocket}
use codevil.Pausing.{
  pause_done, end_pause, ResumeOutcome, resume_failed, resume_done, resume_sandbox, lease_failed,
}
use codevil.Pausing.Settled.{is_settled, resume_sandbox-settled, AfterPause, end_pause-AfterPause}
use codevil.Reconnecting.{AlarmAnswers, accept_sandbox_web_socket}
use codevil.Reconnecting.Deadlines.{IsRestored, accept-IsRestored}

-- An idle session, and the same one while its sandbox is paused, is lost, or its time is over.
abbrev idle : Host
idle = host_of (meta_in ready none [])

abbrev asleep : Host
asleep = with_meta (record idle.meta { sandbox_paused_at = some 9_000 }) idle

abbrev lost : Host
lost = with_meta (record idle.meta { sandbox_disconnected_at = some 9_000 }) idle

abbrev late : Host
late = record idle { now = 4_000_000 }

-- The first two attempts fail.
abbrev third_time : ℕ → ResumeOutcome
third_time left = if left == 0 then resume_done else resume_failed

resume_sandbox-settled_example :
    (is_settled (resume_sandbox "e2b" (λ left h. h) (λ left h. h) third_time asleep) ≡ true)
    × ((other : ℕ → ResumeOutcome)
        → ((n : ℕ) → n < 3 → third_time n ≡ other n)
        → resume_sandbox "e2b" (λ left h. h) (λ left h. h) third_time asleep
          ≡ resume_sandbox "e2b" (λ left h. h) (λ left h. h) other asleep)
resume_sandbox-settled_example =
    resume_sandbox-settled "e2b" (λ left h. h) (λ left h. h) third_time asleep

end_pause-AfterPause_example : AfterPause pause_done 10_000 idle (end_pause pause_done 10_000 idle)
unfolding is_terminal_state
end_pause-AfterPause_example = end_pause-AfterPause pause_done 10_000 idle refl refl (refl, tt)

abbrev answers : AlarmAnswers
answers = record {
  process_output = "";
  lease = lease_failed;
  during_lease = λ h. h;
  pause = pause_done;
  during_pause = λ h. h;
}

abbrev new_socket : SandboxSocket
new_socket = record live_socket { id = 2 }

accept-IsRestored_example :
    ((accept_sandbox_web_socket new_socket lost).1 ≡ true)
    × IsRestored new_socket lost (accept_sandbox_web_socket new_socket lost).0
unfolding is_terminal_state
accept-IsRestored_example = accept-IsRestored new_socket lost 9_000 refl refl refl
