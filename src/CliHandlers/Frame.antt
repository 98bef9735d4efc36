-- ===== src/CliHandlers/Frame.antt =====
-- Operations that leave the session's meta and its row alone.
use codevil.Base.{
  Bool, true, false, ◌≡◌, refl, String, List, [], ◌∷◌, arith, Bool-cases, inl, inr, is_empty, ◌∙◌,
}
use codevil.Host.{Host, SandboxMessage, send_to_sandbox, emit}
use codevil.QuestionsStore.{list_open_question_ids}
use codevil.CliHandlers.{send_cancellations, cancel_open_questions, only_if}

pub record KeepsMeta (h g : Host) : Type 0 where
  pub meta : g.meta ≡ h.meta
  pub saved : g.saved ≡ h.saved
  pub sockets : g.sockets ≡ h.sockets

send_to_sandbox-KeepsMeta : (m : SandboxMessage) (h : Host) → KeepsMeta h (send_to_sandbox m h)
unfolding send_to_sandbox emit
send_to_sandbox-KeepsMeta m h = ground arith

KeepsMeta-trans : {h g f : Host} → KeepsMeta h g → KeepsMeta g f → KeepsMeta h f
KeepsMeta-trans k l = record {
  meta = l.meta ∙ k.meta;
  saved = l.saved ∙ k.saved;
  sockets = l.sockets ∙ k.sockets;
}

send_cancellations-KeepsMeta :
    (reason : String) (ids : List String) (h : Host) → KeepsMeta h (send_cancellations reason ids h)
unfolding send_cancellations
send_cancellations-KeepsMeta reason [] h = record { meta = refl; saved = refl; sockets = refl }
send_cancellations-KeepsMeta reason (id ∷ ids) h =
    KeepsMeta-trans (send_to_sandbox-KeepsMeta _ h) (send_cancellations-KeepsMeta reason ids _)

pub cancel_open_questions-KeepsMeta :
    (run_id reason : String) (h : Host) → KeepsMeta h (cancel_open_questions run_id reason h)
unfolding cancel_open_questions
cancel_open_questions-KeepsMeta run_id reason h =
    elim (Bool-cases (is_empty (list_open_question_ids h.questions run_id))) [
      | inl e ↦ rw (e, cancel_open_questions) (record { meta = refl; saved = refl; sockets = refl })
      | inr e ↦
          rw (e, cancel_open_questions)
            (KeepsMeta-trans (record { meta = refl; saved = refl; sockets = refl })
              (send_cancellations-KeepsMeta reason _ _))
    ]

-- What holds after a guard, and after what it lets run.
pub only_if_cases {ℓ} :
    (P : Host → Type ℓ) (r : Host × Bool) (k : Host → Host)
    → (r.1 ≡ false → P r.0)
    → (r.1 ≡ true → P (k r.0))
    → P (only_if r k)
only_if_cases P (h, true) k stopped went = went refl
only_if_cases P (h, false) k stopped went = stopped refl

pub only_if_rule {ℓ} :
    (P : Host → Type ℓ) (r : Host × Bool) (k : Host → Host)
    → P r.0
    → (r.1 ≡ true → P (k r.0))
    → P (only_if r k)
only_if_rule P r k stopped went = only_if_cases P r k (λ _. stopped) went
