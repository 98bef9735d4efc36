-- ===== src/ClientMessages/Access.antt =====
-- Who sends over a WebSocket (packages/worker/src/ws-authorization.ts).
use codevil.Base.{
  ◌≡◌, refl, String, Option, none, some, arith, true, false, inl, inr, ◌⊎◌, ◌∙◌, sym, ap,
  Option-cases, Bool-cases,
}
use codevil.Room.{ParticipantIdentity}
use codevil.Host.{Host}
use codevil.QuestionsStore.{AuthRole, viewer}
use codevil.ClientMessages.{
  ClientMessage, Memberships, can, auth_action_for_client_message, authorize_socket_message,
  web_socket_message,
}

-- A message is let in only from a user with an active membership whose role allows its action.
pub record IsMember (load_membership : Memberships) (msg : ClientMessage) (auth : Option String)
    : Type 0 where
  pub user : String
  pub role : AuthRole
  pub authenticated : auth ≡ some user
  pub membership : load_membership user ≡ some role
  pub permitted : can role (auth_action_for_client_message msg) ≡ true
  pub not_viewer : role ≡ viewer → ⊥

viewer_cannot : (msg : ClientMessage) → can viewer (auth_action_for_client_message msg) ≡ false
unfolding auth_action_for_client_message can
viewer_cannot msg = ground arith

-- Over its WebSocket a client changes nothing of a session unless it is authenticated as a user
-- with an active membership whose role allows the message's action, which no viewer's does.
pub web_socket_message-IsMember :
    (load_membership : Memberships) (msg : ClientMessage) (participant : ParticipantIdentity)
    (auth : Option String) (fresh_id : String) (h : Host)
    → (web_socket_message load_membership msg participant auth fresh_id h ≡ h)
      ⊎ IsMember load_membership msg auth
unfolding web_socket_message authorize_socket_message
web_socket_message-IsMember lm msg participant none fresh_id h = inl refl
web_socket_message-IsMember lm msg participant (some user) fresh_id h =
    elim (Option-cases (lm user)) [
      | inl e ↦ inl (rw (e, authorize_socket_message) refl)
      | inr (role, e) ↦ elim (Bool-cases (can role (auth_action_for_client_message msg))) [
        | inr forbids ↦ inl (rw (e, authorize_socket_message) (rw forbids refl))
        | inl allows ↦ inr (record {
          user = user;
          role = role;
          authenticated = refl;
          membership = e;
          permitted = allows;
          not_viewer = λ v. absurd (
              ground (
                arith,
                sym allows
                    ∙ ap (λ r. can r (auth_action_for_client_message msg)) v
                    ∙ viewer_cannot msg,
              ));
        })
      ]
    ]
