-- ===== src/Workspaces/Invite.antt =====
-- workspace/src/invite/invite.service.ts: invitations to a workspace, signed into a token.
use hide_server.Base.{
  str_key, nat_key, ℕ, ◌+◌, String, not, Option, none, some, List, [], ◌∷◌, Failure, Void, pure,
  throw, gets, or_throw, ◌>>=◌, ◌>>◌, throw_if, modify, ltb, if◌then◌else◌,
}
use hide_server.Workspaces.{
  Membership, Invitation, Outside, Method, Site, plain_member, bad_request, forbidden, token_error,
  random_id, emit, eq_text, workspace_by_uuid, belongs, membership_of, members_of, role_level,
  tell_members,
}
use hide_server.Platform.{Event, Notification}

-- a reading of a field of an absent value
abbrev pub type_error : Failure
type_error = record { status = 0; message = "TypeError" }

-- seven days in milliseconds, by a clock without daylight saving
abbrev pub week : ℕ
week = 604800000

unfoldable pub validate_invite : String → String → Site → Option Failure
validate_invite inviter uuid s = elim (workspace_by_uuid uuid s) [
  | none ↦ some (bad_request "WORKSPACE_NOT_FOUND")
  | some x ↦ elim (membership_of x.id inviter s) [
    | none ↦ some (forbidden "NO_WORKSPACE_MEMBERSHIP")
    | some m ↦
        if ltb (role_level m.role) 1
        then some (forbidden "WORKSPACE_ACTION_NOT_AUTHORIZED")
        else none
  ]
]

abbrev pub throw_some : Option Failure → Method Void
throw_some none = pure tt
throw_some (some e) = throw e

-- `inviteUser` once it is validated
unfoldable pub send_invite : Outside → ℕ → String → String → String → String → Method Void
send_invite out now inviter uuid ssh_key invitee = do
  id ← random_id out
  let invitation : Invitation = record {
    notification_id = id;
    inviter_id = inviter;
    invitee_id = invitee;
    workspace_uuid = uuid;
    valid_till = now + week;
    ssh_key = ssh_key;
  }
  emit (Event.notify invitee (Notification.invite id inviter uuid (out.sign invitation)))

unfoldable pub invite_user : Outside → ℕ → String → String → String → String → Method Void
invite_user out now inviter invitee uuid ssh_key = do
  invalid ← gets (validate_invite inviter uuid)
  throw_some invalid
  send_invite out now inviter uuid ssh_key invitee

unfoldable pub send_invites : Outside → ℕ → String → String → String → List String → Method Void
send_invites out now inviter uuid ssh_key [] = pure tt
send_invites out now inviter uuid ssh_key (invitee ∷ rest) =
    send_invite out now inviter uuid ssh_key invitee
    >> send_invites out now inviter uuid ssh_key rest

unfoldable pub invite_all_users : Outside → ℕ → String → List String → String → String → Method Void
invite_all_users out now inviter invitees uuid ssh_key = do
  invalid ← gets (validate_invite inviter uuid)
  throw_some invalid
  send_invites out now inviter uuid ssh_key invitees

-- The end of the token's validity is not looked at.
unfoldable pub validate_accept : Outside → String → String → Method Invitation
validate_accept out invitee token = do
  i ← or_throw (out.verify token) token_error
  throw_if (not (eq_text invitee i.invitee_id)) (bad_request "INVALID_INVITATION_TOKEN")
  pure i

-- `save` of a membership: its row is added, or replaced if there is one for its two keys
unfoldable pub save_membership : Membership → List Membership → List Membership
save_membership m [] = m ∷ []
save_membership m (x ∷ xs) =
    if belongs m.workspace_id m.user_id x then m ∷ xs else x ∷ save_membership m xs

unfoldable pub enter : Invitation → Method String
enter i = do
  found ← gets (workspace_by_uuid i.workspace_uuid)
  x ← or_throw found type_error
  members ← gets (members_of x.id)
  let m : Membership = record { workspace_id = x.id; user_id = i.invitee_id; role = plain_member }
  modify (λ s. record s { memberships = save_membership m s.memberships })
  emit (Event.notification_read i.invitee_id i.notification_id)
  modify (λ s. record s { world = tell_members x.uuid members s.world })
  pure i.ssh_key

unfoldable pub accept_invitation : Outside → String → String → Method String
accept_invitation out invitee token = validate_accept out invitee token >>= enter

unfoldable pub ignore_invitation : Outside → String → String → Method Void
ignore_invitation out invitee token = do
  i ← validate_accept out invitee token
  emit (Event.notification_read i.invitee_id i.notification_id)
