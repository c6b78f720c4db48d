-- ===== src/Workspaces/Manage.antt =====
-- workspace/src/manage/manage.service.ts: workspaces and their members.
pub mod Deletion
use hide_server.Base.{
  member, to_set, length, for_each, str_empty, Key, str_key, nat_key, ℕ, suc, ◌+◌, String, Bool,
  true, false, not, ◌&&◌, Option, none, some, List, [], ◌∷◌, ◌++◌, Failure, Void, pure, throw, gets,
  or_throw, ◌>>=◌, ◌>>◌, throw_if, modify, ltb, leb, if◌then◌else◌,
}
use hide_server.Workspaces.{
  WorkspaceStatus, ready, Workspace, Membership, Outside, Method, Site, admin, owner, bad_request,
  forbidden, unauthorized, not_found, profile_error, database_error, random_id, emit, filter_by,
  eq_text, eq_id, workspace_by_uuid, workspace_by_id, belongs, membership_of, members_of,
  save_workspace, role_level, transaction, tell_members,
}
use hide_server.Workspaces.Invite.{invite_all_users}
use hide_server.Cache.{CachedPresence, Timer, CachedSession}
use hide_server.Platform.{
  World, Event, SocketMessage, Notification, send, get_presence, set_presence, del_timer,
  del_workspace, find_session,
}
use Prim.Native.Char.{Char, code}

-- the texts of a request; an empty one counts as absent where the source tests it
abbrev pub present : Option String → Option String
present none = none
present (some s) = if str_empty s then none else some s

pub record CreateRequest : Type 0 where
  pub name : Option String
  pub description : Option String
  pub image : Option String
  pub uuid : Option String
  pub dedicated : Bool

-- `nameRegex` of workspace/src/utils/constants.ts, over UTF-16 units: a first unit that ends no
-- line, and at least three others, none of them forbidden
abbrev forbidden_marks : List ℕ
forbidden_marks =
    b'!' ∷ b'@' ∷ b'#' ∷ b'$' ∷ b'%' ∷ b'^' ∷ b'&' ∷ b'*' ∷ b'(' ∷ b')' ∷ b'+' ∷ b'=' ∷ b'{' ∷ b'}'
    ∷ b'[' ∷ b']' ∷ b'`' ∷ b'~' ∷ b':' ∷ b';' ∷ 34 ∷ b'?' ∷ b'/' ∷ b'<' ∷ b'>' ∷ []

abbrev line_ends : List ℕ
line_ends = 10 ∷ 13 ∷ 8232 ∷ 8233 ∷ []

abbrev units : Char → ℕ
units c = if ltb (code c) 65536 then 1 else 2

unfoldable pub rest_valid : String → ℕ → Bool
rest_valid String.[] n = leb 4 n
rest_valid (String.◌∷◌ c s) n =
    let valid = rest_valid s (n + units c) in
    if member (code c) forbidden_marks then false else valid

unfoldable pub name_valid : String → Bool
name_valid String.[] = false
name_valid (String.◌∷◌ c s) = not (member (code c) line_ends) && rest_valid s (units c)

unfoldable pub validate_creation : Option String → Option Failure
validate_creation name = elim (present name) [
  | none ↦ some (bad_request "INVALID_WORKSPACE_NAME")
  | some n ↦ if name_valid n then none else some (bad_request "INVALID_WORKSPACE_NAME")
]

abbrev pub throw_some : Option Failure → Method Void
throw_some none = pure tt
throw_some (some e) = throw e

-- `save` of a new workspace: its columns may not be null, its identifier is generated if there is
-- none, and it is unique
unfoldable pub insert_workspace : Outside → CreateRequest → String → Method Workspace
insert_workspace out req name = do
  description ← or_throw (present req.description) database_error
  image ← or_throw (present req.image) database_error
  generated ← random_id out
  id ← gets (λ s. s.next_id)
  let x : Workspace = record {
    id = id;
    uuid = elim (present req.uuid) [ none ↦ generated | some u ↦ u ];
    image = image;
    name = name;
    description = description;
    status = ready;
    dedicated = req.dedicated;
  }
  taken ← gets (workspace_by_uuid x.uuid)
  throw_if (elim taken [ none ↦ false | some _ ↦ true ]) database_error
  throw_if (not (out.takes_row x)) database_error
  modify (λ s. record s { workspaces = s.workspaces ++ x ∷ []; next_id = suc s.next_id })
  pure x

-- what the transaction saves; the profile is asked for before it is committed
unfoldable pub create_rows : Outside → String → CreateRequest → String → Method Workspace
create_rows out uid req name = do
  x ← insert_workspace out req name
  let m : Membership = record { workspace_id = x.id; user_id = uid; role = owner }
  modify (λ s. record s { memberships = s.memberships ++ m ∷ [] })
  throw_if (not (out.has_profile uid)) profile_error
  pure x

unfoldable pub create_workspace : Outside → String → CreateRequest → Method Workspace
create_workspace out uid req = do
  throw_some (validate_creation req.name)
  name ← or_throw (present req.name) database_error
  transaction out (create_rows out uid req name)

-- the rows of `queryRunner.manager.delete(Membership, …)`
unfoldable pub delete_member : ℕ → String → Site → Site
delete_member id uid s = record s {
  memberships = filter_by (λ m. not (belongs id uid m)) s.memberships;
}

unfoldable pub notify_removed : Outside → String → Workspace → List String → Method Void
notify_removed out actor x [] = pure tt
notify_removed out actor x (uid ∷ uids) = do
  id ← random_id out
  emit (Event.notify uid (Notification.removed id actor x.uuid x.name))
  notify_removed out actor x uids

abbrev pub without : List String → List String → List String
without gone = filter_by (λ u. not (member u gone))

unfoldable pub tell_remaining : Workspace → List String → List String → Site → Site
tell_remaining x members [] s = s
tell_remaining x members (u ∷ us) s = record s {
  world = tell_members x.uuid (without (u ∷ us) (to_set members)) s.world;
}

unfoldable pub update_members :
    Outside → ℕ → String → Workspace → List String → List String → String → Method Void
update_members out now uid x added removed ssh_key = do
  members ← gets (members_of x.id)
  transaction out (modify (for_each (delete_member x.id) removed))
  notify_removed out uid x removed
  invite_all_users out now uid added x.uuid ssh_key
  modify (tell_remaining x members removed)
  emit (Event.modified x.uuid added removed)

pub record UpdateRequest : Type 0 where
  pub id : Option ℕ
  pub name : Option String
  pub description : Option String
  pub members : Option (List String)
  pub ssh_key : String

-- the row with the new name and description
unfoldable pub renamed : Option String → Workspace → Method Workspace
renamed name x = elim (present name) [
  | none ↦ pure x
  | some n ↦ throw_some (validate_creation name) >> pure (record x { name = n })
]

abbrev pub described : Option String → Workspace → Workspace
described none x = x
described (some d) x = record x { description = d }

-- the users that the request has and the table has not, and the other way round
unfoldable pub change_members :
    Outside → ℕ → String → Workspace → Option (List String) → String → Method Void
change_members out now uid x none ssh_key = pure tt
change_members out now uid x (some wanted) ssh_key = do
  actual ← gets (members_of x.id)
  update_members out now uid x (without actual (to_set wanted)) (without wanted (to_set actual))
      ssh_key

unfoldable pub update_workspace : Outside → ℕ → String → UpdateRequest → Method Void
update_workspace out now uid req = do
  id ← or_throw req.id (bad_request "MISSING_WORKSPACE_ID")
  found ← gets (membership_of id uid)
  m ← or_throw found (forbidden "NO_WORKSPACE_MEMBERSHIP")
  throw_if (ltb (role_level m.role) (role_level admin))
      (unauthorized "WORKSPACE_ACTION_NOT_AUTHORIZED")
  row ← gets (workspace_by_id id)
  x ← or_throw row (not_found "WORKSPACE_NOT_FOUND")
  y ← renamed req.name x
  let z = described req.description y
  change_members out now uid z req.members req.ssh_key
  throw_if (not (out.takes_row z)) database_error
  modify (λ s. record s { workspaces = save_workspace z s.workspaces })

unfoldable pub update_workspace_status : String → WorkspaceStatus → Method Void
update_workspace_status uuid status = do
  throw_if (str_empty uuid) (bad_request "MISSING_WORKSPACE_UUID")
  found ← gets (workspace_by_uuid uuid)
  x ← or_throw found (not_found "WORKSPACE_NOT_FOUND")
  modify (λ s. record s { workspaces = save_workspace (record x { status = status }) s.workspaces })

-- The workspace service's answer to `workspace.membership.check`: the image, and whether the
-- environment is dedicated.
unfoldable pub is_user_member_of : String → String → Method (String × Bool)
is_user_member_of uid uuid = do
  found ← gets (workspace_by_uuid uuid)
  x ← or_throw found (not_found "WORKSPACE_NOT_FOUND")
  row ← gets (membership_of x.id uid)
  m ← or_throw row (forbidden "NO_WORKSPACE_MEMBERSHIP")
  pure (x.image, x.dedicated)

-- the limit of the kind of user, 1 if it is no number
unfoldable pub check_eligibility : Option ℕ → Option ℕ → Bool → String → Method Void
check_eligibility guest_limit limit is_guest uid = do
  count ← gets (λ s. length (filter_by (λ x. joined_by x s) s.workspaces))
  throw_if (leb (number (if is_guest then guest_limit else limit)) count)
      (forbidden "MAX_WORKSPACE_QUOTA_REACHED")
  where
    number : Option ℕ → ℕ
    number none = 1
    number (some n) = n

    joined_by : Workspace → Site → Bool
    joined_by x s = elim (membership_of x.id uid s) [ none ↦ false | some _ ↦ true ]

unfoldable pub downgrade_workspace : Outside → String → String → Method Void
downgrade_workspace out uid uuid = do
  id ← random_id out
  emit (Event.notify uid (Notification.downgraded id uuid))
  modify (λ s. elim (workspace_by_uuid uuid s) [
    | none ↦ s
    | some x ↦ record s {
      workspaces = save_workspace (record x { dedicated = false }) s.workspaces;
    }
  ])
