-- ===== src/Workspaces/Manage/Deletion.antt =====
-- workspace/src/manage/manage.service.ts: the deletion of a workspace.
use hide_server.Base.{
  for_each, str_key, nat_key, lookup, insert, ℕ, String, not, none, some, List, Void, gets,
  or_throw, ◌>>=◌, ◌>>◌, throw_if, modify, ltb,
}
use hide_server.Workspaces.{
  Outside, Method, Site, admin, forbidden, not_found, emit, filter_by, eq_text, eq_id,
  workspace_by_uuid, membership_of, members_of, role_level, transaction,
}
use hide_server.Workspaces.Manage.{present}
use hide_server.Cache.{CachedPresence, Timer, CachedSession}
use hide_server.Platform.{
  World, Event, SocketMessage, send, get_presence, set_presence, del_timer, del_workspace,
  find_session,
}

-- a session that has the workspace open no longer has it
abbrev pub close_session : String → String → CachedPresence → CachedSession → World → World
close_session uid sid p x w = set_presence uid (insert sid (record x { ws_uuid = none }) p) w

unfoldable pub disconnect_member : String → String → World → World
disconnect_member uuid uid w = elim (get_presence w uid) [
  | none ↦ w
  | some p ↦ elim (present (find_session uuid p)) [
    | none ↦ w
    | some sid ↦ elim (lookup sid p) [
      | none ↦ w
      | some x ↦ close_session uid sid p x (
          del_timer (Timer.workspace uid sid uuid)
            (send (Event.socket_send uid sid (SocketMessage.disconnect "WORKSPACE_DELETED")) w))
    ]
  ]
]

unfoldable pub clear_cache_on_delete : List String → String → World → World
clear_cache_on_delete members uuid w =
    del_workspace uuid (for_each (disconnect_member uuid) members w)

unfoldable pub delete_rows : ℕ → String → Site → Site
delete_rows id uuid s = record s {
  memberships = filter_by (λ m. not (eq_id m.workspace_id id)) s.memberships;
  workspaces = filter_by (λ x. not (eq_text x.uuid uuid)) s.workspaces;
}

unfoldable pub delete_workspace : Outside → String → String → Method Void
delete_workspace out uid uuid = do
  found ← gets (workspace_by_uuid uuid)
  x ← or_throw found (not_found "WORKSPACE_NOT_FOUND")
  row ← gets (membership_of x.id uid)
  m ← or_throw row (forbidden "NO_WORKSPACE_MEMBERSHIP")
  throw_if (ltb (role_level m.role) (role_level admin))
      (forbidden "WORKSPACE_ACTION_NOT_AUTHORIZED")
  members ← gets (members_of x.id)
  transaction out (modify (delete_rows x.id uuid))
  modify (λ s. record s { world = clear_cache_on_delete members uuid s.world })
  emit (Event.delete_volume uuid)
  emit (Event.deleted uuid members)
