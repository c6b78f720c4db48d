-- ===== src/Platform.antt =====
-- What a service's handler works on: the shared cache, the locks that are held, and what it has
-- sent so far. Remote services are parameters.
use hide_server.Base.{
  str_dec, str_key, nat_key, lookup, insert, erase, ℕ, String, ite, Bool, Option, none, some, List,
  [], ◌∷◌, ◌++◌, Action,
}
use hide_server.Cache.{
  Cache, CachedPresence, CachedWorkspace, CachedMembership, Timer, Timed, timer_key,
}

-- What a workspace's watcher tells of its file system (libs/common/message/filesystem.message.ts).
pub data FsAction : Type 0 where
  create remove rename write : FsAction

pub data FsKind : Type 0 where
  file dir : FsKind

pub record FsEvent : Type 0 where
  pub watched_path : String
  pub path : String
  pub old_path : Option String
  pub ino : Option ℕ
  pub action : FsAction
  pub timestamp : ℕ
  pub kind : FsKind

-- The messages that a client's socket receives (libs/common/message).
pub data SocketMessage : Type 0 where
  -- `env` messages
  disconnect : String → SocketMessage
  awareness : List String → SocketMessage
  -- `workspace` messages
  members_modified : String → SocketMessage
  -- `fs` messages: the bytes of a synchronisation, for a workspace and an inode
  sync : String → ℕ → List ℕ → SocketMessage
  displaced resolved : String → ℕ → SocketMessage
  conflict : String → ℕ → String → SocketMessage
  lost : ℕ → SocketMessage
  batch : List FsEvent → SocketMessage
  blocked resumed : String → SocketMessage
  -- the answer to a request, under its correlation id
  failed : String → String → SocketMessage
  -- the document's `isConflicting` and `conflictResolver`
  opened : String → Bool → String → SocketMessage
  listed : String → List String → SocketMessage
  succeeded : String → SocketMessage
  -- `provision` messages
  ready : SocketMessage
  -- `ssh` messages: the ssh session, and its output or the client that asked for it
  ssh_output ssh_opened : String → String → SocketMessage
  ssh_failed : String → SocketMessage
  ssh_closed : String → SocketMessage
  -- `notification` messages
  new_notification : String → SocketMessage
  deleted_notification : String → SocketMessage
  pending_notifications : List String → SocketMessage

-- A client's message for an environment (libs/common/message/env.message.ts and its siblings). The
-- first six must reach one certain instance; a number is an inode, a text an ssh session.
pub data EnvAction : Type 0 where
  fs_sync fs_open_ack fs_conflict_resolve : ℕ → EnvAction
  ssh_data ssh_close : String → EnvAction
  ws_run ssh_request fs_open fs_close : EnvAction

pub record EnvMessage : Type 0 where
  pub uuid : String
  pub action : EnvAction
  pub correlation : Option String

-- What a user is notified of by the workspace service, under the notification's id.
pub data Notification : Type 0 where
  -- the inviter, the workspace and the token of the invitation
  invite : String → String → String → String → Notification
  -- the user who did it, the workspace and its name
  removed : String → String → String → String → Notification
  -- whether the request is granted, the code and the request
  access_code : String → Bool → String → String → Notification
  downgraded : String → String → Notification

-- What a handler sends to other services, or does to a socket.
pub data Event : Type 0 where
  -- `gateway.<id>`: close a socket
  close_socket : String → String → Event
  -- `socket.send` to a session of a user
  socket_send : String → String → SocketMessage → Event
  -- `socket.broadcast`, to a list of users and the list of their sessions
  socket_broadcast : List String → List String → SocketMessage → Event
  -- a message to, or the end of, a socket of this gateway
  emit : String → SocketMessage → Event
  drop : String → Event
  -- `env.<id>`, and `env.msg`, which any instance may take: from a session of a user
  to_env : String → String → String → EnvMessage → Event
  to_any_env : String → String → EnvMessage → Event
  -- requests to the provisioner, for a workspace
  dispose delete_volume : String → Event
  -- `workspace.<uuid>.watch.add` and `.remove`
  watch_add watch_remove : String → String → Event
  -- `workspace.members.modified`: the added and the removed
  modified : String → List String → List String → Event
  -- `workspace.deleted`, with the members
  deleted : String → List String → Event
  -- `notification.send` and `notification.read`, for a user
  notify : String → Notification → Event
  notification_read : String → String → Event
  -- `workspace.delete.owned`, for a user
  delete_owned : String → Event
  -- the mail to the administrator, with the token of an access request
  access_mail : String → Event
  -- `env.<id>.openfile` and `.closefile`: an inode of a workspace
  open_remote close_remote : String → String → String → String → ℕ → Event
  -- a write to a file of a workspace: its path and its content
  write_file : String → String → String → Event
  -- the opening and the end of a user's ssh connection to a workspace, and a terminal of it
  connect disconnect_ssh request_shell : String → String → Event
  -- a write to, and the end of, the channel of an ssh session
  stream_write : String → String → Event
  stream_close : String → Event
  -- on a channel of Redis, under an id
  publish : String → String → String → Event

pub record World : Type 0 where
  pub cache : Cache
  pub locks : List String
  pub sent : List Event

abbrev pub Handler : Type 0 → Type 0
Handler A = Action World A

-- `emit` on a client proxy; the log is in the order of sending
abbrev pub send : Event → World → World
send e w = record w { sent = w.sent ++ e ∷ [] }

abbrev pub send_all : List Event → World → World
send_all es w = record w { sent = w.sent ++ es }

-- `cache.get`
abbrev pub get_presence : World → String → Option CachedPresence
get_presence w uid = lookup uid w.cache.presences

abbrev pub get_workspace : World → String → Option CachedWorkspace
get_workspace w uuid = lookup uuid w.cache.workspaces

abbrev pub get_timer : World → Timer → Option Timed
get_timer w t = lookup t w.cache.timers

-- `cache.set`
abbrev pub set_presence : String → CachedPresence → World → World
set_presence uid p w = record w { cache = record c { presences = insert uid p c.presences } }
  where
    open w use {cache as c}

abbrev pub set_workspace : String → CachedWorkspace → World → World
set_workspace uuid x w = record w { cache = record c { workspaces = insert uuid x c.workspaces } }
  where
    open w use {cache as c}

abbrev pub set_membership : String → CachedMembership → World → World
set_membership uid m w = record w { cache = record c { memberships = insert uid m c.memberships } }
  where
    open w use {cache as c}

abbrev pub set_timer : Timer → ℕ → ℕ → World → World
set_timer t v ttl w = record w {
  cache = record c { timers = insert t (record { value = v; ttl = ttl }) c.timers };
}
  where
    open w use {cache as c}

-- `cache.del`
abbrev pub del_presence : String → World → World
del_presence uid w = record w { cache = record c { presences = erase uid c.presences } }
  where
    open w use {cache as c}

abbrev pub del_workspace : String → World → World
del_workspace uuid w = record w { cache = record c { workspaces = erase uuid c.workspaces } }
  where
    open w use {cache as c}

abbrev pub del_timer : Timer → World → World
del_timer t w = record w { cache = record c { timers = erase t c.timers } }
  where
    open w use {cache as c}

-- the session of a presence that has the workspace open:
-- `Object.entries(presence).find(([_, session]) => session.wsUuid === uuid)`
unfoldable pub find_session : String → CachedPresence → Option String
find_session uuid [] = none
find_session uuid ((sid, s) ∷ p) = elim s.ws_uuid [
  | none ↦ find_session uuid p
  | some ws ↦ ite (str_dec ws uuid) (some sid) (find_session uuid p)
]
