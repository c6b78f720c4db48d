-- ===== src/Gateway/Socket.antt =====
-- gateway/src/socket/socket.gateway.ts: connections, their messages, and timers that end.
pub mod Connections
pub mod Disconnections
pub mod Delivery
use hide_server.Base.{
  member, for_each, str_dec, str_empty, Key, str_key, nat_key, lookup, insert, erase, ℕ, String,
  ite, Bool, true, false, not, ◌||◌, Option, none, some, List, [], ◌∷◌, Failure, Void, pure, throw,
  gets, ◌>>=◌, ◌>>◌, modify, if◌then◌else◌, ok, err,
}
use hide_server.Cache.{Liveness, active, inactive, CachedSession, CachedPresence, CachedWorkspace}
use hide_server.Cache.Keys.{joined, split}
use mathlib.Core.Option
use hide_server.Platform.{
  World, Handler, Event, SocketMessage, EnvAction, EnvMessage, send, get_presence, get_workspace,
  set_workspace,
}
use hide_server.Gateway.{Config, Services}
use hide_server.Gateway.Membership.{check_membership}
use hide_server.Gateway.Presence.{
  defined, type_error, part, later, set_session_state, set_workspace_state, handle_stale_presence,
  handle_presence_message,
}

-- What a socket carries: its handshake, and after the connection its user and session.
pub record Handshake : Type 0 where
  pub socket_id : String
  pub token : Option String
  pub session_id : String

abbrev pub SocketData : Type 0
SocketData = Option (String × String)

abbrev pub lock_failed : Failure
lock_failed = record { status = 0; message = "ExecutionError" }

-- A lock that another handler holds for the whole of the retries is an error.
unfoldable pub acquire_lock : String → Handler Void
acquire_lock name w =
    if member name w.locks
    then (err lock_failed, w)
    else (ok tt, record w { locks = name ∷ w.locks })

unfoldable pub drop_lock : String → List String → List String
drop_lock name [] = []
drop_lock name (l ∷ ls) = ite (str_dec l name) ls (l ∷ drop_lock name ls)

unfoldable pub release : String → Handler Void
release name = modify (λ w. record w { locks = drop_lock name w.locks })

-- `${uid}:${sessionId}`
abbrev pub session_lock : String → String → String
session_lock uid sid = joined uid sid

-- An undefined value in a template text.
abbrev pub text_of : Option String → String
text_of none = "undefined"
text_of (some s) = s

abbrev pub presence_of : World → String → CachedPresence
presence_of w uid = elim (get_presence w uid) [ none ↦ [] | some p ↦ p ]

-- the socket of the same session that is still open elsewhere
unfoldable pub close_previous : Option CachedSession → World → World
close_previous none w = w
close_previous (some s) w =
    if str_empty s.socket_id || str_empty s.gateway_id
    then w
    else send (Event.close_socket s.gateway_id s.socket_id) w

abbrev pub ws_of : Option CachedSession → Option String
ws_of none = none
ws_of (some s) = s.ws_uuid

unfoldable pub touch_workspace : Config → String → String → Option String → Liveness → World → World
touch_workspace cfg uid sid uuid state w =
    set_workspace_state cfg (get_workspace w (text_of uuid)) uid sid uuid state w

-- a connection of a user that is authenticated
unfoldable pub open_session : Config → String → String → String → Handler Void
open_session cfg uid sid socket_id = do
  presence ← gets (λ w. presence_of w uid)
  let old = lookup sid presence
  let s : CachedSession = record {
    state = active;
    socket_id = socket_id;
    gateway_id = cfg.instance_id;
    ws_uuid = ws_of old;
  }
  modify (close_previous old)
  set_session_state cfg (insert sid s presence) uid sid active
  modify (touch_workspace cfg uid sid (ws_of old) active)

unfoldable pub admit : Config → String → Handshake → Handler SocketData
admit cfg uid h = do
  acquire_lock (session_lock uid h.session_id)
  open_session cfg uid h.session_id h.socket_id
  release (session_lock uid h.session_id)
  pure (some (uid, h.session_id))

unfoldable pub handle_connection : Config → Services → Bool → Handshake → Handler SocketData
handle_connection cfg net allow h = if not allow then refuse else elim (defined h.token) [
  | none ↦ refuse
  | some token ↦ elim (net.authenticate token) [ none ↦ refuse | some uid ↦ admit cfg uid h ]
]
  where
    refuse : Handler SocketData
    refuse = modify (send (Event.drop h.socket_id)) >> pure none

-- what is done with the presence that was read under the lock: nothing, not even the release, if
-- the session is not in it
unfoldable pub end_session : Config → String → String → CachedPresence → Handler Void
end_session cfg uid sid presence = elim (lookup sid presence) [
  | none ↦ pure tt
  | some s ↦ do
    set_session_state cfg presence uid sid inactive
    modify (touch_workspace cfg uid sid s.ws_uuid inactive)
    release (session_lock uid sid)
]

unfoldable pub handle_disconnect : Config → SocketData → Handler Void
handle_disconnect cfg none = throw type_error
handle_disconnect cfg (some (uid, sid)) = do
  acquire_lock (session_lock uid sid)
  λ w. end_session cfg uid sid (presence_of w uid) w

unfoldable pub expire : Config → Services → List String → Handler Void
expire cfg net [] = pure tt
expire cfg net (kind ∷ rest) =
    ite (str_dec kind "presence") (handle_stale_presence cfg net rest) (pure tt)

-- The lock has the whole key; the parts of the key say what has ended.
unfoldable pub handle_cache_expiry : Config → Services → String → Handler Void
handle_cache_expiry cfg net key = do acquire_lock key; expire cfg net (split key); release key

-- An answer under the request's correlation id, if it has one.
unfoldable pub answer : String → Option String → SocketMessage → World → World
answer socket_id none msg w = w
answer socket_id (some id) msg w = if str_empty id then w else send (Event.emit socket_id msg) w

abbrev pub failure : Option String → String → SocketMessage
failure id code = SocketMessage.failed (text_of id) code

unfoldable pub handle_fs_loss : String → CachedWorkspace → String → ℕ → World → World
handle_fs_loss socket_id x uuid ino w =
    send (Event.emit socket_id (SocketMessage.lost ino))
      (set_workspace uuid (record x { docs = erase ino x.docs }) w)

unfoldable pub handle_ssh_loss : String → CachedWorkspace → String → String → String → World → World
handle_ssh_loss socket_id x sid uuid ssh w =
    send (Event.emit socket_id (SocketMessage.ssh_closed ssh))
      (set_workspace uuid (record x { sshs = erase sid x.sshs }) w)

-- the instance that a sticky message must reach; none for a message that any may take
unfoldable pub sticky_instance : CachedWorkspace → String → EnvAction → Option (Option String)
sticky_instance x sid (EnvAction.fs_sync ino) = some (lookup ino x.docs)
sticky_instance x sid (EnvAction.fs_open_ack ino) = some (lookup ino x.docs)
sticky_instance x sid (EnvAction.fs_conflict_resolve ino) = some (lookup ino x.docs)
sticky_instance x sid (EnvAction.ssh_data ssh) = some (lookup sid x.sshs)
sticky_instance x sid (EnvAction.ssh_close ssh) = some (lookup sid x.sshs)
sticky_instance x sid EnvAction.ws_run = some (some x.fs)
sticky_instance x sid _ = none

-- what is done about a sticky message whose instance does not answer
unfoldable pub handle_loss : String → CachedWorkspace → String → EnvMessage → World → World
handle_loss socket_id x sid msg = elim msg.action [
  | EnvAction.fs_sync ino ↦ handle_fs_loss socket_id x msg.uuid ino
  | EnvAction.fs_open_ack ino ↦ handle_fs_loss socket_id x msg.uuid ino
  | EnvAction.fs_conflict_resolve ino ↦ handle_fs_loss socket_id x msg.uuid ino
  | EnvAction.ssh_data ssh ↦ handle_ssh_loss socket_id x sid msg.uuid ssh
  | EnvAction.ssh_close ssh ↦ handle_ssh_loss socket_id x sid msg.uuid ssh
  | EnvAction.ws_run ↦ answer socket_id msg.correlation (failure msg.correlation "WS_NOT_REACHABLE")
  | _ ↦ λ w. w
]

unfoldable pub route :
    Services → String → String → String → CachedWorkspace → EnvMessage → World → World
route net socket_id uid sid x msg w = elim (sticky_instance x sid msg.action) [
  | none ↦ send (Event.to_any_env uid sid msg) w
  | some instance? ↦
      if net.is_healthy (text_of instance?)
      then send (Event.to_env (text_of instance?) uid sid msg) w
      else handle_loss socket_id x sid msg w
]

unfoldable pub routed :
    Services → String → String → String → CachedWorkspace → EnvMessage → Bool → Handler Void
routed net socket_id uid sid x msg true = modify (route net socket_id uid sid x msg)
routed net socket_id uid sid x msg false =
    modify (answer socket_id msg.correlation (failure msg.correlation "NOT_A_MEMBER"))

unfoldable pub handle_env_message : Services → String → String → String → EnvMessage → Handler Void
handle_env_message net socket_id uid sid msg w = elim (get_workspace w msg.uuid) [
  | none ↦ modify (answer socket_id msg.correlation (failure msg.correlation "NO_WORKSPACE")) w
  | some x ↦ (check_membership net uid msg.uuid >>= routed net socket_id uid sid x msg) w
]

-- A message of a client: `env`, or `presence` with the workspace that it shows.
pub data ClientMessage : Type 0 where
  env : EnvMessage → ClientMessage
  ping : Option String → Option String → ClientMessage

abbrev pub correlation_of : ClientMessage → Option String
correlation_of (env msg) = msg.correlation
correlation_of (ping shown id) = id

-- `send`: to the socket that the session has now, if it has one
unfoldable pub deliver : String → String → SocketMessage → World → World
deliver uid sid msg w = elim (lookup sid (presence_of w uid)) [
  | none ↦ w
  | some s ↦ if str_empty s.socket_id then w else send (Event.emit s.socket_id msg) w
]

-- The sockets of a broadcast, all found before the first is written to. A user with no presence is
-- passed over; a presence without the session is an error, and so is a session for which there is
-- no text: it reads as "undefined".
unfoldable pub broadcast_sockets : World → List String → List String → Option (List String)
broadcast_sockets w [] sids = some []
broadcast_sockets w (uid ∷ uids) sids = elim (get_presence w uid) [
  | none ↦ broadcast_sockets w uids (later sids)
  | some presence ↦ elim (lookup (part sids) presence) [
    | none ↦ none
    | some s ↦ Option.map (◌∷◌ s.socket_id) (broadcast_sockets w uids (later sids))
  ]
]

unfoldable pub emit_all : SocketMessage → List String → World → World
emit_all msg = for_each (λ socket w. if str_empty socket then w else send (Event.emit socket msg) w)

unfoldable pub broadcast : List String → List String → SocketMessage → Handler Void
broadcast uids sids msg w = elim (broadcast_sockets w uids sids) [
  | none ↦ (err type_error, w)
  | some sockets ↦ (ok tt, emit_all msg sockets w)
]

unfoldable pub make_aware : String → String → Option (List String) → World → World
make_aware uid sid none w = w
make_aware uid sid (some uids) w = deliver uid sid (SocketMessage.awareness uids) w

-- the service that a message of a session is for
unfoldable pub serve :
    Config → Services → String → String → String → CachedPresence → ClientMessage → Handler Void
serve cfg net socket_id uid sid presence (env m) = handle_env_message net socket_id uid sid m
serve cfg net socket_id uid sid presence (ping shown id) = do
  uids ← handle_presence_message cfg net uid sid presence shown
  modify (make_aware uid sid uids)

unfoldable pub handle_socket_message :
    Config → Services → String → String → String → ClientMessage → Handler Void
handle_socket_message cfg net socket_id uid sid msg w =
    let presence = presence_of w uid in
    elim (lookup sid presence) [
      | none ↦ (
        ok tt,
        send (Event.drop socket_id)
            (answer socket_id (correlation_of msg) (failure (correlation_of msg) "NO_SESSION") w),
      )
      | some _ ↦ serve cfg net socket_id uid sid presence msg w
    ]
