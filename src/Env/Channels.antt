-- ===== src/Env/Channels.antt =====
-- env/src/core/core.controller.ts: what reaches an instance, and how it is taken.
use hide_server.Base.{
  str_empty, str_key, nat_key, ℕ, zero, String, Bool, true, false, ◌||◌, Option, none, some,
  Failure, Result, Void, pure, throw, ◌>>=◌, ◌>>◌, modify, if◌then◌else◌, ok, err,
}
use hide_server.Platform.{Event, SocketMessage}
use hide_server.Env.{Config, Yjs, Remote, Instance, Task, emit}
use hide_server.Env.Sync.{open_file, close_file}
use hide_server.Env.Opening.{handle_env_ready, handle_env_open}
use hide_server.Env.Closing.{handle_env_close}
use hide_server.Env.Requests.{StickyAction, Request, handle_env_message, handle_sticky_message}
use hide_server.Gateway.Presence.{defined}
use Prim.Native.String

-- A message on one of the instance's channels of Redis.
pub data ChannelMessage : Type 0 where
  -- `.health`, with the id of the request
  health : String → ChannelMessage
  -- `.openfile` and `.closefile`: for a user's session, a document of a workspace
  openfile : String → String → String → String → ℕ → Option String → ChannelMessage
  closefile : String → String → String → ℕ → ChannelMessage
  -- a message: the user and the session, if any, its id, the workspace and the correlation id
  message :
      Option String → Option String → String → String → Option String → Request → ChannelMessage

abbrev channel : Config → String
channel cfg = String.◌++◌ "env." cfg.instance_id

abbrev reply_to : String → String
reply_to chan = String.◌++◌ chan ".reply"

-- the requests of the container and of other instances come from no user
unfoldable pub is_internal : Request → Bool
is_internal (Request.sticky (StickyAction.workspace_watch _)) = true
is_internal (Request.sticky (StickyAction.doc_hash _)) = true
is_internal _ = false

unfoldable pub sender : Request → Option String → Option String
unfolding is_internal
sender req id = if is_internal req then some "#" else defined id

abbrev both : Option String → Option String → Option (String × String)
both (some a) (some b) = some (a, b)
both (some a) none = none
both none b = none

unfoldable pub publish_value : Config → String → Result (Option String) → Instance → Instance
publish_value cfg id (ok (some v)) s =
    if str_empty v then s else emit (Event.publish (reply_to (channel cfg)) id v) s
publish_value cfg id _ s = s

unfoldable pub take_message :
    Config
    → Remote
    → Yjs
    → String
    → String
    → String
    → String
    → Option String
    → Request
    → Instance
    → Instance
unfolding handle_sticky_message publish_value
take_message cfg r y uid sid id uuid c req s =
    let (v, s') = handle_sticky_message cfg r y uid sid uuid c req s in publish_value cfg id v s'

-- the `message` handler
unfoldable pub handle_channel : Config → Remote → Yjs → ChannelMessage → Instance → Instance
unfolding open_file close_file sender take_message
handle_channel cfg r y (ChannelMessage.health id) s =
    emit (Event.publish (reply_to (String.◌++◌ (channel cfg) ".health")) id "{}") s
handle_channel cfg r y (ChannelMessage.openfile uid sid uuid path ino c) s =
    open_file cfg r y uid sid uuid path ino c s
handle_channel cfg r y (ChannelMessage.closefile uid sid uuid ino) s =
    close_file cfg y uid sid uuid ino s
handle_channel cfg r y (ChannelMessage.message uid sid id uuid c req) s =
    elim (both (sender req uid) (sender req sid)) [
      | none ↦ s
      | some (u, t) ↦ take_message cfg r y u t id uuid c req s
    ]

-- `env.internal` with `affinity`: the provisioner has the workspace's container ready
unfoldable pub tell_ready : Config → Remote → String → String → String → Task Void
unfolding handle_env_ready
tell_ready cfg r uid sid uuid = do
  handle_env_ready cfg r uid sid uuid
  modify (emit (Event.socket_send uid sid SocketMessage.ready))

unfoldable pub handle_affinity : Config → Remote → String → String → String → Task Void
unfolding tell_ready
handle_affinity cfg r uid sid uuid =
    if str_empty uuid || str_empty uid || str_empty sid
    then pure tt
    else tell_ready cfg r uid sid uuid

-- what `env.msg` asks for
pub data EnvRequest : Type 0 where
  open_env : String → EnvRequest
  close_env : EnvRequest
  other : Request → EnvRequest

-- its answer
pub data EnvReply : Type 0 where
  wait : Bool → EnvReply
  done : Bool → EnvReply
  nothing : EnvReply

-- an error without a status is a bad request
unfoldable pub rpc_exception : Failure → Failure
rpc_exception e = elim e.status [ zero ↦ record e { status = 400 } | _ ↦ e ]

unfoldable pub with_rpc_status : {A : Type 0} → Task A → Task A
unfolding rpc_exception
with_rpc_status m s =
    let (r, s') = m s in elim r [ ok a ↦ (ok a, s') | err e ↦ (err (rpc_exception e), s') ]

abbrev invalid_request : Failure
invalid_request = record { status = 400; message = "WORKSPACE_OPEN_INVALID_REQUEST" }

unfoldable pub handle_env_request :
    Config
    → Remote
    → Yjs
    → Option String
    → Option String
    → String
    → Option String
    → EnvRequest
    → Task EnvReply
unfolding handle_env_open with_rpc_status handle_env_close handle_env_message
handle_env_request cfg r y uid sid uuid c (EnvRequest.open_env for_sid) = elim (defined uid) [
  | none ↦ throw invalid_request
  | some u ↦ with_rpc_status (handle_env_open cfg r u for_sid uuid) >>= λ w. pure (EnvReply.wait w)
]
handle_env_request cfg r y uid sid uuid c EnvRequest.close_env = elim (defined uid) [
  | none ↦ pure (EnvReply.done false)
  | some u ↦ handle_env_close cfg r u uuid >> pure (EnvReply.done true)
]
handle_env_request cfg r y uid sid uuid c (EnvRequest.other req) =
    elim (both (defined uid) (defined sid)) [
      | none ↦ pure EnvReply.nothing
      | some (u, t) ↦ handle_env_message cfg r y u t uuid c req >> pure EnvReply.nothing
    ]
