-- ===== src/Env/Requests.antt =====
-- env/src/core/workspace.service.ts: what a client's message for the environment does.
use hide_server.Base.{
  str_key, nat_key, ℕ, suc, String, Bool, ◌&&◌, Option, none, some, List, Failure, Void, pure,
  or_throw, ◌>>=◌, ◌>>◌, modify, leb, if◌then◌else◌, ok,
}
use hide_server.Platform.{FsEvent, SocketMessage}
use hide_server.Env.{Config, Yjs, Remote, Stat, Instance, Task, in_shared}
use hide_server.Env.Sessions.{answer, send_error}
use hide_server.Env.Files.{open_dir, close_dir}
use hide_server.Env.Files.Bursts.{handle_watch_event}
use hide_server.Env.Files.Batches.{own_doc_hash}
use hide_server.Env.Sync.{open_file, close_file}
use hide_server.Env.Sync.Messages.{handle_sync, handle_open_ack, handle_conflict_resolve}
use hide_server.Env.Terminals.{handle_ssh_connection, handle_ssh_data, handle_ssh_close}
use Prim.Native.String

-- The `stickyActions`, which only the instance that has the thing can take: a workspace and what
-- the action is about. `fs_conflict_resolve` says whether to keep the document.
pub data StickyAction : Type 0 where
  workspace_watch : FsEvent → StickyAction
  doc_hash : ℕ → StickyAction
  ssh_data : String → String → StickyAction
  ssh_close : String → StickyAction
  fs_sync : ℕ → List ℕ → StickyAction
  fs_open_ack : ℕ → StickyAction
  fs_conflict_resolve : ℕ → Bool → StickyAction
  ws_run : String → StickyAction

-- The other actions: a path, or the client of a terminal.
pub data Request : Type 0 where
  sticky : StickyAction → Request
  ssh_request : String → Request
  fs_open : String → Request
  fs_close : String → Option ℕ → Request

-- `this.root + msg.path`
abbrev pub rooted : String → String
rooted path = String.◌++◌ "/workspace" path

-- by what the path is the name of
unfoldable pub open_path :
    Config
    → Remote
    → Yjs
    → String
    → String
    → String
    → String
    → Option String
    → Option Stat
    → Instance
    → Instance
unfolding send_error open_dir open_file
open_path cfg r y uid sid uuid path c none s = in_shared (send_error uid sid "UNKNOWN" c) s
open_path cfg r y uid sid uuid path c (some st) s =
    if st.is_dir
    then in_shared (open_dir r uid sid uuid path c) s
    else open_file cfg r y uid sid uuid path st.ino c s

unfoldable pub handle_open :
    Config → Remote → Yjs → String → String → String → String → Option String → Instance → Instance
unfolding open_path
handle_open cfg r y uid sid uuid path c =
    open_path cfg r y uid sid uuid (rooted path) c (r.stat uuid (rooted path))

-- an inode that is undefined or 0 is none
unfoldable pub handle_close :
    Config → Yjs → String → String → String → String → Option ℕ → Instance → Instance
unfolding close_file close_dir
handle_close cfg y uid sid uuid path (some (suc n)) s = close_file cfg y uid sid uuid (suc n) s
handle_close cfg y uid sid uuid path _ s = in_shared (close_dir uid uuid (rooted path)) s

abbrev is_success : ℕ → Bool
is_success status = leb 200 status && leb status 299

abbrev pub no_answer : Failure
no_answer = record { status = 0; message = "fetch failed" }

unfoldable pub run_command : Remote → String → String → String → String → Option String → Task Void
unfolding answer send_error
run_command r uid sid uuid command c = do
  status ← or_throw (r.command uuid command) no_answer
  modify (
      in_shared (
        if is_success status
        then answer uid sid c SocketMessage.succeeded
        else send_error uid sid "UNKNOWN" c))

-- `handleEnvMessage`: any instance may take these
unfoldable pub handle_env_message :
    Config → Remote → Yjs → String → String → String → Option String → Request → Task Void
unfolding handle_ssh_connection handle_open handle_close
handle_env_message cfg r y uid sid uuid c (Request.sticky a) = pure tt
handle_env_message cfg r y uid sid uuid c (Request.ssh_request client) =
    handle_ssh_connection uid uuid
handle_env_message cfg r y uid sid uuid c (Request.fs_open path) =
    modify (handle_open cfg r y uid sid uuid path c)
handle_env_message cfg r y uid sid uuid c (Request.fs_close path ino) =
    modify (handle_close cfg y uid sid uuid path ino)

abbrev then_nothing : Task Void → Task (Option String)
then_nothing m = m >> pure none

-- the promise that `handleSSHClose` returns is answered as `{}`, however it ends
unfoldable pub not_awaited : Task Void → Task (Option String)
not_awaited m s = (ok (some "{}"), (m s).1)

-- `handleStickyEnvMessage`: what it does, and the value that is published as an answer
unfoldable pub handle_sticky_action :
    Config
    → Remote
    → Yjs
    → String
    → String
    → String
    → Option String
    → StickyAction
    → Task (Option String)
unfolding handle_watch_event own_doc_hash handle_ssh_data handle_ssh_close not_awaited handle_sync
    handle_open_ack handle_conflict_resolve run_command
handle_sticky_action cfg r y uid sid uuid c (StickyAction.workspace_watch e) =
    then_nothing (handle_watch_event uuid e)
handle_sticky_action cfg r y uid sid uuid c (StickyAction.doc_hash ino) = own_doc_hash r y uuid ino
handle_sticky_action cfg r y uid sid uuid c (StickyAction.ssh_data ssh_id input) =
    then_nothing (handle_ssh_data uid uuid ssh_id input)
handle_sticky_action cfg r y uid sid uuid c (StickyAction.ssh_close ssh_id) =
    not_awaited (handle_ssh_close cfg uid sid uuid ssh_id)
handle_sticky_action cfg r y uid sid uuid c (StickyAction.fs_sync ino bytes) =
    then_nothing (modify (handle_sync y uid sid uuid ino bytes))
handle_sticky_action cfg r y uid sid uuid c (StickyAction.fs_open_ack ino) =
    then_nothing (modify (handle_open_ack y uid sid uuid ino))
handle_sticky_action cfg r y uid sid uuid c (StickyAction.fs_conflict_resolve ino keep) =
    then_nothing (modify (handle_conflict_resolve r y uid sid uuid ino keep))
handle_sticky_action cfg r y uid sid uuid c (StickyAction.ws_run command) =
    then_nothing (run_command r uid sid uuid command c)

unfoldable pub handle_sticky_message :
    Config
    → Remote
    → Yjs
    → String
    → String
    → String
    → Option String
    → Request
    → Task (Option String)
unfolding handle_sticky_action
handle_sticky_message cfg r y uid sid uuid c (Request.sticky a) =
    handle_sticky_action cfg r y uid sid uuid c a
handle_sticky_message cfg r y uid sid uuid c _ = pure none
