-- ===== src/Env/Files/Bursts.antt =====
-- env/src/core/fs.service.ts: what a workspace's watcher tells, held back where it tells too much.
use hide_server.Base.{
  str_key, nat_key, lookup, insert, ℕ, ◌+◌, ◌-◌, String, Bool, true, false, not, ◌&&◌, none, some,
  List, [], ◌∷◌, ◌++◌, Void, or_throw, ◌>>=◌, ◌>>◌, modify, ltb, if◌then◌else◌, ok,
}
use hide_server.Platform.{FsEvent, SocketMessage, get_workspace}
use hide_server.Gateway.Presence.{type_error}
use hide_server.Env.{Burst, PathState, Instance, Task, in_shared}
use hide_server.Env.Sessions.{send_to_watchers}

abbrev pub burst_threshold : ℕ
burst_threshold = 50

abbrev pub burst_interval : ℕ
burst_interval = 200

-- `setWorkspace`
unfoldable pub set_workspace_state : String → Instance → Instance
set_workspace_state uuid s = record s {
  path_state = insert uuid (record { batch = []; paths = []; process_due = false }) s.path_state;
}

abbrev pub fresh_burst : Burst
fresh_burst = record { last_event = 0; count = 0; bursting = false; cooling = false }

abbrev pub burst_of : String → PathState → Burst
burst_of path p = elim (lookup path p.paths) [ none ↦ fresh_burst | some b ↦ b ]

-- An event counts, from one where the last one was longer ago than the interval.
unfoldable pub counted : ℕ → Burst → Burst
counted t b = record b {
  count = (if ltb burst_interval (t - b.last_event) then 0 else b.count) + 1;
  last_event = t;
}

unfoldable pub is_start : Burst → Bool
is_start b = not b.bursting && ltb burst_threshold b.count

abbrev pub set_burst : String → Burst → PathState → PathState
set_burst path b p = record p { paths = insert path b p.paths }

abbrev pub set_path_state : String → PathState → Instance → Instance
set_path_state uuid p s = record s { path_state = insert uuid p s.path_state }

-- the burst of a path, written where the workspace is known
unfoldable pub put_burst : String → String → Burst → Instance → Instance
put_burst uuid path b s = elim (lookup uuid s.path_state) [
  | none ↦ s
  | some p ↦ set_path_state uuid (set_burst path b p) s
]

-- `getWatchingUsersFromPath`: a workspace that is not cached has no watchers, and a directory that
-- nobody watches fails.
unfoldable pub watching_users : String → String → Task (List String)
watching_users uuid path s = elim (get_workspace s.shared uuid) [
  | none ↦ (ok [], s)
  | some x ↦ or_throw (lookup path x.dirs) type_error s
]

unfoldable pub signal : String → String → (String → SocketMessage) → Task Void
unfolding watching_users send_to_watchers
signal uuid path msg = do
  uids ← watching_users uuid path
  modify (in_shared (send_to_watchers uuid uids (msg path)))

-- the timer of the cooldown starts again
abbrev pub cool : Burst → Burst
cool b = record b { bursting = true; cooling = true }

-- the event goes to the batch, and its processing is due
unfoldable pub queue_event : String → FsEvent → Burst → PathState → Instance → Instance
queue_event uuid e b p =
    set_path_state uuid
      (record (set_burst e.watched_path b p) { batch = p.batch ++ e ∷ []; process_due = true })

-- The burst starts: the watchers hold back, and the timer starts once they are told.
unfoldable pub start_burst : String → String → Burst → Task Void
unfolding put_burst signal
start_burst uuid path b = do
  modify (put_burst uuid path (record b { bursting = true }))
  signal uuid path SocketMessage.blocked
  modify (put_burst uuid path (cool b))

-- `b` has counted the event
unfoldable pub admit_event : String → FsEvent → Burst → PathState → Task Void
unfolding start_burst put_burst queue_event
admit_event uuid e b p =
    if is_start b
    then start_burst uuid e.watched_path b
    else modify
        (if b.bursting then put_burst uuid e.watched_path (cool b) else queue_event uuid e b p)

unfoldable pub handle_watch_event : String → FsEvent → Task Void
unfolding counted is_start admit_event
handle_watch_event uuid e s = elim (lookup uuid s.path_state) [
  | none ↦ (ok tt, s)
  | some p ↦ admit_event uuid e (counted e.timestamp (burst_of e.watched_path p)) p s
]

-- The timer of the cooldown ends. That the signal fails ends nobody's request.
unfoldable pub end_cooldown : String → String → Burst → Task Void
unfolding put_burst signal
end_cooldown uuid path b = do
  modify (put_burst uuid path (record b { bursting = false; cooling = false }))
  signal uuid path SocketMessage.resumed
