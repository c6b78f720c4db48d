-- ===== src/Env/Opening.antt =====
-- env/src/core/workspace.service.ts: a session opens a workspace, under its lock.
use hide_server.Base.{
  for_each, str_empty, str_key, nat_key, lookup, insert, String, Bool, true, false, not, Option,
  none, some, [], ◌∷◌, Void, pure, throw, gets, or_throw, ◌>>=◌, ◌>>◌, throw_if, modify,
  if◌then◌else◌, ok,
}
use hide_server.Cache.{Liveness, CachedPresence, CachedWorkspace, Timer, timer_key}
use hide_server.Platform.{
  World, Handler, get_presence, get_workspace, set_presence, set_workspace, set_timer, del_timer,
}
use hide_server.Gateway.Presence.{type_error}
use hide_server.Env.{Config, Remote, Task, in_shared, shared_task}
use hide_server.Env.Files.{close_dirs}
use hide_server.Env.Files.Bursts.{set_workspace_state}
use hide_server.Env.Locks.{
  unknown, refused, acquire_lock, under_lock, rethrown, closed_session, open_session, has_open,
  watched_by,
}

-- the sessions that have the workspace open, none of which has it after
unfoldable pub close_sessions : String → CachedPresence → CachedPresence
close_sessions uuid [] = []
close_sessions uuid ((sid, x) ∷ p) =
    (sid, if has_open uuid x then closed_session x else x) ∷ close_sessions uuid p

unfoldable pub end_timers : String → String → CachedPresence → World → World
end_timers uid uuid p =
    for_each (λ e w. if has_open uuid e.1 then del_timer (Timer.workspace uid e.0 uuid) w else w) p

unfoldable pub leave_dirs : String → String → Handler Void
unfolding watched_by close_dirs
leave_dirs uid uuid w = elim (get_workspace w uuid) [
  | none ↦ (ok tt, w)
  | some x ↦
      (do x' ← close_dirs uid uuid (watched_by uid x.dirs) x; modify (set_workspace uuid x')) w
]

unfoldable pub invalidate_previous_sessions : String → String → Handler Void
unfolding close_sessions end_timers leave_dirs
invalidate_previous_sessions uid uuid w = elim (get_presence w uid) [
  | none ↦ (ok tt, w)
  | some p ↦
      (do
        modify (end_timers uid uuid p)
        modify (set_presence uid (close_sessions uuid p))
        leave_dirs uid uuid)
        w
]

abbrev new_workspace : Config → CachedWorkspace
new_workspace cfg = record {
  state = Liveness.active;
  fs = cfg.instance_id;
  dirs = [];
  docs = [];
  sshs = [];
}

-- A workspace of which nobody watches a directory is taken over: none is one that stays as it is.
unfoldable pub taken_over : Config → Option CachedWorkspace → Option CachedWorkspace
taken_over cfg none = some (new_workspace cfg)
taken_over cfg (some x) = elim x.dirs [ [] ↦ some (record x { fs = cfg.instance_id }) | _ ↦ none ]

unfoldable pub take_workspace : Config → Remote → String → Option CachedWorkspace → Task Void
unfolding set_workspace_state
take_workspace cfg r uuid none = pure tt
take_workspace cfg r uuid (some x) = do
  throw_if (not (r.affine uuid cfg.instance_id)) (unknown 0)
  modify (set_workspace_state uuid)
  modify (in_shared (set_workspace uuid x))

unfoldable pub prepare_workspace : Config → Remote → String → String → Task Void
unfolding shared_task invalidate_previous_sessions taken_over take_workspace
prepare_workspace cfg r uid uuid = do
  shared_task (invalidate_previous_sessions uid uuid)
  x ← gets (λ s. get_workspace s.shared uuid)
  take_workspace cfg r uuid (taken_over cfg x)

-- The session shows the workspace, and its timer starts.
unfoldable pub attach_session : String → String → String → Option CachedPresence → Handler Void
attach_session uid sid uuid none = pure tt
attach_session uid sid uuid (some p) = do
  x ← or_throw (lookup sid p) type_error
  modify (set_presence uid (insert sid (open_session uuid x) p))

unfoldable pub show_workspace : String → String → String → Handler Void
unfolding attach_session
show_workspace uid sid uuid = do
  p ← gets (λ w. get_presence w uid)
  attach_session uid sid uuid p
  modify (set_timer (Timer.workspace uid sid uuid) 1 20000)

-- with the lock, or without where another handler has it
unfoldable pub ready_locked : Config → Remote → String → String → String → Bool → Task Void
unfolding under_lock rethrown prepare_workspace shared_task show_workspace
ready_locked cfg r uid sid uuid false = throw (unknown 0)
ready_locked cfg r uid sid uuid true =
    under_lock uuid (rethrown (unknown 500) (prepare_workspace cfg r uid uuid))
    >> shared_task (show_workspace uid sid uuid)

unfoldable pub handle_env_ready : Config → Remote → String → String → String → Task Void
unfolding acquire_lock ready_locked
handle_env_ready cfg r uid sid uuid =
    throw_if (not (r.is_ready uuid)) (refused 503 "WORKSPACE_UNREACHABLE")
    >> (acquire_lock uuid >>= λ free. ready_locked cfg r uid sid uuid free)

-- the provisioner's answer: whether the user has to wait
unfoldable pub provisioned : Config → Remote → String → String → String → Option Bool → Task Bool
unfolding handle_env_ready
provisioned cfg r uid sid uuid none = throw (refused 500 "WORKSPACE_OPEN_FAILED")
provisioned cfg r uid sid uuid (some true) = pure true
provisioned cfg r uid sid uuid (some false) = handle_env_ready cfg r uid sid uuid >> pure false

unfoldable pub handle_env_open : Config → Remote → String → String → String → Task Bool
unfolding provisioned
handle_env_open cfg r uid sid uuid = do
  throw_if (str_empty sid) (refused 400 "WORKSPACE_OPEN_INVALID_REQUEST")
  m ← or_throw (r.membership uid uuid) (refused 401 "NO_WORKSPACE_MEMBERSHIP")
  provisioned cfg r uid sid uuid (r.wait uid uuid m)
