-- ===== src/Env/Closing.antt =====
-- env/src/core/workspace.service.ts: a user's session closes a workspace, under its lock.
use hide_server.Base.{
  for_each, str_key, nat_key, lookup, insert, String, Bool, true, false, Option, none, some, List,
  [], Void, pure, ◌>>=◌, modify,
}
use hide_server.Cache.{Liveness, CachedPresence, CachedWorkspace, Timer, timer_key}
use hide_server.Platform.{
  World, get_presence, get_workspace, set_presence, set_workspace, set_timer, del_timer,
  find_session,
}
use hide_server.Env.{Config, Remote, Membership, Instance, Task, in_shared}
use hide_server.Env.Files.{close_dir}
use hide_server.Env.Terminals.{close_all_ssh}
use hide_server.Env.Locks.{acquire_lock, under_lock, closed_session, watched_by}

unfoldable pub close_all_dirs : String → String → List String → World → World
unfolding close_dir
close_all_dirs uid uuid = for_each (λ path. close_dir uid uuid path)

-- A workspace of which nobody watches a directory any more is left to its timer.
unfoldable pub retire_workspace : Config → String → String → String → World → World
retire_workspace cfg uid sid uuid w = elim (get_workspace w uuid) [
  | none ↦ w
  | some x ↦ elim x.dirs [
    | [] ↦
        set_timer (Timer.workspace uid sid uuid) 0 cfg.ws_activity_timeout
          (set_workspace uuid (record x { state = Liveness.inactive }) w)
    | _ ↦ w
  ]
]

-- the terminals and the directories of a user, `x` being the workspace before
unfoldable pub leave_workspace :
    Config → String → String → String → CachedWorkspace → Instance → Instance
unfolding close_all_ssh watched_by close_all_dirs retire_workspace
leave_workspace cfg uid sid uuid x s =
    in_shared
      (λ w. retire_workspace cfg uid sid uuid (close_all_dirs uid uuid (watched_by uid x.dirs) w))
      (close_all_ssh cfg uid sid uuid s)

unfoldable pub close_session : String → CachedPresence → CachedPresence
close_session sid p = elim (lookup sid p) [ none ↦ p | some x ↦ insert sid (closed_session x) p ]

unfoldable pub hide_workspace : String → String → String → CachedPresence → World → World
unfolding close_session
hide_workspace uid sid uuid p w =
    del_timer (Timer.workspace uid sid uuid) (set_presence uid (close_session sid p) w)

unfoldable pub detach_session :
    Config → String → String → String → CachedPresence → Instance → Instance
unfolding hide_workspace leave_workspace
detach_session cfg uid sid uuid p s =
    let s' = in_shared (hide_workspace uid sid uuid p) s in
    elim (get_workspace s'.shared uuid) [
      | none ↦ s'
      | some x ↦ leave_workspace cfg uid sid uuid x s'
    ]

unfoldable pub close_workspace : Config → String → String → Instance → Instance
unfolding detach_session
close_workspace cfg uid uuid s = elim (get_presence s.shared uid) [
  | none ↦ s
  | some p ↦ elim (find_session uuid p) [
    | none ↦ s
    | some sid ↦ detach_session cfg uid sid uuid p s
  ]
]

unfoldable pub close_locked : Config → String → String → Bool → Task Void
unfolding under_lock close_workspace
close_locked cfg uid uuid false = pure tt
close_locked cfg uid uuid true = under_lock uuid (modify (close_workspace cfg uid uuid))

unfoldable pub close_as : Config → String → String → Option Membership → Task Void
unfolding acquire_lock close_locked
close_as cfg uid uuid none = pure tt
close_as cfg uid uuid (some m) = acquire_lock uuid >>= λ free. close_locked cfg uid uuid free

unfoldable pub handle_env_close : Config → Remote → String → String → Task Void
unfolding close_as
handle_env_close cfg r uid uuid = close_as cfg uid uuid (r.membership uid uuid)
