-- ===== src/Env/Released.antt =====
-- env/src/core/workspace.service.ts: opening and closing a workspace never leave it locked.
use hide_server.Base.{
  member, for_each, str_key, nat_key, String, ◌≡◌, refl, ap, ◌∙◌, inl, inr, Bool, true, false,
  Option, none, some, List, [], ◌∷◌, arith, modify, if◌then◌else◌, Option-cases,
}
use hide_server.Cache.{CachedPresence, CachedWorkspace}
use hide_server.Platform.{World, Event, get_presence, get_workspace, find_session}
use hide_server.Env.{Config, Remote, Connection, Membership, Instance, in_shared, emit}
use hide_server.Env.Files.{watchers_of, splice_user, unwatch, tell_unwatched, close_dir}
use hide_server.Env.Files.Watching.{close_dir-none, close_dir-some}
use hide_server.Env.Terminals.{
  connection_of, sessions_of, end_connection, update_conn_cache, close_all_ssh,
}
use hide_server.Env.Locks.{workspace_lock, watched_by}
use hide_server.Env.Opening.{handle_env_ready}
use hide_server.Env.Closing.{
  close_all_dirs, retire_workspace, leave_workspace, hide_workspace, detach_session,
  close_workspace, close_locked, close_as, handle_env_close,
}
use hide_server.Env.Unlocking.{
  LocksAre, unwatch_locks, under_lock_locks, acquire_lock_locks, handle_env_ready_locks,
}

tell_unwatched_locks :
    (uid uuid path : String) (x : CachedWorkspace) (w : World)
    → (tell_unwatched uid uuid path x w).locks ≡ w.locks
unfolding tell_unwatched
tell_unwatched_locks uid uuid path x w = asked (member uid (watchers_of path x))
  where
    asked :
        (b : Bool)
        → (if b then unwatch uuid path (splice_user uid (watchers_of path x)) w else w).locks
          ≡ w.locks
    asked true = unwatch_locks uuid path (splice_user uid (watchers_of path x)) w
    asked false = refl

close_dir_locks : (uid uuid path : String) (w : World) → (close_dir uid uuid path w).locks ≡ w.locks
close_dir_locks uid uuid path w = elim (Option-cases (get_workspace w uuid)) [
  | inl e ↦ ap (λ v. v.locks) (close_dir-none uid uuid path w e)
  | inr (x, e) ↦
      ap (λ v. v.locks) (close_dir-some uid uuid path w x e)
      ∙ tell_unwatched_locks uid uuid path x w
]

close_all_dirs_locks :
    (uid uuid : String) (paths : List String) (w : World)
    → (close_all_dirs uid uuid paths w).locks ≡ w.locks
unfolding close_all_dirs
close_all_dirs_locks uid uuid [] w = refl
close_all_dirs_locks uid uuid (path ∷ paths) w =
    close_all_dirs_locks uid uuid paths (close_dir uid uuid path w)
    ∙ close_dir_locks uid uuid path w

retire_workspace_locks :
    (cfg : Config) (uid sid uuid : String) (w : World)
    → (retire_workspace cfg uid sid uuid w).locks ≡ w.locks
unfolding retire_workspace
retire_workspace_locks cfg uid sid uuid w = elim (Option-cases (get_workspace w uuid)) [
  | inl e ↦ rw (e, retire_workspace) refl
  | inr (x, e) ↦ rw (e, retire_workspace) (ground arith)
]

update_conn_cache_locks :
    (cfg : Config) (sid uuid : String) (add : Bool) (w : World)
    → (update_conn_cache cfg sid uuid add w).locks ≡ w.locks
unfolding update_conn_cache
update_conn_cache_locks cfg sid uuid add w = elim (Option-cases (get_workspace w uuid)) [
  | inl e ↦ rw (e, update_conn_cache) refl
  | inr (x, e) ↦ rw (e, update_conn_cache) refl
]

close_streams_locks :
    (ids : List String) (s : Instance)
    → LocksAre s.shared.locks (for_each (λ id. emit (Event.stream_close id)) ids s)
close_streams_locks [] s = refl
close_streams_locks (id ∷ ids) s = close_streams_locks ids (emit (Event.stream_close id) s)

end_connection_locks :
    (uid uuid : String) (o : Option Connection) (s : Instance)
    → LocksAre s.shared.locks (end_connection uid uuid o s)
end_connection_locks uid uuid none s = refl
end_connection_locks uid uuid (some c) s = refl

close_all_ssh_locks :
    (cfg : Config) (uid sid uuid : String) (s : Instance)
    → LocksAre s.shared.locks (close_all_ssh cfg uid sid uuid s)
unfolding close_all_ssh
close_all_ssh_locks cfg uid sid uuid s =
    update_conn_cache_locks cfg sid uuid false _
    ∙ end_connection_locks uid uuid (connection_of uid uuid s)
        (for_each (λ id. emit (Event.stream_close id)) (sessions_of (connection_of uid uuid s)) s)
    ∙ close_streams_locks (sessions_of (connection_of uid uuid s)) s

leave_workspace_locks :
    (cfg : Config) (uid sid uuid : String) (x : CachedWorkspace) (s : Instance)
    → LocksAre s.shared.locks (leave_workspace cfg uid sid uuid x s)
unfolding leave_workspace
leave_workspace_locks cfg uid sid uuid x s =
    retire_workspace_locks cfg uid sid uuid _
    ∙ close_all_dirs_locks uid uuid (watched_by uid x.dirs) _
    ∙ close_all_ssh_locks cfg uid sid uuid s

detach_session_locks :
    (cfg : Config) (uid sid uuid : String) (p : CachedPresence) (s : Instance)
    → LocksAre s.shared.locks (detach_session cfg uid sid uuid p s)
unfolding detach_session hide_workspace
detach_session_locks cfg uid sid uuid p s =
    go (get_workspace (hide_workspace uid sid uuid p s.shared) uuid) refl
  where
    go :
        (o : Option CachedWorkspace)
        → get_workspace (hide_workspace uid sid uuid p s.shared) uuid ≡ o
        → LocksAre s.shared.locks (detach_session cfg uid sid uuid p s)
    go none e = rw (e, detach_session) refl
    go (some x) e =
        rw (e, detach_session)
          (leave_workspace_locks cfg uid sid uuid x (in_shared (hide_workspace uid sid uuid p) s))

close_workspace_locks :
    (cfg : Config) (uid uuid : String) (s : Instance)
    → LocksAre s.shared.locks (close_workspace cfg uid uuid s)
unfolding close_workspace
close_workspace_locks cfg uid uuid s = elim (Option-cases (get_presence s.shared uid)) [
  | inl e ↦ rw (e, close_workspace) refl
  | inr (p, e) ↦ rw (e, close_workspace) (found p (find_session uuid p))
]
  where
    found :
        (p : CachedPresence) (o : Option String)
        → LocksAre s.shared.locks
            (elim o [ none ↦ s | some sid ↦ detach_session cfg uid sid uuid p s ])
    found p none = refl
    found p (some sid) = detach_session_locks cfg uid sid uuid p s

close_as_locks :
    (cfg : Config) (uid uuid : String) (o : Option Membership) (s : Instance)
    → LocksAre s.shared.locks (close_as cfg uid uuid o s).1
unfolding close_as close_locked
close_as_locks cfg uid uuid none s = refl
close_as_locks cfg uid uuid (some m) s =
    acquire_lock_locks uuid (close_locked cfg uid uuid) s (λ v. unlocked v) (λ v h. locked v h)
  where
    unlocked : (v : Instance) → (close_locked cfg uid uuid false v).1 ≡ v
    unlocked v = refl

    locked :
        (v : Instance)
        → LocksAre (workspace_lock uuid ∷ s.shared.locks) v
        → LocksAre s.shared.locks (close_locked cfg uid uuid true v).1
    locked v h =
        under_lock_locks uuid s.shared.locks (modify (close_workspace cfg uid uuid)) v
          (close_workspace_locks cfg uid uuid v ∙ h)

-- However opening or closing a workspace ends, with an answer or with an error, the locks that are
-- held afterwards are those that were held before: none is left behind.
pub handle_env_ready-handle_env_close-release :
    (cfg : Config) (r : Remote) (uid sid uuid : String) (s : Instance)
    → LocksAre s.shared.locks (handle_env_ready cfg r uid sid uuid s).1
      × LocksAre s.shared.locks (handle_env_close cfg r uid uuid s).1
unfolding handle_env_close
handle_env_ready-handle_env_close-release cfg r uid sid uuid s = (
  handle_env_ready_locks cfg r uid sid uuid s,
  close_as_locks cfg uid uuid (r.membership uid uuid) s,
)
