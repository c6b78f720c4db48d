-- ===== src/Env/Unlocking.antt =====
-- env/src/core/workspace.service.ts: the lock of a workspace is given back on every path.
use hide_server.Base.{
  member, str_key, nat_key, lookup, insert, String, ◌≡◌, refl, ap, ◌∙◌, inl, inr, Bool, true, false,
  not, Option, none, some, List, [], ◌∷◌, arith, Failure, Result, or_throw, ◌>>=◌, ◌>>◌, throw_if,
  modify, bind_ok, then_keeps, if◌then◌else◌, Bool-cases, Option-cases, ok, err,
}
use hide_server.Cache.{CachedPresence, CachedWorkspace}
use hide_server.Platform.{
  World, Handler, get_presence, get_workspace, set_workspace, set_presence, set_timer, del_timer,
}
use hide_server.Gateway.Socket.{drop_lock}
use hide_server.Env.{Config, Remote, Instance, Task, in_shared, shared_task}
use hide_server.Env.Files.{splice_user, store_watchers, unwatch, close_dirs}
use hide_server.Gateway.Presence.{type_error}
use hide_server.Env.Files.Bursts.{set_workspace_state}
use hide_server.Cache.{Timer, timer_key}
use hide_server.Env.Locks.{
  unknown, refused, has_open, watched_by, open_session, workspace_lock, acquire_lock, release_lock,
  under_lock, rethrown,
}
use hide_server.Env.Opening.{
  close_sessions, end_timers, leave_dirs, invalidate_previous_sessions, taken_over, take_workspace,
  prepare_workspace, attach_session, show_workspace, ready_locked, handle_env_ready,
}

abbrev pub LocksAre : List String → Instance → Type 0
LocksAre ls s = s.shared.locks ≡ ls

-- A step keeps the locks, whether it succeeds or fails.
abbrev pub KeepsLocks : {A : Type 0} → Handler A → Type 0
KeepsLocks {A} m = (w : World) → (m w).1.locks ≡ w.locks

pub unwatch_locks :
    (uuid path : String) (us : List String) (w : World) → (unwatch uuid path us w).locks ≡ w.locks
unfolding unwatch
unwatch_locks uuid path [] w = refl
unwatch_locks uuid path (u ∷ us) w = refl

or_throw_keeps :
    {S A : Type 0} (o : Option A) (e : Failure) (s : S) → (or_throw {S = S} o e s).1 ≡ s
or_throw_keeps none e s = refl
or_throw_keeps (some a) e s = refl

throw_if_keeps : {S : Type 0} (b : Bool) (e : Failure) (s : S) → (throw_if b e s).1 ≡ s
throw_if_keeps true e s = refl
throw_if_keeps false e s = refl

close_dirs_locks :
    (uid uuid : String) (paths : List String) (x : CachedWorkspace)
    → KeepsLocks (close_dirs uid uuid paths x)
unfolding close_dirs
close_dirs_locks uid uuid [] x w = refl
close_dirs_locks uid uuid (path ∷ paths) x w =
    then_keeps (λ v. v.locks ≡ w.locks) (or_throw (lookup path x.dirs) type_error)
      (λ us.
        modify (unwatch uuid path (splice_user uid us))
        >> close_dirs uid uuid paths (store_watchers uuid path (splice_user uid us) x))
      w (ap (λ v. v.locks) (or_throw_keeps (lookup path x.dirs) type_error w))
      (λ us v h.
        close_dirs_locks uid uuid paths (store_watchers uuid path (splice_user uid us) x)
          (unwatch uuid path (splice_user uid us) v)
        ∙ unwatch_locks uuid path (splice_user uid us) v
        ∙ h)

leave_dirs_locks : (uid uuid : String) → KeepsLocks (leave_dirs uid uuid)
unfolding leave_dirs
leave_dirs_locks uid uuid w = elim (Option-cases (get_workspace w uuid)) [
  | inl e ↦ rw (e, leave_dirs) refl
  | inr (x, e) ↦
      rw (e, leave_dirs)
        (then_keeps (λ v. v.locks ≡ w.locks) (close_dirs uid uuid (watched_by uid x.dirs) x)
          (λ x'. modify (set_workspace uuid x')) w
          (close_dirs_locks uid uuid (watched_by uid x.dirs) x w) (λ x' v h. h))
]

end_timers_locks :
    (uid uuid : String) (p : CachedPresence) (w : World) → (end_timers uid uuid p w).locks ≡ w.locks
unfolding end_timers
end_timers_locks uid uuid [] w = refl
end_timers_locks uid uuid ((sid, x) ∷ p) w =
    end_timers_locks uid uuid p (if has_open uuid x then del_timer timer w else w)
    ∙ ended (has_open uuid x)
  where
    timer : Timer
    timer = Timer.workspace uid sid uuid

    ended : (b : Bool) → (if b then del_timer timer w else w).locks ≡ w.locks
    ended true = refl
    ended false = refl

invalidate_locks : (uid uuid : String) → KeepsLocks (invalidate_previous_sessions uid uuid)
unfolding invalidate_previous_sessions
invalidate_locks uid uuid w = elim (Option-cases (get_presence w uid)) [
  | inl e ↦ rw (e, invalidate_previous_sessions) refl
  | inr (p, e) ↦
      rw (e, invalidate_previous_sessions)
        (leave_dirs_locks uid uuid
            (set_presence uid (close_sessions uuid p) (end_timers uid uuid p w))
          ∙ end_timers_locks uid uuid p w)
]

attach_session_locks :
    (uid sid uuid : String) (o : Option CachedPresence) → KeepsLocks (attach_session uid sid uuid o)
unfolding attach_session
attach_session_locks uid sid uuid none w = refl
attach_session_locks uid sid uuid (some p) w =
    then_keeps (λ v. v.locks ≡ w.locks) (or_throw (lookup sid p) type_error)
      (λ x. modify (set_presence uid (insert sid (open_session uuid x) p))) w
      (ap (λ v. v.locks) (or_throw_keeps (lookup sid p) type_error w)) (λ x v h. h)

show_workspace_locks : (uid sid uuid : String) → KeepsLocks (show_workspace uid sid uuid)
unfolding show_workspace
show_workspace_locks uid sid uuid w =
    then_keeps (λ v. v.locks ≡ w.locks) (attach_session uid sid uuid (get_presence w uid))
      (λ _. modify (set_timer (Timer.workspace uid sid uuid) 1 20000)) w
      (attach_session_locks uid sid uuid (get_presence w uid) w) (λ _ v h. h)

take_workspace_locks :
    (cfg : Config) (r : Remote) (uuid : String) (o : Option CachedWorkspace) (s : Instance)
    → LocksAre s.shared.locks (take_workspace cfg r uuid o s).1
unfolding take_workspace
take_workspace_locks cfg r uuid none s = refl
take_workspace_locks cfg r uuid (some x) s =
    then_keeps (LocksAre s.shared.locks)
      (throw_if (not (r.affine uuid cfg.instance_id)) (unknown 0))
      (λ _. modify (set_workspace_state uuid) >> modify (in_shared (set_workspace uuid x))) s
      (ap (λ v. v.shared.locks)
        (throw_if_keeps (not (r.affine uuid cfg.instance_id)) (unknown 0) s))
      (λ _ v h. h)

prepare_workspace_locks :
    (cfg : Config) (r : Remote) (uid uuid : String) (s : Instance)
    → LocksAre s.shared.locks (prepare_workspace cfg r uid uuid s).1
unfolding prepare_workspace shared_task
prepare_workspace_locks cfg r uid uuid s =
    then_keeps (LocksAre s.shared.locks) (shared_task (invalidate_previous_sessions uid uuid))
      (λ _ v. take_workspace cfg r uuid (taken_over cfg (get_workspace v.shared uuid)) v) s
      (invalidate_locks uid uuid s.shared)
      (λ _ v h.
        take_workspace_locks cfg r uuid (taken_over cfg (get_workspace v.shared uuid)) v ∙ h)

rethrown_keeps :
    {A : Type 0} (e : Failure) (m : Task A) (s : Instance) → (rethrown e m s).1 ≡ (m s).1
unfolding rethrown
rethrown_keeps {A} e m s = go (m s).0 refl
  where
    go : (o : Result A) → (m s).0 ≡ o → (rethrown e m s).1 ≡ (m s).1
    go (ok a) h = rw (h, rethrown) refl
    go (err x) h = rw (h, rethrown) refl

-- A step under the lock that keeps the locks gives back the lock that was taken.
drop_lock_taken : (name : String) (ls : List String) → drop_lock name (name ∷ ls) ≡ ls
unfolding drop_lock
drop_lock_taken name ls = ground arith

pub under_lock_locks :
    {A : Type 0} (uuid : String) (ls : List String) (m : Task A) (s : Instance)
    → LocksAre (workspace_lock uuid ∷ ls) (m s).1
    → LocksAre ls (under_lock uuid m s).1
unfolding under_lock release_lock
under_lock_locks uuid ls m s h =
    ap (drop_lock (workspace_lock uuid)) h ∙ drop_lock_taken (workspace_lock uuid) ls

ready_locked_locks :
    (cfg : Config) (r : Remote) (uid sid uuid : String) (ls : List String) (s : Instance)
    → LocksAre (workspace_lock uuid ∷ ls) s
    → LocksAre ls (ready_locked cfg r uid sid uuid true s).1
unfolding ready_locked shared_task
ready_locked_locks cfg r uid sid uuid ls s h =
    then_keeps (LocksAre ls)
      (under_lock uuid (rethrown (unknown 500) (prepare_workspace cfg r uid uuid)))
      (λ _. shared_task (show_workspace uid sid uuid)) s
      (under_lock_locks uuid ls (rethrown (unknown 500) (prepare_workspace cfg r uid uuid)) s (
        ap (λ v. v.shared.locks) (rethrown_keeps (unknown 500) (prepare_workspace cfg r uid uuid) s)
        ∙ prepare_workspace_locks cfg r uid uuid s
        ∙ h))
      (λ _ v k. show_workspace_locks uid sid uuid v.shared ∙ k)

-- A handler that takes the lock of a workspace first
pub acquire_lock_locks :
    {A : Type 0} (uuid : String) (k : Bool → Task A) (s : Instance)
    → ((v : Instance) → (k false v).1 ≡ v)
    → ((v : Instance)
        → LocksAre (workspace_lock uuid ∷ s.shared.locks) v
        → LocksAre s.shared.locks (k true v).1)
    → LocksAre s.shared.locks ((acquire_lock uuid >>= k) s).1
unfolding acquire_lock
acquire_lock_locks {A} uuid k s shut free =
    elim (Bool-cases (member (workspace_lock uuid) s.shared.locks)) [
      | inl e ↦
          rw (bind_ok (acquire_lock uuid) k s s false (taken e)) (ap (λ v. v.shared.locks) (shut s))
      | inr e ↦ rw (bind_ok (acquire_lock uuid) k s with_lock true (got e)) (free with_lock refl)
    ]
  where
    with_lock : Instance
    with_lock = in_shared (λ w. record w { locks = workspace_lock uuid ∷ w.locks }) s

    taken : member (workspace_lock uuid) s.shared.locks ≡ true → acquire_lock uuid s ≡ (ok false, s)
    taken e = rw (e, acquire_lock) refl

    got :
        member (workspace_lock uuid) s.shared.locks ≡ false
        → acquire_lock uuid s ≡ (ok true, with_lock)
    got e = rw (e, acquire_lock) refl

pub handle_env_ready_locks :
    (cfg : Config) (r : Remote) (uid sid uuid : String) (s : Instance)
    → LocksAre s.shared.locks (handle_env_ready cfg r uid sid uuid s).1
unfolding handle_env_ready
handle_env_ready_locks cfg r uid sid uuid s =
    then_keeps (LocksAre s.shared.locks)
      (throw_if (not (r.is_ready uuid)) (refused 503 "WORKSPACE_UNREACHABLE"))
      (λ _. acquire_lock uuid >>= λ free. ready_locked cfg r uid sid uuid free) s
      (ap (λ v. v.shared.locks)
        (throw_if_keeps (not (r.is_ready uuid)) (refused 503 "WORKSPACE_UNREACHABLE") s))
      (λ _ v h.
        acquire_lock_locks uuid (ready_locked cfg r uid sid uuid) v (λ u. refl)
          (λ u k. ready_locked_locks cfg r uid sid uuid v.shared.locks u k)
        ∙ h)
