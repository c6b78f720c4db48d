-- ===== src/Env/Leaving.antt =====
-- env/src/core/workspace.service.ts, `handleEnvClose`: what a user who closes a workspace watches of
-- it afterwards, and what others do.
use hide_server.Base.{
  member, str_key, nat_key, String, ◌≡◌, refl, sym, ap, ◌∙◌, Bool, true, false, ◌&&◌, Option, none,
  some, List, ◌∷◌, arith, bind_ok, if◌then◌else◌, ok,
}
use hide_server.Cache.{CachedPresence, CachedWorkspace, timer_key}
use hide_server.Platform.{World, get_presence, get_workspace, find_session}
use hide_server.Env.{Config, Remote, Membership, Instance, in_shared}
use hide_server.Env.Files.Watchers.{is_same}
use hide_server.Env.Files.Watching.{watching, AllTidy, watching-none}
use hide_server.Env.Terminals.{close_all_ssh}
use hide_server.Env.Locks.{workspace_lock, watched_by, acquire_lock, under_lock, release_lock}
use hide_server.Env.Closing.{
  close_all_dirs, retire_workspace, leave_workspace, hide_workspace, detach_session,
  close_workspace, close_locked, close_as, handle_env_close,
}
use hide_server.Env.Restoring.{
  Restored, watching-close_all_dirs, hide_workspace-Restored, close_all_ssh-Restored,
  retire_workspace-Restored, close_all_dirs-AllTidy, watched_by_complete,
}

-- The user watches no directory, and the others what they watched.
abbrev pub LeftBy : String → String → World → World → Type 0
LeftBy uid uuid w w' =
    (v q : String) → watching uuid w' v q ≡ (if is_same uid v then false else watching uuid w v q)

leave_workspace_lem :
    (cfg : Config) (uid sid uuid : String) (x : CachedWorkspace) (s : Instance)
    → get_workspace s.shared uuid ≡ some x
    → AllTidy s.shared
    → LeftBy uid uuid s.shared (leave_workspace cfg uid sid uuid x s).shared
unfolding leave_workspace
leave_workspace_lem cfg uid sid uuid x s e tidy v q =
    let w1 : World = (close_all_ssh cfg uid sid uuid s).shared in
    let h : Restored uuid s.shared w1 = close_all_ssh-Restored cfg uid sid uuid s tidy in
    let ps : List String = watched_by uid x.dirs in
    let w2 : World = close_all_dirs uid uuid ps w1 in
    let k : Restored uuid w2 (retire_workspace cfg uid sid uuid w2) =
      retire_workspace-Restored cfg uid sid uuid w2
        (close_all_dirs-AllTidy uid uuid ps w1 h.tidy) in
    k.same v q
    ∙ watching-close_all_dirs uid uuid ps w1 v q h.tidy
    ∙ ap (λ b. if is_same uid v && member q ps then false else b) (h.same v q)
    ∙ watched_by_complete uid v q uuid x s.shared e

nobody_left : (a b : Bool) → b ≡ false → b ≡ (if a then false else b)
nobody_left a b h = ground arith

detach_session_lem :
    (cfg : Config) (uid sid uuid : String) (p : CachedPresence) (s : Instance)
    → AllTidy s.shared
    → LeftBy uid uuid s.shared (detach_session cfg uid sid uuid p s).shared
unfolding detach_session
detach_session_lem cfg uid sid uuid p s tidy v q = go (get_workspace hidden.shared uuid) refl
  where
    hidden : Instance
    hidden = in_shared (hide_workspace uid sid uuid p) s

    h : Restored uuid s.shared hidden.shared
    h = hide_workspace-Restored uid sid uuid p s.shared tidy

    go :
        (o : Option CachedWorkspace)
        → get_workspace hidden.shared uuid ≡ o
        → watching uuid (detach_session cfg uid sid uuid p s).shared v q
          ≡ (if is_same uid v then false else watching uuid s.shared v q)
    go none e =
        rw (e, detach_session)
          (h.same v q ∙ nobody_left _ _ (sym (h.same v q) ∙ watching-none uuid hidden.shared v q e))
    go (some x) e =
        rw (e, detach_session)
          (leave_workspace_lem cfg uid sid uuid x hidden e h.tidy v q
            ∙ ap (λ b. if is_same uid v then false else b) (h.same v q))

close_workspace_lem :
    (cfg : Config) (uid sid uuid : String) (p : CachedPresence) (s : Instance)
    → get_presence s.shared uid ≡ some p
    → find_session uuid p ≡ some sid
    → close_workspace cfg uid uuid s ≡ detach_session cfg uid sid uuid p s
unfolding close_workspace
close_workspace_lem cfg uid sid uuid p s e f = rw (e, close_workspace, f) refl

close_locked_lem :
    (cfg : Config) (uid uuid : String) (s : Instance)
    → (close_locked cfg uid uuid true s).1 ≡ release_lock uuid (close_workspace cfg uid uuid s)
unfolding close_locked under_lock
close_locked_lem cfg uid uuid s = refl

-- with the lock of the workspace
abbrev locked : String → Instance → Instance
locked uuid = in_shared (λ w. record w { locks = workspace_lock uuid ∷ w.locks })

acquire_lock_free :
    (uuid : String) (s : Instance)
    → member (workspace_lock uuid) s.shared.locks ≡ false
    → acquire_lock uuid s ≡ (ok true, locked uuid s)
unfolding acquire_lock
acquire_lock_free uuid s e = rw (e, acquire_lock) refl

close_as_free :
    (cfg : Config) (uid uuid : String) (m : Membership) (s : Instance)
    → member (workspace_lock uuid) s.shared.locks ≡ false
    → close_as cfg uid uuid (some m) s ≡ close_locked cfg uid uuid true (locked uuid s)
unfolding close_as
close_as_free cfg uid uuid m s e =
    bind_ok (acquire_lock uuid) (close_locked cfg uid uuid) s (locked uuid s) true
      (acquire_lock_free uuid s e)

handle_env_close_member :
    (cfg : Config) (r : Remote) (uid uuid : String) (o : Option Membership) (s : Instance)
    → r.membership uid uuid ≡ o
    → handle_env_close cfg r uid uuid s ≡ close_as cfg uid uuid o s
unfolding handle_env_close
handle_env_close_member cfg r uid uuid o s e = ap (λ a. close_as cfg uid uuid a s) e

watching-release_lock :
    (uuid : String) (s : Instance) (v q : String)
    → watching uuid (release_lock uuid s).shared v q ≡ watching uuid s.shared v q
unfolding release_lock
watching-release_lock uuid s v q = refl

-- A member who closes a workspace that is not locked, and that one of the member's sessions has
-- open, watches none of its directories afterwards, and every other user watches what that user
-- watched before; this in a cache where every directory has watchers, each listed once.
pub handle_env_close_leaves :
    (cfg : Config) (r : Remote) (uid sid uuid : String) (m : Membership) (p : CachedPresence)
    (s : Instance)
    → AllTidy s.shared
    → r.membership uid uuid ≡ some m
    → member (workspace_lock uuid) s.shared.locks ≡ false
    → get_presence s.shared uid ≡ some p
    → find_session uuid p ≡ some sid
    → LeftBy uid uuid s.shared (handle_env_close cfg r uid uuid s).1.shared
handle_env_close_leaves cfg r uid sid uuid m p s tidy is_member free e f v q =
    ap (λ (u : Instance). watching uuid u.shared v q) closed
    ∙ watching-release_lock uuid (close_workspace cfg uid uuid (locked uuid s)) v q
    ∙ ap (λ (u : Instance). watching uuid u.shared v q)
        (close_workspace_lem cfg uid sid uuid p (locked uuid s) e f)
    ∙ detach_session_lem cfg uid sid uuid p (locked uuid s) tidy v q
  where
    closed :
        (handle_env_close cfg r uid uuid s).1
        ≡ release_lock uuid (close_workspace cfg uid uuid (locked uuid s))
    closed =
        ap (λ t. t.1)
          (handle_env_close_member cfg r uid uuid (some m) s is_member
            ∙ close_as_free cfg uid uuid m s free)
        ∙ close_locked_lem cfg uid uuid (locked uuid s)
