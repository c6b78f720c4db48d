-- ===== src/Env/Locks.antt =====
-- env/src/core/workspace.service.ts: the lock of a workspace, and what a user has open of it.
use hide_server.Base.{
  member, str_dec, str_key, nat_key, Map, ℕ, String, ite, Bool, true, false, none, some, List, [],
  ◌∷◌, Failure, if◌then◌else◌, ok, err,
}
use hide_server.Cache.{CachedSession, timer_key}
use hide_server.Gateway.Socket.{drop_lock}
use hide_server.Env.{Instance, Task, in_shared}
use Prim.Native.String

abbrev pub unknown : ℕ → Failure
unknown status = record { status = status; message = "UNKNOWN" }

abbrev pub refused : ℕ → String → Failure
refused status message = record { status = status; message = message }

abbrev pub workspace_lock : String → String
workspace_lock uuid = String.◌++◌ "locks:workspace:" uuid

-- `acquireLock`: false where another handler holds the lock for the whole of the retries
unfoldable pub acquire_lock : String → Task Bool
acquire_lock uuid s =
    if member (workspace_lock uuid) s.shared.locks
    then (ok false, s)
    else (ok true, in_shared (λ w. record w { locks = workspace_lock uuid ∷ w.locks }) s)

unfoldable pub release_lock : String → Instance → Instance
release_lock uuid = in_shared (λ w. record w { locks = drop_lock (workspace_lock uuid) w.locks })

-- `try { … } finally { await lock.release(); }`
unfoldable pub under_lock : {A : Type 0} → String → Task A → Task A
unfolding release_lock
under_lock uuid m s = let (r, s') = m s in (r, release_lock uuid s')

-- `catch`: any error becomes the one that is given
unfoldable pub rethrown : {A : Type 0} → Failure → Task A → Task A
rethrown e m s = let (r, s') = m s in elim r [ ok a ↦ (ok a, s') | err _ ↦ (err e, s') ]

abbrev pub closed_session : CachedSession → CachedSession
closed_session x = record x { ws_uuid = none }

abbrev pub open_session : String → CachedSession → CachedSession
open_session uuid x = record x { ws_uuid = some uuid }

abbrev pub has_open : String → CachedSession → Bool
has_open uuid x = elim x.ws_uuid [ none ↦ false | some ws ↦ ite (str_dec ws uuid) true false ]

-- the directories that a user watches
unfoldable pub watched_by : String → Map String (List String) → List String
watched_by uid [] = []
watched_by uid ((path, uids) ∷ dirs) =
    if member uid uids then path ∷ watched_by uid dirs else watched_by uid dirs
