-- ===== src/Env/Files.antt =====
-- env/src/core/fs.service.ts: the directories that users watch.
pub mod Watchers
pub mod Watching
pub mod Framing
pub mod Listing
pub mod Bursts
pub mod Counting
pub mod Bounds
pub mod Batches
use hide_server.Base.{
  member, add_new, to_set, length, All, In, In-append_left, In-append_right, for_each, str_dec,
  str_empty, Key, str_key, nat_key, lookup, insert, erase, Map, keys, values, has, lookup-insert,
  lookup-erase, lookup-insert_self, lookup-erase_self, ℕ, zero, suc, ◌+◌, ◌-◌, ◌*◌, ◌/◌, ◌%◌, ◌≤◌,
  ◌<◌, String, ◌≡◌, refl, sym, ap, subst, ◌∙◌, ◌≢◌, ◌↔◌, ◌⊎◌, inl, inr, ite, Bool, true, false, not,
  ◌&&◌, ◌||◌, Option, none, some, List, [], ◌∷◌, ◌++◌, map, flatten, arith, dec_lt, dec_le,
  ℕ_discrete, Failure, Result, Action, Void, pure, throw, gets, or_throw, ◌>>=◌, ◌>>◌, throw_if,
  modify, bind_ok, bind_err, then_keeps, ltb, leb, if◌then◌else◌, Bool-cases, Option-cases, ok, err,
}
use hide_server.Cache.{CachedWorkspace}
use hide_server.Platform.{World, Handler, Event, SocketMessage, send, get_workspace, set_workspace}
use hide_server.Gateway.Presence.{type_error}
use hide_server.Env.{Remote}
use hide_server.Env.Sessions.{answer, send_error}

-- the first occurrence of a user goes
unfoldable pub drop_first : String → List String → List String
drop_first uid [] = []
drop_first uid (u ∷ us) = ite (str_dec u uid) us (u ∷ drop_first uid us)

abbrev drop_last : List String → List String
drop_last [] = []
drop_last (u ∷ []) = []
drop_last (u ∷ v ∷ us) = u ∷ drop_last (v ∷ us)

-- `watchers.splice(watchers.indexOf(uid), 1)`: at -1 the last one goes
unfoldable pub splice_user : String → List String → List String
splice_user uid us = if member uid us then drop_first uid us else drop_last us

abbrev pub with_dirs : Map String (List String) → CachedWorkspace → CachedWorkspace
with_dirs dirs x = record x { dirs = dirs }

-- A directory that loses its last watcher is no longer watched.
unfoldable pub store_watchers : String → String → List String → CachedWorkspace → CachedWorkspace
store_watchers uuid path [] x = with_dirs (erase path x.dirs) x
store_watchers uuid path (u ∷ us) x = with_dirs (insert path (u ∷ us) x.dirs) x

unfoldable pub unwatch : String → String → List String → World → World
unwatch uuid path [] w = send (Event.watch_remove uuid path) w
unwatch uuid path (u ∷ us) w = w

abbrev pub watchers_of : String → CachedWorkspace → List String
watchers_of path x = elim (lookup path x.dirs) [ none ↦ [] | some us ↦ us ]

unfoldable pub add_watcher : String → String → CachedWorkspace → CachedWorkspace
add_watcher uid path x = with_dirs (insert path (to_set (watchers_of path x ++ uid ∷ [])) x.dirs) x

-- `updateCache` with `add`, and without
unfoldable pub watch : String → String → String → World → World
unfolding add_watcher
watch uid uuid path w = elim (get_workspace w uuid) [
  | none ↦ w
  | some x ↦ set_workspace uuid (add_watcher uid path x) w
]

-- what `updateCache` leaves of the directories, and what it sends
unfoldable pub remove_watcher : String → String → String → CachedWorkspace → CachedWorkspace
unfolding splice_user store_watchers
remove_watcher uid uuid path x =
    if member uid (watchers_of path x)
    then store_watchers uuid path (splice_user uid (watchers_of path x)) x
    else x

unfoldable pub tell_unwatched : String → String → String → CachedWorkspace → World → World
unfolding splice_user unwatch
tell_unwatched uid uuid path x w =
    if member uid (watchers_of path x)
    then unwatch uuid path (splice_user uid (watchers_of path x)) w
    else w

unfoldable pub close_dir : String → String → String → World → World
unfolding remove_watcher tell_unwatched
close_dir uid uuid path w = elim (get_workspace w uuid) [
  | none ↦ w
  | some x ↦ set_workspace uuid (remove_watcher uid uuid path x) (tell_unwatched uid uuid path x w)
]

unfoldable pub list_dir :
    String → String → String → String → Option String → Option (List String) → World → World
unfolding answer send_error watch
list_dir uid sid uuid path c none w = send_error uid sid "FS_ERR_FETCH_DIRECTORY" c w
list_dir uid sid uuid path c (some entries) w =
    watch uid uuid path (answer uid sid c (λ id. SocketMessage.listed id entries) w)

unfoldable pub open_dir : Remote → String → String → String → String → Option String → World → World
unfolding list_dir
open_dir r uid sid uuid path c w =
    list_dir uid sid uuid path c (r.entries uuid path) (send (Event.watch_add uuid path) w)

-- `closeDirs` works on a workspace that was read; its caller stores it.
unfoldable pub close_dirs :
    String → String → List String → CachedWorkspace → Handler CachedWorkspace
unfolding splice_user store_watchers unwatch
close_dirs uid uuid [] x = pure x
close_dirs uid uuid (path ∷ paths) x = do
  watchers ← or_throw (lookup path x.dirs) type_error
  modify (unwatch uuid path (splice_user uid watchers))
  close_dirs uid uuid paths (store_watchers uuid path (splice_user uid watchers) x)
