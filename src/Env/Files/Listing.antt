-- ===== src/Env/Files/Listing.antt =====
-- env/src/core/fs.service.ts: opening and closing a directory, for its watchers.
use hide_server.Base.{
  member, str_key, nat_key, lookup, has, String, ◌≡◌, sym, ap, ◌∙◌, inl, inr, Bool, true, false,
  ◌&&◌, ◌||◌, Option, none, some, List, arith, if◌then◌else◌, Option-cases,
}
use hide_server.Cache.{CachedWorkspace}
use hide_server.Platform.{World, Event, send, get_workspace}
use hide_server.Env.{Remote}
use hide_server.Env.Sessions.{answer, send_error}
use hide_server.Platform.{SocketMessage}
use hide_server.Env.Files.{watchers_of, watch, close_dir, list_dir, open_dir, answer}
use hide_server.Env.Files.Watchers.{is_same}
use hide_server.Env.Files.Framing.{OnlyDirs, open_dir-OnlyDirs, close_dir-OnlyDirs}
use hide_server.Env.Files.Watching.{
  watching, AllTidy, answer_cache, send_error_cache, watching-none, watch-none, watching-watch,
  watch-AllTidy, watching-close_dir, close_dir-AllTidy,
}

pub AllTidy-cache : (w w' : World) → w'.cache ≡ w.cache → AllTidy w → AllTidy w'
AllTidy-cache w w' e tidy j y h = tidy j y (sym (ap (λ c. lookup j c.workspaces) e) ∙ h)

pub watching-cache :
    (uuid : String) (w w' : World) (v q : String)
    → w'.cache ≡ w.cache
    → watching uuid w' v q ≡ watching uuid w v q
watching-cache uuid w w' v q e =
    ap (λ c. elim (lookup uuid c.workspaces) [ none ↦ false | some x ↦ member v (watchers_of q x) ])
      e

abbrev pub is_some : Option (List String) → Bool
is_some none = false
is_some (some _) = true

-- whether a workspace is cached and a directory of it can be listed
abbrev pub can_list : String → Option (List String) → World → Bool
can_list uuid entries w = has uuid w.cache.workspaces && is_some entries

absent : (b h c : Bool) → b ≡ (b || ((h && false) && c))
absent b h c = ground arith

-- `w'` has the cache of `w`
watching-watch_after :
    (u uuid p : String) (w w' : World) (es : List String) (v q : String)
    → w'.cache ≡ w.cache
    → watching uuid (watch u uuid p w') v q
      ≡ (watching uuid w v q || (can_list uuid (some es) w && (is_same u v && is_same p q)))
watching-watch_after u uuid p w w' es v q e = elim (Option-cases (get_workspace w uuid)) [
  | inl none_e ↦
      rw
        (
          watch-none u uuid p w' (at none_e),
          watching-none uuid w' v q (at none_e),
          watching-none uuid w v q none_e,
        )
        (ground (arith, none_e))
  | inr (x, some_e) ↦
      rw (watching-watch u uuid p w' x v q (at some_e), watching-cache uuid w w' v q e)
        (ground (arith, some_e))
]
  where
    at : {o : Option CachedWorkspace} → get_workspace w uuid ≡ o → get_workspace w' uuid ≡ o
    at h = ap (λ c. lookup uuid c.workspaces) e ∙ h

watching-list_dir :
    (u sid uuid p : String) (c : Option String) (o : Option (List String)) (w : World)
    (v q : String)
    → watching uuid (list_dir u sid uuid p c o w) v q
      ≡ (watching uuid w v q || (can_list uuid o w && (is_same u v && is_same p q)))
unfolding list_dir
watching-list_dir u sid uuid p c none w v q =
    watching-cache uuid w (send_error u sid "FS_ERR_FETCH_DIRECTORY" c w) v q
      (send_error_cache u sid "FS_ERR_FETCH_DIRECTORY" c w)
    ∙ absent (watching uuid w v q) (has uuid w.cache.workspaces) (is_same u v && is_same p q)
watching-list_dir u sid uuid p c (some es) w v q =
    watching-watch_after u uuid p w (answer u sid c (λ id. SocketMessage.listed id es) w) es v q
      (answer_cache u sid c (λ id. SocketMessage.listed id es) w)

list_dir-AllTidy :
    (u sid uuid p : String) (c : Option String) (o : Option (List String)) (w : World)
    → AllTidy w
    → AllTidy (list_dir u sid uuid p c o w)
unfolding list_dir
list_dir-AllTidy u sid uuid p c none w tidy =
    AllTidy-cache w (send_error u sid "FS_ERR_FETCH_DIRECTORY" c w)
      (send_error_cache u sid "FS_ERR_FETCH_DIRECTORY" c w) tidy
list_dir-AllTidy u sid uuid p c (some es) w tidy =
    watch-AllTidy u uuid p (answer u sid c (λ id. SocketMessage.listed id es) w) (
      AllTidy-cache w (answer u sid c (λ id. SocketMessage.listed id es) w)
        (answer_cache u sid c (λ id. SocketMessage.listed id es) w) tidy)

-- In a cache where every directory has watchers, each listed once, the directories that users watch
-- form a set to which opening adds one pair of a user and a directory, where the workspace is
-- cached and the directory can be listed, and from which closing takes one pair. Nothing else of the
-- cache changes: not the rest of the workspace, nor any other workspace, presence, membership or
-- timer.
pub open_dir-close_dir-refine :
    (r : Remote) (u sid uuid p : String) (c : Option String) (w : World) (v q : String)
    → AllTidy w
    → (watching uuid (open_dir r u sid uuid p c w) v q ≡ (
        watching uuid w v q
        || (can_list uuid (r.entries uuid p) w && (is_same u v && is_same p q))))
      × (watching uuid (close_dir u uuid p w) v q
          ≡ (if is_same u v && is_same p q then false else watching uuid w v q))
      × OnlyDirs uuid w (open_dir r u sid uuid p c w)
      × OnlyDirs uuid w (close_dir u uuid p w)
unfolding open_dir
open_dir-close_dir-refine r u sid uuid p c w v q tidy = (
  watching-list_dir u sid uuid p c (r.entries uuid p) (send (Event.watch_add uuid p) w) v q,
  watching-close_dir u uuid p w v q tidy,
  open_dir-OnlyDirs r u sid uuid p c w,
  close_dir-OnlyDirs u uuid p w,
)

-- Opening and closing a directory leave no directory in the cache that nobody watches, and list no
-- user twice for one.
pub open_dir-close_dir-AllTidy :
    (r : Remote) (u sid uuid p : String) (c : Option String) (w : World)
    → AllTidy w
    → AllTidy (open_dir r u sid uuid p c w) × AllTidy (close_dir u uuid p w)
unfolding open_dir
open_dir-close_dir-AllTidy r u sid uuid p c w tidy = (
  list_dir-AllTidy u sid uuid p c (r.entries uuid p) (send (Event.watch_add uuid p) w) tidy,
  close_dir-AllTidy u uuid p w tidy,
)
