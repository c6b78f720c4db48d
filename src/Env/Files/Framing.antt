-- ===== src/Env/Files/Framing.antt =====
-- env/src/core/fs.service.ts: what opening and closing a directory leave as it is in the cache.
use hide_server.Base.{
  member, str_dec, str_key, nat_key, lookup, lookup-insert, lookup-insert_self, String, ◌≡◌, refl,
  sym, ap, subst, ◌∙◌, ◌≢◌, inl, inr, Bool, true, false, Option, none, some, List, [], ◌∷◌,
  if◌then◌else◌, Option-cases,
}
use mathlib.Core.Logic.{if_neg}
use hide_server.Cache.{CachedWorkspace}
use hide_server.Platform.{World, Event, SocketMessage, send, get_workspace, set_workspace}
use hide_server.Env.{Remote}
use hide_server.Env.Sessions.{answer, send_error}
use hide_server.Env.Files.{
  add_watcher, remove_watcher, store_watchers, splice_user, watchers_of, tell_unwatched, watch,
  close_dir, list_dir, open_dir,
}
use hide_server.Env.Files.Watching.{
  tell_unwatched_cache, close_dir-none, close_dir-some, watch-none, watch-some, answer_cache,
  send_error_cache,
}

-- a workspace without its directories
abbrev pub without_dirs : CachedWorkspace → CachedWorkspace
without_dirs x = record x { dirs = [] }

abbrev pub stripped : Option CachedWorkspace → Option CachedWorkspace
stripped none = none
stripped (some x) = some (without_dirs x)

-- Of the cache, only the directories of the one workspace have changed.
pub record OnlyDirs (uuid : String) (w w' : World) : Type 0 where
  pub presences : w'.cache.presences ≡ w.cache.presences
  pub memberships : w'.cache.memberships ≡ w.cache.memberships
  pub timers : w'.cache.timers ≡ w.cache.timers
  pub others : (other : String) → uuid ≢ other → get_workspace w' other ≡ get_workspace w other
  pub rest : stripped (get_workspace w' uuid) ≡ stripped (get_workspace w uuid)

same_cache : (uuid : String) (w w' : World) → w'.cache ≡ w.cache → OnlyDirs uuid w w'
same_cache uuid w w' e = record {
  presences = ap (λ c. c.presences) e;
  memberships = ap (λ c. c.memberships) e;
  timers = ap (λ c. c.timers) e;
  others = λ other n. ap (λ c. lookup other c.workspaces) e;
  rest = ap (λ c. stripped (lookup uuid c.workspaces)) e;
}

stored :
    (uuid : String) (x y : CachedWorkspace) (w v : World)
    → get_workspace w uuid ≡ some x
    → v.cache ≡ w.cache
    → without_dirs y ≡ without_dirs x
    → OnlyDirs uuid w (set_workspace uuid y v)
stored uuid x y w v h e q = record {
  presences = ap (λ c. c.presences) e;
  memberships = ap (λ c. c.memberships) e;
  timers = ap (λ c. c.timers) e;
  others = λ other n.
      lookup-insert uuid other y v.cache.workspaces
      ∙ if_neg (str_dec uuid other) n (some y) (lookup other v.cache.workspaces)
      ∙ ap (λ c. lookup other c.workspaces) e;
  rest =
      ap stripped (lookup-insert_self uuid y v.cache.workspaces) ∙ ap some q ∙ sym (ap stripped h);
}

store_watchers_rest :
    (uuid path : String) (us : List String) (x : CachedWorkspace)
    → without_dirs (store_watchers uuid path us x) ≡ without_dirs x
unfolding store_watchers
store_watchers_rest uuid path [] x = refl
store_watchers_rest uuid path (u ∷ us) x = refl

either_rest :
    (b : Bool) (x y : CachedWorkspace)
    → without_dirs y ≡ without_dirs x
    → without_dirs (if b then y else x) ≡ without_dirs x
either_rest true x y h = h
either_rest false x y h = refl

remove_watcher_rest :
    (u uuid p : String) (x : CachedWorkspace)
    → without_dirs (remove_watcher u uuid p x) ≡ without_dirs x
unfolding remove_watcher
remove_watcher_rest u uuid p x =
    either_rest (member u (watchers_of p x)) x
      (store_watchers uuid p (splice_user u (watchers_of p x)) x)
      (store_watchers_rest uuid p (splice_user u (watchers_of p x)) x)

pub close_dir-OnlyDirs : (u uuid p : String) (w : World) → OnlyDirs uuid w (close_dir u uuid p w)
close_dir-OnlyDirs u uuid p w = elim (Option-cases (get_workspace w uuid)) [
  | inl e ↦ subst (OnlyDirs uuid w) (sym (close_dir-none u uuid p w e)) (same_cache uuid w w refl)
  | inr (x, e) ↦ subst (OnlyDirs uuid w) (sym (close_dir-some u uuid p w x e)) (
      stored uuid x (remove_watcher u uuid p x) w (tell_unwatched u uuid p x w) e
        (tell_unwatched_cache u uuid p x w) (remove_watcher_rest u uuid p x))
]

watch-OnlyDirs :
    (u uuid p : String) (w v : World) → v.cache ≡ w.cache → OnlyDirs uuid w (watch u uuid p v)
unfolding add_watcher
watch-OnlyDirs u uuid p w v c = elim (Option-cases (get_workspace v uuid)) [
  | inl e ↦ subst (OnlyDirs uuid w) (sym (watch-none u uuid p v e)) (same_cache uuid w v c)
  | inr (x, e) ↦ subst (OnlyDirs uuid w) (sym (watch-some u uuid p v x e)) (
      stored uuid x (add_watcher u p x) w v (sym (ap (λ k. lookup uuid k.workspaces) c) ∙ e) c refl)
]

list_dir-OnlyDirs :
    (u sid uuid p : String) (c : Option String) (o : Option (List String)) (w v : World)
    → v.cache ≡ w.cache
    → OnlyDirs uuid w (list_dir u sid uuid p c o v)
unfolding list_dir
list_dir-OnlyDirs u sid uuid p c none w v e =
    same_cache uuid w (send_error u sid "FS_ERR_FETCH_DIRECTORY" c v)
      (send_error_cache u sid "FS_ERR_FETCH_DIRECTORY" c v ∙ e)
list_dir-OnlyDirs u sid uuid p c (some es) w v e =
    watch-OnlyDirs u uuid p w (answer u sid c (λ id. SocketMessage.listed id es) v)
      (answer_cache u sid c (λ id. SocketMessage.listed id es) v ∙ e)

pub open_dir-OnlyDirs :
    (r : Remote) (u sid uuid p : String) (c : Option String) (w : World)
    → OnlyDirs uuid w (open_dir r u sid uuid p c w)
unfolding open_dir
open_dir-OnlyDirs r u sid uuid p c w =
    list_dir-OnlyDirs u sid uuid p c (r.entries uuid p) w (send (Event.watch_add uuid p) w) refl
