-- ===== src/Env/Files/Watching.antt =====
-- env/src/core/fs.service.ts, `openDir` and `closeDir`, as operations on a set of users and
-- directories.
use hide_server.Base.{
  member, str_dec, str_empty, str_key, nat_key, lookup, insert, lookup-insert, lookup-insert_self,
  String, ◌≡◌, refl, sym, ap, subst, ◌∙◌, inl, inr, ite, Bool, true, false, ◌&&◌, ◌||◌, Option,
  none, some, List, [], ◌∷◌, if◌then◌else◌, Bool-cases, Option-cases,
}
use hide_server.Cache.{CachedWorkspace}
use hide_server.Platform.{World, get_workspace, set_workspace}
use hide_server.Platform.{SocketMessage}
use hide_server.Env.Sessions.{answer, send_error}
use hide_server.Env.Files.{
  watchers_of, add_watcher, remove_watcher, unwatch, watch, tell_unwatched, close_dir,
}
use hide_server.Env.Files.Watchers.{
  IsTidy, is_same, member-add_watcher, member-remove_watcher, add_watcher-IsTidy,
  remove_watcher-IsTidy,
}

-- whether a user watches a directory of a workspace
abbrev pub watching : String → World → String → String → Bool
watching uuid w uid path = elim (get_workspace w uuid) [
  | none ↦ false
  | some x ↦ member uid (watchers_of path x)
]

abbrev pub AllTidy : World → Type 0
AllTidy w = (uuid : String) (x : CachedWorkspace) → get_workspace w uuid ≡ some x → IsTidy x

pub watching_at :
    (uuid : String) (x : CachedWorkspace) (w : World) (uid path : String)
    → get_workspace w uuid ≡ some x
    → watching uuid w uid path ≡ member uid (watchers_of path x)
watching_at uuid x w uid path e = rw (e, watching) refl

pub watching-none :
    (uuid : String) (w : World) (uid path : String)
    → get_workspace w uuid ≡ none
    → watching uuid w uid path ≡ false
watching-none uuid w uid path e = rw (e, watching) refl

pub set_workspace-AllTidy :
    (uuid : String) (x : CachedWorkspace) (w : World)
    → IsTidy x
    → AllTidy w
    → AllTidy (set_workspace uuid x w)
set_workspace-AllTidy uuid x w h tidy j y e =
    go (str_dec uuid j) (lookup-insert uuid j x w.cache.workspaces)
  where
    go :
        (d : Dec (uuid ≡ j))
        → lookup j (insert uuid x w.cache.workspaces) ≡ ite d (some x) (lookup j w.cache.workspaces)
        → IsTidy y
    go (yes p) q = subst IsTidy (cc) h
    go (no p) q = tidy j y (sym q ∙ e)

unwatch_cache :
    (uuid path : String) (us : List String) (w : World) → (unwatch uuid path us w).cache ≡ w.cache
unfolding unwatch
unwatch_cache uuid path [] w = refl
unwatch_cache uuid path (u ∷ us) w = refl

pub tell_unwatched_cache :
    (uid uuid path : String) (x : CachedWorkspace) (w : World)
    → (tell_unwatched uid uuid path x w).cache ≡ w.cache
unfolding tell_unwatched
tell_unwatched_cache uid uuid path x w = elim (Bool-cases (member uid (watchers_of path x))) [
  | inl e ↦ rw (e, if◌then◌else◌) (unwatch_cache uuid path _ w)
  | inr e ↦ rw (e, if◌then◌else◌) refl
]

pub close_dir-none :
    (u uuid p : String) (w : World) → get_workspace w uuid ≡ none → close_dir u uuid p w ≡ w
unfolding close_dir
close_dir-none u uuid p w e = rw (e, close_dir) refl

pub close_dir-some :
    (u uuid p : String) (w : World) (x : CachedWorkspace)
    → get_workspace w uuid ≡ some x
    → close_dir u uuid p w
      ≡ set_workspace uuid (remove_watcher u uuid p x) (tell_unwatched u uuid p x w)
unfolding close_dir
close_dir-some u uuid p w x e = rw (e, close_dir) refl

pub watch-none :
    (u uuid p : String) (w : World) → get_workspace w uuid ≡ none → watch u uuid p w ≡ w
unfolding watch
watch-none u uuid p w e = rw (e, watch) refl

pub watch-some :
    (u uuid p : String) (w : World) (x : CachedWorkspace)
    → get_workspace w uuid ≡ some x
    → watch u uuid p w ≡ set_workspace uuid (add_watcher u p x) w
unfolding watch
watch-some u uuid p w x e = rw (e, watch) refl

pub watching-set_workspace :
    (uuid : String) (x : CachedWorkspace) (w : World) (v q : String)
    → watching uuid (set_workspace uuid x w) v q ≡ member v (watchers_of q x)
watching-set_workspace uuid x w v q =
    watching_at uuid x (set_workspace uuid x w) v q (lookup-insert_self uuid x w.cache.workspaces)

nobody : (b : Bool) → (if b then false else false) ≡ false
nobody true = refl
nobody false = refl

-- Closing a directory takes the user away from it and changes nothing else that is watched, in a
-- tidy cache.
pub watching-close_dir :
    (u uuid p : String) (w : World) (v q : String)
    → AllTidy w
    → watching uuid (close_dir u uuid p w) v q
      ≡ (if is_same u v && is_same p q then false else watching uuid w v q)
watching-close_dir u uuid p w v q tidy = elim (Option-cases (get_workspace w uuid)) [
  | inl e ↦
      rw (close_dir-none u uuid p w e, watching-none uuid w v q e)
        (sym (nobody (is_same u v && is_same p q)))
  | inr (x, e) ↦ rw (close_dir-some u uuid p w x e) (
      watching-set_workspace uuid (remove_watcher u uuid p x) (tell_unwatched u uuid p x w) v q
      ∙ member-remove_watcher u v uuid p q x (tidy uuid x e)
      ∙ ap (λ b. if is_same u v && is_same p q then false else b)
          (sym (watching_at uuid x w v q e)))
]

pub close_dir-AllTidy : (u uuid p : String) (w : World) → AllTidy w → AllTidy (close_dir u uuid p w)
close_dir-AllTidy u uuid p w tidy = elim (Option-cases (get_workspace w uuid)) [
  | inl e ↦ subst AllTidy (sym (close_dir-none u uuid p w e)) tidy
  | inr (x, e) ↦ subst AllTidy (sym (close_dir-some u uuid p w x e)) (
      set_workspace-AllTidy uuid (remove_watcher u uuid p x) (tell_unwatched u uuid p x w)
        (remove_watcher-IsTidy u uuid p x (tidy uuid x e))
        (λ j y h.
          tidy j y (sym (ap (λ c. lookup j c.workspaces) (tell_unwatched_cache u uuid p x w)) ∙ h)))
]

-- Opening a directory that can be listed, of a cached workspace
pub watching-watch :
    (u uuid p : String) (w : World) (x : CachedWorkspace) (v q : String)
    → get_workspace w uuid ≡ some x
    → watching uuid (watch u uuid p w) v q ≡ (watching uuid w v q || (is_same u v && is_same p q))
watching-watch u uuid p w x v q e = rw (watch-some u uuid p w x e) (
    watching-set_workspace uuid (add_watcher u p x) w v q
    ∙ member-add_watcher u v p q x
    ∙ ap (λ b. b || (is_same u v && is_same p q)) (sym (watching_at uuid x w v q e)))

pub watch-AllTidy : (u uuid p : String) (w : World) → AllTidy w → AllTidy (watch u uuid p w)
watch-AllTidy u uuid p w tidy = elim (Option-cases (get_workspace w uuid)) [
  | inl e ↦ subst AllTidy (sym (watch-none u uuid p w e)) tidy
  | inr (x, e) ↦ subst AllTidy (sym (watch-some u uuid p w x e)) (
      set_workspace-AllTidy uuid (add_watcher u p x) w (add_watcher-IsTidy u p x (tidy uuid x e))
        tidy)
]

pub answer_cache :
    (uid sid : String) (c : Option String) (msg : String → SocketMessage) (w : World)
    → (answer uid sid c msg w).cache ≡ w.cache
unfolding answer
answer_cache uid sid none msg w = refl
answer_cache uid sid (some c) msg w = elim (Bool-cases (str_empty c)) [
  | inl e ↦ rw (e, if◌then◌else◌) refl
  | inr e ↦ rw (e, if◌then◌else◌) refl
]

pub send_error_cache :
    (uid sid code : String) (c : Option String) (w : World)
    → (send_error uid sid code c w).cache ≡ w.cache
unfolding send_error
send_error_cache uid sid code c w = answer_cache uid sid c _ w
