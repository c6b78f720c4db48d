-- ===== src/Env/Files/Watchers.antt =====
-- The watchers of a directory as a set: what opening and closing a directory makes of it, and that
-- no directory is kept that nobody watches.
use hide_server.Base.{
  member, add_new, to_set, str_dec, str_key, nat_key, lookup, lookup-insert, lookup-erase, String,
  ◌≡◌, refl, ap, ◌∙◌, ◌≢◌, inl, inr, ite, Bool, true, false, ◌&&◌, ◌||◌, some, List, [], ◌∷◌, ◌++◌,
  arith, if◌then◌else◌, Bool-cases,
}
use mathlib.Core.List.{foldl}
use hide_server.Cache.{CachedWorkspace}
use hide_server.Env.Files.{
  drop_first, watchers_of, store_watchers, add_watcher, remove_watcher, splice_user,
}

-- No user is listed twice.
abbrev pub IsDistinct : List String → Type 0
IsDistinct [] = Unit
IsDistinct (u ∷ us) = (member u us ≡ false) × IsDistinct us

-- A directory that is listed has a watcher, and each of its watchers once.
pub record IsTidy (x : CachedWorkspace) : Type 0 where
  pub watched : (path : String) → lookup path x.dirs ≢ some []
  pub distinct : (path : String) → IsDistinct (watchers_of path x)

unfoldable pub is_same : String → String → Bool
is_same s t = ite (str_dec s t) true false

member-append :
    (v u : String) (us : List String) → member v (us ++ u ∷ []) ≡ (member v us || is_same u v)
unfolding member is_same
member-append v u [] = ground arith
member-append v u (w ∷ us) = ground (arith, member-append v u us)

member-drop_first :
    (u v : String) (us : List String)
    → IsDistinct us
    → member v (drop_first u us) ≡ (if is_same u v then false else member v us)
unfolding member drop_first is_same
member-drop_first u v [] h = ground arith
member-drop_first u v (w ∷ us) h = ground (arith, member-drop_first u v us h.1, h.0)

drop_first-IsDistinct :
    (u : String) (us : List String) → IsDistinct us → IsDistinct (drop_first u us)
unfolding drop_first is_same
drop_first-IsDistinct u [] h = tt
drop_first-IsDistinct u (w ∷ us) h =
    elim (str_dec w u) as (λ d. IsDistinct (ite d us (w ∷ drop_first u us))) [
      | yes e ↦ h.1
      | no n ↦ (ground (arith, member-drop_first u w us h.1, h.0), drop_first-IsDistinct u us h.1)
    ]

append-IsDistinct :
    (u : String) (us : List String)
    → member u us ≡ false
    → IsDistinct us
    → IsDistinct (us ++ u ∷ [])
unfolding member is_same
append-IsDistinct u [] m h = (refl, tt)
append-IsDistinct u (w ∷ us) m h =
    (ground (arith, member-append w u us, h.0), append-IsDistinct u us (ground arith) h.1)

member-add_new :
    (u v : String) (us : List String) → member v (add_new us u) ≡ (member v us || is_same u v)
unfolding add_new is_same
member-add_new u v us = ground (arith, member-append v u us)

add_new-IsDistinct : (u : String) (us : List String) → IsDistinct us → IsDistinct (add_new us u)
unfolding add_new
add_new-IsDistinct u us h = elim (Bool-cases (member u us)) [
  | inl e ↦ rw e h
  | inr e ↦ rw e (append-IsDistinct u us e h)
]

member-foldl :
    (v : String) (acc us : List String)
    → member v (foldl add_new acc us) ≡ (member v acc || member v us)
unfolding member is_same
member-foldl v acc [] = ground arith
member-foldl v acc (u ∷ us) =
    ground (arith, member-foldl v (add_new acc u) us, member-add_new u v acc)

foldl-IsDistinct : (acc us : List String) → IsDistinct acc → IsDistinct (foldl add_new acc us)
foldl-IsDistinct acc [] h = h
foldl-IsDistinct acc (u ∷ us) h = foldl-IsDistinct (add_new acc u) us (add_new-IsDistinct u acc h)

member-to_set :
    (u v : String) (us : List String)
    → member v (to_set (us ++ u ∷ [])) ≡ (member v us || is_same u v)
unfolding to_set member
member-to_set u v us = member-foldl v [] (us ++ u ∷ []) ∙ member-append v u us

to_set-IsDistinct : (us : List String) → IsDistinct (to_set us)
unfolding to_set
to_set-IsDistinct us = foldl-IsDistinct [] us tt

watchers_of-store_watchers :
    (uuid p q : String) (us : List String) (x : CachedWorkspace)
    → watchers_of q (store_watchers uuid p us x) ≡ ite (str_dec p q) us (watchers_of q x)
unfolding store_watchers
watchers_of-store_watchers uuid p q [] x = ground (arith, lookup-erase p q x.dirs)
watchers_of-store_watchers uuid p q (u ∷ us) x = ground (arith, lookup-insert p q (u ∷ us) x.dirs)

watchers_of-add_watcher :
    (u p q : String) (x : CachedWorkspace)
    → watchers_of q (add_watcher u p x)
      ≡ ite (str_dec p q) (to_set (watchers_of p x ++ u ∷ [])) (watchers_of q x)
unfolding add_watcher
watchers_of-add_watcher u p q x =
    ground (arith, lookup-insert p q (to_set (watchers_of p x ++ u ∷ [])) x.dirs)

-- who is listed for a directory after a user began to watch one
pub member-add_watcher :
    (u v p q : String) (x : CachedWorkspace)
    → member v (watchers_of q (add_watcher u p x))
      ≡ (member v (watchers_of q x) || (is_same u v && is_same p q))
unfolding is_same
member-add_watcher u v p q x =
    ground (arith, watchers_of-add_watcher u p q x, member-to_set u v (watchers_of p x))

pub member-remove_watcher :
    (u v uuid p q : String) (x : CachedWorkspace)
    → IsTidy x
    → member v (watchers_of q (remove_watcher u uuid p x))
      ≡ (if is_same u v && is_same p q then false else member v (watchers_of q x))
unfolding is_same remove_watcher splice_user
member-remove_watcher u v uuid p q x tidy = elim (Bool-cases (member u (watchers_of p x))) [
  | inl e ↦ ground (
    arith,
    watchers_of-store_watchers uuid p q (drop_first u (watchers_of p x)) x,
    member-drop_first u v (watchers_of p x) (tidy.distinct p),
  )
  | inr e ↦ ground arith
]

lookup-store_watchers :
    (uuid p q : String) (us : List String) (x : CachedWorkspace)
    → lookup q x.dirs ≢ some []
    → lookup q (store_watchers uuid p us x).dirs ≢ some []
unfolding store_watchers
lookup-store_watchers uuid p q [] x h = ground (arith, lookup-erase p q x.dirs)
lookup-store_watchers uuid p q (u ∷ us) x h = ground (arith, lookup-insert p q (u ∷ us) x.dirs)

store_watchers-IsTidy :
    (uuid p : String) (us : List String) (x : CachedWorkspace)
    → IsDistinct us
    → IsTidy x
    → IsTidy (store_watchers uuid p us x)
store_watchers-IsTidy uuid p us x h tidy = record {
  watched = λ q. lookup-store_watchers uuid p q us x (tidy.watched q);
  distinct = λ q. rw (watchers_of-store_watchers uuid p q us x) (go q (str_dec p q));
}
  where
    go : (q : String) (d : Dec (p ≡ q)) → IsDistinct (ite d us (watchers_of q x))
    go q (yes e) = h
    go q (no n) = tidy.distinct q

pub remove_watcher-IsTidy :
    (u uuid p : String) (x : CachedWorkspace) → IsTidy x → IsTidy (remove_watcher u uuid p x)
unfolding remove_watcher splice_user
remove_watcher-IsTidy u uuid p x tidy = elim (Bool-cases (member u (watchers_of p x))) [
  | inl e ↦
      rw (e, if◌then◌else◌)
        (store_watchers-IsTidy uuid p _ x (drop_first-IsDistinct u _ (tidy.distinct p)) tidy)
  | inr e ↦ rw (e, if◌then◌else◌) tidy
]

to_set-ne-nil : (u : String) (us : List String) → to_set (us ++ u ∷ []) ≢ []
unfolding is_same member
to_set-ne-nil u us e = ground (arith, member-to_set u u us, ap (member u) e)

lookup-add_watcher :
    (u p q : String) (x : CachedWorkspace)
    → lookup q x.dirs ≢ some []
    → lookup q (add_watcher u p x).dirs ≢ some []
unfolding add_watcher
lookup-add_watcher u p q x h = ground (
  arith,
  lookup-insert p q (to_set (watchers_of p x ++ u ∷ [])) x.dirs,
  to_set-ne-nil u (watchers_of p x),
)

pub add_watcher-IsTidy :
    (u p : String) (x : CachedWorkspace) → IsTidy x → IsTidy (add_watcher u p x)
add_watcher-IsTidy u p x tidy = record {
  watched = λ q. lookup-add_watcher u p q x (tidy.watched q);
  distinct = λ q. rw (watchers_of-add_watcher u p q x) (go q (str_dec p q));
}
  where
    go :
        (q : String) (d : Dec (p ≡ q))
        → IsDistinct (ite d (to_set (watchers_of p x ++ u ∷ [])) (watchers_of q x))
    go q (yes e) = to_set-IsDistinct (watchers_of p x ++ u ∷ [])
    go q (no n) = tidy.distinct q
