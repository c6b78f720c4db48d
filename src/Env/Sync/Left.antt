-- ===== src/Env/Sync/Left.antt =====
-- env/src/core/sync.service.ts: closing a file keeps the documents filed and used.
use hide_server.Base.{
  str_key, nat_key, lookup, erase, Map, ℕ, String, ◌≡◌, refl, ◌≢◌, true, false, Option, none, some,
  List, [], ◌∷◌,
}
use hide_server.Platform.{World, Event, get_workspace}
use hide_server.Cache.{CachedWorkspace}
use hide_server.Env.{Config, Yjs, SharedDoc, AwarenessEdit, Instance, in_shared, emit, find_doc}
use hide_server.Env.Documents.{edit_awareness}
use hide_server.Env.Sync.{
  update_cache, store_doc, holder, destroy_doc, drop_empty, leave_doc, close_here, close_file,
}
use hide_server.Env.Sync.Filed.{
  AllFiled, Fewer-AllFiled, put_doc-AllFiled, destroy_doc-Fewer, drop_empty-Fewer,
}
use hide_server.Env.Sync.Users.{has_users, has_users_ne}
use hide_server.Env.Sync.Opened.{docs_kept, used_doc}

pub store_doc-AllFiled :
    (dw : SharedDoc × World) (s : Instance)
    → has_users dw.0 ≡ true
    → AllFiled s
    → AllFiled (store_doc dw s)
unfolding store_doc
store_doc-AllFiled (d, w) s used filed =
    put_doc-AllFiled d (record s { shared = w }) (has_users_ne d used)
      (docs_kept s (record s { shared = w }) refl filed)

-- of a document that is open
pub found_used :
    (uuid : String) (ino : ℕ) (d : SharedDoc) (s : Instance)
    → AllFiled s
    → find_doc uuid ino s ≡ some d
    → has_users d ≡ true
found_used uuid ino d s filed e = used_doc d (filed uuid ino d e).used

leave_doc-AllFiled :
    (cfg : Config) (dw : SharedDoc × World) (s : Instance)
    → AllFiled s
    → AllFiled (leave_doc cfg dw s)
unfolding leave_doc
leave_doc-AllFiled cfg (d, w) s filed = cases d.users (λ h. h)
  where
    left : Instance
    left = in_shared (update_cache cfg d.uuid d.ino false) (destroy_doc d (record s { shared = w }))

    without : AllFiled left
    without = docs_kept (destroy_doc d (record s { shared = w })) left refl (
        Fewer-AllFiled (record s { shared = w }) (destroy_doc d (record s { shared = w }))
          (destroy_doc-Fewer d (record s { shared = w }))
          (docs_kept s (record s { shared = w }) refl filed))

    cases :
        (us : Map String (List ℕ))
        → (us ≢ [] → d.users ≢ [])
        → AllFiled (elim us [ [] ↦ drop_empty d.uuid left | _ ↦ store_doc (d, w) s ])
    cases [] k = Fewer-AllFiled left (drop_empty d.uuid left) (drop_empty-Fewer d.uuid left) without
    cases (u ∷ us) k = store_doc-AllFiled (d, w) s (used_doc d (k (λ e. cc))) filed

close_here-AllFiled :
    (cfg : Config) (y : Yjs) (uid : String) (d : SharedDoc) (s : Instance)
    → AllFiled s
    → AllFiled (close_here cfg y uid d s)
unfolding close_here
close_here-AllFiled cfg y uid d s filed = go (lookup uid d.users) refl
  where
    go : (o : Option (List ℕ)) → lookup uid d.users ≡ o → AllFiled (close_here cfg y uid d s)
    go none e = rw (e, close_here) filed
    go (some ids) e =
        rw (e, close_here)
          (leave_doc-AllFiled cfg
            (edit_awareness y (AwarenessEdit.removal ids) none
              (record d { users = erase uid d.users }, s.shared))
            s filed)

pub close_file-AllFiled :
    (cfg : Config) (y : Yjs) (uid sid uuid : String) (ino : ℕ) (s : Instance)
    → AllFiled s
    → AllFiled (close_file cfg y uid sid uuid ino s)
unfolding close_file
close_file-AllFiled cfg y uid sid uuid ino s filed = go (get_workspace s.shared uuid) refl
  where
    found :
        (o : Option SharedDoc) → AllFiled (elim o [ none ↦ s | some d ↦ close_here cfg y uid d s ])
    found none = filed
    found (some d) = close_here-AllFiled cfg y uid d s filed

    held :
        (o : Option String)
        → AllFiled (elim o [
          | some id ↦ emit (Event.close_remote id uid sid uuid ino) s
          | none ↦ elim (find_doc uuid ino s) [ none ↦ s | some d ↦ close_here cfg y uid d s ]
        ])
    held none = found (find_doc uuid ino s)
    held (some id) = docs_kept s (emit (Event.close_remote id uid sid uuid ino) s) refl filed

    go :
        (o : Option CachedWorkspace)
        → get_workspace s.shared uuid ≡ o
        → AllFiled (close_file cfg y uid sid uuid ino s)
    go none e = rw (e, close_file) filed
    go (some x) e = rw (e, close_file) (held (holder cfg (lookup ino x.docs)))
