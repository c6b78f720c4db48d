-- ===== src/Env/Sync/Opened.antt =====
-- env/src/core/sync.service.ts: opening a file keeps the documents filed and used.
use hide_server.Base.{
  str_key, nat_key, lookup, insert, Map, ℕ, String, ◌≡◌, refl, sym, ap, ◌∙◌, ◌≢◌, Bool, true, false,
  Option, none, some, List, [], ◌∷◌,
}
use hide_server.Platform.{World}
use hide_server.Env.{
  Config, Yjs, Remote, SharedDoc, Instance, in_shared, emit, find_doc, put_doc, Event,
}
use hide_server.Env.Sessions.{send_error}
use hide_server.Env.Documents.{load_file_content, fresh_doc}
use hide_server.Env.Files.Batches.{compute_hash}
use hide_server.Env.Sync.{ensure_docs, join_doc, open_new, open_here, open_file, holder}
use hide_server.Env.Sync.Filed.{
  AllFiled, Fewer-AllFiled, put_doc-AllFiled, ensure_docs-Fewer, drop_single-Fewer,
}
use hide_server.Env.Sync.Users.{has_users, has_users_ne, has_users-insert}
use hide_server.Cache.{CachedWorkspace}
use hide_server.Platform.{get_workspace}

-- a change of the shared state alone
pub docs_kept : (s s' : Instance) → s'.docs ≡ s.docs → AllFiled s → AllFiled s'
unfolding find_doc
docs_kept s s' e filed uuid ino d h =
    filed uuid ino d
      (ap (λ m. elim (lookup uuid m) [ none ↦ none | some ds ↦ lookup ino ds ]) (sym e) ∙ h)

pub used_doc : (d : SharedDoc) → d.users ≢ [] → has_users d ≡ true
used_doc d h = go d.users refl
  where
    go : (us : Map String (List ℕ)) → d.users ≡ us → has_users d ≡ true
    go [] e = absurd (h e)
    go (u ∷ us) e = rw (e, has_users) refl

join_doc-AllFiled :
    (cfg : Config) (uid sid : String) (c : Option String) (d : SharedDoc) (s : Instance)
    → AllFiled s
    → AllFiled (join_doc cfg uid sid c d s)
unfolding join_doc
join_doc-AllFiled cfg uid sid c d s filed =
    docs_kept (put_doc d' s) (join_doc cfg uid sid c d s) refl
      (put_doc-AllFiled d' s (has_users_ne d' (has_users-insert uid [] d.users)) filed)
  where
    d' : SharedDoc
    d' = record d { users = insert uid [] d.users }

open_new-AllFiled :
    (cfg : Config) (r : Remote) (y : Yjs) (uid sid : String) (c : Option String)
    (read : Bool × SharedDoc × World) (s : Instance)
    → AllFiled s
    → AllFiled (open_new cfg r y uid sid c read s)
unfolding open_new
open_new-AllFiled cfg r y uid sid c (false, d, w) s filed =
    Fewer-AllFiled _ _ (drop_single-Fewer d.uuid _) (
      docs_kept s (in_shared (send_error uid sid "FS_ERR_READ_FILE" c) (record s { shared = w }))
        refl filed)
open_new-AllFiled cfg r y uid sid c (true, d, w) s filed =
    join_doc-AllFiled cfg uid sid c (compute_hash r y d) (record s { shared = w })
      (docs_kept s (record s { shared = w }) refl filed)

open_here-AllFiled :
    (cfg : Config) (r : Remote) (y : Yjs) (uid sid uuid path : String) (ino : ℕ) (c : Option String)
    (s : Instance)
    → AllFiled s
    → AllFiled (open_here cfg r y uid sid uuid path ino c s)
unfolding open_here
open_here-AllFiled cfg r y uid sid uuid path ino c s filed = go (find_doc uuid ino s) refl
  where
    ensured : AllFiled (ensure_docs uuid s)
    ensured = Fewer-AllFiled s (ensure_docs uuid s) (ensure_docs-Fewer uuid s) filed

    go :
        (o : Option SharedDoc)
        → find_doc uuid ino s ≡ o
        → AllFiled (open_here cfg r y uid sid uuid path ino c s)
    go none e =
        rw (e, open_here)
          (open_new-AllFiled cfg r y uid sid c
            (load_file_content r y false (fresh_doc ino path uuid, s.shared)) (ensure_docs uuid s)
            ensured)
    go (some d) e =
        rw (e, open_here) (join_doc-AllFiled cfg uid sid c d (ensure_docs uuid s) ensured)

-- An open file of a workspace that is cached and held here is opened here; else nothing is opened.
pub open_file-AllFiled :
    (cfg : Config) (r : Remote) (y : Yjs) (uid sid uuid path : String) (ino : ℕ) (c : Option String)
    (s : Instance)
    → AllFiled s
    → AllFiled (open_file cfg r y uid sid uuid path ino c s)
unfolding open_file
open_file-AllFiled cfg r y uid sid uuid path ino c s filed = go (get_workspace s.shared uuid) refl
  where
    held :
        (o : Option String)
        → AllFiled (elim o [
          | some id ↦ emit (Event.open_remote id uid sid uuid ino) s
          | none ↦ open_here cfg r y uid sid uuid path ino c s
        ])
    held none = open_here-AllFiled cfg r y uid sid uuid path ino c s filed
    held (some id) = docs_kept s (emit (Event.open_remote id uid sid uuid ino) s) refl filed

    go :
        (o : Option CachedWorkspace)
        → get_workspace s.shared uuid ≡ o
        → AllFiled (open_file cfg r y uid sid uuid path ino c s)
    go none e =
        rw (e, open_file)
          (docs_kept s (in_shared (send_error uid sid "FATAL_ERR_NO_WORKSPACE" c) s) refl filed)
    go (some x) e = rw (e, open_file) (held (holder cfg (lookup ino x.docs)))
