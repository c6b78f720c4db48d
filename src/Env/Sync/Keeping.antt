-- ===== src/Env/Sync/Keeping.antt =====
-- env/src/core/fs.service.ts: whatever becomes of the processing of a batch, the documents stay
-- filed.
use hide_server.Base.{
  length, str_dec, str_key, nat_key, lookup, keys, ℕ, String, ◌≡◌, refl, sym, ap, subst, ◌≢◌, ite,
  Bool, true, false, Option, none, some, List, [], ◌∷◌, Failure, Result, Void, pure, or_throw,
  ◌>>=◌, ◌>>◌, modify, then_keeps, if◌then◌else◌, ok,
}
use hide_server.Cache.{CachedWorkspace}
use hide_server.Platform.{FsEvent, SocketMessage, get_workspace}
use hide_server.Env.{in_shared}
use hide_server.Env.Sessions.{send_to_watchers}
use hide_server.Gateway.Presence.{defined}
use hide_server.Env.{Config, Yjs, Remote, SharedDoc, Instance, PathState, Task, put_doc}
use hide_server.Env.Files.Bursts.{set_path_state}
use hide_server.Env.Files.Batches.{
  Batches, own_doc_hash, get_doc_hash, get_file_hash, mark_doc, mark_conflict, pick_one, nth,
  range_error, hash_error, is_file_write, deliver_event, check_write, sync_event, sync_events,
  send_batches, sync, begin_process, end_process, process, compare_hashes, sync_cached, doc_of,
}
use hide_server.Env.Sync.Filed.{AllFiled, put_doc-AllFiled}
use hide_server.Env.Sync.Opened.{docs_kept}
use hide_server.Env.Sync.Processing.{own_doc_hash-Succeeds, end_process-AllFiled}
use hide_server.Env.Sync.Picking.{Succeeds, doc_of_used}

-- what a step that never fails leaves
kept_by : {A : Type 0} (m : Task A) (s : Instance) → Succeeds m s → AllFiled (m s).1
kept_by m s h = subst AllFiled (sym (ap (λ q. q.1) h.runs)) h.filed

or_throw_state :
    {A : Type 0} (o : Option A) (e : Failure) (s : Instance)
    → AllFiled s
    → AllFiled (or_throw {S = Instance} o e s).1
or_throw_state none e s h = h
or_throw_state (some a) e s h = h

pub own_doc_hash-AllFiled :
    (r : Remote) (y : Yjs) (uuid : String) (ino : ℕ) (s : Instance)
    → AllFiled s
    → AllFiled (own_doc_hash r y uuid ino s).1
own_doc_hash-AllFiled r y uuid ino s h =
    kept_by (own_doc_hash r y uuid ino) s (own_doc_hash-Succeeds r y uuid ino s h)

get_doc_hash-AllFiled :
    (cfg : Config) (r : Remote) (y : Yjs) (uuid : String) (ino : Option ℕ) (x : CachedWorkspace)
    (s : Instance)
    → AllFiled s
    → AllFiled (get_doc_hash cfg r y uuid ino x s).1
unfolding get_doc_hash
get_doc_hash-AllFiled cfg r y uuid none x s h = h
get_doc_hash-AllFiled cfg r y uuid (some ino) x s h = held (defined (lookup ino x.docs))
  where
    asked : String → Task (Option String)
    asked id = or_throw (r.doc_hash id uuid ino) hash_error

    ways : (id : String) → Dec (cfg.instance_id ≡ id) → Task (Option String)
    ways id d = ite d (own_doc_hash r y uuid ino) (asked id)

    here : (id : String) (d : Dec (cfg.instance_id ≡ id)) → AllFiled (ways id d s).1
    here id (yes e) = own_doc_hash-AllFiled r y uuid ino s h
    here id (no n) = or_throw_state (r.doc_hash id uuid ino) hash_error s h

    all_ways : Option String → Task (Option String)
    all_ways o = elim o [ none ↦ pure none | some id ↦ ways id (str_dec cfg.instance_id id) ]

    held : (o : Option String) → AllFiled (all_ways o s).1
    held none = h
    held (some id) = here id (str_dec cfg.instance_id id)

mark_doc-AllFiled :
    (r : Remote) (d : SharedDoc) (s : Instance)
    → d.users ≢ []
    → AllFiled s
    → AllFiled (mark_doc r d s).1
unfolding mark_doc pick_one
mark_doc-AllFiled r d s used h =
    then_keeps AllFiled (modify (put_doc marked)) (λ _. picking) s
      (put_doc-AllFiled marked s used h)
      (λ _ v k.
        then_keeps AllFiled (pick_one r (keys d.users)) telling v
          (or_throw_state (nth (r.random_int (length (keys d.users))) (keys d.users)) range_error v
            k)
          (λ uid u j.
            docs_kept (put_doc (picked uid) u) (told uid (put_doc (picked uid) u)) refl
              (put_doc-AllFiled (picked uid) u used j)))
  where
    marked : SharedDoc
    marked = record d { is_conflicting = true }

    picked : String → SharedDoc
    picked uid = record d { is_conflicting = true; conflict_resolver = uid }

    told : String → Instance → Instance
    told uid =
        in_shared (send_to_watchers d.uuid (keys d.users) (SocketMessage.conflict d.uuid d.ino uid))

    telling : String → Task Void
    telling uid = modify (put_doc (picked uid)) >> modify (told uid)

    picking : Task Void
    picking = pick_one r (keys d.users) >>= telling

mark_conflict-AllFiled :
    (r : Remote) (uuid : String) (ino : Option ℕ) (s : Instance)
    → AllFiled s
    → AllFiled (mark_conflict r uuid ino s).1
unfolding mark_conflict
mark_conflict-AllFiled r uuid ino s h = go (doc_of uuid ino s) refl
  where
    marking : Option SharedDoc → Result Void × Instance
    marking o = elim o [ none ↦ (ok tt, s) | some d ↦ mark_doc r d s ]

    go : (o : Option SharedDoc) → doc_of uuid ino s ≡ o → AllFiled (marking o).1
    go none e = h
    go (some d) e = mark_doc-AllFiled r d s (doc_of_used uuid ino d s h e) h

compare_hashes-AllFiled :
    (r : Remote) (uuid : String) (e : FsEvent) (o : Option String) (s : Instance)
    → AllFiled s
    → AllFiled (compare_hashes r uuid e o s).1
unfolding compare_hashes
compare_hashes-AllFiled r uuid e none s h = h
compare_hashes-AllFiled r uuid e (some t) s h = compared (str_dec (get_file_hash r uuid e.path) t)
  where
    ways : Dec (get_file_hash r uuid e.path ≡ t) → Task Bool
    ways b = ite b (pure false) (mark_conflict r uuid e.ino >> pure true)

    compared : (b : Dec (get_file_hash r uuid e.path ≡ t)) → AllFiled (ways b s).1
    compared (yes k) = h
    compared (no n) =
        then_keeps AllFiled (mark_conflict r uuid e.ino) (λ _. pure true) s
          (mark_conflict-AllFiled r uuid e.ino s h) (λ _ v k. k)

check_write-AllFiled :
    (cfg : Config) (r : Remote) (y : Yjs) (uuid : String) (x : CachedWorkspace) (e : FsEvent)
    (s : Instance)
    → AllFiled s
    → AllFiled (check_write cfg r y uuid x e s).1
unfolding check_write
check_write-AllFiled cfg r y uuid x e s h =
    then_keeps AllFiled (get_doc_hash cfg r y uuid e.ino x)
      (λ hash. compare_hashes r uuid e (defined hash)) s
      (get_doc_hash-AllFiled cfg r y uuid e.ino x s h)
      (λ hash v k. compare_hashes-AllFiled r uuid e (defined hash) v k)

sync_event-AllFiled :
    (cfg : Config) (r : Remote) (y : Yjs) (uuid : String) (x : CachedWorkspace) (e : FsEvent)
    (bs : Batches) (s : Instance)
    → AllFiled s
    → AllFiled (sync_event cfg r y uuid x e bs s).1
unfolding sync_event
sync_event-AllFiled cfg r y uuid x e bs s h =
    then_keeps AllFiled (checking (is_file_write e))
      (λ told. pure (if told then deliver_event x e bs else bs)) s (checked (is_file_write e))
      (λ told v k. k)
  where
    checking : Bool → Task Bool
    checking b = if b then check_write cfg r y uuid x e else pure true

    checked : (b : Bool) → AllFiled (checking b s).1
    checked true = check_write-AllFiled cfg r y uuid x e s h
    checked false = h

sync_events-AllFiled :
    (cfg : Config) (r : Remote) (y : Yjs) (uuid : String) (x : CachedWorkspace) (es : List FsEvent)
    (bs : Batches) (s : Instance)
    → AllFiled s
    → AllFiled (sync_events cfg r y uuid x es bs s).1
unfolding sync_events
sync_events-AllFiled cfg r y uuid x [] bs s h = h
sync_events-AllFiled cfg r y uuid x (e ∷ es) bs s h =
    then_keeps AllFiled (sync_event cfg r y uuid x e bs) (λ bs'. sync_events cfg r y uuid x es bs')
      s (sync_event-AllFiled cfg r y uuid x e bs s h)
      (λ bs' v k. sync_events-AllFiled cfg r y uuid x es bs' v k)

sync-AllFiled :
    (cfg : Config) (r : Remote) (y : Yjs) (uuid : String) (es : List FsEvent) (s : Instance)
    → AllFiled s
    → AllFiled (sync cfg r y uuid es s).1
unfolding sync sync_cached send_batches
sync-AllFiled cfg r y uuid es s h = go (get_workspace s.shared uuid)
  where
    ways : Option CachedWorkspace → Result Void × Instance
    ways o = elim o [ none ↦ (ok tt, s) | some x ↦ sync_cached cfg r y uuid es x s ]

    go : (o : Option CachedWorkspace) → AllFiled (ways o).1
    go none = h
    go (some x) =
        then_keeps AllFiled (sync_events cfg r y uuid x es []) (λ bs. modify (send_batches uuid bs))
          s (sync_events-AllFiled cfg r y uuid x es [] s h)
          (λ bs v k. docs_kept v (send_batches uuid bs v) refl k)

begin_process-AllFiled :
    (cfg : Config) (r : Remote) (y : Yjs) (uuid : String) (s : Instance)
    → AllFiled s
    → AllFiled (begin_process cfg r y uuid s).1
unfolding begin_process
begin_process-AllFiled cfg r y uuid s h = go (lookup uuid s.path_state)
  where
    ways : Option PathState → Result Void × Instance
    ways o = elim o [
      | none ↦ (ok tt, s)
      | some p ↦
          sync cfg r y uuid p.batch (set_path_state uuid (record p { process_due = false }) s)
    ]

    go : (o : Option PathState) → AllFiled (ways o).1
    go none = h
    go (some p) =
        sync-AllFiled cfg r y uuid p.batch _
          (docs_kept s (set_path_state uuid (record p { process_due = false }) s) refl h)

pub process-AllFiled :
    (cfg : Config) (r : Remote) (y : Yjs) (uuid : String) (s : Instance)
    → AllFiled s
    → AllFiled (process cfg r y uuid s).1
unfolding process
process-AllFiled cfg r y uuid s h =
    then_keeps AllFiled (begin_process cfg r y uuid) (λ _. modify (end_process uuid)) s
      (begin_process-AllFiled cfg r y uuid s h) (λ _ v k. end_process-AllFiled uuid v k)
