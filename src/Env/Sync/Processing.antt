-- ===== src/Env/Sync/Processing.antt =====
-- env/src/core/fs.service.ts: the processing of a batch succeeds.
use hide_server.Base.{
  str_dec, str_key, nat_key, lookup, ℕ, String, ◌≡◌, refl, ◌≢◌, ite, Bool, true, false, Option,
  none, some, List, [], ◌∷◌, pure, or_throw, ◌>>◌, modify, if◌then◌else◌, ok,
}
use hide_server.Cache.{CachedWorkspace}
use hide_server.Platform.{FsEvent, get_workspace}
use hide_server.Gateway.Presence.{defined}
use hide_server.Env.{Config, Yjs, Remote, SharedDoc, Instance, PathState, find_doc, put_doc, Task}
use hide_server.Env.Files.Bursts.{set_path_state}
use hide_server.Env.Files.Batches.{
  Batches, compute_hash, own_doc_hash, get_doc_hash, get_file_hash, mark_conflict, is_file_write,
  deliver_event, check_write, sync_event, sync_events, send_batches, sync, begin_process,
  end_process, process, compare_hashes, sync_cached, hash_error,
}
use hide_server.Env.Sync.Filed.{AllFiled, put_doc-AllFiled}
use hide_server.Env.Sync.Opened.{docs_kept}
use hide_server.Env.Sync.Picking.{
  IsRandom, Answers, Succeeds, bind_Succeeds, modify-Succeeds, pure-Succeeds, run_as,
  mark_conflict-Succeeds,
}

pub own_doc_hash-Succeeds :
    (r : Remote) (y : Yjs) (uuid : String) (ino : ℕ) (s : Instance)
    → AllFiled s
    → Succeeds (own_doc_hash r y uuid ino) s
unfolding own_doc_hash compute_hash
own_doc_hash-Succeeds r y uuid ino s filed = go (find_doc uuid ino s) refl
  where
    go : (o : Option SharedDoc) → find_doc uuid ino s ≡ o → Succeeds (own_doc_hash r y uuid ino) s
    go none e = record { value = none; after = s; runs = rw (e, own_doc_hash) refl; filed = filed }
    go (some d) e = record {
      value = some (compute_hash r y d).hash;
      after = put_doc (compute_hash r y d) s;
      runs = rw (e, own_doc_hash) refl;
      filed = put_doc-AllFiled (compute_hash r y d) s (filed uuid ino d e).used filed;
    }

or_throw-Succeeds :
    (o : Option (Option String)) (s : Instance)
    → o ≢ none
    → AllFiled s
    → Succeeds (or_throw o hash_error) s
or_throw-Succeeds none s n filed = absurd (n refl)
or_throw-Succeeds (some h) s n filed = pure-Succeeds h s filed

get_doc_hash-Succeeds :
    (cfg : Config) (r : Remote) (y : Yjs) (uuid : String) (ino : Option ℕ) (x : CachedWorkspace)
    (s : Instance)
    → Answers r
    → AllFiled s
    → Succeeds (get_doc_hash cfg r y uuid ino x) s
unfolding get_doc_hash
get_doc_hash-Succeeds cfg r y uuid none x s answers filed = pure-Succeeds none s filed
get_doc_hash-Succeeds cfg r y uuid (some ino) x s answers filed = held (defined (lookup ino x.docs))
  where
    asked : String → Task (Option String)
    asked id = or_throw (r.doc_hash id uuid ino) hash_error

    here :
        (id : String) (b : Dec (cfg.instance_id ≡ id))
        → Succeeds {A = Option String} (ite b (own_doc_hash r y uuid ino) (asked id)) s
    here id (yes e) = own_doc_hash-Succeeds r y uuid ino s filed
    here id (no n) = or_throw-Succeeds (r.doc_hash id uuid ino) s (answers id uuid ino) filed

    held :
        (o : Option String)
        → Succeeds {A = Option String}
            (elim o [
              | none ↦ pure none
              | some id ↦ ite (str_dec cfg.instance_id id) (own_doc_hash r y uuid ino) (asked id)
            ])
            s
    held none = pure-Succeeds none s filed
    held (some id) = here id (str_dec cfg.instance_id id)

compare_hashes-Succeeds :
    (r : Remote) (uuid : String) (e : FsEvent) (o : Option String) (s : Instance)
    → IsRandom r.random_int
    → AllFiled s
    → Succeeds (compare_hashes r uuid e o) s
unfolding compare_hashes
compare_hashes-Succeeds r uuid e none s random filed = pure-Succeeds false s filed
compare_hashes-Succeeds r uuid e (some h) s random filed =
    compared (str_dec (get_file_hash r uuid e.path) h)
  where
    compared :
        (b : Dec (get_file_hash r uuid e.path ≡ h))
        → Succeeds (ite b (pure false) (mark_conflict r uuid e.ino >> pure true)) s
    compared (yes k) = pure-Succeeds false s filed
    compared (no n) =
        bind_Succeeds (mark_conflict r uuid e.ino) (λ _. pure true) s
          (mark_conflict-Succeeds r uuid e.ino s random filed) (λ _ v k. pure-Succeeds true v k)

check_write-Succeeds :
    (cfg : Config) (r : Remote) (y : Yjs) (uuid : String) (x : CachedWorkspace) (e : FsEvent)
    (s : Instance)
    → IsRandom r.random_int
    → Answers r
    → AllFiled s
    → Succeeds (check_write cfg r y uuid x e) s
unfolding check_write
check_write-Succeeds cfg r y uuid x e s random answers filed =
    bind_Succeeds (get_doc_hash cfg r y uuid e.ino x) _ s
      (get_doc_hash-Succeeds cfg r y uuid e.ino x s answers filed)
      (λ hash v k. compare_hashes-Succeeds r uuid e (defined hash) v random k)

sync_event-Succeeds :
    (cfg : Config) (r : Remote) (y : Yjs) (uuid : String) (x : CachedWorkspace) (e : FsEvent)
    (bs : Batches) (s : Instance)
    → IsRandom r.random_int
    → Answers r
    → AllFiled s
    → Succeeds (sync_event cfg r y uuid x e bs) s
unfolding sync_event
sync_event-Succeeds cfg r y uuid x e bs s random answers filed =
    bind_Succeeds (if is_file_write e then check_write cfg r y uuid x e else pure true) _ s
      (checked (is_file_write e))
      (λ told v k. pure-Succeeds (if told then deliver_event x e bs else bs) v k)
  where
    checked : (b : Bool) → Succeeds (if b then check_write cfg r y uuid x e else pure true) s
    checked true = check_write-Succeeds cfg r y uuid x e s random answers filed
    checked false = pure-Succeeds true s filed

sync_events-Succeeds :
    (cfg : Config) (r : Remote) (y : Yjs) (uuid : String) (x : CachedWorkspace) (es : List FsEvent)
    (bs : Batches) (s : Instance)
    → IsRandom r.random_int
    → Answers r
    → AllFiled s
    → Succeeds (sync_events cfg r y uuid x es bs) s
unfolding sync_events
sync_events-Succeeds cfg r y uuid x [] bs s random answers filed = pure-Succeeds bs s filed
sync_events-Succeeds cfg r y uuid x (e ∷ es) bs s random answers filed =
    bind_Succeeds (sync_event cfg r y uuid x e bs) _ s
      (sync_event-Succeeds cfg r y uuid x e bs s random answers filed)
      (λ bs' v k. sync_events-Succeeds cfg r y uuid x es bs' v random answers k)

sync-Succeeds :
    (cfg : Config) (r : Remote) (y : Yjs) (uuid : String) (es : List FsEvent) (s : Instance)
    → IsRandom r.random_int
    → Answers r
    → AllFiled s
    → Succeeds (sync cfg r y uuid es) s
unfolding sync sync_cached
sync-Succeeds cfg r y uuid es s random answers filed = go (get_workspace s.shared uuid) refl
  where
    sent_docs : (bs : Batches) (v : Instance) → (send_batches uuid bs v).docs ≡ v.docs
    sent_docs bs v = unfold send_batches in refl

    go :
        (o : Option CachedWorkspace)
        → get_workspace s.shared uuid ≡ o
        → Succeeds (sync cfg r y uuid es) s
    go none e =
        run_as (sync cfg r y uuid es) (pure tt) s (rw (e, sync) refl) (pure-Succeeds tt s filed)
    go (some x) e =
        run_as (sync cfg r y uuid es) (sync_cached cfg r y uuid es x) s (rw (e, sync) refl) (
          bind_Succeeds (sync_events cfg r y uuid x es []) (λ bs. modify (send_batches uuid bs)) s
            (sync_events-Succeeds cfg r y uuid x es [] s random answers filed)
            (λ bs v k.
              modify-Succeeds (send_batches uuid bs) v
                (docs_kept v (send_batches uuid bs v) (sent_docs bs v) k)))

set_path_state_docs :
    (uuid : String) (p : PathState) (s : Instance) → AllFiled s → AllFiled (set_path_state uuid p s)
set_path_state_docs uuid p s filed = docs_kept s (set_path_state uuid p s) refl filed

begin_process-Succeeds :
    (cfg : Config) (r : Remote) (y : Yjs) (uuid : String) (s : Instance)
    → IsRandom r.random_int
    → Answers r
    → AllFiled s
    → Succeeds (begin_process cfg r y uuid) s
unfolding begin_process
begin_process-Succeeds cfg r y uuid s random answers filed = go (lookup uuid s.path_state) refl
  where
    go :
        (o : Option PathState)
        → lookup uuid s.path_state ≡ o
        → Succeeds (begin_process cfg r y uuid) s
    go none e =
        run_as (begin_process cfg r y uuid) (pure tt) s (rw (e, begin_process) refl)
          (pure-Succeeds tt s filed)
    go (some p) e =
        let s' : Instance = set_path_state uuid (record p { process_due = false }) s in
        let h : Succeeds (sync cfg r y uuid p.batch) s' =
          sync-Succeeds cfg r y uuid p.batch s' random answers
            (set_path_state_docs uuid (record p { process_due = false }) s filed) in
        record {
          value = h.value;
          after = h.after;
          runs = rw (e, begin_process) h.runs;
          filed = h.filed;
        }

pub end_process-AllFiled :
    (uuid : String) (s : Instance) → AllFiled s → AllFiled (end_process uuid s)
unfolding end_process
end_process-AllFiled uuid s filed = go (lookup uuid s.path_state) refl
  where
    go : (o : Option PathState) → lookup uuid s.path_state ≡ o → AllFiled (end_process uuid s)
    go none e = rw (e, end_process) filed
    go (some p) e = rw (e, end_process) (set_path_state_docs uuid (record p { batch = [] }) s filed)

-- with the state that the processing leaves
pub process_Succeeds :
    (cfg : Config) (r : Remote) (y : Yjs) (uuid : String) (s : Instance)
    → IsRandom r.random_int
    → Answers r
    → AllFiled s
    → (v : Instance) × (process cfg r y uuid s ≡ (ok tt, v)) × AllFiled v
unfolding process
process_Succeeds cfg r y uuid s random answers filed =
    let h : Succeeds (process cfg r y uuid) s =
      bind_Succeeds (begin_process cfg r y uuid) (λ _. modify (end_process uuid)) s
        (begin_process-Succeeds cfg r y uuid s random answers filed)
        (λ _ v k. modify-Succeeds (end_process uuid) v (end_process-AllFiled uuid v k)) in
    (h.after, h.runs, h.filed)
