-- ===== src/Env/Sync/Reached.antt =====
-- env/src/core/sync.service.ts: what holds of the open documents after any handlers of an instance.
use hide_server.Base.{
  str_key, nat_key, lookup, ℕ, String, ◌≡◌, refl, sym, ap, ◌∙◌, Bool, true, false, Option, none,
  some, List, [], Result, Void, if◌then◌else◌, ok,
}
use hide_server.Platform.{SocketMessage, Event}
use hide_server.Env.{Yjs, Remote, SharedDoc, Instance, emit, find_doc, Config}
use hide_server.Env.Documents.{flush}
use hide_server.Env.Sync.{store_doc, open_file, close_file}
use hide_server.Env.Sync.Messages.{
  receive, handle_sync, decide_conflict, end_conflict, handle_conflict_resolve, flush_open,
}
use hide_server.Env.Sync.Filed.{AllFiled}
use hide_server.Env.Sync.Users.{has_users, Kept, flush_users, receive_users, decide_conflict_users}
use hide_server.Env.Sync.Picking.{IsRandom, Answers}
use hide_server.Env.Sync.Keeping.{process-AllFiled, own_doc_hash-AllFiled}
use hide_server.Env.Files.Batches.{own_doc_hash}
use hide_server.Env.Sync.Processing.{process_Succeeds}
use hide_server.Env.Files.Batches.{process}
use hide_server.Env.Sync.Opened.{docs_kept, open_file-AllFiled}
use hide_server.Env.Sync.Left.{store_doc-AllFiled, found_used, close_file-AllFiled}

handle_sync-AllFiled :
    (y : Yjs) (uid sid uuid : String) (ino : ℕ) (bytes : List ℕ) (s : Instance)
    → AllFiled s
    → AllFiled (handle_sync y uid sid uuid ino bytes s)
unfolding handle_sync
handle_sync-AllFiled y uid sid uuid ino bytes s filed = go (find_doc uuid ino s) refl
  where
    go :
        (o : Option SharedDoc)
        → find_doc uuid ino s ≡ o
        → AllFiled (handle_sync y uid sid uuid ino bytes s)
    go none e = rw (e, handle_sync) filed
    go (some d) e =
        rw (e, handle_sync)
          (store_doc-AllFiled (receive y uid sid bytes (d, s.shared)) s
            (receive_users y uid sid bytes d s.shared ∙ found_used uuid ino d s filed e) filed)

same_users : (d d' : SharedDoc) → d'.users ≡ d.users → Kept d d'
same_users d d' e = ap (λ us. elim us [ [] ↦ false | _ ↦ true ]) e

handle_conflict_resolve-AllFiled :
    (r : Remote) (y : Yjs) (uid sid uuid : String) (ino : ℕ) (keep : Bool) (s : Instance)
    → AllFiled s
    → AllFiled (handle_conflict_resolve r y uid sid uuid ino keep s)
unfolding handle_conflict_resolve
handle_conflict_resolve-AllFiled r y uid sid uuid ino keep s filed = go (find_doc uuid ino s) refl
  where
    go :
        (o : Option SharedDoc)
        → find_doc uuid ino s ≡ o
        → AllFiled (handle_conflict_resolve r y uid sid uuid ino keep s)
    go none e =
        rw (e, handle_conflict_resolve)
          (docs_kept s (emit (Event.socket_send uid sid (SocketMessage.lost ino)) s) refl filed)
    go (some d) e =
        rw (e, handle_conflict_resolve)
          (store_doc-AllFiled (end_conflict (decide_conflict r y keep (d, s.shared))) s
            (same_users d (end_conflict (decide_conflict r y keep (d, s.shared))).0
                (decide_conflict_users r y keep d s.shared)
              ∙ found_used uuid ino d s filed e)
            filed)

flush_open-AllFiled :
    (r : Remote) (y : Yjs) (uuid : String) (ino : ℕ) (s : Instance)
    → AllFiled s
    → AllFiled (flush_open r y uuid ino s)
unfolding flush_open
flush_open-AllFiled r y uuid ino s filed = go (find_doc uuid ino s) refl
  where
    due :
        (d : SharedDoc) (b : Bool)
        → has_users d ≡ true
        → AllFiled (if b then store_doc (flush r y (d, s.shared)) s else s)
    due d false used = filed
    due d true used =
        store_doc-AllFiled (flush r y (d, s.shared)) s
          (same_users d (flush r y (d, s.shared)).0 (flush_users r y d s.shared) ∙ used) filed

    go : (o : Option SharedDoc) → find_doc uuid ino s ≡ o → AllFiled (flush_open r y uuid ino s)
    go none e = rw (e, flush_open) filed
    go (some d) e = rw (e, flush_open) (due d d.flush_due (found_used uuid ino d s filed e))

-- What may happen to the documents of an instance. Every handler is run with answers of its own, and
-- may fail; `hashes` is the request of another instance for a document's hash, and `other` any step
-- that leaves the documents as they are, as those of directories, terminals and locks do.
pub data Step (cfg : Config) (y : Yjs) (s : Instance) : Instance → Type 0 where
  opens :
      (r : Remote) (uid sid uuid path : String) (ino : ℕ) (c : Option String)
      → Step cfg y s (open_file cfg r y uid sid uuid path ino c s)
  closes : (uid sid uuid : String) (ino : ℕ) → Step cfg y s (close_file cfg y uid sid uuid ino s)
  syncs :
      (uid sid uuid : String) (ino : ℕ) (bytes : List ℕ)
      → Step cfg y s (handle_sync y uid sid uuid ino bytes s)
  resolves :
      (r : Remote) (uid sid uuid : String) (ino : ℕ) (keep : Bool)
      → Step cfg y s (handle_conflict_resolve r y uid sid uuid ino keep s)
  flushes : (r : Remote) (uuid : String) (ino : ℕ) → Step cfg y s (flush_open r y uuid ino s)
  processes : (r : Remote) (uuid : String) → Step cfg y s (process cfg r y uuid s).1
  hashes : (r : Remote) (uuid : String) (ino : ℕ) → Step cfg y s (own_doc_hash r y uuid ino s).1
  other : (t : Instance) → t.docs ≡ s.docs → Step cfg y s t

pub data Reach (cfg : Config) (y : Yjs) (s : Instance) : Instance → Type 0 where
  here : Reach cfg y s s
  next : {t u : Instance} → Reach cfg y s t → Step cfg y t u → Reach cfg y s u

Step-AllFiled : {cfg : Config} {y : Yjs} {s t : Instance} → Step cfg y s t → AllFiled s → AllFiled t
Step-AllFiled {cfg} {y} {s} (opens r uid sid uuid path ino c) h =
    open_file-AllFiled cfg r y uid sid uuid path ino c s h
Step-AllFiled {cfg} {y} {s} (closes uid sid uuid ino) h =
    close_file-AllFiled cfg y uid sid uuid ino s h
Step-AllFiled {cfg} {y} {s} (syncs uid sid uuid ino bytes) h =
    handle_sync-AllFiled y uid sid uuid ino bytes s h
Step-AllFiled {cfg} {y} {s} (resolves r uid sid uuid ino keep) h =
    handle_conflict_resolve-AllFiled r y uid sid uuid ino keep s h
Step-AllFiled {cfg} {y} {s} (flushes r uuid ino) h = flush_open-AllFiled r y uuid ino s h
Step-AllFiled {cfg} {y} {s} (processes r uuid) h = process-AllFiled cfg r y uuid s h
Step-AllFiled {cfg} {y} {s} (hashes r uuid ino) h = own_doc_hash-AllFiled r y uuid ino s h
Step-AllFiled {cfg} {y} {s} (other t e) h = docs_kept s t e h

pub start-AllFiled : (s : Instance) → s.docs ≡ [] → AllFiled s
unfolding find_doc lookup
start-AllFiled s e uuid ino d h =
    cc (sym (ap (λ m. elim (lookup uuid m) [ none ↦ none | some ds ↦ lookup ino ds ]) e) ∙ h)

-- Whatever handlers an instance that had no document open has run, in any order, and whether they
-- failed or not, each document that it has open stands under its own workspace and inode and has a
-- user. The handlers are the opening and closing of files, the messages of a document, its conflicts,
-- its flushes, the processing of batches and the requests for its hash.
pub Reach-AllFiled :
    {cfg : Config} {y : Yjs} {s t : Instance} → s.docs ≡ [] → Reach cfg y s t → AllFiled t
Reach-AllFiled {s = s} e here = start-AllFiled s e
Reach-AllFiled e (next r st) = Step-AllFiled st (Reach-AllFiled e r)

-- In every state that an instance reaches from one without documents, the processing of a
-- workspace's batch of file events succeeds, whatever the events and the answers of the workspace,
-- if `randomInt(0, n)` is below `n` and the other instances answer when they are asked for a hash.
pub Reach-process_succeeds :
    {cfg : Config} {y : Yjs} {s t : Instance}
    → s.docs ≡ []
    → Reach cfg y s t
    → (r : Remote) (uuid : String) → IsRandom r.random_int
    → Answers r
    → (process cfg r y uuid t).0 ≡ ok tt
Reach-process_succeeds {cfg} {y} {s} {t} e reach r uuid random answers =
    let (v, p, filed) = process_Succeeds cfg r y uuid t random answers (Reach-AllFiled e reach) in
    ap (λ (q : Result Void × Instance). q.0) p
