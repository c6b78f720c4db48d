-- ===== src/Env/Files/Batches.antt =====
-- env/src/core/fs.service.ts: the batches of events that the watchers of a directory receive.
use hide_server.Base.{
  length, for_each, str_dec, str_key, nat_key, lookup, insert, Map, keys, ℕ, zero, suc, String, ite,
  Bool, true, false, ◌&&◌, Option, none, some, List, [], ◌∷◌, ◌++◌, Failure, Void, pure, or_throw,
  ◌>>=◌, ◌>>◌, modify, if◌then◌else◌, ok,
}
use hide_server.Cache.{CachedWorkspace}
use hide_server.Platform.{FsAction, FsKind, FsEvent, Event, SocketMessage, send, get_workspace}
use hide_server.Gateway.Presence.{defined}
use hide_server.Env.{Config, Yjs, Remote, SharedDoc, Instance, Task, in_shared, find_doc, put_doc}
use hide_server.Env.Sessions.{active_sessions, send_to_watchers}
use hide_server.Env.Files.Bursts.{set_path_state}

abbrev pub Batches : Type 0
Batches = Map String (List FsEvent)

-- `list[i]`
unfoldable pub nth : ℕ → List String → Option String
nth n [] = none
nth zero (x ∷ xs) = some x
nth (suc n) (x ∷ xs) = nth n xs

-- env/src/utils: `randomInt(0, 0)` throws
abbrev pub range_error : Failure
range_error = record { status = 0; message = "ERR_OUT_OF_RANGE" }

unfoldable pub pick_one : Remote → List String → Task String
unfolding nth
pick_one r xs = or_throw (nth (r.random_int (length xs)) xs) range_error

-- `computeHash()` also keeps the hash
unfoldable pub compute_hash : Remote → Yjs → SharedDoc → SharedDoc
compute_hash r y d = record d { hash = r.sha256 (y.text d.edits) }

-- of the document that this instance has, if it does
unfoldable pub own_doc_hash : Remote → Yjs → String → ℕ → Task (Option String)
unfolding compute_hash find_doc put_doc
own_doc_hash r y uuid ino s = elim (find_doc uuid ino s) [
  | none ↦ (ok none, s)
  | some d ↦ let d' = compute_hash r y d in (ok (some d'.hash), put_doc d' s)
]

-- an instance that does not answer in time
abbrev pub hash_error : Failure
hash_error = record { status = 0; message = "doc.hash" }

unfoldable pub get_doc_hash :
    Config → Remote → Yjs → String → Option ℕ → CachedWorkspace → Task (Option String)
unfolding own_doc_hash
get_doc_hash cfg r y uuid none x = pure none
get_doc_hash cfg r y uuid (some ino) x = elim (defined (lookup ino x.docs)) [
  | none ↦ pure none
  | some id ↦
      ite (str_dec cfg.instance_id id) (own_doc_hash r y uuid ino)
        (or_throw (r.doc_hash id uuid ino) hash_error)
]

unfoldable pub get_file_hash : Remote → String → String → String
get_file_hash r uuid path = elim (r.file_hash uuid path) [ none ↦ "" | some h ↦ h ]

abbrev pub doc_of : String → Option ℕ → Instance → Option SharedDoc
doc_of uuid none s = none
doc_of uuid (some ino) s = find_doc uuid ino s

-- A document whose file was written by another program asks one of its users what to keep.
unfoldable pub mark_doc : Remote → SharedDoc → Task Void
unfolding put_doc pick_one send_to_watchers
mark_doc r d = do
  modify (put_doc (record d { is_conflicting = true }))
  uid ← pick_one r (keys d.users)
  modify (put_doc (record d { is_conflicting = true; conflict_resolver = uid }))
  modify
      (in_shared (send_to_watchers d.uuid (keys d.users) (SocketMessage.conflict d.uuid d.ino uid)))

unfoldable pub mark_conflict : Remote → String → Option ℕ → Task Void
unfolding find_doc mark_doc
mark_conflict r uuid ino s = elim (doc_of uuid ino s) [
  | none ↦ (ok tt, s)
  | some d ↦ mark_doc r d s
]

-- the root of a workspace is watched as `/workspace/`
unfoldable pub normalised : FsEvent → FsEvent
normalised e =
    ite (str_dec e.watched_path "/workspace") (record e { watched_path = "/workspace/" }) e

abbrev pub batch_of : String → Batches → List FsEvent
batch_of uid bs = elim (lookup uid bs) [ none ↦ [] | some es ↦ es ]

unfoldable pub add_to_batches : FsEvent → List String → Batches → Batches
add_to_batches e = for_each (λ uid bs. insert uid (batch_of uid bs ++ e ∷ []) bs)

unfoldable pub deliver_event : CachedWorkspace → FsEvent → Batches → Batches
unfolding normalised add_to_batches
deliver_event x e bs =
    let e' = normalised e in
    add_to_batches e' (elim (lookup e'.watched_path x.dirs) [ none ↦ [] | some us ↦ us ]) bs

unfoldable pub is_file_write : FsEvent → Bool
is_file_write e =
    (elim e.kind [ FsKind.file ↦ true | FsKind.dir ↦ false ])
    && (elim e.action [ FsAction.write ↦ true | _ ↦ false ])

-- by the hash of the document, if there is one
unfoldable pub compare_hashes : Remote → String → FsEvent → Option String → Task Bool
unfolding get_file_hash mark_conflict
compare_hashes r uuid e none = pure false
compare_hashes r uuid e (some h) =
    ite (str_dec (get_file_hash r uuid e.path) h) (pure false)
      (mark_conflict r uuid e.ino >> pure true)

-- Whether the watchers are told of a write to a file. One that leaves the document's text in the
-- file is the instance's own.
unfoldable pub check_write : Config → Remote → Yjs → String → CachedWorkspace → FsEvent → Task Bool
unfolding get_doc_hash compare_hashes
check_write cfg r y uuid x e =
    get_doc_hash cfg r y uuid e.ino x >>= λ hash. compare_hashes r uuid e (defined hash)

unfoldable pub sync_event :
    Config → Remote → Yjs → String → CachedWorkspace → FsEvent → Batches → Task Batches
unfolding is_file_write check_write deliver_event
sync_event cfg r y uuid x e bs =
    (if is_file_write e then check_write cfg r y uuid x e else pure true) >>= λ told.
    pure (if told then deliver_event x e bs else bs)

unfoldable pub sync_events :
    Config → Remote → Yjs → String → CachedWorkspace → List FsEvent → Batches → Task Batches
unfolding sync_event
sync_events cfg r y uuid x [] bs = pure bs
sync_events cfg r y uuid x (e ∷ es) bs =
    sync_event cfg r y uuid x e bs >>= λ bs'. sync_events cfg r y uuid x es bs'

-- `sendBatch` to each
unfoldable pub send_batches : String → Batches → Instance → Instance
unfolding active_sessions
send_batches uuid bs s =
    in_shared
      (for_each (λ p. send (Event.socket_send p.0 p.1 (SocketMessage.batch (batch_of p.0 bs))))
        (active_sessions s.shared uuid (keys bs)))
      s

unfoldable pub sync_cached :
    Config → Remote → Yjs → String → List FsEvent → CachedWorkspace → Task Void
unfolding sync_events send_batches
sync_cached cfg r y uuid batch x =
    sync_events cfg r y uuid x batch [] >>= λ bs. modify (send_batches uuid bs)

unfoldable pub sync : Config → Remote → Yjs → String → List FsEvent → Task Void
unfolding sync_cached
sync cfg r y uuid batch s = elim (get_workspace s.shared uuid) [
  | none ↦ (ok tt, s)
  | some x ↦ sync_cached cfg r y uuid batch x s
]

-- `_process` waits for the synchronisation, and then clears the batch, as it is by then.
unfoldable pub begin_process : Config → Remote → Yjs → String → Task Void
unfolding sync
begin_process cfg r y uuid s = elim (lookup uuid s.path_state) [
  | none ↦ (ok tt, s)
  | some p ↦ sync cfg r y uuid p.batch (set_path_state uuid (record p { process_due = false }) s)
]

unfoldable pub end_process : String → Instance → Instance
end_process uuid s = elim (lookup uuid s.path_state) [
  | none ↦ s
  | some p ↦ set_path_state uuid (record p { batch = [] }) s
]

unfoldable pub process : Config → Remote → Yjs → String → Task Void
unfolding begin_process end_process
process cfg r y uuid = begin_process cfg r y uuid >> modify (end_process uuid)
