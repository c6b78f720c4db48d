-- ===== src/Env.antt =====
-- An environment's instance (env/src): the documents, watches and connections it keeps, and what a
-- workspace's container, Yjs and the other services answer.
pub mod Sessions
mod Tests
pub mod Files
pub mod Documents
pub mod Sync
pub mod Terminals
pub mod Locks
pub mod Opening
pub mod Closing
pub mod Unlocking
pub mod Released
pub mod Restoring
pub mod Leaving
pub mod Requests
pub mod Channels
use hide_server.Base.{
  member, add_new, to_set, length, All, In, In-append_left, In-append_right, for_each, str_dec,
  str_empty, Key, str_key, nat_key, lookup, insert, erase, Map, keys, values, has, lookup-insert,
  lookup-erase, lookup-insert_self, lookup-erase_self, ℕ, zero, suc, ◌+◌, ◌-◌, ◌*◌, ◌/◌, ◌%◌, ◌≤◌,
  ◌<◌, String, ◌≡◌, refl, sym, ap, subst, ◌∙◌, ◌≢◌, ◌↔◌, ◌⊎◌, inl, inr, ite, Bool, true, false, not,
  ◌&&◌, ◌||◌, Option, none, some, List, [], ◌∷◌, ◌++◌, map, flatten, arith, dec_lt, dec_le,
  ℕ_discrete, Failure, Result, Action, Void, pure, throw, gets, or_throw, ◌>>=◌, ◌>>◌, throw_if,
  modify, bind_ok, bind_err, then_keeps, ltb, leb, if◌then◌else◌, Bool-cases, Option-cases, ok, err,
}
use hide_server.Platform.{World, FsEvent, Event, send}

pub record Config : Type 0 where
  -- `CommonRef.getInstanceId()`
  pub instance_id : String
  pub ws_activity_timeout : ℕ

-- What is done to a document's text: the file's content is put in front of it or replaces it, or a
-- client's update is applied. A Yjs document is what was done to it, in order.
pub data Edit : Type 0 where
  inserted replaced : String → Edit
  applied : List ℕ → Edit

-- What is done to the awareness of a document: a client's update, or the end of some clients.
pub data AwarenessEdit : Type 0 where
  announced removal : List ℕ → AwarenessEdit

-- env/src/utils/shareddoc.ts
pub record AwarenessUpdate : Type 0 where
  pub added : List ℕ
  pub updated : List ℕ
  pub removed : List ℕ

-- Yjs, y-protocols and lib0. None stands for an exception, or for no event.
pub record Yjs : Type 0 where
  pub text : List Edit → String
  -- the update that an edit of a document makes, if it changes it
  pub update_of : List Edit → Edit → Option (List ℕ)
  -- `readVarUint`: the number, and what follows it
  pub read_number : List ℕ → Option (ℕ × List ℕ)
  -- `readVarUint8Array` and `writeVarUint8Array`
  pub read_bytes : List ℕ → Option (List ℕ)
  pub write_bytes : List ℕ → List ℕ
  -- `readSyncMessage`: the update that it applies, if any, and what it writes as an answer
  pub read_sync : List Edit → List ℕ → Option (Option (List ℕ) × List ℕ)
  pub write_sync_step1 : List Edit → List ℕ
  pub write_update : List ℕ → List ℕ
  -- the update event that an edit of the awareness makes
  pub awareness_update : List AwarenessEdit → AwarenessEdit → Option AwarenessUpdate
  -- the clients that have a state
  pub clients : List AwarenessEdit → List ℕ
  pub encode_awareness : List AwarenessEdit → List ℕ → List ℕ

pub record Stat : Type 0 where
  pub ino : ℕ
  pub is_dir : Bool

pub record Membership : Type 0 where
  pub image : String
  pub dedicated : Bool

-- The answers to one handler's requests. The first ones are those of a workspace's container, for
-- the workspace and a path; none is a status outside 200 to 299, or no answer.
pub record Remote : Type 0 where
  pub stat : String → String → Option Stat
  pub entries : String → String → Option (List String)
  pub content : String → String → Option String
  pub file_hash : String → String → Option String
  pub is_ready : String → Bool
  pub affine : String → String → Bool
  -- the status of a command, if there is an answer
  pub command : String → String → Option ℕ
  -- the hash that another instance has of a document
  pub doc_hash : String → String → ℕ → Option (Option String)
  -- `workspace.membership.check`; none is a rejection too
  pub membership : String → String → Option Membership
  -- whether the provisioner makes the user wait; none is a failure
  pub wait : String → String → Membership → Option Bool
  -- `randomInt(0, n)`, `sha256` in hexadecimal
  pub random_int : ℕ → ℕ
  pub sha256 : String → String

-- `WSSharedDoc`. `flush_due` is the debounced `_flush` that has not run yet.
pub record SharedDoc : Type 0 where
  pub ino : ℕ
  pub path : String
  pub uuid : String
  pub users : Map String (List ℕ)
  pub is_displaced : Bool
  pub is_conflicting : Bool
  pub conflict_resolver : String
  pub hash : String
  pub edits : List Edit
  pub awareness : List AwarenessEdit
  pub flush_due : Bool

abbrev pub ActiveDocs : Type 0
ActiveDocs = Map ℕ SharedDoc

-- The state of a watched path. `cooling` says that the timer of the cooldown runs.
pub record Burst : Type 0 where
  pub last_event : ℕ
  pub count : ℕ
  pub bursting : Bool
  pub cooling : Bool

-- `pathState[uuid]`. `process_due` is the debounced `process`.
pub record PathState : Type 0 where
  pub batch : List FsEvent
  pub paths : Map String Burst
  pub process_due : Bool

-- `conns[uid][uuid]`: the gateway's session it was opened for, and its ssh sessions.
pub record Connection : Type 0 where
  pub session_id : String
  pub sessions : List String

-- `closed` holds the documents that are destroyed and still have a flush to come.
pub record Instance : Type 0 where
  pub shared : World
  pub docs : Map String ActiveDocs
  pub closed : List SharedDoc
  pub path_state : Map String PathState
  pub conns : Map String (Map String Connection)

abbrev pub Task : Type 0 → Type 0
Task A = Action Instance A

abbrev pub in_shared : (World → World) → Instance → Instance
in_shared f s = record s { shared = f s.shared }

abbrev pub emit : Event → Instance → Instance
emit e = in_shared (send e)

-- a step on the shared state alone
unfoldable pub shared_task : {A : Type 0} → Action World A → Task A
shared_task m s = let (r, w) = m s.shared in (r, record s { shared = w })

-- `docs.get(uuid)?.get(ino)`
unfoldable pub find_doc : String → ℕ → Instance → Option SharedDoc
find_doc uuid ino s = elim (lookup uuid s.docs) [ none ↦ none | some ds ↦ lookup ino ds ]

abbrev pub or_empty : {K V : Type 0} → Option (Map K V) → Map K V
or_empty none = []
or_empty (some m) = m

-- A document that is open is an object that the maps share: a change of it is seen there.
unfoldable pub put_doc : SharedDoc → Instance → Instance
put_doc d s = record s {
  docs = insert d.uuid (insert d.ino d (or_empty (lookup d.uuid s.docs))) s.docs;
}
