-- ===== src/Env/Sync.antt =====
-- env/src/core/sync.service.ts: the documents that an instance has open, and their users.
pub mod Messages
pub mod Filed
pub mod Users
pub mod Opened
pub mod Left
pub mod Picking
pub mod Processing
pub mod Keeping
pub mod Reached
pub mod Conflicts
pub mod Losing
use hide_server.Base.{
  member, add_new, to_set, length, All, In, In-append_left, In-append_right, for_each, str_dec,
  str_empty, Key, str_key, nat_key, lookup, insert, erase, Map, keys, values, has, lookup-insert,
  lookup-erase, lookup-insert_self, lookup-erase_self, ℕ, zero, suc, ◌+◌, ◌-◌, ◌*◌, ◌/◌, ◌%◌, ◌≤◌,
  ◌<◌, String, ◌≡◌, refl, sym, ap, subst, ◌∙◌, ◌≢◌, ◌↔◌, ◌⊎◌, inl, inr, ite, Bool, true, false, not,
  ◌&&◌, ◌||◌, Option, none, some, List, [], ◌∷◌, ◌++◌, map, flatten, arith, dec_lt, dec_le,
  ℕ_discrete, Failure, Result, Action, Void, pure, throw, gets, or_throw, ◌>>=◌, ◌>>◌, throw_if,
  modify, bind_ok, bind_err, then_keeps, ltb, leb, if◌then◌else◌, Bool-cases, Option-cases, ok, err,
}
use hide_server.Cache.{CachedWorkspace}
use hide_server.Platform.{World, Event, SocketMessage, send, get_workspace, set_workspace}
use hide_server.Env.{
  Config, Yjs, Remote, SharedDoc, Edit, AwarenessEdit, Instance, in_shared, emit, find_doc,
  or_empty, put_doc,
}
use hide_server.Env.Sessions.{get_session_id, answer, send_error}
use hide_server.Env.Files.Batches.{compute_hash}
use hide_server.Env.Documents.{
  sync_type, awareness_type, fresh_doc, edit_doc, edit_awareness, load_file_content,
  set_file_content, send_resolved, flush,
}

abbrev with_docs : Map ℕ String → CachedWorkspace → CachedWorkspace
with_docs docs x = record x { docs = docs }

abbrev docs_for : Config → ℕ → Bool → Map ℕ String → Map ℕ String
docs_for cfg ino true docs = insert ino cfg.instance_id docs
docs_for cfg ino false docs = erase ino docs

-- `updateCache`
unfoldable pub update_cache : Config → String → ℕ → Bool → World → World
update_cache cfg uuid ino add w = elim (get_workspace w uuid) [
  | none ↦ w
  | some x ↦ set_workspace uuid (with_docs (docs_for cfg ino add x.docs) x) w
]

-- the other instance that has a document
unfoldable pub holder : Config → Option String → Option String
holder cfg none = none
holder cfg (some id) =
    if str_empty id then none else ite (str_dec cfg.instance_id id) none (some id)

-- what a handler did to a document that is open, and to the shared state
unfoldable pub store_doc : SharedDoc × World → Instance → Instance
unfolding put_doc
store_doc (d, w) s = put_doc d (record s { shared = w })

-- The documents of a workspace are a map once one of them is opened.
unfoldable pub ensure_docs : String → Instance → Instance
ensure_docs uuid s = record s { docs = insert uuid (or_empty (lookup uuid s.docs)) s.docs }

unfoldable pub drop_docs : String → Instance → Instance
drop_docs uuid s = record s { docs = erase uuid s.docs }

-- after a file that could not be read: `if (docs.get(uuid)?.size === 1) docs.delete(uuid)`
unfoldable pub drop_single : String → Instance → Instance
unfolding drop_docs
drop_single uuid s = elim (lookup uuid s.docs) [ some (d ∷ []) ↦ drop_docs uuid s | _ ↦ s ]

-- The user takes part in the document, controls none of its clients yet, and is answered.
unfoldable pub join_doc : Config → String → String → Option String → SharedDoc → Instance → Instance
unfolding put_doc update_cache answer
join_doc cfg uid sid c d s =
    let d' = record d { users = insert uid [] d.users } in
    let s' = in_shared (update_cache cfg d.uuid d.ino true) (put_doc d' s) in
    in_shared
      (answer uid sid c (λ id. SocketMessage.opened id d.is_conflicting d.conflict_resolver)) s'

-- A document that is not open is read first.
unfoldable pub open_new :
    Config
    → Remote
    → Yjs
    → String
    → String
    → Option String
    → Bool × SharedDoc × World
    → Instance
    → Instance
unfolding send_error drop_single compute_hash join_doc
open_new cfg r y uid sid c (false, d, w) s =
    drop_single d.uuid
      (in_shared (send_error uid sid "FS_ERR_READ_FILE" c) (record s { shared = w }))
open_new cfg r y uid sid c (true, d, w) s =
    join_doc cfg uid sid c (compute_hash r y d) (record s { shared = w })

unfoldable pub open_here :
    Config
    → Remote
    → Yjs
    → String
    → String
    → String
    → String
    → ℕ
    → Option String
    → Instance
    → Instance
unfolding ensure_docs find_doc fresh_doc load_file_content open_new join_doc
open_here cfg r y uid sid uuid path ino c s =
    let s' = ensure_docs uuid s in
    elim (find_doc uuid ino s) [
      | none ↦
          open_new cfg r y uid sid c
            (load_file_content r y false (fresh_doc ino path uuid, s.shared)) s'
      | some d ↦ join_doc cfg uid sid c d s'
    ]

-- `ino` is the one that the file's status has
unfoldable pub open_file :
    Config
    → Remote
    → Yjs
    → String
    → String
    → String
    → String
    → ℕ
    → Option String
    → Instance
    → Instance
unfolding send_error holder open_here
open_file cfg r y uid sid uuid path ino c s = elim (get_workspace s.shared uuid) [
  | none ↦ in_shared (send_error uid sid "FATAL_ERR_NO_WORKSPACE" c) s
  | some x ↦ elim (holder cfg (lookup ino x.docs)) [
    | some id ↦ emit (Event.open_remote id uid sid uuid ino) s
    | none ↦ open_here cfg r y uid sid uuid path ino c s
  ]
]

-- A document that is destroyed may still have a flush to come.
unfoldable pub destroy_doc : SharedDoc → Instance → Instance
destroy_doc d s = record s {
  docs = insert d.uuid (erase d.ino (or_empty (lookup d.uuid s.docs))) s.docs;
  closed = if d.flush_due then s.closed ++ d ∷ [] else s.closed;
}

-- the map of a workspace without open documents goes
unfoldable pub drop_empty : String → Instance → Instance
unfolding drop_docs
drop_empty uuid s = elim (or_empty (lookup uuid s.docs)) [ [] ↦ drop_docs uuid s | _ ↦ s ]

-- `d` no longer has the user; the last one closes it
unfoldable pub leave_doc : Config → SharedDoc × World → Instance → Instance
unfolding store_doc destroy_doc update_cache drop_empty
leave_doc cfg (d, w) s = elim d.users [
  | [] ↦
      drop_empty d.uuid
        (in_shared (update_cache cfg d.uuid d.ino false) (destroy_doc d (record s { shared = w })))
  | _ ↦ store_doc (d, w) s
]

-- the states of the clients that the user controlled go
unfoldable pub close_here : Config → Yjs → String → SharedDoc → Instance → Instance
unfolding edit_awareness leave_doc
close_here cfg y uid d s = elim (lookup uid d.users) [
  | none ↦ s
  | some ids ↦
      leave_doc cfg
        (edit_awareness y (AwarenessEdit.removal ids) none
          (record d { users = erase uid d.users }, s.shared))
        s
]

unfoldable pub close_file : Config → Yjs → String → String → String → ℕ → Instance → Instance
unfolding holder find_doc close_here
close_file cfg y uid sid uuid ino s = elim (get_workspace s.shared uuid) [
  | none ↦ s
  | some x ↦ elim (holder cfg (lookup ino x.docs)) [
    | some id ↦ emit (Event.close_remote id uid sid uuid ino) s
    | none ↦ elim (find_doc uuid ino s) [ none ↦ s | some d ↦ close_here cfg y uid d s ]
  ]
]
