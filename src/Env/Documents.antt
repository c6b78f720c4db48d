-- ===== src/Env/Documents.antt =====
-- env/src/utils/shareddoc.ts and the parts of env/src/core/sync.service.ts that work on one
-- document: its changes, its file, and what its users are told.
use hide_server.Base.{
  member, to_set, str_empty, str_key, nat_key, lookup, insert, keys, ℕ, String, Bool, true, false,
  not, ◌&&◌, ◌||◌, Option, none, some, List, [], ◌∷◌, ◌++◌, if◌then◌else◌,
}
use hide_server.Platform.{World, Event, SocketMessage, send}
use hide_server.Env.{Yjs, Remote, Stat, SharedDoc, Edit, AwarenessEdit, AwarenessUpdate}
use hide_server.Env.Sessions.{send_to_watchers, broadcast_to}

-- `YMessage`
abbrev pub sync_type : ℕ
sync_type = 0

abbrev pub awareness_type : ℕ
awareness_type = 1

-- `new WSSharedDoc`, before its content is read
unfoldable pub fresh_doc : ℕ → String → String → SharedDoc
fresh_doc ino path uuid = record {
  ino = ino;
  path = path;
  uuid = uuid;
  users = [];
  is_displaced = false;
  is_conflicting = false;
  conflict_resolver = "";
  hash = "";
  edits = [];
  awareness = [];
  flush_due = false;
}

-- to every user of the document
unfoldable pub broadcast : SharedDoc → List ℕ → World → World
unfolding broadcast_to
broadcast d bytes = broadcast_to d.uuid (keys d.users) (SocketMessage.sync d.uuid d.ino bytes)

-- `_updateHandler`
unfoldable pub update_handler : Yjs → List ℕ → SharedDoc × World → SharedDoc × World
unfolding broadcast
update_handler y update (d, w) =
    (record d { flush_due = true }, broadcast d (sync_type ∷ y.write_update update) w)

-- An edit that changes the document calls the handler.
unfoldable pub edit_doc : Yjs → Edit → SharedDoc × World → SharedDoc × World
unfolding update_handler
edit_doc y e (d, w) =
    let d' = record d { edits = d.edits ++ e ∷ [] } in
    elim (y.update_of d.edits e) [ none ↦ (d', w) | some u ↦ update_handler y u (d', w) ]

abbrev without : List ℕ → List ℕ → List ℕ
without gone [] = []
without gone (c ∷ cs) = if member c gone then without gone cs else c ∷ without gone cs

-- the clients that a user controls after an update
unfoldable pub controlled : AwarenessUpdate → List ℕ → List ℕ
controlled u ids = without u.removed (to_set (ids ++ u.added))

-- A change that a user made is kept with that user.
unfoldable pub control_clients : AwarenessUpdate → Option String → SharedDoc → SharedDoc
unfolding controlled
control_clients u none d = d
control_clients u (some uid) d = elim (lookup uid d.users) [
  | none ↦ d
  | some ids ↦ record d { users = insert uid (controlled u ids) d.users }
]

unfoldable pub is_resolver_removed : SharedDoc → List String → List String → Bool
is_resolver_removed d initial updated =
    not (str_empty d.conflict_resolver)
    && member d.conflict_resolver initial
    && not (member d.conflict_resolver updated)

-- `sendConflict`
unfoldable pub send_conflict : SharedDoc → World → World
unfolding send_to_watchers
send_conflict d =
    send_to_watchers d.uuid (keys d.users) (SocketMessage.conflict d.uuid d.ino d.conflict_resolver)

abbrev is_nonempty : List ℕ → Bool
is_nonempty [] = false
is_nonempty (_ ∷ _) = true

-- `_awarenessChangeHandler`; the awareness is as the change left it
unfoldable pub awareness_change_handler :
    Yjs → AwarenessUpdate → Option String → SharedDoc × World → SharedDoc × World
unfolding control_clients broadcast is_resolver_removed send_conflict
awareness_change_handler y u uid (d, w) =
    let d' = control_clients u uid d in
    let changed = u.added ++ (u.updated ++ u.removed) in
    let bytes = awareness_type ∷ y.write_bytes (y.encode_awareness d.awareness changed) in
    let w' = broadcast d' bytes w in
    (
      d',
      if d'.is_conflicting
            && is_nonempty u.removed
            && is_resolver_removed d' (keys d.users) (keys d'.users)
          then send_conflict d' w'
          else w',
    )

-- An edit of the awareness that changes it calls the handler.
unfoldable pub edit_awareness :
    Yjs → AwarenessEdit → Option String → SharedDoc × World → SharedDoc × World
unfolding awareness_change_handler
edit_awareness y e uid (d, w) =
    let d' = record d { awareness = d.awareness ++ e ∷ [] } in
    elim (y.awareness_update d.awareness e) [
      | none ↦ (d', w)
      | some u ↦ awareness_change_handler y u uid (d', w)
    ]

abbrev pub edit_for : Bool → String → Edit
edit_for false content = Edit.inserted content
edit_for true content = Edit.replaced content

-- `loadFileContent`: whether the file was read, which puts its text in front or in place of the
-- document's
unfoldable pub load_file_content :
    Remote → Yjs → Bool → SharedDoc × World → Bool × SharedDoc × World
unfolding edit_doc
load_file_content r y replace (d, w) = elim (r.content d.uuid d.path) [
  | none ↦ (false, d, w)
  | some t ↦ let (d', w') = edit_doc y (edit_for replace t) (d, w) in (true, d', w')
]

-- `setFileContent`: a failure of the write is only printed
unfoldable pub set_file_content : Yjs → SharedDoc → World → World
set_file_content y d = send (Event.write_file d.uuid d.path (y.text d.edits))

-- `sendFileMovedOrDeleted` and `sendConflictResolved`
unfoldable pub send_displaced : SharedDoc → World → World
unfolding broadcast_to
send_displaced d = broadcast_to d.uuid (keys d.users) (SocketMessage.displaced d.uuid d.ino)

unfoldable pub send_resolved : SharedDoc → World → World
unfolding broadcast_to
send_resolved d = broadcast_to d.uuid (keys d.users) (SocketMessage.resolved d.uuid d.ino)

unfoldable pub is_file : Option Stat → Bool
is_file none = false
is_file (some st) = not st.is_dir

-- A document that lost its file, or whose file is in conflict, is not written to it.
unfoldable pub flush : Remote → Yjs → SharedDoc × World → SharedDoc × World
unfolding is_file send_displaced set_file_content
flush r y (d, w) =
    let d' = record d { flush_due = false } in
    if d.is_displaced || d.is_conflicting
    then (d', w)
    else if is_file (r.stat d.uuid d.path)
    then (d', set_file_content y d w)
    else (record d' { is_displaced = true }, send_displaced d w)
