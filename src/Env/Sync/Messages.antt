-- ===== src/Env/Sync/Messages.antt =====
-- env/src/core/sync.service.ts: what the users of a document send, and what its timer does.
use hide_server.Base.{
  str_key, nat_key, ℕ, zero, suc, String, Bool, true, false, Option, none, some, List, [], ◌∷◌,
  if◌then◌else◌,
}
use hide_server.Platform.{World, Event, SocketMessage, send}
use hide_server.Env.{
  Yjs, Remote, SharedDoc, Edit, AwarenessEdit, Instance, in_shared, emit, find_doc,
}
use hide_server.Env.Sessions.{get_session_id}
use hide_server.Env.Documents.{
  sync_type, awareness_type, edit_doc, edit_awareness, load_file_content, set_file_content,
  send_resolved, flush,
}
use hide_server.Env.Sync.{store_doc}

-- `send`, to a session that is given or looked up
unfoldable pub send_sync : String → String → ℕ → List ℕ → Option String → World → World
send_sync uid uuid ino bytes (some sid) w =
    send (Event.socket_send uid sid (SocketMessage.sync uuid ino bytes)) w
send_sync uid uuid ino bytes none w = elim (get_session_id w uid uuid) [
  | none ↦ w
  | some sid ↦ send (Event.socket_send uid sid (SocketMessage.sync uuid ino bytes)) w
]

abbrev pub edit_update : Yjs → Option (List ℕ) → SharedDoc × World → SharedDoc × World
edit_update y none dw = dw
edit_update y (some u) dw = edit_doc y (Edit.applied u) dw

-- an answer that is more than the type of the message
unfoldable pub send_reply : String → String → SharedDoc → List ℕ → World → World
unfolding send_sync
send_reply uid sid d [] w = w
send_reply uid sid d (b ∷ bs) w = send_sync uid d.uuid d.ino (sync_type ∷ b ∷ bs) (some sid) w

unfoldable pub receive_sync : Yjs → String → String → List ℕ → SharedDoc × World → SharedDoc × World
unfolding edit_doc send_reply
receive_sync y uid sid bytes (d, w) = elim (y.read_sync d.edits bytes) [
  | none ↦ (d, w)
  | some (u, reply) ↦ let (d', w') = edit_update y u (d, w) in (d', send_reply uid sid d' reply w')
]

unfoldable pub receive_awareness : Yjs → String → List ℕ → SharedDoc × World → SharedDoc × World
unfolding edit_awareness
receive_awareness y uid bytes (d, w) = elim (y.read_bytes bytes) [
  | none ↦ (d, w)
  | some b ↦ edit_awareness y (AwarenessEdit.announced b) (some uid) (d, w)
]

-- by the type of the message; what cannot be read is only printed
unfoldable pub receive : Yjs → String → String → List ℕ → SharedDoc × World → SharedDoc × World
unfolding receive_sync receive_awareness
receive y uid sid bytes dw = elim (y.read_number bytes) [
  | none ↦ dw
  | some (zero, rest) ↦ receive_sync y uid sid rest dw
  | some (suc zero, rest) ↦ receive_awareness y uid rest dw
  | some (_, rest) ↦ dw
]

unfoldable pub handle_sync : Yjs → String → String → String → ℕ → List ℕ → Instance → Instance
unfolding find_doc receive store_doc
handle_sync y uid sid uuid ino bytes s = elim (find_doc uuid ino s) [
  | none ↦ s
  | some d ↦ store_doc (receive y uid sid bytes (d, s.shared)) s
]

unfoldable pub send_states : Yjs → String → String → SharedDoc → List ℕ → World → World
unfolding send_sync
send_states y uid sid d [] w = w
send_states y uid sid d (c ∷ cs) w =
    send_sync uid d.uuid d.ino
      (awareness_type ∷ y.write_bytes (y.encode_awareness d.awareness (c ∷ cs))) (some sid) w

-- The initial synchronisation goes to the session that has the workspace open, and the awareness
-- to the one that asks.
unfoldable pub handle_open_ack : Yjs → String → String → String → ℕ → Instance → Instance
unfolding find_doc send_sync send_states
handle_open_ack y uid sid uuid ino s = elim (find_doc uuid ino s) [
  | none ↦ s
  | some d ↦
      in_shared (send_states y uid sid d (y.clients d.awareness))
        (in_shared (send_sync uid d.uuid ino (sync_type ∷ y.write_sync_step1 d.edits) none) s)
]

-- `keep` writes the document to the file, anything else reads the file into the document
unfoldable pub decide_conflict : Remote → Yjs → Bool → SharedDoc × World → SharedDoc × World
unfolding load_file_content set_file_content
decide_conflict r y true (d, w) = (d, set_file_content y d w)
decide_conflict r y false (d, w) = let (ok', d', w') = load_file_content r y true (d, w) in (d', w')

unfoldable pub end_conflict : SharedDoc × World → SharedDoc × World
unfolding send_resolved
end_conflict (d, w) =
    let d' = record d { is_conflicting = false; conflict_resolver = "" } in (d', send_resolved d' w)

unfoldable pub handle_conflict_resolve :
    Remote → Yjs → String → String → String → ℕ → Bool → Instance → Instance
unfolding find_doc decide_conflict end_conflict store_doc
handle_conflict_resolve r y uid sid uuid ino keep s = elim (find_doc uuid ino s) [
  | none ↦ emit (Event.socket_send uid sid (SocketMessage.lost ino)) s
  | some d ↦ store_doc (end_conflict (decide_conflict r y keep (d, s.shared))) s
]

-- The debounced flush of a document runs, open or closed.
unfoldable pub flush_open : Remote → Yjs → String → ℕ → Instance → Instance
unfolding find_doc flush store_doc
flush_open r y uuid ino s = elim (find_doc uuid ino s) [
  | none ↦ s
  | some d ↦ if d.flush_due then store_doc (flush r y (d, s.shared)) s else s
]

unfoldable pub flush_closed : Remote → Yjs → Instance → Instance
unfolding flush
flush_closed r y s = elim s.closed [
  | [] ↦ s
  | d ∷ ds ↦ let (d', w) = flush r y (d, s.shared) in record s { shared = w; closed = ds }
]
