-- ===== src/Env/Sync/Users.antt =====
-- env/src/core/sync.service.ts and shareddoc.ts: no change of a document takes its users away.
use hide_server.Base.{
  str_key, nat_key, lookup, insert, Map, ℕ, zero, suc, String, ◌≡◌, refl, sym, ap, ◌∙◌, ◌≢◌, Bool,
  true, false, Option, none, some, List, [], ◌∷◌, arith,
}
use hide_server.Platform.{World}
use hide_server.Env.{Yjs, Remote, SharedDoc, Edit, AwarenessEdit, AwarenessUpdate}
use hide_server.Env.Documents.{
  control_clients, controlled, update_handler, edit_doc, awareness_change_handler, edit_awareness,
  edit_for, load_file_content, flush,
}
use hide_server.Env.Sync.Messages.{
  receive_sync, receive_awareness, receive, decide_conflict, end_conflict,
}

-- whether a document has users
abbrev pub has_users : SharedDoc → Bool
has_users d = elim d.users [ [] ↦ false | _ ↦ true ]

pub has_users_ne : (d : SharedDoc) → has_users d ≡ true → d.users ≢ []
has_users_ne d h e = cc (sym (ap (λ us. elim us [ [] ↦ false | _ ↦ true ]) e) ∙ h)

abbrev pub Kept : SharedDoc → SharedDoc → Type 0
Kept d d' = has_users d' ≡ has_users d

pub has_users-insert :
    (uid : String) (ids : List ℕ) (us : Map String (List ℕ))
    → (elim (insert uid ids us) [ [] ↦ false | _ ↦ true ]) ≡ true
unfolding insert
has_users-insert uid ids [] = refl
has_users-insert uid ids ((u, is) ∷ us) = ground arith

lookup_has_users :
    (uid : String) (us : Map String (List ℕ)) (ids : List ℕ)
    → lookup uid us ≡ some ids
    → (elim us [ [] ↦ false | _ ↦ true ]) ≡ true
unfolding lookup
lookup_has_users uid [] ids e = cc
lookup_has_users uid (u ∷ us) ids e = refl

control_clients_users :
    (u : AwarenessUpdate) (uid : Option String) (d : SharedDoc) → Kept d (control_clients u uid d)
unfolding control_clients
control_clients_users u none d = refl
control_clients_users u (some uid) d = go (lookup uid d.users) refl
  where
    go : (o : Option (List ℕ)) → lookup uid d.users ≡ o → Kept d (control_clients u (some uid) d)
    go none e = rw (e, control_clients) refl
    go (some ids) e =
        rw (e, control_clients)
          (has_users-insert uid (controlled u ids) d.users
            ∙ sym (lookup_has_users uid d.users ids e))

pub edit_doc_users :
    (y : Yjs) (e : Edit) (d : SharedDoc) (w : World) → (edit_doc y e (d, w)).0.users ≡ d.users
unfolding edit_doc update_handler
edit_doc_users y e d w = ground arith

pub load_file_content_users :
    (r : Remote) (y : Yjs) (b : Bool) (d : SharedDoc) (w : World)
    → (load_file_content r y b (d, w)).1.users ≡ d.users
unfolding load_file_content
load_file_content_users r y b d w = go (r.content d.uuid d.path) refl
  where
    go :
        (o : Option String)
        → r.content d.uuid d.path ≡ o
        → (load_file_content r y b (d, w)).1.users ≡ d.users
    go none e = rw (e, load_file_content) refl
    go (some t) e = rw (e, load_file_content) (edit_doc_users y (edit_for b t) d w)

pub edit_awareness_users :
    (y : Yjs) (e : AwarenessEdit) (uid : Option String) (d : SharedDoc) (w : World)
    → Kept d (edit_awareness y e uid (d, w)).0
unfolding edit_awareness awareness_change_handler
edit_awareness_users y e uid d w = go (y.awareness_update d.awareness e) refl
  where
    go :
        (o : Option AwarenessUpdate)
        → y.awareness_update d.awareness e ≡ o
        → Kept d (edit_awareness y e uid (d, w)).0
    go none k = rw (k, edit_awareness) refl
    go (some u) k = rw (k, edit_awareness) (control_clients_users u uid _)

pub flush_users :
    (r : Remote) (y : Yjs) (d : SharedDoc) (w : World) → (flush r y (d, w)).0.users ≡ d.users
unfolding flush
flush_users r y d w = ground arith

receive_sync_users :
    (y : Yjs) (uid sid : String) (bytes : List ℕ) (d : SharedDoc) (w : World)
    → (receive_sync y uid sid bytes (d, w)).0.users ≡ d.users
unfolding receive_sync
receive_sync_users y uid sid bytes d w = go (y.read_sync d.edits bytes) refl
  where
    go :
        (o : Option (Option (List ℕ) × List ℕ))
        → y.read_sync d.edits bytes ≡ o
        → (receive_sync y uid sid bytes (d, w)).0.users ≡ d.users
    go none e = rw (e, receive_sync) refl
    go (some (none, reply)) e = rw (e, receive_sync) refl
    go (some (some u, reply)) e = rw (e, receive_sync) (edit_doc_users y (Edit.applied u) d w)

receive_awareness_users :
    (y : Yjs) (uid : String) (bytes : List ℕ) (d : SharedDoc) (w : World)
    → Kept d (receive_awareness y uid bytes (d, w)).0
unfolding receive_awareness
receive_awareness_users y uid bytes d w = go (y.read_bytes bytes) refl
  where
    go :
        (o : Option (List ℕ))
        → y.read_bytes bytes ≡ o
        → Kept d (receive_awareness y uid bytes (d, w)).0
    go none e = rw (e, receive_awareness) refl
    go (some b) e =
        rw (e, receive_awareness)
          (edit_awareness_users y (AwarenessEdit.announced b) (some uid) d w)

pub receive_users :
    (y : Yjs) (uid sid : String) (bytes : List ℕ) (d : SharedDoc) (w : World)
    → Kept d (receive y uid sid bytes (d, w)).0
unfolding receive
receive_users y uid sid bytes d w = go (y.read_number bytes) refl
  where
    go :
        (o : Option (ℕ × List ℕ))
        → y.read_number bytes ≡ o
        → Kept d (receive y uid sid bytes (d, w)).0
    go none e = rw (e, receive) refl
    go (some (zero, rest)) e =
        rw (e, receive)
          (ap (λ us. elim us [ [] ↦ false | _ ↦ true ]) (receive_sync_users y uid sid rest d w))
    go (some (suc zero, rest)) e = rw (e, receive) (receive_awareness_users y uid rest d w)
    go (some (suc (suc n), rest)) e = rw (e, receive) refl

pub decide_conflict_users :
    (r : Remote) (y : Yjs) (keep : Bool) (d : SharedDoc) (w : World)
    → (end_conflict (decide_conflict r y keep (d, w))).0.users ≡ d.users
unfolding decide_conflict end_conflict
decide_conflict_users r y true d w = refl
decide_conflict_users r y false d w = load_file_content_users r y true d w
