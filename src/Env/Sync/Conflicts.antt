-- ===== src/Env/Sync/Conflicts.antt =====
-- env/src/core/sync.service.ts and shareddoc.ts: the user who is to resolve a conflict leaves.
use hide_server.Base.{
  str_key, nat_key, lookup, erase, Map, lookup-erase_self, ℕ, String, ◌≡◌, refl, sym, ap, subst,
  ◌∙◌, ◌≢◌, true, false, Option, none, some, List, [], ◌∷◌, ◌++◌, arith,
}
use hide_server.Platform.{World, get_workspace}
use hide_server.Cache.{CachedWorkspace}
use hide_server.Env.{Config, Yjs, SharedDoc, AwarenessEdit, AwarenessUpdate, Instance, find_doc}
use hide_server.Env.Documents.{edit_awareness, awareness_change_handler, control_clients}
use hide_server.Env.{in_shared}
use hide_server.Env.Sync.{
  update_cache, destroy_doc, drop_empty, store_doc, holder, leave_doc, close_here, close_file,
}
use hide_server.Env.Sync.Filed.{AllFiled, find_doc-put_doc}

-- the document with one more change of its awareness
abbrev noted : AwarenessEdit → SharedDoc → SharedDoc
noted e d = record d { awareness = d.awareness ++ e ∷ [] }

edit_awareness-none :
    (y : Yjs) (e : AwarenessEdit) (d : SharedDoc) (w : World)
    → (edit_awareness y e none (d, w)).0 ≡ noted e d
unfolding edit_awareness awareness_change_handler control_clients
edit_awareness-none y e d w = go (y.awareness_update d.awareness e) refl
  where
    go :
        (o : Option AwarenessUpdate)
        → y.awareness_update d.awareness e ≡ o
        → (edit_awareness y e none (d, w)).0 ≡ noted e d
    go none k = rw (k, edit_awareness) refl
    go (some u) k = rw (k, edit_awareness) refl

some_branch :
    (us : Map String (List ℕ)) (a b : Instance) → us ≢ [] → (elim us [ [] ↦ a | _ ↦ b ]) ≡ b
some_branch [] a b h = absurd (h refl)
some_branch (u ∷ us) a b h = refl

leave_doc_stays :
    (cfg : Config) (dw : SharedDoc × World) (s : Instance)
    → dw.0.users ≢ []
    → leave_doc cfg dw s ≡ store_doc dw s
unfolding leave_doc
leave_doc_stays cfg (d, w) s h =
    some_branch d.users
      (drop_empty d.uuid
        (in_shared (update_cache cfg d.uuid d.ino false) (destroy_doc d (record s { shared = w }))))
      (store_doc (d, w) s) h

find_doc-store_doc :
    (dw : SharedDoc × World) (s : Instance)
    → find_doc dw.0.uuid dw.0.ino (store_doc dw s) ≡ some dw.0
unfolding store_doc
find_doc-store_doc (d, w) s =
    find_doc-put_doc d d.uuid d.ino (record s { shared = w }) ∙ ground arith

-- the document that a user leaves, while another stays
abbrev left_by : Yjs → String → List ℕ → SharedDoc → World → SharedDoc × World
left_by y uid ids d w =
    edit_awareness y (AwarenessEdit.removal ids) none (record d { users = erase uid d.users }, w)

close_here_stays :
    (cfg : Config) (y : Yjs) (uid : String) (ids : List ℕ) (d : SharedDoc) (s : Instance)
    → lookup uid d.users ≡ some ids
    → erase uid d.users ≢ []
    → close_here cfg y uid d s ≡ store_doc (left_by y uid ids d s.shared) s
unfolding close_here
close_here_stays cfg y uid ids d s e h =
    rw (e, close_here)
      (leave_doc_stays cfg (left_by y uid ids d s.shared) s (λ k. h (
        sym (
          ap (λ x. x.users)
            (edit_awareness-none y (AwarenessEdit.removal ids)
              (record d { users = erase uid d.users }) s.shared))
        ∙ k)))

close_file_here :
    (cfg : Config) (y : Yjs) (uid sid uuid : String) (ino : ℕ) (x : CachedWorkspace) (d : SharedDoc)
    (s : Instance)
    → get_workspace s.shared uuid ≡ some x
    → holder cfg (lookup ino x.docs) ≡ none
    → find_doc uuid ino s ≡ some d
    → close_file cfg y uid sid uuid ino s ≡ close_here cfg y uid d s
unfolding close_file
close_file_here cfg y uid sid uuid ino x d s e h f = rw (e, close_file) (rw (h) (rw f refl))

-- If the user who is to resolve a document's conflict closes the file while another user has it
-- open, the document stays in conflict with a resolver who is not among its users.
pub close_file_resolver :
    (cfg : Config) (y : Yjs) (uid sid uuid : String) (ino : ℕ) (x : CachedWorkspace) (d : SharedDoc)
    (ids : List ℕ) (s : Instance)
    → AllFiled s
    → get_workspace s.shared uuid ≡ some x
    → holder cfg (lookup ino x.docs) ≡ none
    → find_doc uuid ino s ≡ some d
    → lookup uid d.users ≡ some ids
    → erase uid d.users ≢ []
    → d.is_conflicting ≡ true
    → d.conflict_resolver ≡ uid
    → (d' : SharedDoc) × (find_doc uuid ino (close_file cfg y uid sid uuid ino s) ≡ some d')
      × (d'.is_conflicting ≡ true)
      × (d'.conflict_resolver ≡ uid)
      × (lookup uid d'.users ≡ none)
close_file_resolver cfg y uid sid uuid ino x d ids s filed e h f member_e others conflicting
      resolver =
    (left, found, conflicting, resolver, lookup-erase_self uid d.users)
  where
    open (filed uuid ino d f) use {own_uuid, own_ino}

    left : SharedDoc
    left = noted (AwarenessEdit.removal ids) (record d { users = erase uid d.users })

    dw : SharedDoc × World
    dw = left_by y uid ids d s.shared

    is_left : dw.0 ≡ left
    is_left =
        edit_awareness-none y (AwarenessEdit.removal ids) (record d { users = erase uid d.users })
          s.shared

    stored : find_doc d.uuid d.ino (store_doc dw s) ≡ some left
    stored =
        ap (λ (t : SharedDoc). find_doc t.uuid t.ino (store_doc dw s)) (sym is_left)
        ∙ find_doc-store_doc dw s
        ∙ ap some is_left

    at_own : find_doc uuid ino (store_doc dw s) ≡ some left
    at_own =
        subst (λ j. find_doc j ino (store_doc dw s) ≡ some left) own_uuid
          (subst (λ n. find_doc d.uuid n (store_doc dw s) ≡ some left) own_ino stored)

    found : find_doc uuid ino (close_file cfg y uid sid uuid ino s) ≡ some left
    found =
        ap (find_doc uuid ino) (
          close_file_here cfg y uid sid uuid ino x d s e h f
          ∙ close_here_stays cfg y uid ids d s member_e others)
        ∙ at_own
