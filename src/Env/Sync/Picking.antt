-- ===== src/Env/Sync/Picking.antt =====
-- env/src/core/fs.service.ts: steps that succeed; a document that is open has a user to pick.
use hide_server.Base.{
  length, str_key, nat_key, Map, keys, ℕ, zero, suc, ◌<◌, String, ◌≡◌, refl, ap, ◌∙◌, ◌≢◌, true,
  Option, none, some, List, [], ◌∷◌, arith, pure, or_throw, ◌>>=◌, modify, bind_ok, ok,
}
use hide_server.Platform.{SocketMessage}
use hide_server.Env.{Remote, SharedDoc, Instance, Task, in_shared, put_doc}
use hide_server.Env.Sessions.{send_to_watchers}
use hide_server.Env.Files.Batches.{nth, pick_one, doc_of, range_error, mark_conflict, mark_doc}
use hide_server.Env.Sync.Filed.{AllFiled, put_doc-AllFiled}
use hide_server.Env.Sync.Opened.{docs_kept}

-- What `randomInt(0, n)` promises: a number below n.
abbrev pub IsRandom : (ℕ → ℕ) → Type 0
IsRandom f = (n : ℕ) → 0 < n → f n < n

-- The other instances of the environment answer when they are asked for a hash.
abbrev pub Answers : Remote → Type 0
Answers r = (id uuid : String) (ino : ℕ) → r.doc_hash id uuid ino ≢ none

-- A step that succeeds and keeps the documents filed and used.
pub record Succeeds {A : Type 0} (m : Task A) (s : Instance) : Type 0 where
  pub value : A
  pub after : Instance
  pub runs : m s ≡ (ok value, after)
  pub filed : AllFiled after

nth_below : (n : ℕ) (xs : List String) → n < length xs → (x : String) × (nth n xs ≡ some x)
unfolding nth
nth_below n [] h = absurd (omega arith)
nth_below zero (x ∷ xs) h = (x, refl)
nth_below (suc n) (x ∷ xs) h = nth_below n xs (omega arith)

pub bind_Succeeds :
    {A B : Type 0} (m : Task A) (f : A → Task B) (s : Instance)
    → Succeeds m s
    → ((a : A) (v : Instance) → AllFiled v → Succeeds (f a) v)
    → Succeeds (m >>= f) s
bind_Succeeds m f s h k =
    let j : Succeeds (f h.value) h.after = k h.value h.after h.filed in
    record {
      value = j.value;
      after = j.after;
      runs = bind_ok m f s h.after h.value h.runs ∙ j.runs;
      filed = j.filed;
    }

pick_one-Succeeds :
    (r : Remote) (xs : List String) (s : Instance)
    → IsRandom r.random_int
    → 0 < length xs
    → AllFiled s
    → Succeeds (pick_one r xs) s
unfolding pick_one
pick_one-Succeeds r xs s random h filed =
    let (x, e) = nth_below (r.random_int (length xs)) xs (random (length xs) h) in
    record { value = x; after = s; runs = ap (λ o. or_throw o range_error s) e; filed = filed }

has_keys : (us : Map String (List ℕ)) → us ≢ [] → 0 < length (keys us)
has_keys [] h = absurd (h refl)
has_keys (u ∷ us) h = omega arith

pub modify-Succeeds :
    (f : Instance → Instance) (s : Instance) → AllFiled (f s) → Succeeds (modify f) s
modify-Succeeds f s h = record { value = tt; after = f s; runs = refl; filed = h }

pub pure-Succeeds : {A : Type 0} (a : A) (s : Instance) → AllFiled s → Succeeds (pure a) s
pure-Succeeds a s h = record { value = a; after = s; runs = refl; filed = h }

mark_doc-Succeeds :
    (r : Remote) (d : SharedDoc) (s : Instance)
    → IsRandom r.random_int
    → d.users ≢ []
    → AllFiled s
    → Succeeds (mark_doc r d) s
unfolding mark_doc
mark_doc-Succeeds r d s random used filed =
    bind_Succeeds (modify (put_doc marked)) _ s
      (modify-Succeeds (put_doc marked) s (put_doc-AllFiled marked s used filed))
      (λ _ v h.
        bind_Succeeds (pick_one r (keys d.users)) _ v
          (pick_one-Succeeds r (keys d.users) v random (has_keys d.users used) h)
          (λ uid u k.
            bind_Succeeds (modify (put_doc (picked uid))) _ u
              (modify-Succeeds (put_doc (picked uid)) u (put_doc-AllFiled (picked uid) u used k))
              (λ _ t j. modify-Succeeds (told uid) t (docs_kept t (told uid t) refl j))))
  where
    marked : SharedDoc
    marked = record d { is_conflicting = true }

    picked : String → SharedDoc
    picked uid = record d { is_conflicting = true; conflict_resolver = uid }

    told : String → Instance → Instance
    told uid =
        in_shared (send_to_watchers d.uuid (keys d.users) (SocketMessage.conflict d.uuid d.ino uid))

pub doc_of_used :
    (uuid : String) (ino : Option ℕ) (d : SharedDoc) (s : Instance)
    → AllFiled s
    → doc_of uuid ino s ≡ some d
    → d.users ≢ []
doc_of_used uuid none d s filed e = cc
doc_of_used uuid (some ino) d s filed e = (filed uuid ino d e).used

pub run_as : {A : Type 0} (m m' : Task A) (s : Instance) → m s ≡ m' s → Succeeds m' s → Succeeds m s
run_as m m' s e h = record { value = h.value; after = h.after; runs = e ∙ h.runs; filed = h.filed }

mark_conflict-none :
    (r : Remote) (uuid : String) (ino : Option ℕ) (s : Instance)
    → doc_of uuid ino s ≡ none
    → mark_conflict r uuid ino s ≡ (ok tt, s)
unfolding mark_conflict
mark_conflict-none r uuid ino s e = rw (e, mark_conflict) refl

mark_conflict-some :
    (r : Remote) (uuid : String) (ino : Option ℕ) (d : SharedDoc) (s : Instance)
    → doc_of uuid ino s ≡ some d
    → mark_conflict r uuid ino s ≡ mark_doc r d s
unfolding mark_conflict
mark_conflict-some r uuid ino d s e = rw (e, mark_conflict) refl

pub mark_conflict-Succeeds :
    (r : Remote) (uuid : String) (ino : Option ℕ) (s : Instance)
    → IsRandom r.random_int
    → AllFiled s
    → Succeeds (mark_conflict r uuid ino) s
mark_conflict-Succeeds r uuid ino s random filed = go (doc_of uuid ino s) refl
  where
    go : (o : Option SharedDoc) → doc_of uuid ino s ≡ o → Succeeds (mark_conflict r uuid ino) s
    go none e =
        run_as (mark_conflict r uuid ino) (pure tt) s (mark_conflict-none r uuid ino s e)
          (pure-Succeeds tt s filed)
    go (some d) e =
        run_as (mark_conflict r uuid ino) (mark_doc r d) s (mark_conflict-some r uuid ino d s e)
          (mark_doc-Succeeds r d s random (doc_of_used uuid ino d s filed e) filed)
