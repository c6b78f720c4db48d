-- ===== src/Env/Sync/Filed.antt =====
-- env/src/core/sync.service.ts: every open document stands under its own workspace and inode, and
-- has a user.
use hide_server.Base.{
  str_dec, str_key, nat_key, lookup, insert, erase, Map, lookup-insert, lookup-erase, ℕ, String,
  ◌≡◌, sym, subst, ◌∙◌, ◌≢◌, ite, Option, none, some, [], ◌∷◌, arith, ℕ_discrete,
}
use hide_server.Env.{SharedDoc, ActiveDocs, Instance, find_doc, or_empty, put_doc}
use hide_server.Env.Sync.{ensure_docs, drop_docs, drop_single, destroy_doc, drop_empty}

pub record IsFiled (uuid : String) (ino : ℕ) (d : SharedDoc) : Type 0 where
  pub own_uuid : d.uuid ≡ uuid
  pub own_ino : d.ino ≡ ino
  pub used : d.users ≢ []

abbrev pub AllFiled : Instance → Type 0
AllFiled s =
    (uuid : String) (ino : ℕ) (d : SharedDoc) → find_doc uuid ino s ≡ some d → IsFiled uuid ino d

-- `s'` has no document that `s` has not
abbrev pub Fewer : Instance → Instance → Type 0
Fewer s s' =
    (uuid : String) (ino : ℕ) (d : SharedDoc)
    → find_doc uuid ino s' ≡ some d
    → find_doc uuid ino s ≡ some d

pub Fewer-AllFiled : (s s' : Instance) → Fewer s s' → AllFiled s → AllFiled s'
Fewer-AllFiled s s' h filed uuid ino d e = filed uuid ino d (h uuid ino d e)

abbrev docs_at : String → Map String ActiveDocs → ActiveDocs
docs_at uuid docs = or_empty (lookup uuid docs)

find_doc_lem :
    (uuid : String) (ino : ℕ) (s : Instance)
    → find_doc uuid ino s ≡ lookup ino (docs_at uuid s.docs)
unfolding find_doc lookup
find_doc_lem uuid ino s = ground arith

docs_at-insert :
    (uuid j : String) (ds : ActiveDocs) (docs : Map String ActiveDocs)
    → docs_at j (insert uuid ds docs) ≡ ite (str_dec uuid j) ds (docs_at j docs)
docs_at-insert uuid j ds docs = ground (arith, lookup-insert uuid j ds docs)

pub find_doc-put_doc :
    (d : SharedDoc) (uuid : String) (ino : ℕ) (s : Instance)
    → find_doc uuid ino (put_doc d s)
      ≡ ite
          (str_dec d.uuid uuid)
          (ite (ℕ_discrete d.ino ino) (some d) (find_doc uuid ino s))
          (find_doc uuid ino s)
unfolding put_doc
find_doc-put_doc d uuid ino s = ground (
  arith,
  find_doc_lem uuid ino s,
  find_doc_lem uuid ino (put_doc d s),
  docs_at-insert d.uuid uuid (insert d.ino d (docs_at d.uuid s.docs)) s.docs,
  lookup-insert d.ino ino d (docs_at d.uuid s.docs),
)

pub put_doc-AllFiled :
    (d : SharedDoc) (s : Instance) → d.users ≢ [] → AllFiled s → AllFiled (put_doc d s)
put_doc-AllFiled d s used filed uuid ino d' e =
    go (str_dec d.uuid uuid) (ℕ_discrete d.ino ino) (sym (find_doc-put_doc d uuid ino s) ∙ e)
  where
    go :
        (a : Dec (d.uuid ≡ uuid)) (b : Dec (d.ino ≡ ino))
        → ite a (ite b (some d) (find_doc uuid ino s)) (find_doc uuid ino s) ≡ some d'
        → IsFiled uuid ino d'
    go (no p) b k = filed uuid ino d' k
    go (yes p) (no q) k = filed uuid ino d' k
    go (yes p) (yes q) k =
        subst (IsFiled uuid ino) {x = d} {y = d'} (cc)
          (record { own_uuid = p; own_ino = q; used = used })

pub ensure_docs-Fewer : (uuid : String) (s : Instance) → Fewer s (ensure_docs uuid s)
unfolding ensure_docs
ensure_docs-Fewer uuid s j ino d e = ground (
  arith,
  find_doc_lem j ino s,
  find_doc_lem j ino (ensure_docs uuid s),
  docs_at-insert uuid j (docs_at uuid s.docs) s.docs,
)

pub drop_docs-Fewer : (uuid : String) (s : Instance) → Fewer s (drop_docs uuid s)
unfolding drop_docs find_doc
drop_docs-Fewer uuid s j ino d e = ground (arith, lookup-erase uuid j s.docs)

pub destroy_doc-Fewer : (d : SharedDoc) (s : Instance) → Fewer s (destroy_doc d s)
unfolding destroy_doc
destroy_doc-Fewer d s j ino d' e = ground (
  arith,
  find_doc_lem j ino s,
  find_doc_lem j ino (destroy_doc d s),
  docs_at-insert d.uuid j (erase d.ino (docs_at d.uuid s.docs)) s.docs,
  lookup-erase d.ino ino (docs_at d.uuid s.docs),
)

pub drop_single-Fewer : (uuid : String) (s : Instance) → Fewer s (drop_single uuid s)
unfolding drop_single
drop_single-Fewer uuid s = go (lookup uuid s.docs)
  where
    go : (o : Option ActiveDocs) → Fewer s (elim o [ some (d ∷ []) ↦ drop_docs uuid s | _ ↦ s ])
    go none j ino d e = e
    go (some []) j ino d e = e
    go (some (d ∷ [])) j ino x e = drop_docs-Fewer uuid s j ino x e
    go (some (d ∷ d' ∷ ds)) j ino x e = e

pub drop_empty-Fewer : (uuid : String) (s : Instance) → Fewer s (drop_empty uuid s)
unfolding drop_empty
drop_empty-Fewer uuid s = go (docs_at uuid s.docs)
  where
    go : (ds : ActiveDocs) → Fewer s (elim ds [ [] ↦ drop_docs uuid s | _ ↦ s ])
    go [] j ino x e = drop_docs-Fewer uuid s j ino x e
    go (d ∷ ds) j ino x e = e
