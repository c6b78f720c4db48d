-- ===== src/Gateway/Membership/Loops.antt =====
-- The loops of the membership service: each round writes the value that was read for its user
-- before the loop began, revised.
use hide_server.Base.{
  All, In, for_each, str_dec, str_key, nat_key, insert, Map, keys, String, ◌≡◌, refl, sym, ap,
  subst, ◌∙◌, ◌≢◌, ◌⊎◌, inl, inr, Option, List, [], ◌∷◌, arith,
}
use mathlib.Core.Logic.{if_pos, if_neg}
use hide_server.Platform.{World}
use hide_server.Gateway.Membership.{get_membership, read_all, CachedMembership}

abbrev pub Cached : Type 0
Cached = Option CachedMembership

-- The rounds of a loop over users, each with the value that was read for the user at the start.
module _ (step : String × Cached → World → World) (next : Cached → Cached) where
  pub record Revises : Type 0 where
    pub other :
        (uid u : String) (c : Cached) (w : World)
        → uid ≢ u
        → get_membership (step (uid, c) w) u ≡ get_membership w u
    pub self :
        (uid : String) (c : Cached) (w : World)
        → (get_membership w uid ≡ c) ⊎ (get_membership w uid ≡ next c)
        → get_membership (step (uid, c) w) uid ≡ next c

  module _ (r : Revises) (start : World) (u : String) where
    abbrev pub IsRead : Map String Cached → Type 0
    IsRead = All (λ e. e.1 ≡ get_membership start e.0)

    abbrev pub before : Cached
    before = get_membership start u

    -- the round of the user itself
    hit :
        (uid : String) (c : Cached) (w : World)
        → uid ≡ u
        → c ≡ get_membership start uid
        → (get_membership w u ≡ before) ⊎ (get_membership w u ≡ next before)
        → get_membership (step (uid, c) w) u ≡ next before
    hit uid c w p q e =
        subst (λ v. get_membership (step (v, c) w) u ≡ next before) (sym p)
          (subst (λ d. get_membership (step (u, d) w) u ≡ next d)
              (sym (q ∙ ap (get_membership start) p)) (r.self u before w e)
            ∙ ap next (q ∙ ap (get_membership start) p))

    stays :
        (es : Map String Cached) (w : World)
        → IsRead es
        → get_membership w u ≡ next before
        → get_membership (for_each step es w) u ≡ next before
    stays [] w reads e = e
    stays ((uid, c) ∷ es) w reads e = stays es (step (uid, c) w) reads.1 (elim (str_dec uid u) [
      | yes p ↦ hit uid c w p reads.0 (inr e)
      | no p ↦ r.other uid u c w p ∙ e
    ])

    pub reaches :
        (es : Map String Cached) (w : World)
        → IsRead es
        → (get_membership w u ≡ before) ⊎ (get_membership w u ≡ next before)
        → In u (keys es)
        → get_membership (for_each step es w) u ≡ next before
    reaches [] w reads e i = absurd i
    reaches ((uid, c) ∷ es) w reads e i = elim (str_dec uid u) [
      | yes p ↦ stays es (step (uid, c) w) reads.1 (hit uid c w p reads.0 e)
      | no p ↦ reaches es (step (uid, c) w) reads.1 (rw (r.other uid u c w p) e) (ground arith)
    ]

    pub skips :
        (es : Map String Cached) (w : World)
        → ¬ In u (keys es)
        → get_membership (for_each step es w) u ≡ get_membership w u
    skips [] w i = refl
    skips ((uid, c) ∷ es) w i =
        skips es (step (uid, c) w) (λ h. i (inr h)) ∙ r.other uid u c w (λ p. i (inl p))

-- What is read before a loop.
All-insert :
    (P : String × Cached → Type 0) (k : String) (c : Cached) (m : Map String Cached)
    → P (k, c)
    → All P m
    → All P (insert k c m)
unfolding insert
All-insert P k c [] p h = (p, tt)
All-insert P k c ((j, d) ∷ m) p h = elim (str_dec j k) [
  | yes e ↦ rw (if_pos _ e) (rw e p, h.1)
  | no e ↦ rw (if_neg _ e) (h.0, All-insert P k c m p h.1)
]

In-insert_self : (k : String) (c : Cached) (m : Map String Cached) → In k (keys (insert k c m))
unfolding insert
In-insert_self k c [] = inl refl
In-insert_self k c ((j, d) ∷ m) = ground (arith, In-insert_self k c m)

In-insert :
    (u k : String) (c : Cached) (m : Map String Cached) → In u (keys m) → In u (keys (insert k c m))
unfolding insert
In-insert u k c [] h = absurd h
In-insert u k c ((j, d) ∷ m) h = ground (arith, In-insert u k c m)

In-of_insert :
    (u k : String) (c : Cached) (m : Map String Cached)
    → In u (keys (insert k c m))
    → (k ≡ u) ⊎ In u (keys m)
unfolding insert
In-of_insert u k c [] h = h
In-of_insert u k c ((j, d) ∷ m) h = ground (arith, In-of_insert u k c m)

module _ (w : World) where
  abbrev read : List String → Map String Cached → Map String Cached
  read uids m = for_each (λ uid m'. insert uid (get_membership w uid) m') uids m

  abbrev IsCopy : String × Cached → Type 0
  IsCopy e = e.1 ≡ get_membership w e.0

  read-IsCopy :
      (uids : List String) (m : Map String Cached) → All IsCopy m → All IsCopy (read uids m)
  read-IsCopy [] m h = h
  read-IsCopy (uid ∷ uids) m h =
      read-IsCopy uids (insert uid (get_membership w uid) m) (All-insert IsCopy uid _ m refl h)

  In-read :
      (u : String) (uids : List String) (m : Map String Cached)
      → In u uids ⊎ In u (keys m)
      → In u (keys (read uids m))
  In-read u [] m (inl h) = absurd h
  In-read u [] m (inr h) = h
  In-read u (uid ∷ uids) m (inl (inl e)) = In-read u uids (insert uid (get_membership w uid) m) (
      inr
        (subst (λ v. In v (keys (insert uid (get_membership w uid) m))) e (In-insert_self uid _ m)))
  In-read u (uid ∷ uids) m (inl (inr h)) =
      In-read u uids (insert uid (get_membership w uid) m) (inl h)
  In-read u (uid ∷ uids) m (inr h) =
      In-read u uids (insert uid (get_membership w uid) m) (inr (In-insert u uid _ m h))

  In-of_read :
      (u : String) (uids : List String) (m : Map String Cached)
      → In u (keys (read uids m))
      → In u uids ⊎ In u (keys m)
  In-of_read u [] m h = inr h
  In-of_read u (uid ∷ uids) m h = ground (
    arith,
    In-of_read u uids (insert uid (get_membership w uid) m) h,
    In-of_insert u uid (get_membership w uid) m,
  )

-- The whole loop: a listed user's value is revised, and no other's.
module _ {step : String × Cached → World → World} {next : Cached → Cached} (r : Revises step next)
    (u : String) (uids : List String) (w : World) where
  pub revised :
      In u uids → get_membership (for_each step (read_all w uids) w) u ≡ next (get_membership w u)
  unfolding read_all
  revised h =
      reaches step next r w u (read w uids []) w (read-IsCopy w uids [] tt) (inl refl)
        (In-read w u uids [] (inl h))

  pub not_revised :
      ¬ In u uids → get_membership (for_each step (read_all w uids) w) u ≡ get_membership w u
  unfolding read_all
  not_revised h =
      skips step next r w u (read w uids []) w (λ i. ground (arith, In-of_read w u uids [] i))
