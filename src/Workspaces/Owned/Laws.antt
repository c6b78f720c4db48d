-- ===== src/Workspaces/Owned/Laws.antt =====
-- What is left of the memberships when a user has been deleted.
use hide_server.Base.{
  In, str_dec, str_key, nat_key, ℕ, String, ◌≡◌, refl, sym, ap, subst, ◌∙◌, inl, inr, ite, Bool,
  true, false, not, Option, none, some, List, [], ◌∷◌, arith, Result, Void, gets, or_throw, ◌>>=◌,
  ◌>>◌, throw_if, modify, bind_ok, then_keeps, ltb, if◌then◌else◌, Option-cases, ok, err,
}
use hide_server.Workspaces.{
  Membership, Outside, Method, Site, Workspace, find_by, filter_by, eq_text, eq_id, belongs,
  membership_of, members_of, workspace_by_uuid, transaction, admin, role_level, forbidden, emit,
  rolled_back, database_error,
}
use hide_server.Platform.{Event}
use hide_server.Workspaces.Manage.Deletion.{delete_workspace, delete_rows, clear_cache_on_delete}
use hide_server.Workspaces.Tables.{transaction_ok}
use hide_server.Workspaces.Owned.{
  is_row_of, owned_workspaces, member_workspaces, delete_all, delete_memberships, announce,
  delete_owned_workspaces, announce_rows, none_left,
}

some_inj : {A : Type 0} {a b : A} → some a ≡ some b → a ≡ b
some_inj e = cc e

find-filter_id :
    (id id' : ℕ) (u : String) (ms : List Membership)
    → eq_id id' id ≡ false
    → find_by (belongs id u) (filter_by (λ m. not (eq_id m.workspace_id id')) ms)
      ≡ find_by (belongs id u) ms
unfolding find_by filter_by
find-filter_id id id' u [] e = refl
find-filter_id id id' u (m ∷ ms) e = ground (arith, find-filter_id id id' u ms e)

find-filter_user :
    (id : ℕ) (u v : String) (ms : List Membership)
    → eq_text v u ≡ false
    → find_by (belongs id u) (filter_by (λ m. not (is_row_of v m)) ms) ≡ find_by (belongs id u) ms
unfolding find_by filter_by
find-filter_user id u v [] e = refl
find-filter_user id u v (m ∷ ms) e = ground (arith, find-filter_user id u v ms e)

filtered :
    {A : Type 0} (a x : A) (xs ys : List A) (b : Bool)
    → (In a ys → In a xs)
    → In a (if b then x ∷ ys else ys)
    → In a (x ∷ xs)
filtered a x xs ys true rest (inl e) = inl e
filtered a x xs ys true rest (inr h) = inr (rest h)
filtered a x xs ys false rest h = inr (rest h)

In-filter : {A : Type 0} (f : A → Bool) (a : A) (xs : List A) → In a (filter_by f xs) → In a xs
unfolding filter_by
In-filter f a [] h = h
In-filter f a (x ∷ xs) h = filtered a x xs (filter_by f xs) (f x) (In-filter f a xs) h

abbrev pub Found : String → Workspace → List Workspace → Type 0
Found uuid x xs = In x xs × (x.uuid ≡ uuid)

Found-first :
    (uuid : String) (x y : Workspace) (ys : List Workspace) (o : Option Workspace)
    (d : Dec (y.uuid ≡ uuid))
    → (o ≡ some x → Found uuid x ys)
    → (if ite d true false then some y else o) ≡ some x
    → Found uuid x (y ∷ ys)
Found-first uuid x y ys o (yes q) rest e =
    (inl (some_inj e), subst (λ z. z.uuid ≡ uuid) (some_inj e) q)
Found-first uuid x y ys o (no n) rest e = let (i, q) = rest e in (inr i, q)

Found-in :
    (uuid : String) (x : Workspace) (xs : List Workspace)
    → find_by (λ y. eq_text y.uuid uuid) xs ≡ some x
    → Found uuid x xs
unfolding find_by
Found-in uuid x [] e = cc e
Found-in uuid x (y ∷ ys) e =
    Found-first uuid x y ys (find_by (λ z. eq_text z.uuid uuid) ys) (str_dec y.uuid uuid)
      (Found-in uuid x ys) e

module _ (out : Outside) (uid : String) (id : ℕ) (u : String) (s : Site) where
  -- the user's membership of the workspace is as at first, and no workspace has come
  abbrev Same : Site → Type 0
  Same v =
      (membership_of id u v ≡ membership_of id u s)
      × ((y : Workspace) → In y v.workspaces → In y s.workspaces)

  deleted_Same :
      (id' : ℕ) (uuid : String) (v : Site)
      → eq_id id' id ≡ false
      → Same v
      → Same (transaction out (modify (delete_rows id' uuid)) v).1
  unfolding transaction delete_rows
  deleted_Same id' uuid v n k = go (out.commits (delete_rows id' uuid v))
    where
      result : Bool → Result Void × Site
      result b =
          if b
          then (ok tt, delete_rows id' uuid v)
          else (err database_error, rolled_back v (delete_rows id' uuid v))

      go : (b : Bool) → Same (result b).1
      go true = (
        find-filter_id id id' u v.memberships n ∙ k.0,
        λ y h. k.1 y (In-filter (λ x. not (eq_text x.uuid uuid)) y v.workspaces h),
      )
      go false = k

  -- the steps of a deletion once the workspace is found
  ending : Workspace → String → Method Void
  ending x uuid = do
    row ← gets (membership_of x.id uid)
    m ← or_throw row (forbidden "NO_WORKSPACE_MEMBERSHIP")
    throw_if (ltb (role_level m.role) (role_level admin))
        (forbidden "WORKSPACE_ACTION_NOT_AUTHORIZED")
    members ← gets (members_of x.id)
    transaction out (modify (delete_rows x.id uuid))
    modify (λ v. record v { world = clear_cache_on_delete members uuid v.world })
    emit (Event.delete_volume uuid)
    emit (Event.deleted uuid members)

  ending-Same :
      (x : Workspace) (uuid : String) (v : Site)
      → eq_id x.id id ≡ false
      → Same v
      → Same (ending x uuid v).1
  unfolding ending
  ending-Same x uuid v n k = go (membership_of x.id uid v)
    where
      after : List String → Method Void
      after members = do
        modify (λ w. record w { world = clear_cache_on_delete members uuid w.world })
        emit (Event.delete_volume uuid)
        emit (Event.deleted uuid members)

      allowed :
          (b : Bool)
          → Same
              ((throw_if b (forbidden "WORKSPACE_ACTION_NOT_AUTHORIZED")
                  >> (gets (members_of x.id) >>= λ members.
                      transaction out (modify (delete_rows x.id uuid)) >> after members))
                v).1
      allowed true = k
      allowed false =
          then_keeps Same (transaction out (modify (delete_rows x.id uuid)))
            (λ _. after (members_of x.id v)) v (deleted_Same x.id uuid v n k) (λ _ w j. j)

      go :
          (o : Option Membership)
          → Same
              ((or_throw o (forbidden "NO_WORKSPACE_MEMBERSHIP") >>= λ m.
                  throw_if
                    (ltb (role_level m.role) (role_level admin))
                    (forbidden "WORKSPACE_ACTION_NOT_AUTHORIZED")
                  >> (gets (members_of x.id) >>= λ members.
                      transaction out (modify (delete_rows x.id uuid)) >> after members))
                v).1
      go none = k
      go (some m) = allowed (ltb (role_level m.role) (role_level admin))

  delete_Same :
      (uuid : String) (v : Site)
      → ((y : Workspace) → Found uuid y s.workspaces → eq_id y.id id ≡ false)
      → Same v
      → Same (delete_workspace out uid uuid v).1
  unfolding delete_workspace find_by ending
  delete_Same uuid v n k = elim (Option-cases (workspace_by_uuid uuid v)) [
    | inl e ↦ rw (e, delete_workspace) k
    | inr (x, e) ↦
        let (i, q) = Found-in uuid x v.workspaces e in
        rw (e, delete_workspace) (ending-Same x uuid v (n x (k.1 x i, q)) k)
  ]

  delete_all-Same :
      (uuids : List String) (v : Site)
      → ((y : Workspace) (uuid : String)
          → In uuid uuids
          → Found uuid y s.workspaces
          → eq_id y.id id ≡ false)
      → Same v
      → Same (delete_all out uid uuids v)
  unfolding delete_all
  delete_all-Same [] v n k = k
  delete_all-Same (uuid ∷ uuids) v n k =
      delete_all-Same uuids (delete_workspace out uid uuid v).1 (λ y t i. n y t (inr i))
        (delete_Same uuid v (λ y. n y uuid (inl refl)) k)

-- When the workspaces of a user are deleted, and the database commits the deletion of the user's
-- memberships at the end, the user has no membership left, of any workspace, whichever of the
-- deletions of workspaces failed. Another user's membership of a workspace is as before, if no
-- workspace of that id has an identifier of one that the user owns.
pub delete_owned_workspaces_rows :
    (out : Outside) (uid u : String) (s : Site) (id id' : ℕ)
    → (let owned = owned_workspaces uid s in
        out.commits (delete_memberships uid (delete_all out uid owned s)) ≡ true)
    → ((y : Workspace) (uuid : String)
        → In uuid (owned_workspaces uid s)
        → Found uuid y s.workspaces
        → eq_id y.id id' ≡ false)
    → eq_text uid u ≡ false
    → (let s' = (delete_owned_workspaces out uid s).1 in
        (membership_of id uid s' ≡ none) × (membership_of id' u s' ≡ membership_of id' u s))
unfolding delete_owned_workspaces delete_memberships
delete_owned_workspaces_rows out uid u s id id' commits apart_ other =
    subst (λ v. (membership_of id uid v ≡ none) × (membership_of id' u v ≡ membership_of id' u s))
      (sym (ap (λ r. r.1) whole))
      (
        ap (find_by (belongs id uid)) rows ∙ none_left uid id all.memberships,
        ap (find_by (belongs id' u)) rows
            ∙ find-filter_user id' u uid all.memberships other
            ∙ (delete_all-Same out uid id' u s (owned_workspaces uid s) s apart_
                (refl, λ y h. h)).0,
      )
  where
    all : Site
    all = delete_all out uid (owned_workspaces uid s) s

    cut : Site
    cut = delete_memberships uid all

    committed : transaction out (modify (delete_memberships uid)) all ≡ (ok tt, cut)
    committed = transaction_ok out (delete_memberships uid) all commits

    whole : delete_owned_workspaces out uid s ≡ announce uid (member_workspaces uid s) cut
    whole =
        bind_ok (transaction out (modify (delete_memberships uid)))
          (λ _. announce uid (member_workspaces uid s)) all cut tt committed

    rows :
        (announce uid (member_workspaces uid s) cut).1.memberships
        ≡ filter_by (λ m. not (is_row_of uid m)) all.memberships
    rows = announce_rows uid (member_workspaces uid s) cut
