-- ===== src/Workspaces/Tables.antt =====
-- What the creation and the deletion of a workspace leave of the tables.
use hide_server.Base.{
  str_key, nat_key, ℕ, String, ◌≡◌, refl, sym, ap, subst, ◌∙◌, inl, inr, Bool, true, false, not,
  none, some, List, [], ◌∷◌, arith, Failure, Result, Void, ◌>>◌, modify, bind_ok, ltb,
  if◌then◌else◌, Bool-cases, Option-cases, ok, err,
}
use hide_server.Workspaces.{
  Workspace, Membership, Outside, Method, Site, admin, find_by, filter_by, find_hit, find_miss,
  filter_keep, filter_drop, eq_text, eq_id, workspace_by_uuid, belongs, membership_of, members_of,
  transaction, rolled_back, role_level, forbidden, database_error,
}
use hide_server.Workspaces.Manage.{
  CreateRequest, create_rows, create_workspace, validate_creation, present,
}
use hide_server.Workspaces.Manage.Deletion.{delete_rows, delete_workspace, clear_cache_on_delete}
use hide_server.Platform.{Event, World, send}

pub record SameTables (s s' : Site) : Type 0 where
  pub workspaces : s'.workspaces ≡ s.workspaces
  pub memberships : s'.memberships ≡ s.memberships
  pub codes : s'.codes ≡ s.codes

same_refl : (s : Site) → SameTables s s
same_refl s = record { workspaces = refl; memberships = refl; codes = refl }

ok_not_err : {A C : Type 0} {a : A} {e : Failure} → ok a ≡ err e → C
ok_not_err {a = a} {e = e} h = elim (impossible h) [ ]
  where
    impossible : ok a ≡ err e → ⊥
    impossible q = cc

pub transaction_ok :
    (out : Outside) (f : Site → Site) (s : Site)
    → out.commits (f s) ≡ true
    → transaction out (modify f) s ≡ (ok tt, f s)
unfolding transaction
transaction_ok out f s e =
    ap (λ b. if b then (ok tt, f s) else (err database_error, rolled_back s (f s))) e

transaction_err :
    {A : Type 0} (out : Outside) (m : Method A) (s : Site) (e : Failure)
    → (transaction out m s).0 ≡ err e
    → SameTables s (transaction out m s).1
unfolding transaction
transaction_err {A = A} out m s e h = go (m s).0 refl
  where
    same : SameTables s (rolled_back s (m s).1)
    same = record { workspaces = refl; memberships = refl; codes = refl }

    succeeds :
        (a : A) → (m s).0 ≡ ok a → out.commits (m s).1 ≡ true → (transaction out m s).0 ≡ ok a
    succeeds a q b = rw (q, transaction) (rw (b, transaction) refl)

    go : (r : Result A) → (m s).0 ≡ r → SameTables s (transaction out m s).1
    go (err x) q = rw (q, transaction) same
    go (ok a) q = elim (Bool-cases (out.commits (m s).1)) [
      | inr b ↦ rw (q, transaction) (rw (b, transaction) same)
      | inl b ↦ ok_not_err (sym (succeeds a q b) ∙ h)
    ]

-- A creation that fails, for whatever reason, leaves the tables as they were: there is no workspace
-- without an owner's membership, nor a membership without its workspace.
pub create_workspace_atomic :
    (out : Outside) (uid : String) (req : CreateRequest) (s : Site) (e : Failure)
    → (create_workspace out uid req s).0 ≡ err e
    → SameTables s (create_workspace out uid req s).1
unfolding create_workspace
create_workspace_atomic out uid req s e h = elim (Option-cases (validate_creation req.name)) [
  | inr (x, v) ↦ rw (v, create_workspace) (same_refl s)
  | inl v ↦ elim (Option-cases (present req.name)) [
    | inl p ↦ rw (v, create_workspace) (rw (p, create_workspace) (same_refl s))
    | inr (name, p) ↦ tables name (opened name v p)
  ]
]
  where
    tables :
        (name : String)
        → create_workspace out uid req s ≡ transaction out (create_rows out uid req name) s
        → SameTables s (create_workspace out uid req s).1
    tables name q =
        subst (λ r. SameTables s r.1) (sym q)
          (transaction_err out (create_rows out uid req name) s e (sym (ap (λ r. r.0) q) ∙ h))

    opened :
        (name : String)
        → validate_creation req.name ≡ none
        → present req.name ≡ some name
        → create_workspace out uid req s ≡ transaction out (create_rows out uid req name) s
    opened name v p = rw (v, create_workspace) (rw (p, create_workspace) refl)

find-filter_none :
    {A : Type 0} (f g : A → Bool) (xs : List A)
    → ((x : A) → g x ≡ true → f x ≡ false)
    → find_by g (filter_by f xs) ≡ none
unfolding find_by filter_by
find-filter_none f g [] h = refl
find-filter_none f g (x ∷ xs) h = elim (Bool-cases (g x)) [
  | inl b ↦ ap (find_by g) (filter_drop f x xs (h x b)) ∙ find-filter_none f g xs h
  | inr b ↦ elim (Bool-cases (f x)) [
    | inl c ↦ ap (find_by g) (filter_keep f x xs c) ∙ find_miss g x _ b ∙ find-filter_none f g xs h
    | inr c ↦ ap (find_by g) (filter_drop f x xs c) ∙ find-filter_none f g xs h
  ]
]

find-filter_same :
    {A : Type 0} (f g : A → Bool) (xs : List A)
    → ((x : A) → g x ≡ true → f x ≡ true)
    → find_by g (filter_by f xs) ≡ find_by g xs
unfolding find_by filter_by
find-filter_same f g [] h = refl
find-filter_same f g (x ∷ xs) h = elim (Bool-cases (g x)) [
  | inl b ↦ ap (find_by g) (filter_keep f x xs (h x b)) ∙ find_hit g x _ b ∙ sym (find_hit g x xs b)
  | inr b ↦ elim (Bool-cases (f x)) [
    | inl c ↦
        ap (find_by g) (filter_keep f x xs c)
        ∙ find_miss g x _ b
        ∙ find-filter_same f g xs h
        ∙ sym (find_miss g x xs b)
    | inr c ↦
        ap (find_by g) (filter_drop f x xs c) ∙ find-filter_same f g xs h ∙ sym (find_miss g x xs b)
  ]
]

module _ (out : Outside) (uid uuid : String) (s : Site) (x : Workspace) (m : Membership)
    (commits : out.commits (delete_rows x.id uuid s) ≡ true)
    (found : workspace_by_uuid uuid s ≡ some x) (row : membership_of x.id uid s ≡ some m) where
  -- A plain member may not delete a workspace, and nothing changes.
  pub delete_workspace_denied :
      ltb (role_level m.role) (role_level admin) ≡ true
      → delete_workspace out uid uuid s ≡ (err (forbidden "WORKSPACE_ACTION_NOT_AUTHORIZED"), s)
  unfolding delete_workspace
  delete_workspace_denied low =
      rw (found, delete_workspace) (rw (row, delete_workspace) (rw (low, delete_workspace) refl))

  abbrev pub cleared : World
  cleared = clear_cache_on_delete (members_of x.id s) uuid s.world

  abbrev pub announced : Site
  announced = record (delete_rows x.id uuid s) {
    world = send (Event.deleted uuid (members_of x.id s)) (send (Event.delete_volume uuid) cleared);
  }

  delete_lem :
      ltb (role_level m.role) (role_level admin) ≡ false
      → delete_workspace out uid uuid s ≡ (ok tt, announced)
  unfolding delete_workspace delete_rows
  delete_lem high =
      rw (found, delete_workspace)
        (rw (row, delete_workspace)
          (rw (high, delete_workspace)
            (bind_ok (transaction out (modify (delete_rows x.id uuid))) (λ _. following) s
              (delete_rows x.id uuid s) tt (transaction_ok out (delete_rows x.id uuid) s commits))))
    where
      following : Method Void
      following =
          modify (λ v. record v { world = clear_cache_on_delete (members_of x.id s) uuid v.world })
          >> (modify (λ v. record v { world = send (Event.delete_volume uuid) v.world })
              >> modify
                  (λ v. record v { world = send (Event.deleted uuid (members_of x.id s)) v.world }))

  -- An admin or an owner who deletes a workspace leaves no membership of it and no workspace of its
  -- identifier; memberships of other workspaces stay, and the members are told to the gateway last.
  pub delete_workspace_removes :
      ltb (role_level m.role) (role_level admin) ≡ false
      → let (r, s') = delete_workspace out uid uuid s in
        (r ≡ ok tt)
        × (workspace_by_uuid uuid s' ≡ none)
        × ((u : String) → membership_of x.id u s' ≡ none)
        × ((id : ℕ) (u : String)
            → eq_id id x.id ≡ false
            → membership_of id u s' ≡ membership_of id u s)
  unfolding delete_rows
  delete_workspace_removes high = rw (delete_lem high) (
    refl,
    find-filter_none (λ y. not (eq_text y.uuid uuid)) (λ y. eq_text y.uuid uuid) s.workspaces
        (λ y b. rw b refl),
    λ u.
        find-filter_none (λ y. not (eq_id y.workspace_id x.id)) (belongs x.id u) s.memberships
          (λ y b. ground arith),
    λ id u ne.
        find-filter_same (λ y. not (eq_id y.workspace_id x.id)) (belongs id u) s.memberships
          (λ y b. ground arith),
  )
