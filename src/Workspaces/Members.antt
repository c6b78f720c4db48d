-- ===== src/Workspaces/Members.antt =====
-- What a change of a workspace's members does to the table of memberships.
use hide_server.Base.{
  member, for_each, str_key, nat_key, ℕ, String, ◌≡◌, refl, ap, ◌∙◌, inl, inr, true, not, ◌&&◌,
  Option, none, some, List, [], ◌∷◌, arith, Failure, Void, ◌>>◌, modify, bind_ok, bind_err,
  then_keeps, if◌then◌else◌, Option-cases, ok, err,
}
use hide_server.Workspaces.{
  Membership, Site, find_by, filter_by, eq_text, eq_id, belongs, membership_of, Outside, Workspace,
  Method, transaction, members_of, emit, workspace_by_uuid, Event, forbidden,
}
use hide_server.Workspaces.Invite.{validate_invite, invite_all_users, send_invites, send_invite}
use hide_server.Workspaces.Manage.{delete_member, notify_removed, tell_remaining, update_members}

-- a row that is not to be deleted is found as before, and one that is to be is not found
find-filter_keys :
    (id id' : ℕ) (uid uid' : String) (ms : List Membership)
    → find_by (belongs id uid) (filter_by (λ m. not (belongs id' uid' m)) ms)
      ≡ (if eq_id id' id && eq_text uid' uid then none else find_by (belongs id uid) ms)
unfolding find_by filter_by
find-filter_keys id id' uid uid' [] = ground arith
find-filter_keys id id' uid uid' (m ∷ ms) = ground (arith, find-filter_keys id id' uid uid' ms)

membership_of-delete_members :
    (id id' : ℕ) (removed : List String) (uid : String) (s : Site)
    → membership_of id uid (for_each (delete_member id') removed s)
      ≡ (if eq_id id' id && member uid removed then none else membership_of id uid s)
unfolding delete_member member
membership_of-delete_members id id' [] uid s = ground arith
membership_of-delete_members id id' (u ∷ us) uid s =
    membership_of-delete_members id id' us uid (delete_member id' u s)
    ∙ ground (arith, find-filter_keys id id' uid u s.memberships)

-- the steps that follow the deletion keep the table, whether they fail or not
module _ (out : Outside) (t : List Membership) where
  abbrev HasRows : Site → Type 0
  HasRows v = v.memberships ≡ t

  notifies :
      (actor : String) (x : Workspace) (us : List String) (v : Site)
      → HasRows v
      → HasRows (notify_removed out actor x us v).1
  unfolding notify_removed
  notifies actor x [] v h = h
  notifies actor x (u ∷ us) v h = notifies actor x us _ h

  invites_all :
      (now : ℕ) (uid uuid key : String) (us : List String) (v : Site)
      → HasRows v
      → HasRows (send_invites out now uid uuid key us v).1
  unfolding send_invites send_invite
  invites_all now uid uuid key [] v h = h
  invites_all now uid uuid key (u ∷ us) v h = invites_all now uid uuid key us _ h

  invites :
      (now : ℕ) (uid uuid key : String) (us : List String) (v : Site)
      → HasRows v
      → HasRows (invite_all_users out now uid us uuid key v).1
  unfolding invite_all_users
  invites now uid uuid key us v h = elim (Option-cases (validate_invite uid uuid v)) [
    | inl e ↦ rw (e, invite_all_users) (invites_all now uid uuid key us v h)
    | inr (x, e) ↦ rw (e, invite_all_users) h
  ]

  tells :
      (x : Workspace) (ms removed : List String) (v : Site)
      → HasRows v
      → HasRows (tell_remaining x ms removed v)
  unfolding tell_remaining
  tells x ms [] v h = h
  tells x ms (u ∷ us) v h = h

notify_lem :
    (out : Outside) (actor : String) (x : Workspace) (us : List String) (v : Site)
    → let (r, v') = notify_removed out actor x us v in
      (r ≡ ok tt) × (v'.workspaces ≡ v.workspaces) × (v'.memberships ≡ v.memberships)
unfolding notify_removed
notify_lem out actor x [] v = (refl, refl, refl)
notify_lem out actor x (u ∷ us) v = notify_lem out actor x us _

deleted_workspaces :
    (id : ℕ) (us : List String) (v : Site)
    → (for_each (delete_member id) us v).workspaces ≡ v.workspaces
unfolding delete_member
deleted_workspaces id [] v = refl
deleted_workspaces id (u ∷ us) v = deleted_workspaces id us (delete_member id u v)

same_id : (n : ℕ) (o : Option Membership) → (if eq_id n n && true then none else o) ≡ none
same_id n o = ground arith

abbrev no_member : Failure
no_member = forbidden "NO_WORKSPACE_MEMBERSHIP"

refused_lem :
    (out : Outside) (now : ℕ) (uid key : String) (us : List String) (x : Workspace) (v : Site)
    → workspace_by_uuid x.uuid v ≡ some x
    → membership_of x.id uid v ≡ none
    → invite_all_users out now uid us x.uuid key v ≡ (err no_member, v)
unfolding invite_all_users validate_invite
refused_lem out now uid key us x v e f =
    rw (e, invite_all_users, validate_invite) (rw (f, invite_all_users, validate_invite) refl)

-- the rows of the removed are deleted
abbrev pub pruned : Workspace → List String → Site → Site
pruned x removed s = for_each (delete_member x.id) removed s

module _ (out : Outside) (now : ℕ) (uid ssh_key : String) (x : Workspace)
    (added removed : List String) (s : Site)
    (commits : out.commits (pruned x removed s) ≡ true) where
  abbrev pub after_deletion : Site
  after_deletion = pruned x removed s

  abbrev finishing : List String → Method Void
  finishing members =
      modify (tell_remaining x members removed) >> emit (Event.modified x.uuid added removed)

  abbrev inviting : List String → Method Void
  inviting members = invite_all_users out now uid added x.uuid ssh_key >> finishing members

  abbrev following : List String → Method Void
  following members = notify_removed out uid x removed >> inviting members

  deletes :
      transaction out (modify (for_each (delete_member x.id) removed)) s ≡ (ok tt, after_deletion)
  unfolding transaction
  deletes = rw (commits, transaction) refl

  update_members_lem :
      update_members out now uid x added removed ssh_key s
      ≡ following (members_of x.id s) after_deletion
  unfolding update_members
  update_members_lem =
      bind_ok (transaction out (modify (for_each (delete_member x.id) removed)))
        (λ _. following (members_of x.id s)) s after_deletion tt deletes

  -- After a change of a workspace's members whose deletion the database commits, the removed have
  -- no membership of that workspace, the owner included, and every other membership, of this
  -- workspace or of another, is the same as before: an added user has none yet. So it is even if a
  -- later step of the change fails.
  pub update_members_rows :
      (id : ℕ) (u : String)
      → membership_of id u (update_members out now uid x added removed ssh_key s).1
        ≡ (if eq_id x.id id && member u removed then none else membership_of id u s)
  update_members_rows id u =
      ap (λ r. membership_of id u r.1) update_members_lem
      ∙ ap (find_by (belongs id u)) kept_rows
      ∙ membership_of-delete_members id x.id removed u s
    where
      t : List Membership
      t = after_deletion.memberships

      kept_rows : (following (members_of x.id s) after_deletion).1.memberships ≡ t
      kept_rows =
          then_keeps (HasRows out t) (notify_removed out uid x removed)
            (λ _. inviting (members_of x.id s)) after_deletion
            (notifies out t uid x removed after_deletion refl)
            (λ _ v h.
              then_keeps (HasRows out t) (invite_all_users out now uid added x.uuid ssh_key)
                (λ _. finishing (members_of x.id s)) v
                (invites out t now uid x.uuid ssh_key added v h)
                (λ _ v' h'. tells out t x (members_of x.id s) removed v' h'))

  -- If whoever makes the change is among the removed, the change fails once the removed are told:
  -- no one is invited, no session hears of it, and the gateway is not told, so its cached
  -- memberships stay.
  pub update_members_self :
      workspace_by_uuid x.uuid s ≡ some x
      → member uid removed ≡ true
      → update_members out now uid x added removed ssh_key s ≡ (
        err (forbidden "NO_WORKSPACE_MEMBERSHIP"),
        (notify_removed out uid x removed after_deletion).1,
      )
  update_members_self here gone =
      update_members_lem
      ∙ bind_ok (notify_removed out uid x removed) (λ _. inviting members) after_deletion told tt
          (ap (λ r. (r, told)) shape.0)
      ∙ bind_err (invite_all_users out now uid added x.uuid ssh_key) (λ _. finishing members) told
          told no_member
          (refused_lem out now uid ssh_key added x told
            (ap (find_by (λ y. eq_text y.uuid x.uuid)) (shape.1 ∙ deleted_workspaces x.id removed s)
              ∙ here)
            (ap (find_by (belongs x.id uid)) shape.2
              ∙ membership_of-delete_members x.id x.id removed uid s
              ∙ rw gone (same_id x.id (membership_of x.id uid s))))
    where
      members : List String
      members = members_of x.id s

      told : Site
      told = (notify_removed out uid x removed after_deletion).1

      shape :
          ((notify_removed out uid x removed after_deletion).0 ≡ ok tt)
          × ((notify_removed out uid x removed after_deletion).1.workspaces
              ≡ after_deletion.workspaces)
          × ((notify_removed out uid x removed after_deletion).1.memberships
              ≡ after_deletion.memberships)
      shape = notify_lem out uid x removed after_deletion
