-- ===== src/Workspaces/Roster.antt =====
-- What the accepting of an invitation does to the table of memberships.
use hide_server.Base.{
  str_key, nat_key, ℕ, String, ◌≡◌, refl, sym, ap, ◌∙◌, inl, inr, true, false, ◌&&◌, some, List, [],
  ◌∷◌, arith, bind_ok, Bool-cases, ok,
}
use hide_server.Workspaces.{
  Workspace, Membership, Invitation, Outside, Site, plain_member, find_by, find_hit, find_miss,
  eq_text, eq_id, eq_text_self, workspace_by_uuid, belongs, membership_of,
}
use hide_server.Workspaces.Invite.{validate_accept, save_membership, enter, accept_invitation}

abbrev pub joining : Workspace → String → Membership
joining x uid = record { workspace_id = x.id; user_id = uid; role = plain_member }

belongs_self : (m : Membership) → belongs m.workspace_id m.user_id m ≡ true
belongs_self m = ground arith

-- a saved row is found under its keys
find-save_membership :
    (m : Membership) (ms : List Membership)
    → find_by (belongs m.workspace_id m.user_id) (save_membership m ms) ≡ some m
unfolding save_membership
find-save_membership m [] = find_hit (belongs m.workspace_id m.user_id) m [] (belongs_self m)
find-save_membership m (x ∷ xs) = elim (Bool-cases (belongs m.workspace_id m.user_id x)) [
  | inl b ↦
      rw (b, save_membership) (find_hit (belongs m.workspace_id m.user_id) m xs (belongs_self m))
  | inr b ↦
      rw (b, save_membership)
        (find_miss (belongs m.workspace_id m.user_id) x _ b ∙ find-save_membership m xs)
]

-- and any row that other keys find stays
others-save_membership :
    (m : Membership) (ms : List Membership) (id : ℕ) (uid : String)
    → (eq_id m.workspace_id id && eq_text m.user_id uid) ≡ false
    → find_by (belongs id uid) (save_membership m ms) ≡ find_by (belongs id uid) ms
unfolding save_membership
others-save_membership m [] id uid ne = find_miss (belongs id uid) m [] ne
others-save_membership m (x ∷ xs) id uid ne =
    elim (Bool-cases (belongs m.workspace_id m.user_id x)) [
      | inl b ↦
          rw (b, save_membership)
            (find_miss (belongs id uid) m xs ne
              ∙ sym (find_miss (belongs id uid) x xs (replaced b)))
      | inr b ↦
          rw (b, save_membership)
            (elim (Bool-cases (belongs id uid x)) [
              | inl k ↦ find_hit (belongs id uid) x _ k ∙ sym (find_hit (belongs id uid) x xs k)
              | inr k ↦
                  find_miss (belongs id uid) x _ k
                  ∙ others-save_membership m xs id uid ne
                  ∙ sym (find_miss (belongs id uid) x xs k)
            ])
    ]
  where
    replaced : belongs m.workspace_id m.user_id x ≡ true → belongs id uid x ≡ false
    replaced b = ground arith

module _ (out : Outside) (token : String) (i : Invitation) (x : Workspace) (s : Site)
    (shown : out.verify token ≡ some i)
    (found : workspace_by_uuid i.workspace_uuid s ≡ some x) where
  valid_lem : validate_accept out i.invitee_id token s ≡ (ok i, s)
  unfolding validate_accept
  valid_lem = rw (shown, validate_accept) (rw (eq_text_self i.invitee_id, validate_accept) refl)

  entered : accept_invitation out i.invitee_id token s ≡ enter i s
  unfolding accept_invitation
  entered = bind_ok (validate_accept out i.invitee_id token) enter s s i valid_lem

  entered_lem :
      ((accept_invitation out i.invitee_id token s).0 ≡ (enter i s).0)
      × ((accept_invitation out i.invitee_id token s).1.memberships ≡ (enter i s).1.memberships)
  entered_lem = (ap (λ r. r.0) entered, ap (λ r. r.1.memberships) entered)

  enter_lem :
      ((enter i s).0 ≡ ok i.ssh_key)
      × ((enter i s).1.memberships ≡ save_membership (joining x i.invitee_id) s.memberships)
  unfolding enter
  enter_lem = rw (found, enter) (refl, refl)

  accept_lem :
      let (r, s') = accept_invitation out i.invitee_id token s in
      (r ≡ ok i.ssh_key) × (s'.memberships ≡ save_membership (joining x i.invitee_id) s.memberships)
  accept_lem = (entered_lem.0 ∙ enter_lem.0, entered_lem.1 ∙ enter_lem.1)

  -- Accepting an invitation, by a token that is genuine and to a workspace that exists, gives the
  -- invitee the role of a plain member, whatever role the invitee had in it before; the membership of
  -- every other user, and of the invitee in every other workspace, is as it was.
  pub accept_invitation_joins :
      let (r, s') = accept_invitation out i.invitee_id token s in
      (r ≡ ok i.ssh_key)
      × (membership_of x.id i.invitee_id s' ≡ some (joining x i.invitee_id))
      × ((id : ℕ) (uid : String)
          → (eq_id x.id id && eq_text i.invitee_id uid) ≡ false
          → membership_of id uid s' ≡ membership_of id uid s)
  accept_invitation_joins = (
    accept_lem.0,
    ap (find_by (belongs x.id i.invitee_id)) accept_lem.1
        ∙ find-save_membership (joining x i.invitee_id) s.memberships,
    λ id uid ne.
        ap (find_by (belongs id uid)) accept_lem.1
        ∙ others-save_membership (joining x i.invitee_id) s.memberships id uid ne,
  )
