-- ===== src/Workspaces/Owned.antt =====
-- workspace/src/manage/manage.service.ts: what is deleted with a user.
pub mod Laws
use hide_server.Base.{
  member, add_new, to_set, length, All, In, In-append_left, In-append_right, for_each, str_dec,
  str_empty, Key, str_key, nat_key, lookup, insert, erase, Map, keys, values, has, lookup-insert,
  lookup-erase, lookup-insert_self, lookup-erase_self, ℕ, zero, suc, ◌+◌, ◌-◌, ◌*◌, ◌/◌, ◌%◌, ◌≤◌,
  ◌<◌, String, ◌≡◌, refl, sym, ap, subst, ◌∙◌, ◌≢◌, ◌↔◌, ◌⊎◌, inl, inr, ite, Bool, true, false, not,
  ◌&&◌, ◌||◌, Option, none, some, List, [], ◌∷◌, ◌++◌, map, flatten, arith, dec_lt, dec_le,
  ℕ_discrete, Failure, Result, Action, Void, pure, throw, gets, or_throw, ◌>>=◌, ◌>>◌, throw_if,
  modify, bind_ok, bind_err, then_keeps, ltb, leb, if◌then◌else◌, Bool-cases, Option-cases, ok, err,
}
use hide_server.Workspaces.{
  Membership, Outside, Method, Site, plain_member, owner, find_by, filter_by, eq_text, belongs,
  membership_of, members_of, transaction, tell_members, emit,
}
use hide_server.Workspaces.Manage.{without}
use hide_server.Workspaces.Manage.Deletion.{delete_workspace}
use hide_server.Platform.{Event}

abbrev is_owner : Option Membership → Bool
is_owner none = false
is_owner (some m) = elim m.role [ owner ↦ true | _ ↦ false ]

abbrev is_plain : Option Membership → Bool
is_plain none = false
is_plain (some m) = elim m.role [ plain_member ↦ true | _ ↦ false ]

unfoldable pub owned_workspaces : String → Site → List String
owned_workspaces uid s =
    map (λ x. x.uuid) (filter_by (λ x. is_owner (membership_of x.id uid s)) s.workspaces)

-- the workspaces that the user only takes part in, with their members
unfoldable pub member_workspaces : String → Site → List (String × List String)
member_workspaces uid s =
    map (λ x. (x.uuid, members_of x.id s))
      (filter_by (λ x. is_plain (membership_of x.id uid s)) s.workspaces)

-- `Promise.allSettled`: a deletion that fails does not keep the others from being done
unfoldable pub delete_all : Outside → String → List String → Site → Site
delete_all out uid [] s = s
delete_all out uid (uuid ∷ uuids) s = delete_all out uid uuids (delete_workspace out uid uuid s).1

abbrev pub is_row_of : String → Membership → Bool
is_row_of uid m = eq_text m.user_id uid

unfoldable pub delete_memberships : String → Site → Site
delete_memberships uid s = record s {
  memberships = filter_by (λ m. not (is_row_of uid m)) s.memberships;
}

unfoldable pub announce : String → List (String × List String) → Method Void
announce uid [] = pure tt
announce uid ((uuid, members) ∷ rest) = do
  modify (λ s. record s { world = tell_members uuid (without (uid ∷ []) (to_set members)) s.world })
  emit (Event.modified uuid [] (uid ∷ []))
  announce uid rest

unfoldable pub delete_owned_workspaces : Outside → String → Method Void
delete_owned_workspaces out uid = do
  owned ← gets (owned_workspaces uid)
  taking_part ← gets (member_workspaces uid)
  modify (delete_all out uid owned)
  transaction out (modify (delete_memberships uid))
  announce uid taking_part

pub announce_rows :
    (uid : String) (ws : List (String × List String)) (s : Site)
    → (announce uid ws s).1.memberships ≡ s.memberships
unfolding announce
announce_rows uid [] s = refl
announce_rows uid ((uuid, members) ∷ rest) s = announce_rows uid rest _

pub none_left :
    (uid : String) (id : ℕ) (ms : List Membership)
    → find_by (belongs id uid) (filter_by (λ m. not (is_row_of uid m)) ms) ≡ none
unfolding find_by filter_by
none_left uid id [] = refl
none_left uid id (m ∷ ms) = ground (arith, none_left uid id ms)
