-- ===== src/Workspaces/Tests.antt =====
-- The workspace service's theorems at one workspace of two members.
use hide_server.Base.{
  member, In, str_dec, str_empty, str_key, nat_key, ℕ, String, ◌≡◌, refl, sym, ap, subst, ◌∙◌, ◌≢◌,
  ◌↔◌, inl, inr, ite, true, false, ◌&&◌, none, some, List, [], ◌∷◌, arith, ℕ_discrete, ltb, ok, err,
}
use native.Mathlib.Decide.{ℕ_discrete}
use hide_server.Workspaces.{
  transaction, role_level, find_by, ready, AccessStatus, fresh, unused, used, plain_member, owner,
  Workspace, Membership, AccessCode, Site, Invitation, Outside, membership_of, workspace_by_uuid,
  forbidden, eq_text, eq_id, find_by, role_level, filter_by,
}
use hide_server.Workspaces.Invite.{accept_invitation}
use hide_server.Workspaces.Roster.{joining, accept_invitation_joins}
use hide_server.Workspaces.Manage.{
  validate_creation, name_valid, rest_valid, create_rows, insert_workspace, CreateRequest,
  create_workspace, update_members, notify_removed, delete_member,
}
use hide_server.Workspaces.Manage.Deletion.{delete_workspace}
use hide_server.Workspaces.Members.{update_members_rows, update_members_self}
use hide_server.Workspaces.Tables.{SameTables, create_workspace_atomic, delete_workspace_removes}
use hide_server.Workspaces.Access.{
  mark_code_as_used, is_used, code_of, check_code, use_code, consume_access_code, reset_access_code,
  mark_code_as_used,
}
use hide_server.Workspaces.Access.Laws.{
  consume_access_code_iff, consume_access_code_once, consume_access_code_race,
  reset_access_code_again,
}
use hide_server.Workspaces.Capacity.{
  Pod, can_provision, requested_cpu, requested_by_all, requested_by, ends_with_m, without_m,
  parse_int, digits_from, digit,
}
use hide_server.Workspaces.Capacity.Units.{cluster_of, fits, can_provision_units}
use hide_server.Workspaces.Owned.{
  owned_workspaces, delete_all, delete_memberships, delete_owned_workspaces,
}
use hide_server.Workspaces.Owned.Laws.{Found, delete_owned_workspaces_rows}
use hide_server.Workspaces.Manage.Deletion.{delete_workspace, delete_rows}
use hide_server.Workspaces.Codes.{text_length, access_code, access_code_drawn}

abbrev offer : Invitation
offer = record {
  notification_id = "n1";
  inviter_id = "ann";
  invitee_id = "ann";
  workspace_uuid = "w1";
  valid_till = 1000;
  ssh_key = "key";
}

abbrev out : Outside
out = record {
  random_uuid = λ n. "random";
  sign = λ i. "token";
  verify = λ token. some offer;
  has_profile = λ uid. false;
  takes_row = λ x. true;
  commits = λ s. true;
}

abbrev home : Workspace
home = record {
  id = 1;
  uuid = "w1";
  image = "node";
  name = "home";
  description = "a place";
  status = ready;
  dedicated = false;
}

abbrev ann : Membership
ann = record { workspace_id = 1; user_id = "ann"; role = owner }

abbrev bob : Membership
bob = record { workspace_id = 1; user_id = "bob"; role = plain_member }

abbrev ticket : AccessStatus → AccessCode
ticket status = record {
  id = 7;
  code = "ABCD";
  uid = "ann";
  uuid = "r1";
  status = status;
  ntfn_id = none;
  used_at = none;
  expires_at = 500;
}

abbrev site : AccessStatus → Site
site status = record {
  workspaces = home ∷ [];
  memberships = ann ∷ bob ∷ [];
  codes = ticket status ∷ [];
  next_id = 2;
  drawn = 0;
  world = record {
    cache = record { presences = []; workspaces = []; memberships = []; timers = [] };
    locks = [];
    sent = [];
  };
}

-- the owner accepts an invitation to the workspace, and is a plain member
accept_invitation_joins_example :
    let (r, s') = accept_invitation out "ann" "token" (site fresh) in
    (r ≡ ok "key")
    × (membership_of 1 "ann" s' ≡ some (joining home "ann"))
    × ((id : ℕ) (uid : String)
        → (eq_id 1 id && eq_text "ann" uid) ≡ false
        → membership_of id uid s' ≡ membership_of id uid (site fresh))
unfolding find_by str_dec
accept_invitation_joins_example =
    accept_invitation_joins out "token" offer home (site fresh) refl refl

-- the owner is removed by a change that leaves the owner out, and the change fails
update_members_rows_example :
    membership_of 1 "ann" (update_members out 0 "ann" home [] ("ann" ∷ []) "key" (site fresh)).1
    ≡ none
unfolding member str_dec ℕ_discrete
update_members_rows_example =
    update_members_rows out 0 "ann" "key" home [] ("ann" ∷ []) (site fresh) refl 1 "ann"

update_members_self_example : update_members out 0 "ann" home [] ("ann" ∷ []) "key" (site fresh) ≡ (
  err (forbidden "NO_WORKSPACE_MEMBERSHIP"),
  (notify_removed out "ann" home ("ann" ∷ []) (delete_member 1 "ann" (site fresh))).1,
)
unfolding member str_dec find_by
update_members_self_example =
    update_members_self out 0 "ann" "key" home [] ("ann" ∷ []) (site fresh) refl refl refl

abbrev wish : CreateRequest
wish = record {
  name = some "second";
  description = some "another place";
  image = some "node";
  uuid = none;
  dedicated = false;
}

create_workspace_atomic_example :
    SameTables (site fresh) (create_workspace out "ann" wish (site fresh)).1
unfolding create_workspace validate_creation str_empty str_dec name_valid member ℕ_discrete
    rest_valid transaction create_rows insert_workspace find_by
create_workspace_atomic_example =
    create_workspace_atomic out "ann" wish (site fresh)
      (record { status = 0; message = "user.profile" }) refl

delete_workspace_removes_example :
    let (r, s') = delete_workspace out "ann" "w1" (site fresh) in
    (r ≡ ok tt)
    × (workspace_by_uuid "w1" s' ≡ none)
    × ((u : String) → membership_of 1 u s' ≡ none)
    × ((id : ℕ) (u : String)
        → eq_id id 1 ≡ false
        → membership_of id u s' ≡ membership_of id u (site fresh))
unfolding find_by str_dec role_level ℕ_discrete
delete_workspace_removes_example =
    delete_workspace_removes out "ann" "w1" (site fresh) home ann refl refl refl refl

-- the owner of one workspace who takes part in another
abbrev other_home : Workspace
other_home = record home { id = 2; uuid = "w2"; name = "second" }

abbrev two_workspaces : Site
two_workspaces = record (site fresh) {
  workspaces = home ∷ other_home ∷ [];
  memberships =
      ann
      ∷ bob
      ∷ record ann { workspace_id = 2; role = plain_member }
      ∷ record bob { workspace_id = 2; role = owner }
      ∷ [];
}

-- the deletion of the workspace is not committed
abbrev failing : Outside
failing = record out {
  commits = λ s. elim (membership_of 1 "bob" s) [ none ↦ false | some _ ↦ true ];
}

apart : (s t : String) → ite (str_dec s t) true false ≡ false → s ≢ t
apart s t e = elim (str_dec s t) [ yes h ↦ ground arith | no n ↦ n ]

w2_w1 : ◌≢◌ {A = String} "w2" "w1"
unfolding str_dec
w2_w1 = apart "w2" "w1" refl

not_owned :
    (y : Workspace) (uuid : String)
    → In uuid (owned_workspaces "ann" two_workspaces)
    → Found uuid y (home ∷ other_home ∷ [])
    → eq_id y.id 2 ≡ false
unfolding owned_workspaces find_by filter_by str_dec ℕ_discrete
not_owned y uuid (inl e) (inl f, q) = subst (λ z. eq_id z.id 2 ≡ false) f refl
not_owned y uuid (inl e) (inr (inl f), q) = absurd (w2_w1 (ap (λ z. z.uuid) f ∙ q ∙ sym e))
not_owned y uuid (inl e) (inr (inr f), q) = absurd f
not_owned y uuid (inr i) f = absurd i

delete_owned_workspaces_rows_example :
    let s' = (delete_owned_workspaces failing "ann" two_workspaces).1 in
    (membership_of 1 "ann" s' ≡ none)
    × (membership_of 2 "bob" s' ≡ membership_of 2 "bob" two_workspaces)
unfolding owned_workspaces find_by filter_by str_dec ℕ_discrete delete_all delete_workspace
    transaction delete_rows delete_memberships role_level
delete_owned_workspaces_rows_example =
    delete_owned_workspaces_rows failing "ann" "bob" two_workspaces 1 2 refl not_owned refl

-- a code that is not granted yet is used, once
consume_access_code_iff_example :
    ((consume_access_code "ann" "ABCD" 100 (site fresh)).0 ≡ ok tt) ↔ (
      (a : AccessCode) × (code_of "ann" "ABCD" (site fresh) ≡ some a)
      × (is_used a ≡ false)
      × (ltb a.expires_at 100 ≡ false))
consume_access_code_iff_example = consume_access_code_iff "ann" "ABCD" 100 (site fresh)

abbrev consumed : Site
consumed = (consume_access_code "ann" "ABCD" 100 (site fresh)).1

consume_access_code_once_example :
    consume_access_code "ann" "ABCD" 200 consumed
    ≡ (err (forbidden "ACCESS_CODE_ALREADY_USED"), consumed)
unfolding consume_access_code check_code use_code mark_code_as_used find_by str_dec is_used
consume_access_code_once_example = consume_access_code_once "ann" "ABCD" 100 200 (site fresh) refl

consume_access_code_race_example :
    let (r, s') = use_code "ann" "ABCD" 100 (site unused) in
    let (r', _) = use_code "ann" "ABCD" 101 s' in (r ≡ ok tt) × (r' ≡ ok tt)
unfolding check_code find_by str_dec is_used
consume_access_code_race_example =
    consume_access_code_race "ann" "ABCD" 100 101 (site unused) refl refl

reset_access_code_again_example :
    let (r, s') = reset_access_code "ann" "ABCD" (site used) in
    (r ≡ ok tt) × ((consume_access_code "ann" "ABCD" 300 s').0 ≡ ok tt)
unfolding find_by str_dec is_used
reset_access_code_again_example =
    reset_access_code_again "ann" "ABCD" 300 (site used) (ticket used) refl refl refl

abbrev pods : List Pod
pods = record { is_running = true; requests = some "100m" ∷ none ∷ some "1" ∷ [] } ∷ []

can_provision_units_example :
    (can_provision (cluster_of "3920m" [] pods none (some 350)) (site fresh)
      ≡ (ok (fits 3920 1100 none (some 350) (site fresh)), site fresh))
    × (can_provision (cluster_of "3920" [] pods none (some 350)) (site fresh)
        ≡ (ok (fits 3920 1100 none (some 350) (site fresh)), site fresh))
unfolding digit requested_cpu requested_by_all requested_by ends_with_m without_m parse_int
    digits_from str_empty str_dec ℕ_discrete
can_provision_units_example =
    can_provision_units "3920" [] pods none (some 350) 3920 1100 (site fresh) refl (omega arith)
      refl

access_code_drawn_example :
    (t : String) × (access_code 2 ((250 ∷ 5 ∷ []) ∷ (40 ∷ 3 ∷ []) ∷ []) ≡ some t)
    × (text_length t ≡ 2)
access_code_drawn_example = access_code_drawn 2 ((250 ∷ 5 ∷ []) ∷ (40 ∷ 3 ∷ []) ∷ []) (omega arith)
