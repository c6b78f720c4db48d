-- ===== src/Workspaces.antt =====
-- workspace/src/common/model: the tables of the workspace service, and what it works on besides.
pub mod Invite
pub mod Manage
pub mod Access
pub mod Capacity
pub mod Codes
pub mod Members
pub mod Roster
pub mod Tables
pub mod Owned
mod Tests
use hide_server.Base.{
  str_dec, Key, str_key, nat_key, keys, ℕ, suc, String, ◌≡◌, refl, sym, subst, ◌∙◌, inl, inr, ite,
  Bool, true, false, ◌&&◌, Option, none, some, List, [], ◌∷◌, map, arith, ℕ_discrete, Failure,
  Action, Void, modify, if◌then◌else◌, Bool-cases, ok, err,
}
use hide_server.Cache.{CachedPresence}
use hide_server.Platform.{World, Event, SocketMessage, send, send_all, get_presence}

-- libs/common/dto/workspace.ts
pub data WorkspaceStatus : Type 0 where
  provisioning ready deprovisioning cold deleting : WorkspaceStatus

pub data AccessStatus : Type 0 where
  fresh unused used : AccessStatus

pub data Role : Type 0 where
  plain_member admin owner : Role

pub record Workspace : Type 0 where
  pub id : ℕ
  pub uuid : String
  pub image : String
  pub name : String
  pub description : String
  pub status : WorkspaceStatus
  pub dedicated : Bool

pub record Membership : Type 0 where
  pub workspace_id : ℕ
  pub user_id : String
  pub role : Role

pub record AccessCode : Type 0 where
  pub id : ℕ
  pub code : String
  pub uid : String
  pub uuid : String
  pub status : AccessStatus
  pub ntfn_id : Option String
  pub used_at : Option ℕ
  pub expires_at : ℕ

-- The tables, the next generated id of any of them, how many random identifiers have been drawn, and the platform.
pub record Site : Type 0 where
  pub workspaces : List Workspace
  pub memberships : List Membership
  pub codes : List AccessCode
  pub next_id : ℕ
  pub drawn : ℕ
  pub world : World

-- workspace/src/utils/types.ts
pub record Invitation : Type 0 where
  pub notification_id : String
  pub inviter_id : String
  pub invitee_id : String
  pub workspace_uuid : String
  pub valid_till : ℕ
  pub ssh_key : String

-- What is not the service's own: the n-th random identifier, tokens, the profile service, and
-- whether the database takes a row of a new workspace (its lengths) and commits a transaction, by the
-- state that it would leave.
pub record Outside : Type 0 where
  pub random_uuid : ℕ → String
  pub sign : Invitation → String
  pub verify : String → Option Invitation
  pub has_profile : String → Bool
  pub takes_row : Workspace → Bool
  pub commits : Site → Bool

abbrev pub Method : Type 0 → Type 0
Method = Action Site

abbrev pub bad_request : String → Failure
bad_request m = record { status = 400; message = m }

abbrev pub unauthorized : String → Failure
unauthorized m = record { status = 401; message = m }

abbrev pub forbidden : String → Failure
forbidden m = record { status = 403; message = m }

abbrev pub not_found : String → Failure
not_found m = record { status = 404; message = m }

-- an error of the database, of a token or of another service, as it is thrown
abbrev pub database_error : Failure
database_error = record { status = 0; message = "QueryFailedError" }

abbrev pub token_error : Failure
token_error = record { status = 0; message = "JsonWebTokenError" }

abbrev pub profile_error : Failure
profile_error = record { status = 0; message = "user.profile" }

abbrev pub random_id : Outside → Method String
random_id out s = (ok (out.random_uuid s.drawn), record s { drawn = suc s.drawn })

abbrev pub emit : Event → Method Void
emit e = modify (λ s. record s { world = send e s.world })

-- `findOne` by one column
unfoldable pub find_by : {A : Type 0} → (A → Bool) → List A → Option A
find_by f [] = none
find_by f (x ∷ xs) = if f x then some x else find_by f xs

unfoldable pub filter_by : {A : Type 0} → (A → Bool) → List A → List A
filter_by f [] = []
filter_by f (x ∷ xs) = let rest = filter_by f xs in if f x then x ∷ rest else rest

abbrev pub eq_text : String → String → Bool
eq_text s t = ite (str_dec s t) true false

abbrev pub eq_id : ℕ → ℕ → Bool
eq_id m n = ite (ℕ_discrete m n) true false

abbrev pub workspace_by_uuid : String → Site → Option Workspace
workspace_by_uuid uuid s = find_by (λ x. eq_text x.uuid uuid) s.workspaces

abbrev pub workspace_by_id : ℕ → Site → Option Workspace
workspace_by_id id s = find_by (λ x. eq_id x.id id) s.workspaces

abbrev pub belongs : ℕ → String → Membership → Bool
belongs id uid m = eq_id m.workspace_id id && eq_text m.user_id uid

abbrev pub membership_of : ℕ → String → Site → Option Membership
membership_of id uid s = find_by (belongs id uid) s.memberships

abbrev pub members_of : ℕ → Site → List String
members_of id s = map (λ m. m.user_id) (filter_by (λ m. eq_id m.workspace_id id) s.memberships)

-- `save` of a workspace that was read: the row of its id is replaced
unfoldable pub save_workspace : Workspace → List Workspace → List Workspace
save_workspace x [] = []
save_workspace x (y ∷ ys) = if eq_id y.id x.id then x ∷ ys else y ∷ save_workspace x ys

-- the levels of workspace/src/utils/constants.ts
unfoldable pub role_level : Role → ℕ
role_level plain_member = 0
role_level admin = 1
role_level owner = 2

-- A transaction that fails, or that the database does not commit, leaves the tables as they were.
abbrev pub rolled_back : Site → Site → Site
rolled_back before s = record s {
  workspaces = before.workspaces;
  memberships = before.memberships;
  codes = before.codes;
}

unfoldable pub transaction : {A : Type 0} → Outside → Method A → Method A
transaction out m s =
    let (r, s') = m s in
    elim r [
      | err e ↦ (err e, rolled_back s s')
      | ok a ↦ if out.commits s' then (ok a, s') else (err database_error, rolled_back s s')
    ]

-- `members.modified` to every session in the cache of the given users
unfoldable pub tell_members : String → List String → World → World
tell_members uuid [] w = w
tell_members uuid (uid ∷ uids) w = tell_members uuid uids (told (get_presence w uid))
  where
    told : Option CachedPresence → World
    told none = w
    told (some p) =
        send_all
          (map (λ sid. Event.socket_send uid sid (SocketMessage.members_modified uuid)) (keys p)) w

pub find_hit :
    {A : Type 0} (f : A → Bool) (x : A) (xs : List A) → f x ≡ true → find_by f (x ∷ xs) ≡ some x
unfolding find_by
find_hit f x xs e = rw e refl

pub find_miss :
    {A : Type 0} (f : A → Bool) (x : A) (xs : List A)
    → f x ≡ false
    → find_by f (x ∷ xs) ≡ find_by f xs
unfolding find_by
find_miss f x xs e = rw e refl

pub filter_keep :
    {A : Type 0} (f : A → Bool) (x : A) (xs : List A)
    → f x ≡ true
    → filter_by f (x ∷ xs) ≡ x ∷ filter_by f xs
unfolding filter_by
filter_keep f x xs e = rw e refl

pub filter_drop :
    {A : Type 0} (f : A → Bool) (x : A) (xs : List A)
    → f x ≡ false
    → filter_by f (x ∷ xs) ≡ filter_by f xs
unfolding filter_by
filter_drop f x xs e = rw e refl

pub some_inj : {A : Type 0} {a b : A} → some a ≡ some b → a ≡ b
some_inj e = cc

-- what is found meets the test
pub find_holds :
    {A : Type 0} (f : A → Bool) (xs : List A) (a : A) → find_by f xs ≡ some a → f a ≡ true
unfolding find_by
find_holds f [] a e = cc
find_holds f (x ∷ xs) a e = elim (Bool-cases (f x)) [
  | inl b ↦ subst (λ y. f y ≡ true) (some_inj (sym (find_hit f x xs b) ∙ e)) b
  | inr b ↦ find_holds f xs a (sym (find_miss f x xs b) ∙ e)
]

pub eq_id_self : (n : ℕ) → eq_id n n ≡ true
eq_id_self n = ground arith

pub eq_text_self : (s : String) → eq_text s s ≡ true
eq_text_self s = ground arith
