-- ===== src/Workspaces/Access.antt =====
-- workspace/src/manage/manage.service.ts: access codes for dedicated environments. A code is asked
-- for, granted by the administrator, used, and given back.
pub mod Laws
use hide_server.Base.{
  length, str_empty, Key, str_key, nat_key, ℕ, suc, ◌+◌, ◌*◌, String, Bool, true, false, not, ◌&&◌,
  ◌||◌, Option, none, some, List, [], ◌∷◌, ◌++◌, Failure, Void, pure, gets, or_throw, ◌>>=◌, ◌>>◌,
  throw_if, modify, ltb, if◌then◌else◌,
}
use hide_server.Workspaces.{
  AccessStatus, fresh, unused, used, AccessCode, Outside, Method, Site, bad_request, forbidden,
  not_found, random_id, emit, find_by, filter_by, eq_text, eq_id,
}
use hide_server.Workspaces.Capacity.{Cluster, can_provision}
use hide_server.Platform.{Event, Notification}

-- libs/common/dto/workspace.ts
pub record AccessRequest : Type 0 where
  pub uid : String
  pub username : String
  pub name : String
  pub reason : String
  pub uuid : String

-- The tokens of the requests, the profiles, whether the mail is sent, the days of the process
-- environment, and whether a condition on an undefined or null value is left out of a query.
pub record AccessOutside : Type 0 where
  pub base : Outside
  pub sign_request : AccessRequest → String
  pub verify_request : String → Option AccessRequest
  pub profile : String → Option (String × String)
  pub is_mailed : Bool
  pub expiry_days : Option ℕ
  pub ignores_undefined : Bool

abbrev pub mail_error : Failure
mail_error = record { status = 0; message = "sendAccessRequestEmail" }

abbrev pub day : ℕ
day = 86400000

unfoldable pub is_active : AccessCode → Bool
is_active a = elim a.status [ used ↦ false | _ ↦ true ]

unfoldable pub is_used : AccessCode → Bool
is_used a = elim a.status [ used ↦ true | _ ↦ false ]

abbrev pub is_of : String → String → AccessCode → Bool
is_of uid code a = eq_text a.uid uid && eq_text a.code code

abbrev pub code_of : String → String → Site → Option AccessCode
code_of uid code s = find_by (is_of uid code) s.codes

-- `save` of a code that was read
unfoldable pub save_code : AccessCode → List AccessCode → List AccessCode
save_code a [] = []
save_code a (b ∷ bs) = if eq_id b.id a.id then a ∷ bs else b ∷ save_code a bs

abbrev pub modify_codes : (List AccessCode → List AccessCode) → Method Void
modify_codes f = modify (λ s. record s { codes = f s.codes })

abbrev pub username_of : Option (String × String) → String
username_of none = "Unknown"
username_of (some p) = p.0

abbrev pub name_of : Option (String × String) → String
name_of none = "Unknown"
name_of (some p) = p.1

abbrev pub days_of : Option ℕ → ℕ
days_of none = 5
days_of (some n) = n

-- `code` is what the generator of codes has drawn
unfoldable pub create_access_request :
    AccessOutside → Cluster → ℕ → String → String → String → Method Void
create_access_request out k now code uid reason = do
  count ← gets (λ s. length (filter_by (λ a. eq_text a.uid uid && is_active a) s.codes))
  throw_if (ltb 0 count) (bad_request "ACCESS_CODE_LIMIT")
  has_room ← can_provision k
  throw_if (not has_room) (forbidden "NO_CAPACITY")
  let known = out.profile uid
  uuid ← random_id out.base
  let request : AccessRequest = record {
    uid = uid;
    username = username_of known;
    name = name_of known;
    reason = reason;
    uuid = uuid;
  }
  throw_if (not out.is_mailed) mail_error
  emit (Event.access_mail (out.sign_request request))
  id ← gets (λ s. s.next_id)
  let a : AccessCode = record {
    id = id;
    code = code;
    uid = uid;
    uuid = uuid;
    status = fresh;
    ntfn_id = none;
    used_at = none;
    expires_at = now + days_of out.expiry_days * day;
  }
  modify (λ s. record s { codes = s.codes ++ a ∷ []; next_id = suc s.next_id })

abbrev pub by_request : String → AccessCode → Bool
by_request uuid a = eq_text a.uuid uuid

unfoldable pub approve_request : AccessOutside → AccessRequest → Method Void
approve_request out r = do
  found ← gets (λ s. find_by (by_request r.uuid) s.codes)
  a ← or_throw found (bad_request "NOT_FOUND")
  let granted = record a { status = unused }
  modify_codes (save_code granted)
  id ← random_id out.base
  emit (Event.notify r.uid (Notification.access_code id true a.code r.uuid))
  modify_codes (save_code (record granted { ntfn_id = some id }))

unfoldable pub reject_request : AccessOutside → AccessRequest → Method Void
reject_request out r = do
  modify_codes (filter_by (λ a. not (by_request r.uuid a)))
  id ← random_id out.base
  emit (Event.notify r.uid (Notification.access_code id false "" r.uuid))

unfoldable pub fulfill_access_request : AccessOutside → Bool → String → Method Void
fulfill_access_request out approves token = do
  r ← or_throw (out.verify_request token) (bad_request "BAD_TOKEN")
  if approves then approve_request out r else reject_request out r

-- a condition on one column of a code, and one on its user besides
unfoldable pub meets : Bool → Option String → Option String → Bool
meets ignores none column = ignores
meets ignores (some v) none = false
meets ignores (some v) (some c) = eq_text c v

unfoldable pub selected :
    Bool → String → Option String → Option String → Option String → AccessCode → Bool
selected ignores uid uuid code ntfn_id a =
    eq_text a.uid uid
    && (meets ignores uuid (some a.uuid)
        || (meets ignores code (some a.code) || meets ignores ntfn_id a.ntfn_id))

abbrev pub ntfn_of : Option String → Option AccessCode → Option String
ntfn_of given none = given
ntfn_of given (some a) = a.ntfn_id

abbrev pub say_read : String → Option String → Method Void
say_read uid none = pure tt
say_read uid (some id) = if str_empty id then pure tt else emit (Event.notification_read uid id)

unfoldable pub delete_access_code :
    AccessOutside → String → Option String → Option String → Option String → Method Void
delete_access_code out uid uuid ntfn_id code = do
  found ← gets (λ s. find_by (selected out.ignores_undefined uid uuid code ntfn_id) s.codes)
  let read = ntfn_of ntfn_id found
  modify_codes (filter_by (λ a. not (selected out.ignores_undefined uid uuid code read a)))
  say_read uid read

-- the update of every row of the user and the code; whether there is one
unfoldable pub mark_used : String → String → ℕ → List AccessCode → List AccessCode
mark_used uid code now [] = []
mark_used uid code now (a ∷ others) =
    let rest = mark_used uid code now others in
    if is_of uid code a then record a { status = used; used_at = some now } ∷ rest else a ∷ rest

unfoldable pub mark_code_as_used : String → String → ℕ → Method Bool
mark_code_as_used uid code now = do
  found ← gets (code_of uid code)
  modify_codes (mark_used uid code now)
  pure (elim found [ none ↦ false | some _ ↦ true ])

-- the tests of a code, before it is marked
unfoldable pub check_code : String → String → ℕ → Method Void
check_code uid code now = do
  found ← gets (code_of uid code)
  a ← or_throw found (not_found "ACCESS_CODE_INVALID")
  throw_if (is_used a) (forbidden "ACCESS_CODE_ALREADY_USED")
  throw_if (ltb a.expires_at now) (bad_request "ACCESS_CODE_EXPIRED")

unfoldable pub use_code : String → String → ℕ → Method Void
use_code uid code now = do
  success ← mark_code_as_used uid code now
  throw_if (not success) (forbidden "ACCESS_CODE_IN_USE")

unfoldable pub consume_access_code : String → String → ℕ → Method Void
consume_access_code uid code now = check_code uid code now >> use_code uid code now

unfoldable pub reset_access_code : String → String → Method Void
reset_access_code uid code = do
  found ← gets (code_of uid code)
  a ← or_throw found (not_found "ACCESS_CODE_INVALID")
  throw_if (not (is_used a)) (bad_request "ACCESS_CODE_NOT_IN_USE")
  modify_codes (save_code (record a { status = unused }))
