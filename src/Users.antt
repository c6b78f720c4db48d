-- ===== src/Users.antt =====
-- user/src/profile/profile.service.ts: the documents of users, each under the user's name. The
-- database answers, and its documents keep the order of the map.
mod Laws
mod Tests
use hide_server.Base.{
  member, add_new, to_set, length, All, In, In-append_left, In-append_right, for_each, str_dec,
  str_empty, Key, str_key, nat_key, lookup, insert, erase, Map, keys, values, has, lookup-insert,
  lookup-erase, lookup-insert_self, lookup-erase_self, ℕ, zero, suc, ◌+◌, ◌-◌, ◌*◌, ◌/◌, ◌%◌, ◌≤◌,
  ◌<◌, String, ◌≡◌, refl, sym, ap, subst, ◌∙◌, ◌≢◌, ◌↔◌, ◌⊎◌, inl, inr, ite, Bool, true, false, not,
  ◌&&◌, ◌||◌, Option, none, some, List, [], ◌∷◌, ◌++◌, map, flatten, arith, dec_lt, dec_le,
  ℕ_discrete, Failure, Result, Action, Void, pure, throw, gets, or_throw, ◌>>=◌, ◌>>◌, throw_if,
  modify, bind_ok, bind_err, then_keeps, ltb, leb, if◌then◌else◌, Bool-cases, Option-cases, ok, err,
}
use Prim.Native.Char.{Char, code}
use hide_server.Gateway.Public.{User}
use hide_server.Gateway.Public.Names.{excluded, has_char, is_space, units_of, validate_username}
use hide_server.Gateway.Public.Guards.{profile_in, given}

pub record Directory : Type 0 where
  pub users : Map String User
  pub profiles : Map String User

-- user/src/common/dto.ts
pub record CreateUser : Type 0 where
  pub name : String
  pub username : String
  pub picture : Option String

-- `Partial<User>`
pub record Changes : Type 0 where
  pub uid : Option String
  pub name : Option String
  pub username : Option String
  pub email : Option String
  pub picture : Option String
  pub expire_at : Option String

-- What Firebase knows of a user: the number of providers. None is an exception.
pub record Accounts : Type 0 where
  pub providers : String → Option ℕ

-- a character that `.` of a regular expression does not match
unfoldable pub is_line_end : ℕ → Bool
is_line_end n = member n (10 ∷ 13 ∷ 8232 ∷ 8233 ∷ [])

unfoldable pub none_excluded : String → Bool
none_excluded String.[] = true
none_excluded (String.◌∷◌ c s) = not (has_char c excluded) && none_excluded s

-- `nameRegex.test`
unfoldable pub is_name : String → Bool
is_name String.[] = false
is_name (String.◌∷◌ c s) =
    not (is_line_end (code c)) && leb 4 (units_of (String.◌∷◌ c s)) && none_excluded s

abbrev pub is_char : ℕ → Char → Bool
is_char n c = ite (ℕ_discrete (code c) n) true false

unfoldable pub dot_inside : String → Bool
dot_inside String.[] = false
dot_inside (String.◌∷◌ c s) = is_char 46 c && not (str_empty s) || dot_inside s

-- what stands behind the `@`: a dot with something on either side
unfoldable pub is_domain : String → Bool
is_domain String.[] = false
is_domain (String.◌∷◌ c s) = dot_inside s

unfoldable pub is_plain_text : String → Bool
is_plain_text String.[] = true
is_plain_text (String.◌∷◌ c s) = not (is_space (code c) || is_char 64 c) && is_plain_text s

unfoldable pub email_from : Bool → String → Bool
email_from started String.[] = false
email_from started (String.◌∷◌ c s) =
    let rest = email_from true s in
    if is_char 64 c
    then started && is_plain_text s && is_domain s
    else not (is_space (code c)) && rest

-- `emailRegex.test`
unfoldable pub is_email : String → Bool
is_email = email_from false

unfoldable pub validate_create_user : CreateUser → Option String
validate_create_user d =
    if str_empty d.name || str_empty d.username
    then some "USER_DETAILS_MISSING"
    else if not (is_name d.name)
    then some "INVALID_USER_NAME"
    else if not (validate_username d.username)
    then some "INVALID_USER_USERNAME"
    else none

-- a field that is given and does not pass the test
abbrev pub fails : (String → Bool) → Option String → Bool
fails test field = elim (given field) [ none ↦ false | some t ↦ not (test t) ]

unfoldable pub is_given : Option String → Bool
is_given field = elim (given field) [ none ↦ false | some _ ↦ true ]

unfoldable pub is_self : String → Option String → Bool
is_self uid none = false
is_self uid (some other) = ite (str_dec other uid) true false

unfoldable pub validate_update_user : String → Changes → Option String
validate_update_user uid c =
    if fails is_name c.name
    then some "INVALID_USER_NAME"
    else if fails validate_username c.username
    then some "INVALID_USER_USERNAME"
    else if fails is_email c.email
    then some "INVALID_EMAIL"
    else if not (is_self uid c.uid)
    then some "INVALID_USER_IDENTITY"
    else if is_given c.expire_at
    then some "UPDATE_USER_FORBIDDEN"
    else none

abbrev pub bad_request : String → Failure
bad_request m = record { status = 400; message = m }

abbrev pub user_not_found : Failure
user_not_found = record { status = 404; message = "USER_NOT_FOUND" }

abbrev pub account_error : Failure
account_error = record { status = 0; message = "FirebaseAuthError" }

abbrev pub text_or : Option String → String → String
text_or none t = t
text_or (some s) t = s

-- the document of a new user; a guest's ends at the given time
unfoldable pub new_user : User → CreateUser → ℕ → String → User
new_user u d providers ends = record u {
  name = d.name;
  username = d.username;
  picture = text_or d.picture "";
  expire_at = if leb 1 providers then u.expire_at else some ends;
}

unfoldable pub register : User → User → Directory → Directory
register u doc s = record {
  users = insert doc.username doc s.users;
  profiles = insert u.uid u s.profiles;
}

unfoldable pub create_user : Accounts → String → User → CreateUser → Action Directory Void
create_user accounts ends u d s = elim (validate_create_user d) [
  | some e ↦ (err (bad_request e), s)
  | none ↦ elim (profile_in u.uid (values s.users)) [
    | some _ ↦ (err (bad_request "USER_ALREADY_REGISTERED"), s)
    | none ↦ elim (accounts.providers u.uid) [
      | none ↦ (err account_error, s)
      | some n ↦ (ok tt, register u (new_user u d n ends) s)
    ]
  ]
]

unfoldable pub delete_user : User → Action Directory Void
delete_user u s = elim (profile_in u.uid (values s.users)) [
  | none ↦ (err user_not_found, s)
  | some d ↦ (ok tt, record s { users = erase d.username s.users })
]

-- `{ ...oldUser, ...updatedUser }`
unfoldable pub with_changes : Changes → User → User
with_changes c d = record d {
  name = text_or (given c.name) d.name;
  username = text_or (given c.username) d.username;
  email = text_or (given c.email) d.email;
  picture = text_or (given c.picture) d.picture;
}

unfoldable pub is_obj_empty : Changes → Bool
is_obj_empty c =
    not (is_given c.name || is_given c.username || is_given c.email || is_given c.picture)

-- `update`, of a document that must be there
unfoldable pub update_doc : String → Changes → Action Directory Void
update_doc name c s = elim (lookup name s.users) [
  | none ↦ (err account_error, s)
  | some d ↦ (ok tt, record s { users = insert name (with_changes c d) s.users })
]

-- a new name is a new document, beside the old one
unfoldable pub change_doc : Changes → User → Action Directory Void
change_doc c old s =
    let name = text_or (given c.username) old.username in
    ite (str_dec name old.username) (update_doc old.username c s)
      (ok tt, record s { users = insert name (with_changes c old) s.users })

unfoldable pub update_user : String → Changes → Action Directory Void
update_user uid c s = elim (validate_update_user uid c) [
  | some e ↦ (err (bad_request e), s)
  | none ↦ if is_obj_empty c then (ok tt, s) else elim (profile_in uid (values s.users)) [
    | none ↦ (err user_not_found, s)
    | some old ↦ change_doc c old s
  ]
]
