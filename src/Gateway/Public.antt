-- ===== src/Gateway/Public.antt =====
-- gateway/src/public and gateway/src/common/guard: what the gateway answers without a session, and
-- whom it lets in. The filter of user names is a module of Redis, and its state is the history of
-- the calls that it has taken.
pub mod Names
pub mod Accounts
pub mod Guards
pub mod Seeding
pub mod Removal
pub mod Entry
mod Tests
use hide_server.Base.{
  member, add_new, to_set, length, All, In, In-append_left, In-append_right, for_each, str_dec,
  str_empty, Key, str_key, nat_key, lookup, insert, erase, Map, keys, values, has, lookup-insert,
  lookup-erase, lookup-insert_self, lookup-erase_self, ℕ, zero, suc, ◌+◌, ◌-◌, ◌*◌, ◌/◌, ◌%◌, ◌≤◌,
  ◌<◌, String, ◌≡◌, refl, sym, ap, subst, ◌∙◌, ◌≢◌, ◌↔◌, ◌⊎◌, inl, inr, ite, Bool, true, false, not,
  ◌&&◌, ◌||◌, Option, none, some, List, [], ◌∷◌, ◌++◌, map, flatten, arith, dec_lt, dec_le,
  ℕ_discrete, Failure, Result, Action, Void, pure, throw, gets, or_throw, ◌>>=◌, ◌>>◌, throw_if,
  modify, bind_ok, bind_err, then_keeps, ltb, leb, if◌then◌else◌, Bool-cases, Option-cases, ok, err,
}
use hide_server.Platform.{World}

-- libs/common/model/user.ts
pub record User : Type 0 where
  pub uid : String
  pub name : String
  pub username : String
  pub email : String
  pub picture : String
  pub issuer : String
  pub expire_at : Option String

-- `CF.RESERVE`, `CF.ADD` and `CF.DEL` on the filter
pub data FilterCall : Type 0 where
  reserved : ℕ → FilterCall
  added removed : String → FilterCall

pub record Template : Type 0 where
  pub image : String
  pub name : String

pub record CachedTemplates : Type 0 where
  pub value : List Template
  pub ttl : ℕ

-- The platform, the documents of the collection `users`, the cached profiles by user, the filter
-- `usernames`, and the cached templates.
pub record Front : Type 0 where
  pub world : World
  pub users : Map String User
  pub profiles : Map String User
  pub names : List FilterCall
  pub templates : Option CachedTemplates

-- The response to a request, and its body if that is an object.
pub record Body : Type 0 where
  pub message : Option String
  pub token : Option String
  pub user : Option User

pub record Reply : Type 0 where
  pub status : ℕ
  pub body : Option Body

pub data FulfillAction : Type 0 where
  approve reject : FulfillAction

pub record ServicePayload : Type 0 where
  pub aud : String
  pub iss : String

-- What a token is verified with: `WORKSPACE_SERVICE_SECRET`, `JWT_PUBLIC_KEY`, or the latter
-- decoded, for RS256 alone.
pub data VerifyKey : Type 0 where
  workspace_secret public_key decoded_key : VerifyKey

-- What is not the gateway's own. None stands for an exception.
pub record Web : Type 0 where
  -- what `CF.EXISTS` answers after the calls, whether Redis has the key, and whether a call is taken
  pub contains : List FilterCall → String → Bool
  pub is_there : List FilterCall → Bool
  pub accepts : List FilterCall → FilterCall → Bool
  -- `toLowerCase`, by the tables of Unicode
  pub lower : String → String
  -- whether Firestore answers
  pub answers : Bool
  -- the auth service: an email, an email and a code, a token
  pub register_email : String → Option Reply
  pub verify_email : String → String → Option Reply
  pub validate : String → Option Reply
  -- the workspace service
  pub access_fulfill : FulfillAction → String → Option Reply
  pub deletes_owned : String → Bool
  -- the templates in a file, under the working directory
  pub read_templates : List String → Option (List Template)
  -- jsonwebtoken
  pub verify : String → VerifyKey → Option ServicePayload

abbrev pub Visit : Type 0 → Type 0
Visit = Action Front

abbrev pub unauthorized : String → Failure
unauthorized m = record { status = 401; message = m }

abbrev pub no_answer : Failure
no_answer = record { status = 0; message = "FirebaseError" }

-- `cache.get` and `cache.set` of a profile
abbrev pub get_profile : String → Front → Option User
get_profile uid s = lookup uid s.profiles

abbrev pub set_profile : String → User → Front → Front
set_profile uid u s = record s { profiles = insert uid u s.profiles }
