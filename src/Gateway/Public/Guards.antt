-- ===== src/Gateway/Public/Guards.antt =====
-- gateway/src/common/guard: who is let in, by a user's token or by a service's.
use hide_server.Base.{
  member, str_dec, str_empty, str_key, nat_key, values, String, ite, Bool, true, false, not, ◌&&◌,
  Option, none, some, List, [], ◌∷◌, ℕ_discrete, Failure, pure, throw, or_throw, ◌>>=◌, ◌>>◌,
  throw_if, if◌then◌else◌, ok, err,
}
use Prim.Native.Char.{Char, code}
use hide_server.Gateway.Public.{
  User, Web, Visit, ServicePayload, VerifyKey, get_profile, set_profile, unauthorized, no_answer,
}
use hide_server.Gateway.Public.Accounts.{is_ok, no_object}

abbrev extend : Char → List String → List String
extend c [] = []
extend c (part ∷ parts) = String.◌∷◌ c part ∷ parts

-- `split(' ')`
unfoldable pub words : String → List String
words String.[] = "" ∷ []
words (String.◌∷◌ c s) =
    let parts = words s in ite (ℕ_discrete (code c) b' ') ("" ∷ parts) (extend c parts)

-- `startsWith`
unfoldable pub starts_with : String → String → Bool
starts_with String.[] s = true
starts_with (String.◌∷◌ c p) String.[] = false
starts_with (String.◌∷◌ c p) (String.◌∷◌ d s) =
    ite (ℕ_discrete (code c) (code d)) (starts_with p s) false

-- `[1]`
abbrev pub second : List String → Option String
second [] = none
second (x ∷ []) = none
second (x ∷ y ∷ xs) = some y

-- a text that is there and not empty
abbrev pub given : Option String → Option String
given none = none
given (some t) = if str_empty t then none else some t

unfoldable pub bearer : String → String
bearer token =
    if starts_with "Bearer " token
    then elim (second (words token)) [ none ↦ "undefined" | some t ↦ t ]
    else token

-- `request.path` and `request.headers.authorization`
pub record Request : Type 0 where
  pub path : String
  pub authorization : Option String
  pub query_token : Option String

-- what a guard answers, and the user that it leaves in the request
pub record Passage : Type 0 where
  pub passes : Bool
  pub user : User

unfoldable pub profile_in : String → List User → Option User
profile_in uid [] = none
profile_in uid (u ∷ us) = ite (str_dec u.uid uid) (some u) (profile_in uid us)

-- the cached profile, or else that of the database, which is cached
unfoldable pub find_profile : Web → User → Visit Passage
find_profile web u s = elim (get_profile u.uid s) [
  | some _ ↦ (ok (record { passes = true; user = u }), s)
  | none ↦
      if not web.answers then (err no_answer, s) else elim (profile_in u.uid (values s.users)) [
        | none ↦ (ok (record { passes = false; user = u }), s)
        | some p ↦ (ok (record { passes = true; user = u }), set_profile u.uid p s)
      ]
]

abbrev pub register_path : String
register_path = "/api/user/register"

unfoldable pub check_profile : Web → Request → User → Visit Passage
check_profile web req u =
    ite (str_dec req.path register_path) (pure (record { passes = true; user = u }))
      (find_profile web u)

abbrev pub fetch_failed : Failure
fetch_failed = record { status = 0; message = "fetch failed" }

-- the body of `try`
unfoldable pub authenticate : Web → Request → String → Visit Passage
authenticate web req token = do
  r ← or_throw (web.validate (bearer token)) fetch_failed
  throw_if (not (is_ok r)) (unauthorized "Invalid token")
  b ← or_throw r.body no_object
  u ← or_throw b.user no_object
  check_profile web req u

-- every exception becomes the same answer
unfoldable pub failing_as : {A : Type 0} → Failure → Visit A → Visit A
failing_as e m s = elim (m s).0 [ ok a ↦ (ok a, (m s).1) | err _ ↦ (err e, (m s).1) ]

unfoldable pub auth_guard : Web → Request → Visit Passage
auth_guard web req = elim (given req.authorization) [
  | none ↦ throw (unauthorized "Authorization header missing")
  | some token ↦ failing_as (unauthorized "Authentication failed") (authenticate web req token)
]

-- `publicGuardType`, of the metadata that a route carries
pub data GuardType : Type 0 where
  workspace_guard common_guard : GuardType

unfoldable pub token_for : GuardType → Request → Option String
token_for workspace_guard req = given req.query_token
token_for common_guard req = elim req.authorization [
  | none ↦ none
  | some header ↦ given (second (words header))
]

unfoldable pub verify_workspace_token : Web → String → Option ServicePayload
verify_workspace_token web token = web.verify token VerifyKey.workspace_secret

unfoldable pub verify_common_token : Web → Bool → String → Option ServicePayload
verify_common_token web development token =
    web.verify token (if development then VerifyKey.public_key else VerifyKey.decoded_key)

unfoldable pub payload_of : Web → Bool → GuardType → String → Option ServicePayload
payload_of web development workspace_guard token = verify_workspace_token web token
payload_of web development common_guard token = verify_common_token web development token

abbrev pub allowed_iss : List String
allowed_iss = "firebase-service" ∷ "workspace-api" ∷ []

abbrev pub allowed_aud : List String
allowed_aud = "gateway-api" ∷ "client" ∷ []

unfoldable pub is_allowed : ServicePayload → Bool
is_allowed p = member p.aud allowed_aud && member p.iss allowed_iss

-- a route without metadata is an error before its token is looked at
unfoldable pub public_guard : Web → Bool → Option GuardType → Request → Visit Bool
public_guard web development none req = throw (record { status = 0; message = "TypeError" })
public_guard web development (some kind) req = elim (token_for kind req) [
  | none ↦ throw (unauthorized "Authorization header or token param is missing")
  | some token ↦ elim (payload_of web development kind token) [
    | none ↦ throw (unauthorized "Unauthorized access")
    | some p ↦ pure (is_allowed p)
  ]
]
