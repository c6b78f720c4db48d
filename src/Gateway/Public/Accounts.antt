-- ===== src/Gateway/Public/Accounts.antt =====
-- gateway/src/public/public.service.ts and public.controller.ts: mails, templates, requests for
-- access, and what the gateway does when a user registers or is deleted.
use hide_server.Base.{
  for_each, str_key, nat_key, erase, keys, String, Bool, true, false, ◌&&◌, Option, none, some,
  List, [], ◌∷◌, Failure, Void, pure, throw, or_throw, ◌>>=◌, ◌>>◌, modify, leb, if◌then◌else◌, ok,
  err,
}
use hide_server.Cache.{Timer, timer_key}
use hide_server.Platform.{World, Event, send, get_presence, del_presence, del_timer}
use hide_server.Gateway.Public.{
  User, Front, Web, Visit, Reply, Template, FulfillAction, get_profile, set_profile,
}
use hide_server.Gateway.Public.Names.{add_username, remove_username}

-- `status >= 200 && status <= 299`, `res.ok`
abbrev pub is_ok : Reply → Bool
is_ok r = leb 200 r.status && leb r.status 299

abbrev pub internal : Failure
internal = record { status = 500; message = "UNKNOWN" }

abbrev pub no_object : Failure
no_object = record { status = 0; message = "TypeError" }

-- the message of a reply's body, or `UNKNOWN`
abbrev pub or_unknown : Option String → String
or_unknown none = "UNKNOWN"
or_unknown (some m) = m

-- a reply that is no success is thrown on, with its status
unfoldable pub refused_with : Reply → Visit Void
refused_with r = or_throw r.body no_object >>= λ b.
    throw (record { status = r.status; message = or_unknown b.message })

unfoldable pub expect_ok : Reply → Visit Void
expect_ok r = if is_ok r then pure tt else refused_with r

unfoldable pub register_email : Web → String → Visit Void
register_email web email = or_throw (web.register_email email) internal >>= expect_ok

-- the body of the answer, with its token
unfoldable pub verify_email : Web → String → String → Visit (Option String)
verify_email web email code = do
  r ← or_throw (web.verify_email email code) internal
  expect_ok r
  b ← or_throw r.body no_object
  pure b.token

unfoldable pub templates_path : Bool → List String
templates_path development =
    if development
    then "static" ∷ "templates.json" ∷ []
    else "gateway" ∷ "dist" ∷ "static" ∷ "templates.json" ∷ []

abbrev pub file_error : Failure
file_error = record { status = 0; message = "ENOENT" }

unfoldable pub load_templates : Web → Bool → Visit (List Template)
load_templates web development = do
  templates ← or_throw (web.read_templates (templates_path development)) file_error
  modify (λ s. record s { templates = some (record { value = templates; ttl = 3600000 }) })
  pure templates

unfoldable pub get_templates : Web → Bool → Visit (List Template)
get_templates web development s = elim s.templates [
  | some cached ↦ (ok cached.value, s)
  | none ↦ load_templates web development s
]

-- `success` and `error`
abbrev pub Fulfilled : Type 0
Fulfilled = Bool × Option String

unfoldable pub fulfill_access_request : Web → FulfillAction → String → Visit Fulfilled
fulfill_access_request web action token = elim (web.access_fulfill action token) [
  | none ↦ pure (false, some "UNKNOWN")
  | some r ↦
      if is_ok r
      then pure (true, none)
      else or_throw r.body no_object >>= λ b. pure (false, b.message)
]

unfoldable pub refresh_profile_check_cache : User → Front → Front
refresh_profile_check_cache data_ s = elim (get_profile data_.uid s) [
  | some _ ↦ s
  | none ↦ set_profile data_.uid data_ s
]

-- the timers of the sessions
unfoldable pub remove_sessions : String → List String → World → World
remove_sessions uid = for_each (λ sid. del_timer (Timer.session uid sid))

unfoldable pub remove_presence : String → World → World
remove_presence uid w = elim (get_presence w uid) [
  | none ↦ w
  | some presence ↦ del_presence uid (remove_sessions uid (keys presence) w)
]

abbrev pub del_membership : String → World → World
del_membership uid w = record w { cache = record c { memberships = erase uid c.memberships } }
  where
    open w use {cache as c}

unfoldable pub remove_caches : String → Front → Front
remove_caches uid s = record s {
  world = remove_presence uid (del_membership uid s.world);
  profiles = erase uid s.profiles;
}

abbrev pub owned_error : Failure
owned_error = record { status = 0; message = "workspace.delete.owned" }

unfoldable pub delete_owned_workspaces : Web → String → Visit Void
delete_owned_workspaces web uid s = (
  if web.deletes_owned uid then ok tt else err owned_error,
  record s { world = send (Event.delete_owned uid) s.world },
)

-- `WebHookDTO`: of a type that is handled, or of another
pub data WebHook : Type 0 where
  user_registered user_deleted : User → WebHook
  other_hook : WebHook

unfoldable pub handle_webhook : Web → WebHook → Visit Void
handle_webhook web (user_registered u) = do
  add_username web u.username
  modify (refresh_profile_check_cache u)
handle_webhook web (user_deleted u) = do
  remove_username web u.username
  modify (remove_caches u.uid)
  delete_owned_workspaces web u.uid
handle_webhook web other_hook = pure tt
