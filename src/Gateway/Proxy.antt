-- ===== src/Gateway/Proxy.antt =====
-- gateway/src/proxy: which requests of the public interface are passed on, and how.
pub mod Sound
use hide_server.Base.{
  str_key, nat_key, lookup, Map, String, Bool, Option, none, some, List, [], ◌∷◌, if◌then◌else◌,
}

pub data Protocol : Type 0 where
  http redis nats : Protocol

pub record Translation : Type 0 where
  pub source : Protocol
  pub target : Protocol
  pub pattern : Option String
  pub action : Option String

-- by path, and by the method of the request
abbrev pub Paths : Type 0
Paths = Map String (Map String Translation)

pub record Rule : Type 0 where
  pub service : String
  pub paths : Paths

abbrev pub plain : Translation
plain = record { source = Protocol.http; target = Protocol.http; pattern = none; action = none }

abbrev pub file_message : String → Translation
file_message pattern = record {
  source = Protocol.http;
  target = Protocol.redis;
  pattern = some pattern;
  action = none;
}

abbrev pub env_message : String → Translation
env_message action = record {
  source = Protocol.http;
  target = Protocol.nats;
  pattern = some "env.msg";
  action = some action;
}

abbrev pub on : String → Translation → Map String Translation
on method t = (method, t) ∷ []

abbrev pub user_rule : Rule
user_rule = record {
  service = "user";
  paths =
      ("register", on "POST" plain)
      ∷ ("update", on "PATCH" plain)
      ∷ ("search", on "GET" plain)
      ∷ ("delete", on "DELETE" plain)
      ∷ ("*", on "GET" plain)
      ∷ [];
}

abbrev pub notification_rule : Rule
notification_rule = record {
  service = "notification";
  paths = ("all", on "GET" plain) ∷ ("read", on "POST" plain) ∷ ("readall", on "POST" plain) ∷ [];
}

abbrev pub files_rule : Rule
files_rule = record {
  service = "workspace-*";
  paths =
      ("dir/open", on "GET" (file_message "fs:open"))
      ∷ ("dir/close", on "POST" (file_message "fs:close"))
      ∷ ("file/open", on "POST" (file_message "fs:open"))
      ∷ ("file/close", on "POST" (file_message "fs:close"))
      ∷ ("file/save", on "POST" (file_message "fs:save"))
      ∷ [];
}

abbrev pub workspace_rule : Rule
workspace_rule = record {
  service = "workspace";
  paths =
      ("all", on "GET" plain)
      ∷ ("update", on "PATCH" plain)
      ∷ ("ignore", on "POST" plain)
      ∷ ("accept", on "POST" plain)
      ∷ ("access-request", on "POST" plain)
      ∷ ("access-delete", on "DELETE" plain)
      ∷ ("*", on "DELETE" plain)
      ∷ [];
}

abbrev pub provisioner_rule : Rule
provisioner_rule = record { service = "provisioner"; paths = ("provision", on "POST" plain) ∷ [] }

abbrev pub env_rule : Rule
env_rule = record {
  service = "env";
  paths =
      ("open", on "POST" (env_message "open")) ∷ ("close", on "POST" (env_message "close")) ∷ [];
}

abbrev pub rules : List Rule
rules =
    user_rule ∷ notification_rule ∷ files_rule ∷ workspace_rule ∷ provisioner_rule ∷ env_rule ∷ []

-- the first rule whose service the name matches; the matching is that of `minimatch`
unfoldable pub match_rule : (String → String → Bool) → String → List Rule → Option Rule
match_rule minimatch service [] = none
match_rule minimatch service (rule ∷ rest) =
    let later = match_rule minimatch service rest in
    if minimatch service rule.service then some rule else later

abbrev pub by_method : String → Option (Map String Translation) → Option Translation
by_method method none = none
by_method method (some m) = lookup method m

-- the path's own translation, or else that of any path
unfoldable pub translate : Rule → String → String → Option Translation
translate rule path method = elim (by_method method (lookup path rule.paths)) [
  | some t ↦ some t
  | none ↦ by_method method (lookup "*" rule.paths)
]

unfoldable pub translation_of :
    (String → String → Bool) → String → String → String → Option Translation
translation_of minimatch service path method = elim (match_rule minimatch service rules) [
  | none ↦ none
  | some rule ↦ translate rule path method
]

-- the request is passed on as it is, or becomes a message; none is a 404
pub data Passing : Type 0 where
  send_request : String → String → Passing
  send_message : Translation → Passing

unfoldable pub proxy_request : (String → String → Bool) → String → String → String → Option Passing
proxy_request minimatch service path method = elim (translation_of minimatch service path method) [
  | none ↦ none
  | some t ↦ elim t.target [
    | Protocol.http ↦ some (Passing.send_request service path)
    | _ ↦ some (Passing.send_message t)
  ]
]
