-- ===== src/Gateway/Public/Tests.antt =====
-- The theorems of the public routes at one user, with a filter that never errs.
use hide_server.Base.{
  str_dec, str_empty, str_key, nat_key, lookup, insert, String, ◌≡◌, refl, ◌≢◌, ite, Bool, true,
  false, none, some, List, [], ◌∷◌, arith, ok,
}
use hide_server.Cache.{CachedSession, Timer, timer_key, active}
use hide_server.Gateway.Public.{User, FilterCall, Front, Web, Reply, added, removed, reserved}
use hide_server.Gateway.Public.Accounts.{handle_webhook, user_deleted}
use hide_server.Gateway.Public.Removal.{Forgets, Spares, handle_webhook-Forgets}
use hide_server.Gateway.Public.Guards.{
  Request, Passage, auth_guard, words, starts_with, bearer, profile_in, find_profile, check_profile,
  authenticate, failing_as,
}
use hide_server.Gateway.Public.Entry.{IsVouched, IsKnown, auth_guard-IsVouched}

unfoldable holds : List FilterCall → String → Bool
holds [] v = false
holds (added u ∷ h) v = ite (str_dec u v) true (holds h v)
holds (removed u ∷ h) v = holds h v
holds (reserved n ∷ h) v = holds h v

abbrev alice : User
alice = record {
  uid = "u1";
  name = "Alice";
  username = "alice";
  email = "alice@example.org";
  picture = "";
  issuer = "password";
  expire_at = none;
}

abbrev vouch : Reply
vouch = record {
  status = 200;
  body = some (record { message = none; token = none; user = some alice });
}

abbrev web : Web
web = record {
  contains = holds;
  is_there = λ h. false;
  accepts = λ h c. true;
  lower = λ s. s;
  answers = true;
  register_email = λ e. none;
  verify_email = λ e c. none;
  validate = λ t. some vouch;
  access_fulfill = λ a t. none;
  deletes_owned = λ uid. false;
  read_templates = λ path. none;
  verify = λ t k. none;
}

abbrev session_1 : CachedSession
session_1 = record { state = active; socket_id = "k1"; gateway_id = "g1"; ws_uuid = none }

abbrev front : Front
front = record {
  world = record {
    cache = record {
      presences = ("u1", ("s1", session_1) ∷ []) ∷ [];
      workspaces = [];
      memberships = ("u1", ("w1", true) ∷ []) ∷ [];
      timers = (Timer.session "u1" "s1", record { value = 1; ttl = 20000 }) ∷ [];
    };
    locks = [];
    sent = [];
  };
  users = ("alice", alice) ∷ [];
  profiles = [];
  names = [];
  templates = none;
}

apart : (s t : String) → ite (str_dec s t) true false ≡ false → s ≢ t
apart s t e = elim (str_dec s t) [ yes h ↦ ground arith | no n ↦ n ]

u1_u2 : ◌≢◌ {A = String} "u1" "u2"
unfolding str_dec
u1_u2 = apart "u1" "u2" refl

handle_webhook-Forgets_example :
    Forgets "u1" ("s1" ∷ []) (handle_webhook web (user_deleted alice) front).1
    × Spares "u2" front (handle_webhook web (user_deleted alice) front).1
unfolding lookup str_dec
handle_webhook-Forgets_example =
    handle_webhook-Forgets web front alice (("s1", session_1) ∷ []) "u2" refl refl u1_u2

abbrev profile_request : Request
profile_request = record {
  path = "/api/user/profile";
  authorization = some "Bearer abc";
  query_token = none;
}

abbrev passage : Passage
passage = record { passes = true; user = alice }

abbrev front' : Front
front' = record front { profiles = ("u1", alice) ∷ [] }

let_in : auth_guard web profile_request front ≡ (ok passage, front')
unfolding auth_guard authenticate check_profile find_profile profile_in failing_as bearer words
    starts_with lookup insert str_dec str_empty
let_in = refl

auth_guard-IsVouched_example :
    IsVouched web profile_request alice × IsKnown profile_request alice front'
auth_guard-IsVouched_example =
    auth_guard-IsVouched web profile_request front front' passage let_in refl
