-- ===== src/Gateway/Tests.antt =====
-- The gateway's theorems at one gateway, two users and a workspace.
use hide_server.Base.{
  member, In, str_dec, str_empty, str_key, nat_key, lookup, insert, erase, String, ◌≡◌, refl, ◌≢◌,
  inl, inr, ite, Bool, true, false, Option, none, some, [], ◌∷◌, arith, ok, err,
}
use hide_server.Gateway.Proxy.{
  Translation, Passing, proxy_request, translation_of, match_rule, translate, env_message,
}
use hide_server.Gateway.Proxy.Sound.{IsRight, proxy_request-IsRight}
use hide_server.Gateway.Socket.Delivery.{
  broadcast_missing, no_answer, handle_env_message-handle_members_modified,
}
use hide_server.Gateway.Socket.{broadcast, handle_env_message}
use hide_server.Gateway.Membership.{
  invalidate_removed_members, update_added_members, read_all, invalidate, confirm,
}
use hide_server.Gateway.Presence.{type_error}
use hide_server.Platform.{EnvMessage, EnvAction, SocketMessage}
use hide_server.Gateway.{Config, Services}
use hide_server.Platform.{World, Event, get_timer, get_workspace}
use hide_server.Cache.{CachedSession, CachedWorkspace, Timer, active, inactive, Liveness}
use hide_server.Gateway.Membership.{check_membership, handle_members_modified}
use hide_server.Gateway.Membership.Laws.{check_membership-handle_members_modified}
use hide_server.Gateway.Presence.{
  with_state, handle_stale_session, handle_workspace_expiry, dispose_failed,
}
use hide_server.Gateway.Presence.Frame.{session_of}
use hide_server.Gateway.Presence.Sessions.{
  started, handle_stale_session_open, handle_stale_session_stuck,
}
use hide_server.Gateway.Presence.Telling.{Opens, handle_workspace_expiry-watchers}
use hide_server.Gateway.Presence.Workspaces.{IsTold}
use hide_server.Gateway.Socket.{Handshake, handle_connection, handle_disconnect, lock_failed}
use hide_server.Gateway.Socket.Connections.{connected, handle_connection_opens}
use hide_server.Gateway.Socket.Disconnections.{handle_disconnect_rests, handle_disconnect_blocks}

apart : (s t : String) → ite (str_dec s t) true false ≡ false → s ≢ t
apart s t e = elim (str_dec s t) [ yes h ↦ ground arith | no ne ↦ ne ]

not_only : (s t : String) → ite (str_dec t s) true false ≡ false → ¬ In s (t ∷ [])
not_only s t e (inl h) = apart t s e h
not_only s t e (inr h) = h

abbrev cfg : Config
cfg = record {
  instance_id = "gateway";
  ws_ping_timeout = 20000;
  ws_activity_timeout = 300000;
  session_ping_timeout = 20000;
  session_activity_timeout = 360000;
}

abbrev net : Services
net = record {
  membership_check = λ uid uuid. some true;
  dispose_answered = λ uuid. true;
  authenticate = λ token. some "ann";
  is_healthy = λ instance. true;
}

abbrev silent : Services
silent = record net { dispose_answered = λ uuid. false }

abbrev showing : Option String → Liveness → CachedSession
showing ws st = record { state = st; socket_id = "k1"; gateway_id = "gateway"; ws_uuid = ws }

abbrev home : CachedWorkspace
home = record {
  state = active;
  fs = "env";
  dirs = ("/workspace/", "ann" ∷ []) ∷ [];
  docs = [];
  sshs = [];
}

-- a cache with one session of one user, two memberships and one workspace
abbrev world : CachedSession → World
world s = record {
  cache = record {
    presences = ("ann", ("s1", s) ∷ []) ∷ [];
    workspaces = ("w1", home) ∷ [];
    memberships = ("ann", ("w1", true) ∷ ("w2", true) ∷ []) ∷ ("bob", ("w1", false) ∷ []) ∷ [];
    timers = (Timer.session "ann" "s1", record { value = 1; ttl = 20000 }) ∷ [];
  };
  locks = [];
  sent = [];
}

abbrev opened : CachedSession
opened = showing (some "w1") active

abbrev idle : CachedSession
idle = showing none inactive

abbrev left : CachedSession
left = showing (some "w1") inactive

abbrev hello : Handshake
hello = record { socket_id = "k2"; token = some "token"; session_id = "s1" }

abbrev nothing : World
nothing = record {
  cache = record { presences = []; workspaces = []; memberships = []; timers = [] };
  locks = [];
  sent = [];
}

-- memberships
abbrev changed : World
changed = handle_members_modified "w1" ("bob" ∷ []) ("ann" ∷ []) (world opened)

check_membership-handle_members_modified_example :
    (check_membership net "ann" "w1" changed).0 ≡ ok true
check_membership-handle_members_modified_example =
    check_membership-handle_members_modified "w1" ("bob" ∷ []) ("ann" ∷ []) (world opened) "ann" net
      (inl refl)

ann_bob : ◌≢◌ {A = String} "ann" "bob"
unfolding str_dec
ann_bob = apart "ann" "bob" refl

handle_stale_session_open_example :
    let (r, w') = handle_stale_session cfg net "ann" "s1" (world left) in
    (r ≡ ok tt)
    × (session_of w' "ann" "s1" ≡ none)
    × (get_workspace w' "w1" ≡ none)
    × In (Event.close_socket "gateway" "k1") w'.sent
    × (session_of w' "bob" "s1" ≡ session_of (world left) "bob" "s1")
unfolding lookup str_dec str_empty
handle_stale_session_open_example =
    handle_stale_session_open cfg net "ann" "s1" (world left) (("s1", left) ∷ []) left refl refl
      "w1" refl refl "bob" "s1" refl (inl ann_bob)

handle_stale_session_stuck_example :
    let (r, w') = handle_stale_session cfg silent "ann" "s1" (world left) in
    (r ≡ err dispose_failed)
    × (session_of w' "ann" "s1" ≡ some left)
    × (get_workspace w' "w1" ≡ none)
    × (get_timer w' (Timer.session "ann" "s1") ≡ get_timer (world left) (Timer.session "ann" "s1"))
unfolding lookup str_dec str_empty
handle_stale_session_stuck_example =
    handle_stale_session_stuck cfg silent "ann" "s1" (world left) (("s1", left) ∷ []) left refl refl
      "w1" refl refl refl

handle_workspace_expiry-watchers_example :
    (sid' : String) × (s' : CachedSession) × Opens "w1" (("s1", opened) ∷ []) sid' s'
    × IsTold net "w1" (world opened) "ann" sid' (handle_workspace_expiry net "w1" (world opened)).1
unfolding lookup str_dec str_empty
handle_workspace_expiry-watchers_example =
    handle_workspace_expiry-watchers net "w1" (world opened) home "/workspace/" "ann" "s1"
      ("ann" ∷ []) (("s1", opened) ∷ []) opened refl refl (inl refl) refl (refl, tt)
      (inl refl, refl)

-- connections
handle_connection_opens_example :
    let (r, w') = handle_connection cfg net true hello (world opened) in
    (r ≡ ok (some ("ann", "s1")))
    × (session_of w' "ann" "s1" ≡ some (connected cfg "ann" "s1" "k2" (world opened)))
    × (get_timer w' (Timer.session "ann" "s1") ≡ some (started cfg active))
    × (w'.locks ≡ [])
unfolding str_empty str_dec member
handle_connection_opens_example =
    handle_connection_opens cfg net hello (world opened) "ann" "token" refl refl refl

handle_disconnect_rests_example :
    let (r, w') = handle_disconnect cfg (some ("ann", "s1")) (world opened) in
    (r ≡ ok tt)
    × (session_of w' "ann" "s1" ≡ some (with_state inactive opened))
    × (get_timer w' (Timer.session "ann" "s1") ≡ some (started cfg inactive))
    × (w'.locks ≡ [])
unfolding lookup str_dec member
handle_disconnect_rests_example =
    handle_disconnect_rests cfg "ann" "s1" (world opened) opened refl refl

handle_disconnect_blocks_example :
    let (r, w') = handle_disconnect cfg (some ("ann", "s1")) nothing in
    (r ≡ ok tt) × (handle_connection cfg net true hello w' ≡ (err lock_failed, w'))
unfolding lookup str_dec str_empty member
handle_disconnect_blocks_example =
    handle_disconnect_blocks cfg cfg net hello nothing "ann" "token" refl refl refl refl

-- any order of events

-- a client connects and leaves
abbrev greeted : World
greeted = (handle_connection cfg net true hello nothing).1

abbrev gone : World
gone = (handle_disconnect cfg (some ("ann", "s1")) greeted).1

-- the proxy, with names matched whole
abbrev exactly : String → String → Bool
exactly s t = ite (str_dec s t) true false

proxy_request-IsRight_example :
    (t : Translation) × (translation_of exactly "env" "open" "POST" ≡ some t)
    × IsRight t "env" "open" (Passing.send_message (env_message "open"))
unfolding proxy_request translation_of match_rule translate lookup str_dec
proxy_request-IsRight_example =
    proxy_request-IsRight exactly "env" "open" "POST" (Passing.send_message (env_message "open"))
      refl

-- a broadcast to a session that is gone, and a message of a removed user
broadcast_missing_example :
    broadcast ("ann" ∷ "bob" ∷ []) ("s2" ∷ "s1" ∷ []) (SocketMessage.awareness []) (world opened)
    ≡ (err type_error, world opened)
unfolding lookup str_dec
broadcast_missing_example =
    broadcast_missing (world opened) "ann" "s2" (("ann", "s2") ∷ ("bob", "s1") ∷ [])
      (("s1", opened) ∷ []) (SocketMessage.awareness []) (inl refl) refl refl

abbrev strict : Services
strict = record net { membership_check = λ uid uuid. none }

abbrev run : EnvMessage
run = record { uuid = "w1"; action = EnvAction.ws_run; correlation = none }

handle_env_message-handle_members_modified_example :
    handle_env_message strict "k1" "ann" "s1" run changed ≡ (err no_answer, changed)
unfolding handle_members_modified invalidate_removed_members update_added_members read_all
    invalidate confirm lookup insert erase str_dec
handle_env_message-handle_members_modified_example =
    handle_env_message-handle_members_modified strict ("bob" ∷ []) ("ann" ∷ []) (world opened) "ann"
      run home "k1" "s1" (inl refl) refl refl
