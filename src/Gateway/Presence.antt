-- ===== src/Gateway/Presence.antt =====
-- gateway/src/socket/presence.service.ts: the life of a session and of a workspace by timers. A
-- handler runs with no other between its steps; what an earlier step wrote stays if a later throws.
pub mod Telling
pub mod Workspaces
pub mod Frame
pub mod Sessions
use hide_server.Base.{
  to_set, for_each, str_dec, str_empty, Key, str_key, nat_key, lookup, insert, erase, values,
  String, ite, Bool, true, false, not, Option, none, some, List, [], ◌∷◌, map, flatten, Failure,
  Void, pure, gets, or_throw, ◌>>=◌, ◌>>◌, throw_if, modify, if◌then◌else◌, ok,
}
use hide_server.Cache.{
  Liveness, active, inactive, CachedSession, CachedPresence, CachedWorkspace, Timer, timer_key,
}
use hide_server.Platform.{
  World, Handler, Event, SocketMessage, send, send_all, get_presence, get_workspace, set_presence,
  set_workspace, set_timer, del_presence, del_workspace, del_timer, find_session,
}
use hide_server.Gateway.{Config, Services}
use hide_server.Gateway.Membership.{check_membership}

-- A text that may be undefined, where the source tests it: an empty one counts as undefined.
abbrev pub defined : Option String → Option String
defined none = none
defined (some s) = if str_empty s then none else some s

-- Reading a field of an undefined value.
abbrev pub type_error : Failure
type_error = record { status = 0; message = "TypeError" }

abbrev pub with_state : Liveness → CachedSession → CachedSession
with_state st s = record s { state = st }

-- The timers that a state starts: a session or a workspace that stays active is pinged again
-- before its timer ends, and one that is inactive is given up at the end of it.
unfoldable pub session_timer : Config → String → String → Liveness → World → World
session_timer cfg uid sid inactive =
    set_timer (Timer.session uid sid) 0 cfg.session_activity_timeout
session_timer cfg uid sid active = set_timer (Timer.session uid sid) 1 cfg.session_ping_timeout

unfoldable pub workspace_timer : Config → String → String → String → Liveness → World → World
workspace_timer cfg uid sid uuid inactive =
    set_timer (Timer.workspace uid sid uuid) 0 cfg.ws_activity_timeout
workspace_timer cfg uid sid uuid active =
    set_timer (Timer.workspace uid sid uuid) 1 cfg.ws_ping_timeout

unfoldable pub set_session_state :
    Config → CachedPresence → String → String → Liveness → Handler Void
set_session_state cfg presence uid sid state = do
  s ← or_throw (lookup sid presence) type_error
  modify (set_presence uid (insert sid (with_state state s) presence))
  modify (session_timer cfg uid sid state)

unfoldable pub set_workspace_state :
    Config → Option CachedWorkspace → String → String → Option String → Liveness → World → World
set_workspace_state cfg none uid sid uuid state w = w
set_workspace_state cfg (some x) uid sid uuid state w = elim (defined uuid) [
  | none ↦ w
  | some ws ↦ workspace_timer cfg uid sid ws state (set_workspace ws (record x { state = state }) w)
]

-- the users that watch a directory of the workspace, and for each the session that has it open
unfoldable pub watchers : CachedWorkspace → List String
watchers x = to_set (flatten (values x.dirs))

-- `presence?.find(…)`, over a presence that may be missing
abbrev pub session_in : String → Option CachedPresence → Option String
session_in uuid none = none
session_in uuid (some p) = defined (find_session uuid p)

unfoldable pub open_sessions : World → String → List String → List (String × String)
open_sessions w uuid [] = []
open_sessions w uuid (uid ∷ uids) = elim (session_in uuid (get_presence w uid)) [
  | none ↦ open_sessions w uuid uids
  | some sid ↦ (uid, sid) ∷ open_sessions w uuid uids
]

abbrev pub forget_timer : String → String × String → World → World
forget_timer uuid (uid, sid) = del_timer (Timer.workspace uid sid uuid)

abbrev pub say_inactive : String × String → Event
say_inactive (uid, sid) = Event.socket_send uid sid (SocketMessage.disconnect "INACTIVE_TIMEOUT")

unfoldable pub disconnect_watchers : String → CachedWorkspace → World → World
disconnect_watchers uuid x w =
    let found = open_sessions w uuid (watchers x) in
    send_all (map say_inactive found) (for_each (forget_timer uuid) found w)

abbrev pub dispose_failed : Failure
dispose_failed = record { status = 0; message = "provisioner/dispose" }

unfoldable pub handle_workspace_expiry : Services → String → Handler Void
handle_workspace_expiry net uuid = do
  found ← gets (λ w. get_workspace w uuid)
  modify (elim found [ none ↦ λ w. w | some x ↦ disconnect_watchers uuid x ])
  modify (del_workspace uuid)
  modify (send (Event.dispose uuid))
  throw_if (not (net.dispose_answered uuid)) dispose_failed

-- what is left of a presence is written back, or the presence is removed
abbrev pub store_presence : String → CachedPresence → World → World
store_presence uid [] = del_presence uid
store_presence uid (e ∷ p) = set_presence uid (e ∷ p)

unfoldable pub handle_session_expiry : Services → CachedPresence → String → String → Handler Void
handle_session_expiry net presence uid sid = do
  s ← or_throw (lookup sid presence) type_error
  modify (send (Event.close_socket s.gateway_id s.socket_id))
  elim (defined s.ws_uuid) [ none ↦ pure tt | some uuid ↦ handle_workspace_expiry net uuid ]
  modify (store_presence uid (erase sid presence))

unfoldable pub quiet : Config → String → String → Option String → World → World
quiet cfg uid sid none w = w
quiet cfg uid sid (some uuid) w =
    set_workspace_state cfg (get_workspace w uuid) uid sid (some uuid) inactive w

-- the two branches on the state of a session whose timer has ended
unfoldable pub expire_session :
    Config → Services → CachedPresence → String → String → CachedSession → Handler Void
expire_session cfg net presence uid sid s = elim s.state [
  | active ↦ do
    modify (quiet cfg uid sid (defined s.ws_uuid))
    set_session_state cfg presence uid sid inactive
  | inactive ↦ handle_session_expiry net presence uid sid
]

unfoldable pub handle_stale_session : Config → Services → String → String → Handler Void
handle_stale_session cfg net uid sid w = elim (get_presence w uid) [
  | none ↦ pure tt w
  | some presence ↦ elim (lookup sid presence) [
    | none ↦ pure tt w
    | some s ↦ expire_session cfg net presence uid sid s w
  ]
]

unfoldable pub handle_stale_workspace : Config → Services → String → String → String → Handler Void
handle_stale_workspace cfg net uid sid uuid w = elim (get_workspace w uuid) [
  | none ↦ pure tt w
  | some x ↦ elim x.state [
    | active ↦ (ok tt, set_workspace_state cfg (some x) uid sid (some uuid) inactive w)
    | inactive ↦ handle_workspace_expiry net uuid w
  ]
]

-- A part that is missing is `undefined`, which as a key is the text "undefined".
abbrev pub part : List String → String
part [] = "undefined"
part (s ∷ _) = s

abbrev pub later : List String → List String
later [] = []
later (_ ∷ parts) = parts

abbrev pub part? : List String → Option String
part? [] = none
part? (s ∷ _) = some s

unfoldable pub handle_stale_presence : Config → Services → List String → Handler Void
handle_stale_presence cfg net parts =
    let uid = part parts in
    let sid = part (later parts) in
    elim (defined (part? (later (later parts)))) [
      | none ↦ handle_stale_session cfg net uid sid
      | some uuid ↦ handle_stale_workspace cfg net uid sid uuid
    ]

unfoldable pub same : Option String → Option String → Option String
same (some a) (some b) = ite (str_dec a b) (some a) none
same _ _ = none

unfoldable pub refresh : Config → String → String → String → Bool → Handler (Option (List String))
refresh cfg uid sid uuid false w = pure none w
refresh cfg uid sid uuid true w =
    let found = get_workspace w uuid in
    (
      ok (elim found [ none ↦ none | some x ↦ lookup "/workspace/" x.dirs ]),
      set_workspace_state cfg found uid sid (some uuid) active w,
    )

-- `session.ping`, the only presence message, with the workspace that the client shows. The answer is
-- the users that watch the root directory, for the awareness message.
unfoldable pub handle_presence_message :
    Config
    → Services
    → String
    → String
    → CachedPresence
    → Option String
    → Handler (Option (List String))
handle_presence_message cfg net uid sid presence shown = do
  set_session_state cfg presence uid sid active
  s ← or_throw (lookup sid presence) type_error
  elim (same (defined s.ws_uuid) shown) [
    | none ↦ pure none
    | some uuid ↦ do is_member ← check_membership net uid uuid; refresh cfg uid sid uuid is_member
  ]
