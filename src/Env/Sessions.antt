-- ===== src/Env/Sessions.antt =====
-- Whom the environment writes to: the sessions that have a workspace open (the `getSessionId` and
-- `send…` methods of env/src/core/sync.service.ts and fs.service.ts). A session's id is not empty.
use hide_server.Base.{
  for_each, str_empty, str_key, nat_key, String, Option, none, some, List, [], ◌∷◌, map,
  if◌then◌else◌,
}
use hide_server.Platform.{World, Event, SocketMessage, send, get_presence, find_session}

abbrev pub get_session_id : World → String → String → Option String
get_session_id w uid uuid = elim (get_presence w uid) [ none ↦ none | some p ↦ find_session uuid p ]

-- the users that have the workspace open in a session, each with the first such session
unfoldable pub active_sessions : World → String → List String → List (String × String)
active_sessions w uuid [] = []
active_sessions w uuid (uid ∷ uids) = elim (get_session_id w uid uuid) [
  | none ↦ active_sessions w uuid uids
  | some sid ↦ (uid, sid) ∷ active_sessions w uuid uids
]

-- one `socket.send` to each
unfoldable pub send_each : SocketMessage → List (String × String) → World → World
send_each msg = for_each (λ p. send (Event.socket_send p.0 p.1 msg))

unfoldable pub send_to_watchers : String → List String → SocketMessage → World → World
unfolding active_sessions send_each
send_to_watchers uuid uids msg w = send_each msg (active_sessions w uuid uids) w

-- one `socket.broadcast` to all; none for an empty list of users
unfoldable pub broadcast_to : String → List String → SocketMessage → World → World
unfolding active_sessions
broadcast_to uuid [] msg w = w
broadcast_to uuid (uid ∷ uids) msg w =
    let ps = active_sessions w uuid (uid ∷ uids) in
    send (Event.socket_broadcast (map (λ p. p.0) ps) (map (λ p. p.1) ps) msg) w

-- `sendSuccess`, `sendError`: a request without a correlation id has no answer
unfoldable pub answer : String → String → Option String → (String → SocketMessage) → World → World
answer uid sid none msg w = w
answer uid sid (some c) msg w =
    if str_empty c then w else send (Event.socket_send uid sid (msg c)) w

unfoldable pub send_error : String → String → String → Option String → World → World
unfolding answer
send_error uid sid code c = answer uid sid c (λ id. SocketMessage.failed id code)
