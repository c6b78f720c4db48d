-- ===== src/Gateway/Socket/Delivery.antt =====
-- Which messages reach a socket or an environment.
use hide_server.Base.{
  In, str_key, nat_key, lookup, String, ◌≡◌, refl, sym, ap, subst, inl, inr, none, some, List, [],
  ◌∷◌, map, Failure, bind_err, Option-cases, err,
}
use mathlib.Core.Option
use hide_server.Cache.{CachedPresence, CachedWorkspace}
use hide_server.Platform.{World, EnvMessage, SocketMessage, get_presence, get_workspace}
use hide_server.Gateway.{Services}
use hide_server.Gateway.Membership.{check_membership, fetch_membership, handle_members_modified}
use hide_server.Gateway.Membership.Laws.{entry_of-removed}
use hide_server.Gateway.Presence.{type_error}
use hide_server.Gateway.Socket.{broadcast, broadcast_sockets, handle_env_message, routed}

-- the users of a broadcast, and their sessions
abbrev pub users : List (String × String) → List String
users = map (λ t. t.0)

abbrev pub sessions : List (String × String) → List String
sessions = map (λ t. t.1)

abbrev IsGone : World → String → String → Type 0
IsGone w uid sid = (p : CachedPresence) × (get_presence w uid ≡ some p) × (lookup sid p ≡ none)

missing_here :
    (w : World) (uid sid : String) (ts : List (String × String))
    → IsGone w uid sid
    → broadcast_sockets w (uid ∷ users ts) (sid ∷ sessions ts) ≡ none
unfolding broadcast_sockets
missing_here w uid sid ts (p, e, f) = rw (e, broadcast_sockets) (rw (f, broadcast_sockets) refl)

missing_later :
    (w : World) (uid sid : String) (ts : List (String × String))
    → broadcast_sockets w (users ts) (sessions ts) ≡ none
    → broadcast_sockets w (uid ∷ users ts) (sid ∷ sessions ts) ≡ none
unfolding broadcast_sockets
missing_later w uid sid ts e = elim (Option-cases (get_presence w uid)) [
  | inl f ↦ rw (f, broadcast_sockets) e
  | inr (p, f) ↦ elim (Option-cases (lookup sid p)) [
    | inl g ↦ rw (f, broadcast_sockets) (rw (g, broadcast_sockets) refl)
    | inr (s, g) ↦
        rw (f, broadcast_sockets) (rw (g, broadcast_sockets) (ap (Option.map (◌∷◌ s.socket_id)) e))
  ]
]

missing :
    (w : World) (uid sid : String) (ts : List (String × String))
    → In (uid, sid) ts
    → IsGone w uid sid
    → broadcast_sockets w (users ts) (sessions ts) ≡ none
missing w uid sid [] h g = elim h [ ]
missing w uid sid ((u, s) ∷ ts) (inl e) g =
    missing_here w u s ts (subst (λ t. IsGone w t.0 t.1) (sym e) g)
missing w uid sid ((u, s) ∷ ts) (inr h) g = missing_later w u s ts (missing w uid sid ts h g)

-- A broadcast to users one of whom has other sessions in the cache, but not the one that is named,
-- fails and reaches no one.
pub broadcast_missing :
    (w : World) (uid sid : String) (ts : List (String × String)) (p : CachedPresence)
    (msg : SocketMessage)
    → In (uid, sid) ts
    → get_presence w uid ≡ some p
    → lookup sid p ≡ none
    → broadcast (users ts) (sessions ts) msg w ≡ (err type_error, w)
unfolding broadcast
broadcast_missing w uid sid ts p msg h e f = rw (missing w uid sid ts h (p, e, f), broadcast) refl

abbrev pub no_answer : Failure
no_answer = record { status = 0; message = "workspace.membership.check" }

module _ (net : Services) (added removed : List String) (w : World) (uid : String)
    (msg : EnvMessage) (x : CachedWorkspace) where
  abbrev pub changed : World
  changed = handle_members_modified msg.uuid added removed w

  refused_lem :
      In uid removed
      → net.membership_check uid msg.uuid ≡ none
      → check_membership net uid msg.uuid changed ≡ (err no_answer, changed)
  unfolding check_membership fetch_membership
  refused_lem h e =
      rw (entry_of-removed msg.uuid added removed w uid h, check_membership)
        (rw (e, fetch_membership) refl)

  -- After the change of a workspace's members has reached the gateway, a message of a removed user
  -- for its environment is not passed on, to any instance, if the workspace service rejects the
  -- check; nothing is sent and nothing is cached.
  pub handle_env_message-handle_members_modified :
      (socket_id sid : String)
      → In uid removed
      → net.membership_check uid msg.uuid ≡ none
      → get_workspace changed msg.uuid ≡ some x
      → handle_env_message net socket_id uid sid msg changed ≡ (err no_answer, changed)
  unfolding handle_env_message
  handle_env_message-handle_members_modified socket_id sid h e f =
      rw (f, handle_env_message)
        (bind_err (check_membership net uid msg.uuid) (routed net socket_id uid sid x msg) changed
          changed no_answer (refused_lem h e))
