-- ===== src/Gateway/Timers/Endings.antt =====
-- A cached session has its timer: what messages and timers that end do to that.
use hide_server.Base.{
  then_keeps, str_key, nat_key, lookup, erase, Map, lookup-erase_self, String, ◌≡◌, refl, ◌∙◌, ◌≢◌,
  ◌⊎◌, inl, inr, true, Option, none, some, List, arith, Void, pure, or_throw, ◌>>=◌, modify,
  Option-cases,
}
use hide_server.Gateway.Presence.Frame.{session_in_presence}
use hide_server.Gateway.Membership.{check_membership}
use hide_server.Cache.{CachedSession, CachedPresence, Liveness, active, inactive, timer_key}
use hide_server.Platform.{World, Handler, Event, send, get_presence, get_workspace}
use hide_server.Gateway.{Config, Services}
use hide_server.Gateway.Presence.{
  with_state, set_session_state, defined, type_error, same, refresh, store_presence,
  handle_presence_message, handle_stale_session, handle_stale_workspace, handle_workspace_expiry,
  quiet,
}
use hide_server.Gateway.Presence.Workspaces.{Ends, handle_workspace_expiry-Ends}
use hide_server.Gateway.Presence.Frame.{session_of, erase-Frame, session_of-store_presence}
use hide_server.Gateway.Presence.Sessions.{
  Keeps, set_session_state_lem, handle_stale_session_idle, open_lem, quiet-Keeps, rest_lem,
  set_workspace_state-Keeps,
}
use hide_server.Gateway.Socket.{
  ClientMessage, presence_of, handle_socket_message, serve, make_aware,
}
use hide_server.Gateway.Timers.Keeping.{
  Keeps-refl, Keeps-Frame, sends, make_aware-Keeps, refuse-Keeps, refresh-Keeps, checked-Keeps,
  handle_env_message-Keeps,
}
use hide_server.Gateway.Timers.Timed.{
  HasTimer, IsTimed, OthersTimed, restore, others, kept, presence_of_lem, written-IsTimed, carry,
}
use hide_server.Gateway.Socket.{env, ping}

pings-IsTimed :
    (cfg : Config) (net : Services) (uid sid : String) (shown : Option String) (w : World)
    (s : CachedSession)
    → lookup sid (presence_of w uid) ≡ some s
    → IsTimed w
    → IsTimed (handle_presence_message cfg net uid sid (presence_of w uid) shown w).1
unfolding handle_presence_message
pings-IsTimed cfg net uid sid shown w s e i =
    then_keeps IsTimed writing (λ _. or_throw (lookup sid p) type_error >>= looking) w
      (rw (set_session_state_lem cfg p uid sid active s w e) (
        written-IsTimed cfg uid sid active (with_state active s) p w
          (λ s' _. presence_of_lem w uid s') (others uid sid w i)))
      (λ _ v j. rw e (looks (same (defined s.ws_uuid) shown) v j))
  where
    p : CachedPresence
    p = presence_of w uid

    writing : Handler Void
    writing = set_session_state cfg p uid sid active

    look : Option String → Handler (Option (List String))
    look o = elim o [
      | none ↦ pure none
      | some uuid ↦ check_membership net uid uuid >>= refresh cfg uid sid uuid
    ]

    looking : CachedSession → Handler (Option (List String))
    looking x = look (same (defined x.ws_uuid) shown)

    looks : (o : Option String) (v : World) → IsTimed v → IsTimed (look o v).1
    looks none v j = j
    looks (some uuid) v j =
        kept
          (checked-Keeps net uid uuid (refresh cfg uid sid uuid) v (refresh-Keeps cfg uid sid uuid))
          j

pub says-IsTimed :
    (cfg : Config) (net : Services) (socket uid sid : String) (msg : ClientMessage) (w : World)
    → IsTimed w
    → IsTimed (handle_socket_message cfg net socket uid sid msg w).1
unfolding handle_socket_message serve
says-IsTimed cfg net socket uid sid msg w i = elim (Option-cases (lookup sid (presence_of w uid))) [
  | inl e ↦ rw (e, handle_socket_message) (kept (refuse-Keeps socket _ _ _ w) i)
  | inr (s, e) ↦ rw (e, handle_socket_message) (served msg s e)
]
  where
    served :
        (m : ClientMessage) (s : CachedSession)
        → lookup sid (presence_of w uid) ≡ some s
        → IsTimed (serve cfg net socket uid sid (presence_of w uid) m w).1
    served (env m) s e = kept (handle_env_message-Keeps net socket uid sid m w) i
    served (ping shown id) s e =
        then_keeps IsTimed (handle_presence_message cfg net uid sid (presence_of w uid) shown)
          (λ uids. modify (make_aware uid sid uids)) w (pings-IsTimed cfg net uid sid shown w s e i)
          (λ uids v j. kept (make_aware-Keeps uid sid uids v) j)

erased-IsTimed :
    (uid sid : String) (p : CachedPresence) (v : World)
    → ((s : String) → sid ≢ s → lookup s p ≡ session_of v uid s)
    → OthersTimed uid sid v
    → IsTimed (store_presence uid (erase sid p) v)
unfolding HasTimer
erased-IsTimed uid sid p v same i = restore uid sid v _ i (erase-Frame uid sid v p same) (inl gone)
  where
    gone : session_of (store_presence uid (erase sid p) v) uid sid ≡ none
    gone =
        session_of-store_presence uid (erase sid p) v uid sid
        ∙ ground (arith, lookup-erase_self sid p)

others-kept :
    (uid sid : String) {w v : World} → Keeps w v → OthersTimed uid sid w → OthersTimed uid sid v
others-kept uid sid {w} {v} k i u s o = carry w v u s (rw k.presences refl) (k.timers u s) (i u s o)

pub stays :
    (uid sid : String) (w : World) → session_of w uid sid ≡ none → OthersTimed uid sid w → IsTimed w
unfolding HasTimer
stays uid sid w e i = restore uid sid w w i (Keeps-Frame uid sid (Keeps-refl w)) (inl e)

Liveness-cases : (st : Liveness) → (st ≡ active) ⊎ (st ≡ inactive)
Liveness-cases active = inl refl
Liveness-cases inactive = inr refl

Ends-keeps :
    (uuid : String) {w v : World} → Ends uuid w v → (u s : String) → HasTimer w u s → HasTimer v u s
Ends-keeps uuid {w} {v} e u s h = carry w v u s (rw e.presences refl) (e.sessions u s) h

module _ (net : Services) (answers : (uuid : String) → net.dispose_answered uuid ≡ true) where
  module _ (cfg : Config) (uid sid : String) (w : World) (i : OthersTimed uid sid w) where
    module _ (p : CachedPresence) (s : CachedSession) (here : get_presence w uid ≡ some p)
        (found : lookup sid p ≡ some s) where
      same_presence :
          (m : Map String CachedPresence)
          → m ≡ w.cache.presences
          → (s' : String) → sid ≢ s'
          → lookup s' p ≡ session_in_presence s' (lookup uid m)
      same_presence m e s' ne = rw (e, here) refl

      state-IsTimed :
          (st : Liveness) → s.state ≡ st → IsTimed (handle_stale_session cfg net uid sid w).1
      state-IsTimed active e = rw (rest_lem cfg net uid sid w p s here found e) (
          written-IsTimed cfg uid sid inactive (with_state inactive s) p
            (quiet cfg uid sid (defined s.ws_uuid) w) (same_presence _ k.presences)
            (others-kept uid sid k i))
        where
          k : Keeps w (quiet cfg uid sid (defined s.ws_uuid) w)
          k = quiet-Keeps cfg uid sid (defined s.ws_uuid) w
      state-IsTimed inactive e = elim (Option-cases (defined s.ws_uuid)) [
        | inl free ↦
            rw (handle_stale_session_idle cfg net uid sid w p s here found e free) (
              erased-IsTimed uid sid p _ (same_presence _ refl) (others-kept uid sid (sends _ w) i))
        | inr (uuid, shown) ↦
            rw (open_lem cfg net uid sid w p s here found uuid e shown (answers uuid)) (
              erased-IsTimed uid sid p _ (same_presence _ (gone uuid).presences) (λ u s' o.
                Ends-keeps uuid (gone uuid) u s' (others-kept uid sid (sends _ w) i u s' o)))
      ]
        where
          gone :
              (uuid : String)
              → Ends uuid
                  (send (Event.close_socket s.gateway_id s.socket_id) w)
                  (handle_workspace_expiry net uuid
                    (send (Event.close_socket s.gateway_id s.socket_id) w)).1
          gone uuid =
              handle_workspace_expiry-Ends net uuid
                (send (Event.close_socket s.gateway_id s.socket_id) w)

    pub stale-IsTimed : IsTimed (handle_stale_session cfg net uid sid w).1
    unfolding handle_stale_session
    stale-IsTimed = elim (Option-cases (get_presence w uid)) [
      | inl e ↦ rw (e, handle_stale_session) (stays uid sid w (rw e refl) i)
      | inr (p, e) ↦ elim (Option-cases (lookup sid p)) [
        | inl f ↦
            rw (e, handle_stale_session) (rw (f, handle_stale_session) (stays uid sid w (rw e f) i))
        | inr (s, f) ↦ state-IsTimed p s e f s.state refl
      ]
    ]

  pub workspace-IsTimed :
      (cfg : Config) (uid sid uuid : String) (w : World)
      → IsTimed w
      → IsTimed (handle_stale_workspace cfg net uid sid uuid w).1
  unfolding handle_stale_workspace
  workspace-IsTimed cfg uid sid uuid w i = elim (Option-cases (get_workspace w uuid)) [
    | inl e ↦ rw (e, handle_stale_workspace) i
    | inr (x, e) ↦ elim (Liveness-cases x.state) [
      | inl a ↦
          rw (e, handle_stale_workspace)
            (rw (a, handle_stale_workspace)
              (kept (set_workspace_state-Keeps cfg (some x) uid sid (some uuid) inactive w) i))
      | inr a ↦
          rw (e, handle_stale_workspace)
            (rw (a, handle_stale_workspace)
              (λ u s. Ends-keeps uuid (handle_workspace_expiry-Ends net uuid w) u s (i u s)))
    ]
  ]
