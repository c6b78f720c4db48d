-- ===== src/Gateway/Socket/Connections.antt =====
-- What a connection leaves of the session, and of its lock.
use hide_server.Base.{
  member, str_empty, str_key, nat_key, lookup, insert, lookup-insert_self, String, ◌≡◌, refl, ap,
  ◌∙◌, ◌⊎◌, inl, inr, Bool, true, false, ◌||◌, Option, none, some, List, ◌∷◌, arith, Void, pure,
  ◌>>◌, modify, bind_ok, bind_err, if◌then◌else◌, Option-cases, ok, err,
}
use hide_server.Cache.{active, CachedSession, Timer, timer_key}
use hide_server.Platform.{World, Event, send, get_workspace, get_timer, set_presence}
use hide_server.Gateway.{Config, Services}
use hide_server.Gateway.Presence.{session_timer, set_session_state, defined}
use hide_server.Gateway.Presence.Frame.{session_of, session_in_presence}
use hide_server.Gateway.Presence.Sessions.{
  set_session_state_lem, started, get_timer-session_timer, session_of-written, Keeps,
  set_workspace_state-Keeps, session_timer_locks,
}
use hide_server.Gateway.Socket.{
  Handshake, SocketData, lock_failed, acquire_lock, release, drop_lock, session_lock, text_of,
  presence_of, ws_of, close_previous, touch_workspace, open_session, handle_connection, admit,
  Handler,
}

pub drop_lock_self : (name : String) (ls : List String) → drop_lock name (name ∷ ls) ≡ ls
unfolding drop_lock
drop_lock_self name ls = ground arith

pub close_previous-Keeps : (old : Option CachedSession) (w : World) → Keeps w (close_previous old w)
unfolding close_previous
close_previous-Keeps none w = record { presences = refl; timers = λ u s. refl; locks = refl }
close_previous-Keeps (some s) w = kept (str_empty s.socket_id || str_empty s.gateway_id)
  where
    kept :
        (b : Bool) → Keeps w (if b then w else send (Event.close_socket s.gateway_id s.socket_id) w)
    kept true = record { presences = refl; timers = λ u s. refl; locks = refl }
    kept false = record { presences = refl; timers = λ u s. refl; locks = refl }

abbrev pub with_lock : String → World → World
with_lock name w = record w { locks = name ∷ w.locks }

pub member_self : (l : String) (ls : List String) → member l (l ∷ ls) ≡ true
unfolding member
member_self l ls = ground arith

pub acquire_lock_lem :
    (name : String) (w : World)
    → member name w.locks ≡ false
    → acquire_lock name w ≡ (ok tt, with_lock name w)
unfolding acquire_lock
acquire_lock_lem name w e = rw (e, acquire_lock) refl

pub acquire_lock_held :
    (name : String) (w : World)
    → member name w.locks ≡ true
    → acquire_lock name w ≡ (err lock_failed, w)
unfolding acquire_lock
acquire_lock_held name w e = rw (e, acquire_lock) refl

module _ (cfg : Config) (uid sid socket_id : String) (w : World) where
  abbrev pub old : Option CachedSession
  old = lookup sid (presence_of w uid)

  -- the session that a connection records: what it had open stays open
  abbrev pub connected : CachedSession
  connected = record {
    state = active;
    socket_id = socket_id;
    gateway_id = cfg.instance_id;
    ws_uuid = ws_of old;
  }

  unfoldable pub recorded : World
  recorded = session_timer cfg uid sid active (
      set_presence uid (insert sid connected (insert sid connected (presence_of w uid)))
        (close_previous old w))

  unfoldable pub opened : World
  opened = touch_workspace cfg uid sid (ws_of old) active recorded

  pub open_session_lem : open_session cfg uid sid socket_id w ≡ (ok tt, opened)
  unfolding open_session opened recorded
  open_session_lem =
      bind_ok (set_session_state cfg (insert sid connected (presence_of w uid)) uid sid active)
        (λ _. modify (touch_workspace cfg uid sid (ws_of old) active)) (close_previous old w)
        recorded tt
        (set_session_state_lem cfg (insert sid connected (presence_of w uid)) uid sid active
          connected (close_previous old w) (lookup-insert_self sid connected (presence_of w uid)))

  pub touched : Keeps recorded opened
  unfolding touch_workspace opened
  touched =
      set_workspace_state-Keeps cfg (get_workspace recorded (text_of (ws_of old))) uid sid
        (ws_of old) active recorded

  pub opened_session : session_of opened uid sid ≡ some connected
  unfolding recorded
  opened_session =
      ap (λ m. session_in_presence sid (lookup uid m)) touched.presences
      ∙ session_of-written cfg uid sid active connected (insert sid connected (presence_of w uid))
          (close_previous old w)

  pub opened_timer : get_timer opened (Timer.session uid sid) ≡ some (started cfg active)
  unfolding recorded
  opened_timer = touched.timers uid sid ∙ get_timer-session_timer cfg uid sid active _

  pub opened_locks : opened.locks ≡ w.locks
  unfolding recorded
  opened_locks =
      touched.locks ∙ session_timer_locks cfg uid sid active _ ∙ (close_previous-Keeps old w).locks

module _ (cfg : Config) (net : Services) (h : Handshake) (w : World) (uid token : String)
    (shown : defined h.token ≡ some token) (known : net.authenticate token ≡ some uid) where
  abbrev pub name : String
  name = session_lock uid h.session_id

  abbrev pub inside : World
  inside = opened cfg uid h.session_id h.socket_id (with_lock name w)

  pub admitted : handle_connection cfg net true h w ≡ admit cfg uid h w
  unfolding handle_connection
  admitted = rw (shown, handle_connection) (rw (known, handle_connection) refl)

  abbrev pub locked : Void → Handler SocketData
  locked _ =
      open_session cfg uid h.session_id h.socket_id
      >> (release name >> pure (some (uid, h.session_id)))

  pub admit_lem :
      member name w.locks ≡ false
      → admit cfg uid h w ≡ (ok (some (uid, h.session_id)), (release name inside).1)
  unfolding admit release
  admit_lem free =
      bind_ok (acquire_lock name) locked w (with_lock name w) tt (acquire_lock_lem name w free)
      ∙ bind_ok (open_session cfg uid h.session_id h.socket_id)
          (λ _. release name >> pure (some (uid, h.session_id))) (with_lock name w) inside tt
          (open_session_lem cfg uid h.session_id h.socket_id (with_lock name w))

  -- A client that is authenticated and connects, while no one holds the lock of its session, is told
  -- who it is. Its session is recorded as active, on this socket of this gateway, with the workspace
  -- that it had open; the session has the ping timer, and the locks are as before.
  pub handle_connection_opens :
      member name w.locks ≡ false
      → let (r, w') = handle_connection cfg net true h w in
        (r ≡ ok (some (uid, h.session_id)))
        × (session_of w' uid h.session_id ≡ some (connected cfg uid h.session_id h.socket_id w))
        × (get_timer w' (Timer.session uid h.session_id) ≡ some (started cfg active))
        × (w'.locks ≡ w.locks)
  unfolding release
  handle_connection_opens free = rw (admitted ∙ admit_lem free) (
    refl,
    opened_session cfg uid h.session_id h.socket_id (with_lock name w),
    opened_timer cfg uid h.session_id h.socket_id (with_lock name w),
    ap (drop_lock name) (opened_locks cfg uid h.session_id h.socket_id (with_lock name w))
        ∙ drop_lock_self name w.locks,
  )

  -- While someone holds the lock of the session, the connection fails and changes nothing.
  pub handle_connection_locked :
      member name w.locks ≡ true → handle_connection cfg net true h w ≡ (err lock_failed, w)
  unfolding admit
  handle_connection_locked held =
      admitted ∙ bind_err (acquire_lock name) locked w w lock_failed (acquire_lock_held name w held)

-- A client with no token, or that the auth service does not know, is only cut off; so is every client
-- of a gateway that is shutting down.
pub handle_connection_refused :
    (cfg : Config) (net : Services) (h : Handshake) (allow : Bool) (w : World)
    → (allow ≡ false)
      ⊎ ((token : String) → defined h.token ≡ some token → net.authenticate token ≡ none)
    → handle_connection cfg net allow h w ≡ (ok none, send (Event.drop h.socket_id) w)
unfolding handle_connection
handle_connection_refused cfg net h false w e = refl
handle_connection_refused cfg net h true w (inl e) = cc
handle_connection_refused cfg net h true w (inr e) = elim (Option-cases (defined h.token)) [
  | inl a ↦ rw (a, handle_connection) refl
  | inr (token, a) ↦ rw (a, handle_connection) (rw (e token a, handle_connection) refl)
]
