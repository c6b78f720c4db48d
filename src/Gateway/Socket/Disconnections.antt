-- ===== src/Gateway/Socket/Disconnections.antt =====
-- What the end of a connection leaves of the session, and of its lock.
use hide_server.Base.{
  member, str_key, nat_key, lookup, insert, String, ◌≡◌, refl, ap, ◌∙◌, true, false, none, some,
  Void, ◌>>◌, modify, bind_ok, ok, err,
}
use hide_server.Cache.{inactive, CachedSession, Timer, timer_key}
use hide_server.Platform.{World, get_workspace, get_timer, set_presence}
use hide_server.Gateway.{Config, Services}
use hide_server.Gateway.Presence.{with_state, session_timer, set_session_state, defined}
use hide_server.Gateway.Presence.Frame.{session_of, session_in_presence}
use hide_server.Gateway.Presence.Sessions.{
  set_session_state_lem, started, get_timer-session_timer, session_of-written, Keeps,
  set_workspace_state-Keeps, session_timer_locks,
}
use hide_server.Gateway.Socket.{
  Handshake, lock_failed, acquire_lock, release, drop_lock, session_lock, text_of, presence_of,
  touch_workspace, handle_connection, handle_disconnect, Handler, end_session,
}
use hide_server.Gateway.Socket.{handle_disconnect, end_session}
use hide_server.Gateway.Socket.Connections.{
  drop_lock_self, member_self, with_lock, acquire_lock_lem, handle_connection_locked,
}

module _ (cfg : Config) (uid sid : String) (w : World) where
  abbrev pub ending : Handler Void
  ending = handle_disconnect cfg (some (uid, sid))

  abbrev pub lock : String
  lock = session_lock uid sid

  abbrev pub after_lock : Void → Handler Void
  after_lock _ = λ v. end_session cfg uid sid (presence_of v uid) v

  pub keeps_lock :
      member lock w.locks ≡ false
      → lookup sid (presence_of w uid) ≡ none
      → ending w ≡ (ok tt, with_lock lock w)
  unfolding handle_disconnect end_session
  keeps_lock free gone =
      bind_ok (acquire_lock lock) after_lock w (with_lock lock w) tt (acquire_lock_lem lock w free)
      ∙ rw (gone, end_session) refl

  module _ (s : CachedSession) (free : member lock w.locks ≡ false)
      (found : lookup sid (presence_of w uid) ≡ some s) where
    abbrev pub put : World
    put =
        set_presence uid (insert sid (with_state inactive s) (presence_of w uid)) (with_lock lock w)

    abbrev pub rested : World
    rested = session_timer cfg uid sid inactive put

    abbrev pub quieted : World
    quieted = touch_workspace cfg uid sid s.ws_uuid inactive rested

    pub quieted-Keeps : Keeps rested quieted
    unfolding touch_workspace
    quieted-Keeps =
        set_workspace_state-Keeps cfg (get_workspace rested (text_of s.ws_uuid)) uid sid s.ws_uuid
          inactive rested

    end_session_lem :
        end_session cfg uid sid (presence_of w uid) (with_lock lock w) ≡ release lock quieted
    unfolding end_session
    end_session_lem =
        rw (found, end_session)
          (bind_ok (set_session_state cfg (presence_of w uid) uid sid inactive)
            (λ _. modify (touch_workspace cfg uid sid s.ws_uuid inactive) >> release lock)
            (with_lock lock w) rested tt
            (set_session_state_lem cfg (presence_of w uid) uid sid inactive s (with_lock lock w)
              found))

    pub ends : ending w ≡ release lock quieted
    unfolding handle_disconnect
    ends =
        bind_ok (acquire_lock lock) after_lock w (with_lock lock w) tt
          (acquire_lock_lem lock w free)
        ∙ end_session_lem

    -- When a client of a session in the cache is gone, and no one holds the session's lock, the
    -- session becomes inactive and has the long timer, and the locks are as before.
    pub handle_disconnect_rests :
        let (r, w') = ending w in
        (r ≡ ok tt)
        × (session_of w' uid sid ≡ some (with_state inactive s))
        × (get_timer w' (Timer.session uid sid) ≡ some (started cfg inactive))
        × (w'.locks ≡ w.locks)
    unfolding release
    handle_disconnect_rests = rw ends (
      refl,
      ap (λ m. session_in_presence sid (lookup uid m)) quieted-Keeps.presences
          ∙ session_of-written cfg uid sid inactive (with_state inactive s) (presence_of w uid)
              (with_lock lock w),
      quieted-Keeps.timers uid sid ∙ get_timer-session_timer cfg uid sid inactive put,
      ap (drop_lock lock) (quieted-Keeps.locks ∙ session_timer_locks cfg uid sid inactive put)
          ∙ drop_lock_self lock w.locks,
    )

-- When a client is gone whose session is no longer in the cache, its lock is taken and not given
-- back: until the lock lapses, the session cannot be connected again, on any gateway.
pub handle_disconnect_blocks :
    (cfg cfg' : Config) (net : Services) (h : Handshake) (w : World) (uid token : String)
    → member (session_lock uid h.session_id) w.locks ≡ false
    → lookup h.session_id (presence_of w uid) ≡ none
    → defined h.token ≡ some token
    → net.authenticate token ≡ some uid
    → let (r, w') = handle_disconnect cfg (some (uid, h.session_id)) w in
      (r ≡ ok tt) × (handle_connection cfg' net true h w' ≡ (err lock_failed, w'))
handle_disconnect_blocks cfg cfg' net h w uid token free gone shown known =
    rw (keeps_lock cfg uid h.session_id w free gone)
      (refl, handle_connection_locked cfg' net h (with_lock lock' w) uid token shown known held)
  where
    lock' : String
    lock' = session_lock uid h.session_id

    held : member lock' (with_lock lock' w).locks ≡ true
    held = member_self lock' w.locks
