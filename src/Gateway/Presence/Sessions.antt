-- ===== src/Gateway/Presence/Sessions.antt =====
-- What happens to a session whose timer has ended, on every branch.
use hide_server.Base.{
  In, In-append_right, str_dec, str_key, nat_key, lookup, insert, erase, lookup-insert,
  lookup-erase, lookup-insert_self, lookup-erase_self, String, ◌≡◌, refl, sym, ap, subst, ◌∙◌, inl,
  inr, ite, Bool, true, false, Option, none, some, [], ◌∷◌, arith, ◌>>=◌, if◌then◌else◌, ok, err,
}
use mathlib.Core.Logic.{if_neg}
use hide_server.Cache.{
  Liveness, active, inactive, CachedSession, CachedPresence, CachedWorkspace, Timer, Timed,
  timer_key,
}
use hide_server.Platform.{
  World, Event, send, get_presence, get_workspace, get_timer, set_presence, set_workspace,
}
use hide_server.Gateway.{Config, Services}
use hide_server.Gateway.Presence.{
  with_state, session_timer, workspace_timer, set_session_state, set_workspace_state,
  store_presence, defined, quiet, handle_session_expiry, handle_workspace_expiry, expire_session,
  handle_stale_session, dispose_failed,
}
use hide_server.Gateway.Presence.Workspaces.{
  handle_workspace_expiry_result, Ends, handle_workspace_expiry-sent, handle_workspace_expiry-Ends,
}
use hide_server.Gateway.Presence.Frame.{
  session_of, session_in_presence, IsOther, session_of-store_presence,
}

pub set_session_state_lem :
    (cfg : Config) (p : CachedPresence) (uid sid : String) (st : Liveness) (s : CachedSession)
    (w : World)
    → lookup sid p ≡ some s
    → set_session_state cfg p uid sid st w
      ≡ (ok tt, session_timer cfg uid sid st (set_presence uid (insert sid (with_state st s) p) w))
unfolding set_session_state
set_session_state_lem cfg p uid sid st s w e = rw e refl

-- the timer that a state starts
abbrev pub started : Config → Liveness → Timed
started cfg inactive = record { value = 0; ttl = cfg.session_activity_timeout }
started cfg active = record { value = 1; ttl = cfg.session_ping_timeout }

pub get_timer-session_timer :
    (cfg : Config) (uid sid : String) (st : Liveness) (w : World)
    → get_timer (session_timer cfg uid sid st w) (Timer.session uid sid) ≡ some (started cfg st)
unfolding session_timer
get_timer-session_timer cfg uid sid active w =
    lookup-insert_self (Timer.session uid sid) _ w.cache.timers
get_timer-session_timer cfg uid sid inactive w =
    lookup-insert_self (Timer.session uid sid) _ w.cache.timers

pub session_timer_presences :
    (cfg : Config) (uid sid : String) (st : Liveness) (w : World)
    → (session_timer cfg uid sid st w).cache.presences ≡ w.cache.presences
unfolding session_timer
session_timer_presences cfg uid sid active w = refl
session_timer_presences cfg uid sid inactive w = refl

pub session_timer_locks :
    (cfg : Config) (uid sid : String) (st : Liveness) (w : World)
    → (session_timer cfg uid sid st w).locks ≡ w.locks
unfolding session_timer
session_timer_locks cfg uid sid active w = refl
session_timer_locks cfg uid sid inactive w = refl

-- what `set_session_state` leaves of the session
pub session_of-written :
    (cfg : Config) (uid sid : String) (st : Liveness) (x : CachedSession) (p : CachedPresence)
    (w : World)
    → session_of (session_timer cfg uid sid st (set_presence uid (insert sid x p) w)) uid sid
      ≡ some x
session_of-written cfg uid sid st x p w =
    ap (λ m. session_in_presence sid (lookup uid m))
      (session_timer_presences cfg uid sid st (set_presence uid (insert sid x p) w))
    ∙ ap (session_in_presence sid) (lookup-insert_self uid (insert sid x p) w.cache.presences)
    ∙ lookup-insert_self sid x p

-- no presence and no session's timer is touched
pub record Keeps (w w' : World) : Type 0 where
  pub presences : w'.cache.presences ≡ w.cache.presences
  pub timers : (u s : String) → get_timer w' (Timer.session u s) ≡ get_timer w (Timer.session u s)
  pub locks : w'.locks ≡ w.locks

pub set_workspace_state-Keeps :
    (cfg : Config) (x : Option CachedWorkspace) (uid sid : String) (uuid : Option String)
    (st : Liveness) (w : World)
    → Keeps w (set_workspace_state cfg x uid sid uuid st w)
unfolding set_workspace_state workspace_timer
set_workspace_state-Keeps cfg none uid sid uuid st w = record {
  presences = refl;
  locks = refl;
  timers = λ u s. refl;
}
set_workspace_state-Keeps cfg (some x) uid sid uuid st w = record {
  presences = presences (defined uuid) st;
  timers = timers (defined uuid) st;
  locks = locks (defined uuid) st;
}
  where
    written : Option String → Liveness → World
    written o st' = elim o [
      | none ↦ w
      | some ws ↦ workspace_timer cfg uid sid ws st' (set_workspace ws (record x { state = st' }) w)
    ]

    presences :
        (o : Option String) (st' : Liveness) → (written o st').cache.presences ≡ w.cache.presences
    presences none st' = refl
    presences (some ws) active = refl
    presences (some ws) inactive = refl

    locks : (o : Option String) (st' : Liveness) → (written o st').locks ≡ w.locks
    locks none st' = refl
    locks (some ws) active = refl
    locks (some ws) inactive = refl

    timers :
        (o : Option String) (st' : Liveness) (u s : String)
        → get_timer (written o st') (Timer.session u s) ≡ get_timer w (Timer.session u s)
    timers none st' u s = refl
    timers (some ws) active u s = ground (
      arith,
      lookup-insert (Timer.workspace uid sid ws) (Timer.session u s)
          (record { value = 1; ttl = cfg.ws_ping_timeout }) w.cache.timers,
    )
    timers (some ws) inactive u s = ground (
      arith,
      lookup-insert (Timer.workspace uid sid ws) (Timer.session u s)
          (record { value = 0; ttl = cfg.ws_activity_timeout }) w.cache.timers,
    )

pub quiet-Keeps :
    (cfg : Config) (uid sid : String) (uuid : Option String) (w : World)
    → Keeps w (quiet cfg uid sid uuid w)
unfolding quiet
quiet-Keeps cfg uid sid none w = record { presences = refl; locks = refl; timers = λ u s. refl }
quiet-Keeps cfg uid sid (some uuid) w =
    set_workspace_state-Keeps cfg (get_workspace w uuid) uid sid (some uuid) inactive w

store_workspaces :
    (uid : String) (p : CachedPresence) (v : World)
    → (store_presence uid p v).cache.workspaces ≡ v.cache.workspaces
store_workspaces uid [] v = refl
store_workspaces uid (e ∷ p) v = refl

store_sent :
    (uid : String) (p : CachedPresence) (v : World) → (store_presence uid p v).sent ≡ v.sent
store_sent uid [] v = refl
store_sent uid (e ∷ p) v = refl

module _ (cfg : Config) (net : Services) (uid sid : String) (w : World) (p : CachedPresence)
    (s : CachedSession) (here : get_presence w uid ≡ some p) (found : lookup sid p ≡ some s) where
  stale_lem : handle_stale_session cfg net uid sid w ≡ expire_session cfg net p uid sid s w
  unfolding handle_stale_session
  stale_lem = rw (here, handle_stale_session) (rw found refl)

  abbrev pub quieted : World
  quieted = quiet cfg uid sid (defined s.ws_uuid) w

  abbrev pub put_to_rest : World
  put_to_rest =
      session_timer cfg uid sid inactive
        (set_presence uid (insert sid (with_state inactive s) p) quieted)

  pub rest_lem : s.state ≡ active → handle_stale_session cfg net uid sid w ≡ (ok tt, put_to_rest)
  unfolding expire_session
  rest_lem e =
      stale_lem
      ∙ rw (e, expire_session) (set_session_state_lem cfg p uid sid inactive s quieted found)

  -- A session that was active when its timer ended becomes inactive and is given the longer time.
  pub handle_stale_session_active :
      s.state ≡ active
      → let (r, w') = handle_stale_session cfg net uid sid w in
        (r ≡ ok tt)
        × (session_of w' uid sid ≡ some (with_state inactive s))
        × (get_timer w' (Timer.session uid sid) ≡ some (started cfg inactive))
  handle_stale_session_active e = rw (rest_lem e) (
    refl,
    session_of-written cfg uid sid inactive _ p quieted,
    get_timer-session_timer cfg uid sid inactive _,
  )

  abbrev pub closing : Event
  closing = Event.close_socket s.gateway_id s.socket_id

  -- what is left when the workspace that the session had open, if any, has ended
  abbrev pub removed : World → World
  removed v = store_presence uid (erase sid p) v

  expiry_lem :
      s.state ≡ inactive
      → handle_stale_session cfg net uid sid w ≡ handle_session_expiry net p uid sid w
  unfolding expire_session
  expiry_lem e = stale_lem ∙ rw (e, expire_session) refl

  -- A session that had become inactive, with no workspace open, is removed when its timer ends; its
  -- socket's gateway is told to close it, and no workspace changes.
  pub handle_stale_session_idle :
      s.state ≡ inactive
      → defined s.ws_uuid ≡ none
      → handle_stale_session cfg net uid sid w ≡ (ok tt, removed (send closing w))
  unfolding handle_session_expiry
  handle_stale_session_idle e free =
      expiry_lem e ∙ rw (found, handle_session_expiry) (rw (free, handle_session_expiry) refl)

  module _ (uuid : String) (rests : s.state ≡ inactive)
      (shown : defined s.ws_uuid ≡ some uuid) where
    abbrev pub ended : World
    ended = (handle_workspace_expiry net uuid (send closing w)).1

    result_lem :
        (b : Bool)
        → net.dispose_answered uuid ≡ b
        → (handle_workspace_expiry net uuid (send closing w)).0
          ≡ (if b then ok tt else err dispose_failed)
    result_lem b e = handle_workspace_expiry_result net uuid (send closing w) ∙ rw e refl

    pub open_lem :
        net.dispose_answered uuid ≡ true
        → handle_stale_session cfg net uid sid w ≡ (ok tt, removed ended)
    unfolding handle_session_expiry
    open_lem answered =
        expiry_lem rests
        ∙ rw (found, handle_session_expiry)
            (rw (shown, handle_session_expiry) (rw (result_lem true answered, ◌>>=◌) refl))

    stuck_lem :
        net.dispose_answered uuid ≡ false
        → handle_stale_session cfg net uid sid w ≡ (err dispose_failed, ended)
    unfolding handle_session_expiry
    stuck_lem silent =
        expiry_lem rests
        ∙ rw (found, handle_session_expiry)
            (rw (shown, handle_session_expiry) (rw (result_lem false silent, ◌>>=◌) refl))

    ends : Ends uuid (send closing w) ended
    ends = handle_workspace_expiry-Ends net uuid (send closing w)

    closing_sent : In closing ended.sent
    closing_sent =
        handle_workspace_expiry-sent net uuid (send closing w) closing
          (In-append_right closing w.sent (closing ∷ []) (inl refl))

    ended_sessions : (u t : String) → session_of ended u t ≡ session_of w u t
    ended_sessions u t = ap (λ m. session_in_presence t (lookup u m)) ends.presences

    -- every other session is found as before
    others_kept :
        (u t : String) → IsOther uid sid u t → session_of (removed ended) u t ≡ session_of w u t
    others_kept u t o = session_of-store_presence uid (erase sid p) ended u t ∙ go (str_dec uid u) o
      where
        go :
            (d : Dec (uid ≡ u))
            → IsOther uid sid u t
            → ite d (lookup t (erase sid p)) (session_of ended u t) ≡ session_of w u t
        go (yes q) (inl n) = absurd (n q)
        go (yes q) (inr n) =
            lookup-erase sid t p
            ∙ if_neg (str_dec sid t) n none (lookup t p)
            ∙ subst (λ v. lookup t p ≡ session_of w v t) q (sym (ap (session_in_presence t) here))
        go (no n) _ = ended_sessions u t

    itself :
        (d : Dec (uid ≡ uid)) → ite d (lookup sid (erase sid p)) (session_of ended uid sid) ≡ none
    itself (yes q) = lookup-erase_self sid p
    itself (no n) = absurd (n refl)

    -- When the timer of an inactive session ends that has a workspace open, and the provisioner
    -- answers, the handler succeeds: the session is no longer cached, nor is the workspace, its
    -- socket's gateway is told to close it, and every other session is cached as before.
    pub handle_stale_session_open :
        (u t : String)
        → net.dispose_answered uuid ≡ true
        → IsOther uid sid u t
        → (let (r, w') = handle_stale_session cfg net uid sid w in
            (r ≡ ok tt)
            × (session_of w' uid sid ≡ none)
            × (get_workspace w' uuid ≡ none)
            × In closing w'.sent
            × (session_of w' u t ≡ session_of w u t))
    handle_stale_session_open u t answered o = rw (open_lem answered) (
      refl,
      session_of-store_presence uid (erase sid p) ended uid sid ∙ itself (str_dec uid uid),
      ap (lookup uuid) (store_workspaces uid (erase sid p) ended) ∙ ends.gone,
      subst (In closing) (sym (store_sent uid (erase sid p) ended)) closing_sent,
      others_kept u t o,
    )

    -- When the timer of an inactive session ends that has a workspace open, and the provisioner does
    -- not answer, the handler fails: the workspace is no longer cached, but the session still is, as
    -- it was, and its timer has not been started again.
    pub handle_stale_session_stuck :
        net.dispose_answered uuid ≡ false
        → (let (r, w') = handle_stale_session cfg net uid sid w in
            (r ≡ err dispose_failed)
            × (session_of w' uid sid ≡ some s)
            × (get_workspace w' uuid ≡ none)
            × (get_timer w' (Timer.session uid sid) ≡ get_timer w (Timer.session uid sid)))
    handle_stale_session_stuck silent = rw (stuck_lem silent) (
      refl,
      ended_sessions uid sid ∙ ap (session_in_presence sid) here ∙ found,
      ends.gone,
      ends.sessions uid sid,
    )
