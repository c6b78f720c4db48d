-- ===== src/Gateway/Timers/Timed.antt =====
-- A cached session has its timer: what connections and their ends do to that.
use hide_server.Base.{
  member, str_dec, str_key, nat_key, lookup, insert, lookup-insert, String, ◌≡◌, refl, subst, ◌∙◌,
  ◌≢◌, ◌⊎◌, inl, inr, Bool, true, false, Option, none, some, List, [], arith, Void, pure, ◌>>◌,
  modify, then_keeps, Bool-cases, Option-cases,
}
use hide_server.Gateway.Socket.{open_session, touch_workspace}
use hide_server.Gateway.Socket.Connections.{open_session_lem}
use hide_server.Gateway.Presence.Sessions.{set_workspace_state-Keeps}
use hide_server.Cache.{
  CachedSession, CachedPresence, Liveness, active, inactive, Timer, Timed, timer_key,
}
use hide_server.Platform.{World, Handler, get_presence, get_timer, set_presence}
use hide_server.Gateway.{Config, Services}
use hide_server.Gateway.Presence.{with_state, session_timer, set_session_state, defined}
use hide_server.Gateway.Presence.Frame.{
  session_of, session_in_presence, IsOther, Frame, Frame-trans, insert-Frame, session_timer-Frame,
}
use hide_server.Gateway.Presence.Sessions.{
  Keeps, get_timer-session_timer, set_session_state_lem, started,
}
use hide_server.Gateway.Socket.{
  Handshake, SocketData, presence_of, handle_connection, handle_disconnect, acquire_lock, release,
  session_lock, end_session, admit, close_previous,
}
use hide_server.Gateway.Socket.Connections.{
  connected, close_previous-Keeps, acquire_lock_lem, acquire_lock_held, recorded, opened, touched,
  admitted,
}
use hide_server.Gateway.Timers.Keeping.{sends}
use hide_server.Gateway.Timers.{World, Timer, Config, handle_connection}

unfoldable pub HasTimer : World → String → String → Type 0
HasTimer w u s =
    (session_of w u s ≡ none) ⊎ ((t : Timed) × (get_timer w (Timer.session u s) ≡ some t))

abbrev pub IsTimed : World → Type 0
IsTimed w = (u s : String) → HasTimer w u s

-- every session but one
abbrev pub OthersTimed : String → String → World → Type 0
OthersTimed uid sid w = (u s : String) → IsOther uid sid u s → HasTimer w u s

pub carry :
    (w w' : World) (u s : String)
    → session_of w' u s ≡ session_of w u s
    → get_timer w' (Timer.session u s) ≡ get_timer w (Timer.session u s)
    → HasTimer w u s
    → HasTimer w' u s
unfolding HasTimer
carry w w' u s e f (inl gone) = inl (e ∙ gone)
carry w w' u s e f (inr (t, g)) = inr (t, f ∙ g)

pub restore :
    (uid sid : String) (w w' : World)
    → OthersTimed uid sid w
    → Frame uid sid w w'
    → HasTimer w' uid sid
    → IsTimed w'
unfolding HasTimer
restore uid sid w w' h f one u s = elim (str_dec uid u) [
  | no ne ↦ carry w w' u s (f.sessions u s (inl ne)) (f.timers u s (inl ne)) (h u s (inl ne))
  | yes e ↦ elim (str_dec sid s) [
    | no ne ↦ carry w w' u s (f.sessions u s (inr ne)) (f.timers u s (inr ne)) (h u s (inr ne))
    | yes e' ↦ subst (λ v. HasTimer w' v s) e (subst (HasTimer w' uid) e' one)
  ]
]

pub others : (uid sid : String) (w : World) → IsTimed w → OthersTimed uid sid w
others uid sid w h u s o = h u s

pub kept : {w w' : World} → Keeps w w' → IsTimed w → IsTimed w'
kept {w} {w'} k h u s = carry w w' u s (rw k.presences refl) (k.timers u s) (h u s)

pub timed :
    (w : World) (u s : String) (t : Timed)
    → get_timer w (Timer.session u s) ≡ some t
    → HasTimer w u s
unfolding HasTimer
timed w u s t e = inr (t, e)

-- `set_session_state` writes one session, and its timer
module _ (cfg : Config) (uid sid : String) (st : Liveness) (x : CachedSession) (p : CachedPresence)
    (w : World) (same : (s : String) → sid ≢ s → lookup s p ≡ session_of w uid s) where
  abbrev pub written : World
  written = session_timer cfg uid sid st (set_presence uid (insert sid x p) w)

  written-Frame : Frame uid sid w written
  written-Frame =
      Frame-trans uid sid (insert-Frame uid sid w p x same) (session_timer-Frame uid sid cfg st _)

  pub written-IsTimed : OthersTimed uid sid w → IsTimed written
  written-IsTimed h =
      restore uid sid w written h written-Frame
        (timed written uid sid (started cfg st) (get_timer-session_timer cfg uid sid st _))

pub presence_of_lem :
    (w : World) (uid s : String) → lookup s (presence_of w uid) ≡ session_of w uid s
unfolding lookup
presence_of_lem w uid s = go (get_presence w uid)
  where
    go :
        (o : Option CachedPresence)
        → lookup s (elim o [ none ↦ [] | some p ↦ p ]) ≡ session_in_presence s o
    go none = refl
    go (some p) = refl

opened-IsTimed :
    (cfg : Config) (uid sid socket : String) (w : World)
    → IsTimed w
    → IsTimed (opened cfg uid sid socket w)
unfolding recorded
opened-IsTimed cfg uid sid socket w h = kept (touched cfg uid sid socket w) (
    written-IsTimed cfg uid sid active c (insert sid c (presence_of w uid)) _ same_others
      (others uid sid _ (kept (close_previous-Keeps _ w) h)))
  where
    c : CachedSession
    c = connected cfg uid sid socket w

    closed : World → World
    closed v = close_previous (lookup sid (presence_of w uid)) v

    elsewhere :
        (s : String)
        → sid ≢ s
        → lookup s (insert sid c (presence_of w uid)) ≡ lookup s (presence_of w uid)
    elsewhere s ne = ground (arith, lookup-insert sid s c (presence_of w uid))

    same_others :
        (s : String)
        → sid ≢ s
        → lookup s (insert sid c (presence_of w uid)) ≡ session_of (closed w) uid s
    same_others s ne =
        elsewhere s ne
        ∙ presence_of_lem w uid s
        ∙ rw ((close_previous-Keeps (lookup sid (presence_of w uid)) w).presences) refl

pub unlocked : (ls : List String) (w : World) → IsTimed w → IsTimed (record w { locks = ls })
unlocked ls w h u s = carry w (record w { locks = ls }) u s refl refl (h u s)

pub locks-IsTimed : (name : String) (w : World) → IsTimed w → IsTimed (acquire_lock name w).1
locks-IsTimed name w i = elim (Bool-cases (member name w.locks)) [
  | inl e ↦ rw (acquire_lock_held name w e) i
  | inr e ↦ rw (acquire_lock_lem name w e) (unlocked _ w i)
]

pub releases-IsTimed : (name : String) (w : World) → IsTimed w → IsTimed (release name w).1
unfolding release
releases-IsTimed name w i = unlocked _ w i

admits-IsTimed :
    (cfg : Config) (uid : String) (h : Handshake) (w : World)
    → IsTimed w
    → IsTimed (admit cfg uid h w).1
unfolding admit release
admits-IsTimed cfg uid h w i =
    then_keeps IsTimed (acquire_lock name) (λ _. opening >> closing) w (locks-IsTimed name w i)
      (λ _ v j.
        then_keeps IsTimed opening (λ _. closing) v
          (rw (open_session_lem cfg uid h.session_id h.socket_id v)
            (opened-IsTimed cfg uid h.session_id h.socket_id v j))
          (λ _ u k. releases-IsTimed name u k))
  where
    name : String
    name = session_lock uid h.session_id

    opening : Handler Void
    opening = open_session cfg uid h.session_id h.socket_id

    closing : Handler SocketData
    closing = release name >> pure (some (uid, h.session_id))

pub connects-IsTimed :
    (cfg : Config) (net : Services) (allow : Bool) (h : Handshake) (w : World)
    → IsTimed w
    → IsTimed (handle_connection cfg net allow h w).1
unfolding handle_connection
connects-IsTimed cfg net false h w i = kept (sends _ w) i
connects-IsTimed cfg net true h w i = elim (Option-cases (defined h.token)) [
  | inl a ↦ rw (a, handle_connection) (kept (sends _ w) i)
  | inr (token, a) ↦ elim (Option-cases (net.authenticate token)) [
    | inl b ↦ rw (a, handle_connection) (rw (b, handle_connection) (kept (sends _ w) i))
    | inr (uid, b) ↦ rw (admitted cfg net h w uid token a b) (admits-IsTimed cfg uid h w i)
  ]
]

pub leaves-IsTimed :
    (cfg : Config) (d : SocketData) (w : World) → IsTimed w → IsTimed (handle_disconnect cfg d w).1
unfolding handle_disconnect end_session touch_workspace
leaves-IsTimed cfg none w i = i
leaves-IsTimed cfg (some (uid, sid)) w i =
    then_keeps IsTimed (acquire_lock name) (λ _. after) w (locks-IsTimed name w i)
      (λ _ v j. at_end v j)
  where
    name : String
    name = session_lock uid sid

    after : Handler Void
    after v = end_session cfg uid sid (presence_of v uid) v

    resting :
        (v : World) (s : CachedSession)
        → lookup sid (presence_of v uid) ≡ some s
        → IsTimed v
        → IsTimed (set_session_state cfg (presence_of v uid) uid sid inactive v).1
    resting v s e j = rw (set_session_state_lem cfg (presence_of v uid) uid sid inactive s v e) (
        written-IsTimed cfg uid sid inactive (with_state inactive s) (presence_of v uid) v
          (λ s' _. presence_of_lem v uid s') (others uid sid v j))

    at_end : (v : World) → IsTimed v → IsTimed (after v).1
    at_end v j = elim (Option-cases (lookup sid (presence_of v uid))) [
      | inl e ↦ rw (e, end_session) j
      | inr (s, e) ↦
          rw (e, end_session)
            (then_keeps IsTimed (set_session_state cfg (presence_of v uid) uid sid inactive)
              (λ _. modify (touch_workspace cfg uid sid s.ws_uuid inactive) >> release name) v
              (resting v s e j)
              (λ _ u k.
                releases-IsTimed name _
                  (kept (set_workspace_state-Keeps cfg _ uid sid s.ws_uuid inactive u) k)))
    ]
