-- ===== src/Gateway/Presence/Frame.antt =====
-- One session's handlers leave every other session and its timer alone.
use hide_server.Base.{
  str_dec, str_key, nat_key, lookup, insert, erase, lookup-insert, lookup-erase, ℕ, String, ◌≡◌,
  refl, ◌∙◌, ◌≢◌, ◌⊎◌, ite, Option, none, some, [], ◌∷◌, arith,
}
use hide_server.Cache.{Liveness, active, inactive, CachedSession, CachedPresence, Timer, timer_key}
use hide_server.Platform.{World, get_presence, get_timer, set_presence, set_timer}
use hide_server.Gateway.{Config}
use hide_server.Gateway.Presence.{session_timer, store_presence}
use hide_server.Gateway.Presence.Workspaces.{Ends}

abbrev pub session_in_presence : String → Option CachedPresence → Option CachedSession
session_in_presence sid none = none
session_in_presence sid (some p) = lookup sid p

abbrev pub session_of : World → String → String → Option CachedSession
session_of w uid sid = session_in_presence sid (get_presence w uid)

pub session_of-set_presence :
    (uid : String) (p : CachedPresence) (w : World) (u s : String)
    → session_of (set_presence uid p w) u s ≡ ite (str_dec uid u) (lookup s p) (session_of w u s)
session_of-set_presence uid p w u s = ground (arith, lookup-insert uid u p w.cache.presences)

pub session_of-store_presence :
    (uid : String) (p : CachedPresence) (w : World) (u s : String)
    → session_of (store_presence uid p w) u s ≡ ite (str_dec uid u) (lookup s p) (session_of w u s)
unfolding lookup
session_of-store_presence uid [] w u s = ground (arith, lookup-erase uid u w.cache.presences)
session_of-store_presence uid (e ∷ p) w u s = session_of-set_presence uid (e ∷ p) w u s

module _ (uid sid : String) where
  abbrev pub IsOther : String → String → Type 0
  IsOther u s = (uid ≢ u) ⊎ (sid ≢ s)

  pub record Frame (w w' : World) : Type 0 where
    pub sessions : (u s : String) → IsOther u s → session_of w' u s ≡ session_of w u s
    pub timers :
        (u s : String)
        → IsOther u s
        → get_timer w' (Timer.session u s) ≡ get_timer w (Timer.session u s)

  pub Frame-trans : {w v u : World} → Frame w v → Frame v u → Frame w u
  Frame-trans f g = record {
    sessions = λ u s o. g.sessions u s o ∙ f.sessions u s o;
    timers = λ u s o. g.timers u s o ∙ f.timers u s o;
  }

  -- A write of the user's presence that changes the one session.
  pub insert-Frame :
      (w : World) (p : CachedPresence) (x : CachedSession)
      → ((s : String) → sid ≢ s → lookup s p ≡ session_of w uid s)
      → Frame w (set_presence uid (insert sid x p) w)
  insert-Frame w p x same = record { sessions = sessions; timers = λ u s o. refl }
    where
      sessions :
          (u s : String)
          → IsOther u s
          → session_of (set_presence uid (insert sid x p) w) u s ≡ session_of w u s
      sessions u s o = session_of-set_presence uid (insert sid x p) w u s ∙ elim (str_dec uid u) [
        | yes e ↦ ground (arith, lookup-insert sid s x p, same s)
        | no ne ↦ ground arith
      ]

  set_timer-Frame : (w : World) (v ttl : ℕ) → Frame w (set_timer (Timer.session uid sid) v ttl w)
  set_timer-Frame w v ttl = record {
    sessions = λ u s o. refl;
    timers = λ u s o. ground (
      arith,
      lookup-insert (Timer.session uid sid) (Timer.session u s) (record { value = v; ttl = ttl })
          w.cache.timers,
    );
  }

  pub session_timer-Frame :
      (cfg : Config) (st : Liveness) (w : World) → Frame w (session_timer cfg uid sid st w)
  unfolding session_timer
  session_timer-Frame cfg active w = set_timer-Frame w 1 cfg.session_ping_timeout
  session_timer-Frame cfg inactive w = set_timer-Frame w 0 cfg.session_activity_timeout

  pub erase-Frame :
      (w : World) (p : CachedPresence)
      → ((s : String) → sid ≢ s → lookup s p ≡ session_of w uid s)
      → Frame w (store_presence uid (erase sid p) w)
  erase-Frame w p same = record { sessions = sessions; timers = timers (erase sid p) }
    where
      timers :
          (q : CachedPresence) (u s : String)
          → IsOther u s
          → get_timer (store_presence uid q w) (Timer.session u s) ≡ get_timer w (Timer.session u s)
      timers [] u s o = refl
      timers (e ∷ q) u s o = refl

      sessions :
          (u s : String)
          → IsOther u s
          → session_of (store_presence uid (erase sid p) w) u s ≡ session_of w u s
      sessions u s o = session_of-store_presence uid (erase sid p) w u s ∙ elim (str_dec uid u) [
        | yes e ↦ ground (arith, lookup-erase sid s p, same s)
        | no ne ↦ ground arith
      ]

  pub Ends-Frame : (uuid : String) {w w' : World} → Ends uuid w w' → Frame w w'
  Ends-Frame uuid e = record {
    sessions = λ u s o. rw e.presences refl;
    timers = λ u s o. e.sessions u s;
  }
