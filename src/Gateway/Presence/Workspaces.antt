-- ===== src/Gateway/Presence/Workspaces.antt =====
-- What the end of a workspace does: its record and the timers of its watchers go, the provisioner is
-- told, and no session's record or timer is touched.
use hide_server.Base.{
  In, In-append_left, In-append_right, for_each, str_key, nat_key, lookup, lookup-erase,
  lookup-erase_self, String, ◌≡◌, refl, sym, ap, subst, ◌∙◌, ◌≢◌, inl, inr, Bool, true, false, not,
  Option, none, some, List, [], ◌∷◌, map, arith, Failure, throw_if, if◌then◌else◌, ok, err,
}
use hide_server.Cache.{CachedWorkspace, Timer, timer_key}
use hide_server.Platform.{
  send, del_workspace, World, Event, SocketMessage, get_workspace, get_timer,
}
use hide_server.Gateway.{Services}
use hide_server.Gateway.Presence.{
  watchers, open_sessions, forget_timer, say_inactive, disconnect_watchers, handle_workspace_expiry,
  dispose_failed,
}

module _ (uuid : String) where
  -- all but the timers of the workspace is as before
  pub record Forgets (w w' : World) : Type 0 where
    pub presences : w'.cache.presences ≡ w.cache.presences
    pub workspaces : w'.cache.workspaces ≡ w.cache.workspaces
    pub memberships : w'.cache.memberships ≡ w.cache.memberships
    pub locks : w'.locks ≡ w.locks
    pub sessions :
        (uid sid : String)
        → get_timer w' (Timer.session uid sid) ≡ get_timer w (Timer.session uid sid)

  other_timer :
      (u s : String) (w : World) (uid sid : String)
      → get_timer (forget_timer uuid (u, s) w) (Timer.session uid sid)
        ≡ get_timer w (Timer.session uid sid)
  other_timer u s w uid sid =
      ground (arith, lookup-erase (Timer.workspace u s uuid) (Timer.session uid sid) w.cache.timers)

  forget_all :
      (found : List (String × String)) (w : World)
      → Forgets w (for_each (forget_timer uuid) found w)
  forget_all [] w = record {
    presences = refl;
    workspaces = refl;
    memberships = refl;
    locks = refl;
    sessions = λ uid sid. refl;
  }
  forget_all ((u, s) ∷ found) w =
      let f = forget_all found (forget_timer uuid (u, s) w) in
      record {
        presences = f.presences;
        workspaces = f.workspaces;
        memberships = f.memberships;
        locks = f.locks;
        sessions = λ uid sid. f.sessions uid sid ∙ other_timer u s w uid sid;
      }

  stays_forgotten :
      (t : Timer) (found : List (String × String)) (w : World)
      → get_timer w t ≡ none
      → get_timer (for_each (forget_timer uuid) found w) t ≡ none
  stays_forgotten t [] w e = e
  stays_forgotten t ((u, s) ∷ found) w e =
      stays_forgotten t found (forget_timer uuid (u, s) w)
        (ground (arith, lookup-erase (Timer.workspace u s uuid) t w.cache.timers))

  -- each watcher's timer is gone
  forgotten :
      (uid sid : String) (found : List (String × String)) (w : World)
      → In (uid, sid) found
      → get_timer (for_each (forget_timer uuid) found w) (Timer.workspace uid sid uuid) ≡ none
  forgotten uid sid [] w h = absurd h
  forgotten uid sid ((u, s) ∷ found) w (inl e) =
      stays_forgotten (Timer.workspace uid sid uuid) found (forget_timer uuid (u, s) w) (
        ground (
          arith,
          lookup-erase (Timer.workspace u s uuid) (Timer.workspace uid sid uuid) w.cache.timers,
        ))
  forgotten uid sid ((u, s) ∷ found) w (inr h) =
      forgotten uid sid found (forget_timer uuid (u, s) w) h

forget_sent :
    (uuid : String) (found : List (String × String)) (w : World)
    → (for_each (forget_timer uuid) found w).sent ≡ w.sent
forget_sent uuid [] w = refl
forget_sent uuid ((u, s) ∷ found) w = forget_sent uuid found (forget_timer uuid (u, s) w)

-- What becomes of the shared state when a workspace ends.
pub record Ends (uuid : String) (w w' : World) : Type 0 where
  pub presences : w'.cache.presences ≡ w.cache.presences
  pub memberships : w'.cache.memberships ≡ w.cache.memberships
  pub locks : w'.locks ≡ w.locks
  pub sessions :
      (uid sid : String)
      → get_timer w' (Timer.session uid sid) ≡ get_timer w (Timer.session uid sid)
  pub gone : get_workspace w' uuid ≡ none
  pub others : (other : String) → uuid ≢ other → get_workspace w' other ≡ get_workspace w other
  pub disposed : In (Event.dispose uuid) w'.sent

close_workspace :
    (uuid : String) (w v : World)
    → Forgets uuid w v
    → Ends uuid w (send (Event.dispose uuid) (del_workspace uuid v))
close_workspace uuid w v f = record {
  presences = f.presences;
  memberships = f.memberships;
  locks = f.locks;
  sessions = f.sessions;
  gone = lookup-erase_self uuid v.cache.workspaces;
  others = λ other ne.
      ground (arith, lookup-erase uuid other v.cache.workspaces) ∙ ap (lookup other) f.workspaces;
  disposed = In-append_right (Event.dispose uuid) v.sent _ (inl refl);
}

abbrev disconnect : String → Option CachedWorkspace → World → World
disconnect uuid found = elim found [ none ↦ λ w. w | some x ↦ disconnect_watchers uuid x ]

disconnect-Forgets :
    (uuid : String) (found : Option CachedWorkspace) (w : World)
    → Forgets uuid w (disconnect uuid found w)
unfolding disconnect_watchers
disconnect-Forgets uuid none w = record {
  presences = refl;
  workspaces = refl;
  memberships = refl;
  locks = refl;
  sessions = λ uid sid. refl;
}
disconnect-Forgets uuid (some x) w =
    let f = forget_all uuid (open_sessions w uuid (watchers x)) w in
    record {
      presences = f.presences;
      workspaces = f.workspaces;
      memberships = f.memberships;
      locks = f.locks;
      sessions = f.sessions;
    }

throw_if-state : (b : Bool) (e : Failure) (w : World) → (throw_if b e w).1 ≡ w
throw_if-state true e w = refl
throw_if-state false e w = refl

In-map : {A B : Type 0} (f : A → B) (a : A) (xs : List A) → In a xs → In (f a) (map f xs)
In-map f a [] h = absurd h
In-map f a (x ∷ xs) (inl e) = inl (ap f e)
In-map f a (x ∷ xs) (inr h) = inr (In-map f a xs h)

module _ (net : Services) (uuid : String) (w : World) where
  abbrev before_dispose : World
  before_dispose = disconnect uuid (get_workspace w uuid) w

  pub handle_workspace_expiry-Ends : Ends uuid w (handle_workspace_expiry net uuid w).1
  unfolding handle_workspace_expiry
  handle_workspace_expiry-Ends =
      subst (Ends uuid w) (sym (throw_if-state (not (net.dispose_answered uuid)) dispose_failed _))
        (close_workspace uuid w before_dispose (disconnect-Forgets uuid (get_workspace w uuid) w))

  module _ (uid sid : String) where
    -- the session has been told, and its timer for the workspace is gone
    abbrev pub IsTold : World → Type 0
    IsTold v =
        In (Event.socket_send uid sid (SocketMessage.disconnect "INACTIVE_TIMEOUT")) v.sent
        × (get_timer v (Timer.workspace uid sid uuid) ≡ none)

    told :
        (x : CachedWorkspace)
        → In (uid, sid) (open_sessions w uuid (watchers x))
        → IsTold (send (Event.dispose uuid) (del_workspace uuid (disconnect uuid (some x) w)))
    unfolding disconnect_watchers
    told x h = (
      In-append_left (say_inactive (uid, sid)) (disconnect uuid (some x) w).sent _
          (In-append_right _ w_sent _ (In-map say_inactive (uid, sid) found h)),
      forgotten uuid uid sid found w h,
    )
      where
        found : List (String × String)
        found = open_sessions w uuid (watchers x)

        w_sent : List Event
        w_sent = (for_each (forget_timer uuid) found w).sent

    pub found-IsTold :
        (x : CachedWorkspace)
        → get_workspace w uuid ≡ some x
        → In (uid, sid) (open_sessions w uuid (watchers x))
        → IsTold (handle_workspace_expiry net uuid w).1
    unfolding handle_workspace_expiry
    found-IsTold x e h =
        subst IsTold (sym (throw_if-state (not (net.dispose_answered uuid)) dispose_failed _)) (
          subst (λ o. IsTold (send (Event.dispose uuid) (del_workspace uuid (disconnect uuid o w))))
            (sym e) (told x h))

  -- what is sent before the end of the workspace stays sent
  pub handle_workspace_expiry-sent :
      (e : Event) → In e w.sent → In e (handle_workspace_expiry net uuid w).1.sent
  unfolding handle_workspace_expiry disconnect_watchers
  handle_workspace_expiry-sent e h =
      subst (λ v. In e v.sent)
        (sym (throw_if-state (not (net.dispose_answered uuid)) dispose_failed _))
        (In-append_left e before_dispose.sent _ (before (get_workspace w uuid)))
    where
      before : (o : Option CachedWorkspace) → In e (disconnect uuid o w).sent
      before none = h
      before (some x) =
          In-append_left e _ _
            (subst (In e) (sym (forget_sent uuid (open_sessions w uuid (watchers x)) w)) h)

  -- It fails exactly if the provisioner does not answer.
  pub handle_workspace_expiry_result :
      (handle_workspace_expiry net uuid w).0
      ≡ (if net.dispose_answered uuid then ok tt else err dispose_failed)
  unfolding handle_workspace_expiry
  handle_workspace_expiry_result = ground arith
