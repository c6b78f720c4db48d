-- ===== src/Gateway/Public/Removal.antt =====
-- What is left in the cache of a user who has been deleted, and of the others.
use hide_server.Base.{
  All, In, str_dec, str_key, nat_key, lookup, erase, Map, keys, lookup-erase, lookup-erase_self,
  String, ◌≡◌, refl, sym, ap, subst, ◌∙◌, ◌≢◌, inl, inr, ite, true, none, some, List, [], ◌∷◌, ◌++◌,
  Void, ◌>>◌, modify, bind_ok,
}
use mathlib.Core.Logic.{if_neg}
use hide_server.Cache.{CachedPresence, Timer, timer_key, timer_dec}
use hide_server.Platform.{World, get_presence, get_timer, del_timer, del_presence, send, Event}
use hide_server.Gateway.Public.{User, Front, Web, removed, get_profile, FilterCall, Visit}
use hide_server.Gateway.Public.Seeding.{call_lem}
use hide_server.Gateway.Public.Names.{call, cuckoo_remove, remove_username}
use hide_server.Gateway.Public.Accounts.{
  remove_sessions, remove_presence, remove_caches, delete_owned_workspaces, handle_webhook,
  user_deleted, del_membership,
}

-- the loop over the sessions touches timers only
remove_sessions_presences :
    (uid : String) (sids : List String) (w : World)
    → (remove_sessions uid sids w).cache.presences ≡ w.cache.presences
unfolding remove_sessions
remove_sessions_presences uid [] w = refl
remove_sessions_presences uid (sid ∷ sids) w =
    remove_sessions_presences uid sids (del_timer (Timer.session uid sid) w)

remove_sessions_memberships :
    (uid : String) (sids : List String) (w : World)
    → (remove_sessions uid sids w).cache.memberships ≡ w.cache.memberships
unfolding remove_sessions
remove_sessions_memberships uid [] w = refl
remove_sessions_memberships uid (sid ∷ sids) w =
    remove_sessions_memberships uid sids (del_timer (Timer.session uid sid) w)

-- a timer that is gone is not set again
erased : (t u : Timer) (w : World) → get_timer w u ≡ none → get_timer (del_timer t w) u ≡ none
erased t u w e = lookup-erase t u w.cache.timers ∙ go (timer_dec t u)
  where
    go : (d : Dec (t ≡ u)) → ite d none (get_timer w u) ≡ none
    go (yes q) = refl
    go (no n) = e

remove_sessions_gone :
    (uid : String) (t : Timer) (sids : List String) (w : World)
    → get_timer w t ≡ none
    → get_timer (remove_sessions uid sids w) t ≡ none
unfolding remove_sessions
remove_sessions_gone uid t [] w e = e
remove_sessions_gone uid t (sid ∷ sids) w e =
    remove_sessions_gone uid t sids (del_timer (Timer.session uid sid) w)
      (erased (Timer.session uid sid) t w e)

remove_sessions_timers :
    (uid sid : String) (sids : List String) (w : World)
    → In sid sids
    → get_timer (remove_sessions uid sids w) (Timer.session uid sid) ≡ none
unfolding remove_sessions
remove_sessions_timers uid sid [] w i = elim i [ ]
remove_sessions_timers uid sid (x ∷ sids) w (inl e) =
    remove_sessions_gone uid (Timer.session uid sid) sids (del_timer (Timer.session uid x) w) (
      subst (λ y. get_timer (del_timer (Timer.session uid x) w) (Timer.session uid y) ≡ none) e
        (lookup-erase_self (Timer.session uid x) w.cache.timers))
remove_sessions_timers uid sid (x ∷ sids) w (inr i) =
    remove_sessions_timers uid sid sids (del_timer (Timer.session uid x) w) i

unfoldable owner_of : Timer → String
owner_of (Timer.session uid sid) = uid
owner_of (Timer.workspace uid sid uuid) = uid

kept :
    (uid sid : String) (t : Timer) (w : World)
    → uid ≢ owner_of t
    → get_timer (del_timer (Timer.session uid sid) w) t ≡ get_timer w t
unfolding owner_of
kept uid sid t w n =
    lookup-erase (Timer.session uid sid) t w.cache.timers ∙ go (timer_dec (Timer.session uid sid) t)
  where
    go : (d : Dec (Timer.session uid sid ≡ t)) → ite d none (get_timer w t) ≡ get_timer w t
    go (yes q) = elim (n (ap owner_of q)) [ ]
    go (no m) = refl

remove_sessions_kept :
    (uid : String) (t : Timer) (sids : List String) (w : World)
    → uid ≢ owner_of t
    → get_timer (remove_sessions uid sids w) t ≡ get_timer w t
unfolding remove_sessions
remove_sessions_kept uid t [] w n = refl
remove_sessions_kept uid t (sid ∷ sids) w n =
    remove_sessions_kept uid t sids (del_timer (Timer.session uid sid) w) n ∙ kept uid sid t w n

-- no membership, profile or presence is cached of the user, and no timer of the sessions
pub record Forgets (uid : String) (sids : List String) (s : Front) : Type 0 where
  pub membership : lookup uid s.world.cache.memberships ≡ none
  pub profile : get_profile uid s ≡ none
  pub presence : get_presence s.world uid ≡ none
  pub timers : All (λ sid. get_timer s.world (Timer.session uid sid) ≡ none) sids

-- the same, as before
pub record Spares (uid : String) (s s' : Front) : Type 0 where
  pub membership : lookup uid s'.world.cache.memberships ≡ lookup uid s.world.cache.memberships
  pub profile : get_profile uid s' ≡ get_profile uid s
  pub presence : get_presence s'.world uid ≡ get_presence s.world uid
  pub timers :
      (sid : String)
      → get_timer s'.world (Timer.session uid sid) ≡ get_timer s.world (Timer.session uid sid)

All-In : (P : String → Type 0) (xs : List String) → ((x : String) → In x xs → P x) → All P xs
All-In P [] h = tt
All-In P (x ∷ xs) h = (h x (inl refl), All-In P xs (λ y i. h y (inr i)))

remove_presence_lem :
    (uid : String) (p : CachedPresence) (w : World)
    → get_presence w uid ≡ some p
    → remove_presence uid w ≡ del_presence uid (remove_sessions uid (keys p) w)
unfolding remove_presence
remove_presence_lem uid p w e = rw (e, remove_presence) refl

abbrev removed_state : User → CachedPresence → Front → List FilterCall → Front
removed_state u p s names = record s {
  world =
      send (Event.delete_owned u.uid)
        (del_presence u.uid (remove_sessions u.uid (keys p) (del_membership u.uid s.world)));
  profiles = erase u.uid s.profiles;
  names = names;
}

removed_state-Forgets :
    (u : User) (p : CachedPresence) (s : Front) (names : List FilterCall)
    → Forgets u.uid (keys p) (removed_state u p s names)
removed_state-Forgets u p s names = record {
  membership =
      ap (lookup u.uid) (remove_sessions_memberships u.uid (keys p) (del_membership u.uid s.world))
      ∙ lookup-erase_self u.uid s.world.cache.memberships;
  profile = lookup-erase_self u.uid s.profiles;
  presence = lookup-erase_self u.uid _;
  timers =
      All-In _ (keys p)
        (λ sid i. remove_sessions_timers u.uid sid (keys p) (del_membership u.uid s.world) i);
}

lookup-erase_other :
    {A : Type 0} (k j : String) (m : Map String A) → k ≢ j → lookup j (erase k m) ≡ lookup j m
lookup-erase_other k j m n = lookup-erase k j m ∙ if_neg (str_dec k j) n none (lookup j m)

removed_state-Spares :
    (u : User) (p : CachedPresence) (s : Front) (names : List FilterCall) (v : String)
    → u.uid ≢ v
    → Spares v s (removed_state u p s names)
unfolding owner_of
removed_state-Spares u p s names v n = record {
  membership =
      ap (lookup v) (remove_sessions_memberships u.uid (keys p) (del_membership u.uid s.world))
      ∙ lookup-erase_other u.uid v s.world.cache.memberships n;
  profile = lookup-erase_other u.uid v s.profiles n;
  presence =
      lookup-erase_other u.uid v _ n
      ∙ ap (lookup v) (remove_sessions_presences u.uid (keys p) (del_membership u.uid s.world));
  timers = λ sid. remove_sessions_kept u.uid (Timer.session v sid) (keys p) _ n;
}

webhook_deleted_lem :
    (web : Web) (s : Front) (u : User) (p : CachedPresence)
    → web.accepts s.names (removed (web.lower u.username)) ≡ true
    → get_presence s.world u.uid ≡ some p
    → (handle_webhook web (user_deleted u) s).1
      ≡ removed_state u p s (s.names ++ removed (web.lower u.username) ∷ [])
unfolding handle_webhook remove_username cuckoo_remove delete_owned_workspaces remove_caches
webhook_deleted_lem web s u p a e =
    ap (λ q. q.1) (bind_ok (call web c) rest s _ tt (call_lem web c s a))
    ∙ ap
        (λ w. record s {
          world = send (Event.delete_owned u.uid) w;
          profiles = erase u.uid s.profiles;
          names = s.names ++ c ∷ [];
        })
        (remove_presence_lem u.uid p (del_membership u.uid s.world) e)
  where
    c : FilterCall
    c = removed (web.lower u.username)

    rest : Void → Visit Void
    rest _ = modify (remove_caches u.uid) >> delete_owned_workspaces web u.uid

-- When a user is deleted who has a presence, and the filter takes the removal of the name, the
-- memberships, the profile, the presence and the timers of its sessions leave the cache, and those of
-- any other user are as before, also if the request to delete the user's workspaces fails.
pub handle_webhook-Forgets :
    (web : Web) (s : Front) (u : User) (p : CachedPresence) (v : String)
    → web.accepts s.names (removed (web.lower u.username)) ≡ true
    → get_presence s.world u.uid ≡ some p
    → u.uid ≢ v
    → (let s' = (handle_webhook web (user_deleted u) s).1 in
        Forgets u.uid (keys p) s' × Spares v s s')
handle_webhook-Forgets web s u p v a e n =
    subst (λ s'. Forgets u.uid (keys p) s' × Spares v s s')
      (sym (webhook_deleted_lem web s u p a e))
      (removed_state-Forgets u p s _, removed_state-Spares u p s _ v n)
