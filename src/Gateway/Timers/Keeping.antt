-- ===== src/Gateway/Timers/Keeping.antt =====
-- Handlers that touch no presence and no session's timer.
use hide_server.Base.{
  for_each, str_empty, str_key, nat_key, lookup, Map, has, String, ◌≡◌, refl, ◌∙◌, inl, inr, Bool,
  true, false, Option, none, some, List, [], ◌∷◌, Result, ◌>>=◌, Bool-cases, Option-cases, ok, err,
}
use hide_server.Cache.{active, CachedWorkspace, CachedMembership, timer_key}
use hide_server.Platform.{
  World, Handler, Event, SocketMessage, EnvAction, EnvMessage, send, get_workspace,
}
use hide_server.Gateway.{Config, Services}
use hide_server.Gateway.Membership.{
  read_all, get_membership, entry, check_membership, fetch_membership, cache_membership, invalidate,
  confirm, invalidate_removed_members, update_added_members, handle_members_modified,
}
use hide_server.Gateway.Presence.{refresh}
use hide_server.Gateway.Presence.Frame.{Frame}
use hide_server.Gateway.Presence.Sessions.{Keeps, set_workspace_state-Keeps}
use hide_server.Gateway.Socket.{
  routed, answer, handle_fs_loss, handle_ssh_loss, sticky_instance, handle_loss, route,
  handle_env_message, deliver, make_aware, text_of, presence_of,
}

pub Keeps-refl : (w : World) → Keeps w w
Keeps-refl w = record { presences = refl; timers = λ u s. refl; locks = refl }

pub Keeps-trans : {w v u : World} → Keeps w v → Keeps v u → Keeps w u
Keeps-trans f g = record {
  presences = g.presences ∙ f.presences;
  timers = λ u s. g.timers u s ∙ f.timers u s;
  locks = g.locks ∙ f.locks;
}

pub Keeps-Frame : (uid sid : String) {w v : World} → Keeps w v → Frame uid sid w v
Keeps-Frame uid sid k = record {
  sessions = λ u s o. rw k.presences refl;
  timers = λ u s o. k.timers u s;
}

pub sends : (e : Event) (w : World) → Keeps w (send e w)
sends e w = record { presences = refl; timers = λ u s. refl; locks = refl }

cache_membership-Keeps :
    (uid uuid : String) (b : Bool) (c : Option CachedMembership) (w : World)
    → Keeps w (cache_membership uid uuid b c w)
unfolding cache_membership
cache_membership-Keeps uid uuid b none w = record {
  presences = refl;
  timers = λ u s. refl;
  locks = refl;
}
cache_membership-Keeps uid uuid b (some m) w = record {
  presences = refl;
  timers = λ u s. refl;
  locks = refl;
}

check_membership-Keeps :
    (net : Services) (uid uuid : String) (w : World) → Keeps w (check_membership net uid uuid w).1
unfolding check_membership fetch_membership
check_membership-Keeps net uid uuid w = elim (Option-cases (entry uuid (get_membership w uid))) [
  | inl e ↦ elim (Option-cases (net.membership_check uid uuid)) [
    | inl a ↦ rw (e, check_membership) (rw (a, fetch_membership) (Keeps-refl w))
    | inr (b, a) ↦
        rw (e, check_membership) (rw (a, fetch_membership) (cache_membership-Keeps uid uuid b _ w))
  ]
  | inr (b, e) ↦ rw (e, check_membership) (Keeps-refl w)
]

answer-Keeps :
    (socket : String) (id : Option String) (msg : SocketMessage) (w : World)
    → Keeps w (answer socket id msg w)
unfolding answer
answer-Keeps socket none msg w = Keeps-refl w
answer-Keeps socket (some id) msg w = elim (Bool-cases (str_empty id)) [
  | inl e ↦ rw e (Keeps-refl w)
  | inr e ↦ rw e (sends _ w)
]

handle_loss-Keeps :
    (socket : String) (x : CachedWorkspace) (sid uuid : String) (a : EnvAction) (id : Option String)
    (w : World)
    → Keeps w (handle_loss socket x sid (record { uuid = uuid; action = a; correlation = id }) w)
unfolding handle_loss handle_fs_loss handle_ssh_loss
handle_loss-Keeps socket x sid uuid EnvAction.ws_run id w = answer-Keeps socket id _ w
handle_loss-Keeps socket x sid uuid (EnvAction.fs_sync ino) id w = record {
  presences = refl;
  timers = λ u s. refl;
  locks = refl;
}
handle_loss-Keeps socket x sid uuid _ id w = record {
  presences = refl;
  timers = λ u s. refl;
  locks = refl;
}

route-Keeps :
    (net : Services) (socket uid sid : String) (x : CachedWorkspace) (msg : EnvMessage) (w : World)
    → Keeps w (route net socket uid sid x msg w)
unfolding route
route-Keeps net socket uid sid x msg w = elim (Option-cases (sticky_instance x sid msg.action)) [
  | inl e ↦ rw (e, route) (sends _ w)
  | inr (i, e) ↦
      rw (e, route)
        (elim (Bool-cases (net.is_healthy (text_of i))) [
          | inl a ↦ rw a (sends _ w)
          | inr a ↦ rw a (handle_loss-Keeps socket x sid msg.uuid msg.action msg.correlation w)
        ])
]

deliver-Keeps :
    (uid sid : String) (msg : SocketMessage) (w : World) → Keeps w (deliver uid sid msg w)
unfolding deliver
deliver-Keeps uid sid msg w = elim (Option-cases (lookup sid (presence_of w uid))) [
  | inl e ↦ rw (e, deliver) (Keeps-refl w)
  | inr (s, e) ↦
      rw (e, deliver)
        (elim (Bool-cases (str_empty s.socket_id)) [
          | inl a ↦ rw a (Keeps-refl w)
          | inr a ↦ rw a (sends _ w)
        ])
]

pub make_aware-Keeps :
    (uid sid : String) (uids : Option (List String)) (w : World)
    → Keeps w (make_aware uid sid uids w)
unfolding make_aware
make_aware-Keeps uid sid none w = Keeps-refl w
make_aware-Keeps uid sid (some uids) w = deliver-Keeps uid sid _ w

pub refuse-Keeps :
    (socket : String) (id : Option String) (msg : SocketMessage) (e : Event) (w : World)
    → Keeps w (send e (answer socket id msg w))
refuse-Keeps socket id msg e w = Keeps-trans (answer-Keeps socket id msg w) (sends e _)

pub refresh-Keeps :
    (cfg : Config) (uid sid uuid : String) (b : Bool) (w : World)
    → Keeps w (refresh cfg uid sid uuid b w).1
unfolding refresh
refresh-Keeps cfg uid sid uuid false w = Keeps-refl w
refresh-Keeps cfg uid sid uuid true w =
    set_workspace_state-Keeps cfg (get_workspace w uuid) uid sid (some uuid) active w

pub checked-Keeps :
    {A : Type 0} (net : Services) (uid uuid : String) (f : Bool → Handler A) (w : World)
    → ((b : Bool) (v : World) → Keeps v (f b v).1)
    → Keeps w ((check_membership net uid uuid >>= f) w).1
checked-Keeps net uid uuid f w h = go (check_membership net uid uuid w).0 refl
  where
    k : Keeps w (check_membership net uid uuid w).1
    k = check_membership-Keeps net uid uuid w

    go :
        (r : Result Bool)
        → (check_membership net uid uuid w).0 ≡ r
        → Keeps w ((check_membership net uid uuid >>= f) w).1
    go (err x) e = rw (e, ◌>>=◌) k
    go (ok b) e = rw (e, ◌>>=◌) (Keeps-trans k (h b _))

pub handle_env_message-Keeps :
    (net : Services) (socket uid sid : String) (msg : EnvMessage) (w : World)
    → Keeps w (handle_env_message net socket uid sid msg w).1
unfolding handle_env_message routed answer
handle_env_message-Keeps net socket uid sid msg w = elim (Option-cases (get_workspace w msg.uuid)) [
  | inl e ↦ rw (e, handle_env_message) (answer-Keeps socket msg.correlation _ w)
  | inr (x, e) ↦
      rw (e, handle_env_message)
        (checked-Keeps net uid msg.uuid (routed net socket uid sid x msg) w (done x))
]
  where
    done :
        (x : CachedWorkspace) (b : Bool) (v : World)
        → Keeps v (routed net socket uid sid x msg b v).1
    done x true v = route-Keeps net socket uid sid x msg v
    done x false v = answer-Keeps socket msg.correlation _ v

invalidate-Keeps :
    (uuid uid : String) (c : Option CachedMembership) (w : World)
    → Keeps w (invalidate uuid (uid, c) w)
unfolding invalidate
invalidate-Keeps uuid uid none w = Keeps-refl w
invalidate-Keeps uuid uid (some m) w = elim (Bool-cases (has uuid m)) [
  | inl e ↦ rw e (record { presences = refl; timers = λ u s. refl; locks = refl })
  | inr e ↦ rw e (Keeps-refl w)
]

confirm-Keeps :
    (uuid uid : String) (c : Option CachedMembership) (w : World)
    → Keeps w (confirm uuid (uid, c) w)
unfolding confirm
confirm-Keeps uuid uid none w = Keeps-refl w
confirm-Keeps uuid uid (some m) w = elim (Bool-cases (has uuid m)) [
  | inl e ↦ rw e (record { presences = refl; timers = λ u s. refl; locks = refl })
  | inr e ↦ rw e (Keeps-refl w)
]

loop-Keeps :
    (step : String × Option CachedMembership → World → World)
    → ((uid : String) (c : Option CachedMembership) (w : World) → Keeps w (step (uid, c) w))
    → (es : Map String (Option CachedMembership)) (w : World) → Keeps w (for_each step es w)
loop-Keeps step h [] w = Keeps-refl w
loop-Keeps step h ((uid, c) ∷ es) w =
    Keeps-trans (h uid c w) (loop-Keeps step h es (step (uid, c) w))

pub handle_members_modified-Keeps :
    (uuid : String) (added removed : List String) (w : World)
    → Keeps w (handle_members_modified uuid added removed w)
unfolding handle_members_modified invalidate_removed_members update_added_members
handle_members_modified-Keeps uuid added removed w =
    Keeps-trans (loop-Keeps (invalidate uuid) (invalidate-Keeps uuid) (read_all w removed) w) (
      loop-Keeps (confirm uuid) (confirm-Keeps uuid)
        (read_all (invalidate_removed_members removed uuid w) added) _)
