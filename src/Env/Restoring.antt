-- ===== src/Env/Restoring.antt =====
-- env/src/core/workspace.service.ts, `handleEnvClose`: what each of its steps does to the watchers.
use hide_server.Base.{
  member, for_each, str_key, nat_key, lookup, Map, String, ◌≡◌, refl, sym, ap, subst, ◌∙◌, ◌≢◌, inl,
  inr, Bool, true, false, ◌&&◌, Option, none, some, List, [], ◌∷◌, arith, if◌then◌else◌,
  Option-cases,
}
use hide_server.Cache.{CachedPresence, CachedWorkspace, Timer, timer_key, inactive}
use hide_server.Platform.{set_timer}
use hide_server.Platform.{World, Event, get_workspace, set_workspace}
use hide_server.Env.{Config, Connection, Instance, emit}
use hide_server.Env.Files.{close_dir}
use hide_server.Env.Files.Watchers.{IsDistinct, IsTidy, is_same}
use hide_server.Env.Files.Watching.{
  watching, AllTidy, watching_at, watching-close_dir, close_dir-AllTidy, set_workspace-AllTidy,
  watching-set_workspace,
}
use hide_server.Env.Files.Listing.{AllTidy-cache, watching-cache}
use hide_server.Env.Terminals.{
  connection_of, sessions_of, end_connection, update_conn_cache, close_all_ssh,
}
use hide_server.Env.Locks.{watched_by}
use hide_server.Env.Closing.{close_all_dirs, retire_workspace, hide_workspace}

pub watching-close_all_dirs :
    (u uuid : String) (ps : List String) (w : World) (v q : String)
    → AllTidy w
    → watching uuid (close_all_dirs u uuid ps w) v q
      ≡ (if is_same u v && member q ps then false else watching uuid w v q)
unfolding close_all_dirs member is_same
watching-close_all_dirs u uuid [] w v q tidy = ground arith
watching-close_all_dirs u uuid (p ∷ ps) w v q tidy =
    watching-close_all_dirs u uuid ps (close_dir u uuid p w) v q (close_dir-AllTidy u uuid p w tidy)
    ∙ ap (λ b. if is_same u v && member q ps then false else b)
        (watching-close_dir u uuid p w v q tidy)
    ∙ both (is_same u v) (watching uuid w v q)
  where
    both :
        (a b : Bool)
        → (if a && member q ps then false else (if a && is_same p q then false else b))
          ≡ (if a && member q (p ∷ ps) then false else b)
    both a b = ground arith

member-watched_by :
    (u q : String) (dirs : Map String (List String)) (us : List String)
    → lookup q dirs ≡ some us
    → member u us ≡ true
    → member q (watched_by u dirs) ≡ true
unfolding watched_by member lookup
member-watched_by u q [] us e h = cc
member-watched_by u q ((p, vs) ∷ dirs) us e h = ground (arith, member-watched_by u q dirs us)

-- A workspace that is stored again with its directories is watched as before.
pub record Restored (uuid : String) (w w' : World) : Type 0 where
  pub tidy : AllTidy w'
  pub same : (v q : String) → watching uuid w' v q ≡ watching uuid w v q

same_dirs-IsTidy : (x x' : CachedWorkspace) → x'.dirs ≡ x.dirs → IsTidy x → IsTidy x'
same_dirs-IsTidy x x' e h = record {
  watched = λ p. subst (λ d. lookup p d ≢ some []) (sym e) (h.watched p);
  distinct = λ p.
      subst (λ d. IsDistinct (elim (lookup p d) [ none ↦ [] | some us ↦ us ])) (sym e)
        (h.distinct p);
}

set_workspace-Restored :
    (uuid : String) (x x' : CachedWorkspace) (w : World)
    → get_workspace w uuid ≡ some x
    → x'.dirs ≡ x.dirs
    → AllTidy w
    → Restored uuid w (set_workspace uuid x' w)
set_workspace-Restored uuid x x' w e d tidy = record {
  tidy = set_workspace-AllTidy uuid x' w (same_dirs-IsTidy x x' d (tidy uuid x e)) tidy;
  same = λ v q.
      watching-set_workspace uuid x' w v q
      ∙ ap (λ ds. member v (elim (lookup q ds) [ none ↦ [] | some us ↦ us ])) d
      ∙ sym (watching_at uuid x w v q e);
}

Restored-trans :
    (uuid : String) (a b c : World) → Restored uuid a b → Restored uuid b c → Restored uuid a c
Restored-trans uuid a b c h k = record { tidy = k.tidy; same = λ v q. k.same v q ∙ h.same v q }

cache-Restored :
    (uuid : String) (w w' : World) → w'.cache ≡ w.cache → AllTidy w → Restored uuid w w'
cache-Restored uuid w w' e tidy = record {
  tidy = AllTidy-cache w w' e tidy;
  same = λ v q. watching-cache uuid w w' v q e;
}

pub hide_workspace-Restored :
    (uid sid uuid : String) (p : CachedPresence) (w : World)
    → AllTidy w
    → Restored uuid w (hide_workspace uid sid uuid p w)
unfolding hide_workspace
hide_workspace-Restored uid sid uuid p w tidy = record { tidy = tidy; same = λ v q. refl }

update_conn_cache-Restored :
    (cfg : Config) (sid uuid : String) (add : Bool) (w : World)
    → AllTidy w
    → Restored uuid w (update_conn_cache cfg sid uuid add w)
unfolding update_conn_cache
update_conn_cache-Restored cfg sid uuid add w tidy = elim (Option-cases (get_workspace w uuid)) [
  | inl e ↦ rw (e, update_conn_cache) (record { tidy = tidy; same = λ v q. refl })
  | inr (x, e) ↦ rw (e, update_conn_cache) (set_workspace-Restored uuid x _ w e refl tidy)
]

close_streams_cache :
    (ids : List String) (s : Instance)
    → (for_each (λ id. emit (Event.stream_close id)) ids s).shared.cache ≡ s.shared.cache
close_streams_cache [] s = refl
close_streams_cache (id ∷ ids) s = close_streams_cache ids (emit (Event.stream_close id) s)

end_connection_cache :
    (uid uuid : String) (o : Option Connection) (s : Instance)
    → (end_connection uid uuid o s).shared.cache ≡ s.shared.cache
end_connection_cache uid uuid none s = refl
end_connection_cache uid uuid (some c) s = refl

pub close_all_ssh-Restored :
    (cfg : Config) (uid sid uuid : String) (s : Instance)
    → AllTidy s.shared
    → Restored uuid s.shared (close_all_ssh cfg uid sid uuid s).shared
unfolding close_all_ssh
close_all_ssh-Restored cfg uid sid uuid s tidy =
    let c : Option Connection = connection_of uid uuid s in
    let s1 : Instance = for_each (λ id. emit (Event.stream_close id)) (sessions_of c) s in
    let s2 : Instance = end_connection uid uuid c s1 in
    let h : Restored uuid s.shared s2.shared =
      cache-Restored uuid s.shared s2.shared
        (end_connection_cache uid uuid c s1 ∙ close_streams_cache (sessions_of c) s) tidy in
    Restored-trans uuid s.shared s2.shared (update_conn_cache cfg sid uuid false s2.shared) h
      (update_conn_cache-Restored cfg sid uuid false s2.shared h.tidy)

pub retire_workspace-Restored :
    (cfg : Config) (uid sid uuid : String) (w : World)
    → AllTidy w
    → Restored uuid w (retire_workspace cfg uid sid uuid w)
unfolding retire_workspace
retire_workspace-Restored cfg uid sid uuid w tidy = elim (Option-cases (get_workspace w uuid)) [
  | inl e ↦ rw (e, retire_workspace) (record { tidy = tidy; same = λ v q. refl })
  | inr (x, e) ↦
      rw (e, retire_workspace)
        (retired (record x { state = inactive }) x.dirs
          (set_workspace-Restored uuid x (record x { state = inactive }) w e refl tidy))
]
  where
    retired :
        (x' : CachedWorkspace) (ds : Map String (List String))
        → Restored uuid w (set_workspace uuid x' w)
        → Restored uuid w (elim ds [
          | [] ↦
              set_timer
                (Timer.workspace uid sid uuid)
                0
                cfg.ws_activity_timeout
                (set_workspace uuid x' w)
          | _ ↦ w
        ])
    retired x' [] h = record { tidy = h.tidy; same = h.same }
    retired x' (d ∷ ds) h = record { tidy = tidy; same = λ v q. refl }

pub close_all_dirs-AllTidy :
    (u uuid : String) (ps : List String) (w : World)
    → AllTidy w
    → AllTidy (close_all_dirs u uuid ps w)
unfolding close_all_dirs
close_all_dirs-AllTidy u uuid [] w tidy = tidy
close_all_dirs-AllTidy u uuid (p ∷ ps) w tidy =
    close_all_dirs-AllTidy u uuid ps (close_dir u uuid p w) (close_dir-AllTidy u uuid p w tidy)

-- Every directory that the user watches is among those that are closed.
pub watched_by_complete :
    (u v q uuid : String) (x : CachedWorkspace) (w : World)
    → get_workspace w uuid ≡ some x
    → (if is_same u v && member q (watched_by u x.dirs) then false else watching uuid w v q)
      ≡ (if is_same u v then false else watching uuid w v q)
unfolding is_same member
watched_by_complete u v q uuid x w e = rw (watching_at uuid x w v q e) (go (lookup q x.dirs) refl)
  where
    go :
        (o : Option (List String))
        → lookup q x.dirs ≡ o
        → (if is_same u v && member q (watched_by u x.dirs)
            then false
            else member v (elim o [ none ↦ [] | some us ↦ us ]))
          ≡ (if is_same u v then false else member v (elim o [ none ↦ [] | some us ↦ us ]))
    go none k = ground arith
    go (some us) k = ground (arith, member-watched_by u q x.dirs us)
