-- ===== src/Gateway/Presence/Telling.antt =====
-- Whom the end of a workspace reaches: the users who watch one of its directories and have it open.
use hide_server.Base.{
  member, add_new, to_set, All, In, In-append_left, In-append_right, str_dec, str_empty, str_key,
  nat_key, lookup, Map, keys, values, String, ◌≡◌, refl, sym, ap, subst, ◌∙◌, ◌⊎◌, inl, inr, ite,
  Bool, true, false, Option, none, some, List, [], ◌∷◌, ◌++◌, Bool-cases,
}
use mathlib.Core.List.{foldl, flatten}
use hide_server.Cache.{CachedSession, CachedPresence, CachedWorkspace}
use hide_server.Platform.{World, find_session, get_presence, get_workspace}
use hide_server.Gateway.{Services}
use hide_server.Gateway.Presence.{
  defined, session_in, watchers, open_sessions, handle_workspace_expiry,
}
use hide_server.Gateway.Presence.Workspaces.{IsTold, found-IsTold}

some_inj : {A : Type 0} {a b : A} → some a ≡ some b → a ≡ b
some_inj e = cc e

-- a user of the list of a directory is among the watchers
head_or :
    (x y : String) (ys : List String) (b : Bool) (d : Dec (y ≡ x))
    → (b ≡ true → In x ys)
    → ite d true b ≡ true
    → (y ≡ x) ⊎ In x ys
head_or x y ys b (yes q) rest e = inl q
head_or x y ys b (no n) rest e = inr (rest e)

member-In : (x : String) (xs : List String) → member x xs ≡ true → In x xs
unfolding member
member-In x [] e = cc e
member-In x (y ∷ ys) e = head_or x y ys (member x ys) (str_dec y x) (member-In x ys) e

In-add_new_old : (x u : String) (acc : List String) → In x acc → In x (add_new acc u)
unfolding add_new
In-add_new_old x u acc h = elim (Bool-cases (member u acc)) [
  | inl e ↦ rw (e, add_new) h
  | inr e ↦ rw (e, add_new) (In-append_left x acc (u ∷ []) h)
]

In-add_new_new : (u : String) (acc : List String) → In u (add_new acc u)
unfolding add_new
In-add_new_new u acc = elim (Bool-cases (member u acc)) [
  | inl e ↦ rw (e, add_new) (member-In u acc e)
  | inr e ↦ rw (e, add_new) (In-append_right u acc (u ∷ []) (inl refl))
]

In-foldl_acc : (x : String) (xs acc : List String) → In x acc → In x (foldl add_new acc xs)
In-foldl_acc x [] acc h = h
In-foldl_acc x (u ∷ us) acc h = In-foldl_acc x us (add_new acc u) (In-add_new_old x u acc h)

In-foldl : (x : String) (xs acc : List String) → In x xs → In x (foldl add_new acc xs)
In-foldl x [] acc h = absurd h
In-foldl x (u ∷ us) acc (inl e) =
    In-foldl_acc x us (add_new acc u) (subst (λ y. In y (add_new acc u)) e (In-add_new_new u acc))
In-foldl x (u ∷ us) acc (inr h) = In-foldl x us (add_new acc u) h

list_or :
    (x k path : String) (vs us ws : List String) (o : Option (List String)) (d : Dec (k ≡ path))
    → (o ≡ some us → In x ws)
    → ite d (some vs) o ≡ some us
    → In x us
    → In x (vs ++ ws)
list_or x k path vs us ws o (yes q) rest e h =
    In-append_left x vs ws (subst (In x) (sym (some_inj e)) h)
list_or x k path vs us ws o (no n) rest e h = In-append_right x vs ws (rest e)

In-flatten :
    (x path : String) (us : List String) (m : Map String (List String))
    → lookup path m ≡ some us
    → In x us
    → In x (flatten (values m))
unfolding lookup flatten
In-flatten x path us [] e h = cc e
In-flatten x path us ((k, vs) ∷ m) e h =
    list_or x k path vs us (flatten (values m)) (lookup path m) (str_dec k path)
      (λ r. In-flatten x path us m r h) e h

watchers_lem :
    (x : CachedWorkspace) (uid path : String) (us : List String)
    → lookup path x.dirs ≡ some us
    → In uid us
    → In uid (watchers x)
unfolding watchers to_set
watchers_lem x uid path us e h =
    In-foldl uid (flatten (values x.dirs)) [] (In-flatten uid path us x.dirs e h)

-- a session of a presence has the workspace open
abbrev pub Opens : String → CachedPresence → String → CachedSession → Type 0
Opens uuid p sid s = In (sid, s) p × (s.ws_uuid ≡ some uuid)

-- the session that is found has the workspace open
record Finds (uuid : String) (p : CachedPresence) (o : Option String) : Type 0 where
  sid : String
  session : CachedSession
  opens : Opens uuid p sid session
  found : o ≡ some sid

found_later :
    (uuid k : String) (t : CachedSession) (p : CachedPresence) (o : Option String)
    → Finds uuid p o
    → Finds uuid ((k, t) ∷ p) o
found_later uuid k t p o f = record {
  sid = f.sid;
  session = f.session;
  opens = (inr f.opens.0, f.opens.1);
  found = f.found;
}

shows :
    (uuid k sid : String) (t s : CachedSession)
    → ◌≡◌ {A = String × CachedSession} (k, t) (sid, s)
    → s.ws_uuid ≡ some uuid
    → t.ws_uuid ≡ some uuid
shows uuid k sid t s e h = ap (λ q. q.1.ws_uuid) e ∙ h

first_or :
    (uuid k ws : String) (t : CachedSession) (p : CachedPresence) (o : Option String)
    (d : Dec (ws ≡ uuid))
    → t.ws_uuid ≡ some ws
    → (t.ws_uuid ≡ some uuid) ⊎ Finds uuid p o
    → Finds uuid ((k, t) ∷ p) (ite d (some k) o)
first_or uuid k ws t p o (yes q) e h = record {
  sid = k;
  session = t;
  opens = (inl refl, e ∙ ap some q);
  found = refl;
}
first_or uuid k ws t p o (no n) e (inl h) = absurd (n (some_inj (sym e ∙ h)))
first_or uuid k ws t p o (no n) e (inr f) = found_later uuid k t p o f

at_first :
    (uuid k : String) (t : CachedSession) (p : CachedPresence) (o c : Option String)
    → t.ws_uuid ≡ c
    → (t.ws_uuid ≡ some uuid) ⊎ Finds uuid p o
    → Finds uuid ((k, t) ∷ p) (elim c [ none ↦ o | some ws ↦ ite (str_dec ws uuid) (some k) o ])
at_first uuid k t p o none e (inl h) = cc
at_first uuid k t p o none e (inr f) = found_later uuid k t p o f
at_first uuid k t p o (some ws) e h = first_or uuid k ws t p o (str_dec ws uuid) e h

find_lem :
    (uuid sid : String) (s : CachedSession) (p : CachedPresence)
    → Opens uuid p sid s
    → Finds uuid p (find_session uuid p)
unfolding find_session
find_lem uuid sid s [] h = absurd h.0
find_lem uuid sid s ((k, t) ∷ p) (inl e, h) =
    at_first uuid k t p (find_session uuid p) t.ws_uuid refl (inl (shows uuid k sid t s e h))
find_lem uuid sid s ((k, t) ∷ p) (inr i, h) =
    at_first uuid k t p (find_session uuid p) t.ws_uuid refl (inr (find_lem uuid sid s p (i, h)))

-- `sessionId` counts as missing if it is empty
abbrev pub IsNamed : CachedPresence → Type 0
IsNamed p = All (λ k. str_empty k ≡ false) (keys p)

named_lem :
    (p : CachedPresence) (sid : String) (s : CachedSession)
    → IsNamed p
    → In (sid, s) p
    → str_empty sid ≡ false
named_lem [] sid s h i = absurd i
named_lem ((k, t) ∷ p) sid s h (inl e) = subst (λ x. str_empty x ≡ false) (ap (λ q. q.0) e) h.0
named_lem ((k, t) ∷ p) sid s h (inr i) = named_lem p sid s h.1 i

kept_open :
    (e : String × String) (u : String) (o : Option String) (rest : List (String × String))
    → In e rest
    → In e (elim o [ none ↦ rest | some sid ↦ (u, sid) ∷ rest ])
kept_open e u none rest h = h
kept_open e u (some sid) rest h = inr h

open_first :
    (w : World) (uuid uid sid : String) (us : List String)
    → session_in uuid (get_presence w uid) ≡ some sid
    → In (uid, sid) (open_sessions w uuid (uid ∷ us))
unfolding open_sessions
open_first w uuid uid sid us e = rw (e, open_sessions) (inl refl)

open_lem :
    (w : World) (uuid uid sid : String) (us : List String)
    → session_in uuid (get_presence w uid) ≡ some sid
    → In uid us
    → In (uid, sid) (open_sessions w uuid us)
unfolding open_sessions
open_lem w uuid uid sid [] e h = absurd h
open_lem w uuid uid sid (u ∷ us) e (inl q) =
    subst (λ v. In (uid, sid) (open_sessions w uuid (v ∷ us))) (sym q)
      (open_first w uuid uid sid us e)
open_lem w uuid uid sid (u ∷ us) e (inr h) =
    kept_open (uid, sid) u (session_in uuid (get_presence w u)) (open_sessions w uuid us)
      (open_lem w uuid uid sid us e h)

defined_lem : (sid : String) → str_empty sid ≡ false → defined (some sid) ≡ some sid
defined_lem sid e = rw e refl

-- If a user watches a directory of a cached workspace and has the workspace open in a session, and no
-- session of the user has an empty id, the end of the workspace tells the user in a session that has
-- it open, and the timer of that session for the workspace is gone.
pub handle_workspace_expiry-watchers :
    (net : Services) (uuid : String) (w : World) (x : CachedWorkspace) (path uid sid : String)
    (us : List String) (p : CachedPresence) (s : CachedSession)
    → get_workspace w uuid ≡ some x
    → lookup path x.dirs ≡ some us
    → In uid us
    → get_presence w uid ≡ some p
    → IsNamed p
    → Opens uuid p sid s
    → (sid' : String) × (s' : CachedSession) × Opens uuid p sid' s'
      × IsTold net uuid w uid sid' (handle_workspace_expiry net uuid w).1
handle_workspace_expiry-watchers net uuid w x path uid sid us p s e d u q named h =
    let f : Finds uuid p (find_session uuid p) = find_lem uuid sid s p h in
    (
      f.sid,
      f.session,
      f.opens,
      found-IsTold net uuid w uid f.sid x e (
          open_lem w uuid uid f.sid (watchers x)
            (ap (session_in uuid) q
              ∙ ap defined f.found
              ∙ defined_lem f.sid (named_lem p f.sid f.session named f.opens.0))
            (watchers_lem x uid path us d u)),
    )
