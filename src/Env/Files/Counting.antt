-- ===== src/Env/Files/Counting.antt =====
-- env/src/core/fs.service.ts: what one event of a watcher does to its path's burst and the batch.
use hide_server.Base.{
  length, str_key, nat_key, lookup, lookup-insert_self, ℕ, ◌+◌, ◌-◌, ◌≤◌, String, ◌≡◌, refl, sym,
  ap, subst, ◌∙◌, inl, inr, Bool, true, false, Option, none, some, List, [], ◌∷◌, ◌++◌, arith,
  or_throw, modify, then_keeps, if◌then◌else◌, Bool-cases, Option-cases, ok,
}
use hide_server.Platform.{FsEvent, SocketMessage, get_workspace}
use hide_server.Env.{Burst, PathState, Instance, in_shared}
use hide_server.Env.Files.Bursts.{
  admit_event, handle_watch_event, counted, start_burst, burst_threshold, burst_of, is_start,
  set_burst, set_path_state, put_burst, watching_users, signal, cool, queue_event,
}
use hide_server.Env.Sessions.{send_to_watchers}
use hide_server.Gateway.Presence.{type_error}

-- A signal changes no path's state, also where it fails.
watching_users_path_state : (uuid path : String) (s : Instance) → (watching_users uuid path s).1 ≡ s
unfolding watching_users
watching_users_path_state uuid path s = elim (Option-cases (get_workspace s.shared uuid)) [
  | inl e ↦ rw (e, watching_users) refl
  | inr (x, e) ↦ rw (e, watching_users) (thrown (lookup path x.dirs))
]
  where
    thrown : (o : Option (List String)) → (or_throw {S = Instance} o type_error s).1 ≡ s
    thrown none = refl
    thrown (some us) = refl

signal_path_state :
    (uuid path : String) (msg : String → SocketMessage) (s : Instance)
    → (signal uuid path msg s).1.path_state ≡ s.path_state
unfolding signal
signal_path_state uuid path msg s =
    then_keeps (λ v. v.path_state ≡ s.path_state) (watching_users uuid path)
      (λ uids. modify (in_shared (send_to_watchers uuid uids (msg path)))) s
      (ap (λ v. v.path_state) (watching_users_path_state uuid path s)) (λ uids v h. h)

-- The path's burst has come as far as `b`, and `batch` waits.
record Counts (uuid path : String) (b : Burst) (batch : List FsEvent) (s : Instance) : Type 0 where
  pub state : PathState
  pub known : lookup uuid s.path_state ≡ some state
  pub last : (burst_of path state).last_event ≡ b.last_event
  pub count : (burst_of path state).count ≡ b.count
  pub same_batch : state.batch ≡ batch

put_burst_known :
    (uuid path : String) (b : Burst) (p : PathState) (s : Instance)
    → lookup uuid s.path_state ≡ some p
    → put_burst uuid path b s ≡ set_path_state uuid (set_burst path b p) s
unfolding put_burst
put_burst_known uuid path b p s e = rw (e, put_burst) refl

burst_of-set_burst :
    (path : String) (b : Burst) (p : PathState) → burst_of path (set_burst path b p) ≡ b
burst_of-set_burst path b p = rw (lookup-insert_self path b p.paths, burst_of) refl

put_burst-Counts :
    (uuid path : String) (b b' : Burst) (p : PathState) (s : Instance)
    → lookup uuid s.path_state ≡ some p
    → b'.last_event ≡ b.last_event
    → b'.count ≡ b.count
    → Counts uuid path b p.batch (put_burst uuid path b' s)
put_burst-Counts uuid path b b' p s e l c =
    subst (Counts uuid path b p.batch) (sym (put_burst_known uuid path b' p s e)) record {
      state = set_burst path b' p;
      known = lookup-insert_self uuid (set_burst path b' p) s.path_state;
      last = ap (λ a. a.last_event) (burst_of-set_burst path b' p) ∙ l;
      count = ap (λ a. a.count) (burst_of-set_burst path b' p) ∙ c;
      same_batch = refl;
    }

Counts-again :
    (uuid path : String) (b b' : Burst) (batch : List FsEvent) (s : Instance)
    → Counts uuid path b batch s
    → b'.last_event ≡ b.last_event
    → b'.count ≡ b.count
    → Counts uuid path b batch (put_burst uuid path b' s)
Counts-again uuid path b b' batch s h l c =
    subst (λ es. Counts uuid path b es (put_burst uuid path b' s)) h.same_batch
      (put_burst-Counts uuid path b b' h.state s h.known l c)

Counts-signal :
    (uuid path : String) (b : Burst) (batch : List FsEvent) (msg : String → SocketMessage)
    (s : Instance)
    → Counts uuid path b batch s
    → Counts uuid path b batch (signal uuid path msg s).1
Counts-signal uuid path b batch msg s h = record {
  state = h.state;
  known = ap (lookup uuid) (signal_path_state uuid path msg s) ∙ h.known;
  last = h.last;
  count = h.count;
  same_batch = h.same_batch;
}

start_burst-Counts :
    (uuid path : String) (b : Burst) (p : PathState) (s : Instance)
    → lookup uuid s.path_state ≡ some p
    → Counts uuid path b p.batch (start_burst uuid path b s).1
unfolding start_burst
start_burst-Counts uuid path b p s e =
    then_keeps (Counts uuid path b p.batch) (signal uuid path SocketMessage.blocked)
      (λ _. modify (put_burst uuid path (cool b)))
      (put_burst uuid path (record b { bursting = true }) s)
      (Counts-signal uuid path b p.batch SocketMessage.blocked _
        (put_burst-Counts uuid path b (record b { bursting = true }) p s e refl refl))
      (λ _ v h. Counts-again uuid path b (cool b) p.batch v h refl refl)

-- The same, with what an event adds to the batch.
pub record Adds (uuid path : String) (b : Burst) (n : ℕ) (s : Instance) : Type 0 where
  pub state : PathState
  pub known : lookup uuid s.path_state ≡ some state
  pub last : (burst_of path state).last_event ≡ b.last_event
  pub count : (burst_of path state).count ≡ b.count
  pub size : length state.batch + (burst_threshold - b.count) ≤ n + (burst_threshold + 1 - b.count)

Counts-Adds :
    (uuid path : String) (b : Burst) (batch : List FsEvent) (s : Instance)
    → Counts uuid path b batch s
    → Adds uuid path b (length batch) s
Counts-Adds uuid path b batch s h = record {
  state = h.state;
  known = h.known;
  last = h.last;
  count = h.count;
  size = rw (h.same_batch) (omega arith);
}

length-append_one : (e : FsEvent) (es : List FsEvent) → length (es ++ e ∷ []) ≡ length es + 1
length-append_one e [] = omega arith
length-append_one e (f ∷ es) = omega (arith, length-append_one e es)

queue_event-Adds :
    (uuid : String) (e : FsEvent) (b : Burst) (p : PathState) (s : Instance)
    → b.count ≤ burst_threshold
    → Adds uuid e.watched_path b (length p.batch) (queue_event uuid e b p s)
unfolding queue_event
queue_event-Adds uuid e b p s h = record {
  state = record (set_burst e.watched_path b p) { batch = p.batch ++ e ∷ []; process_due = true };
  known = lookup-insert_self uuid _ s.path_state;
  last = ap (λ a. a.last_event) (burst_of-set_burst e.watched_path b p);
  count = ap (λ a. a.count) (burst_of-set_burst e.watched_path b p);
  size = omega (arith, length-append_one e p.batch);
}

calm_count : (b : Burst) → is_start b ≡ false → b.bursting ≡ false → b.count ≤ burst_threshold
unfolding is_start
calm_count b h calm = ground arith

admit_event_start :
    (uuid : String) (e : FsEvent) (b : Burst) (p : PathState) (s : Instance)
    → is_start b ≡ true
    → admit_event uuid e b p s ≡ start_burst uuid e.watched_path b s
unfolding admit_event
admit_event_start uuid e b p s h = rw (h, admit_event) refl

admit_event_going :
    (uuid : String) (e : FsEvent) (b : Burst) (p : PathState) (s : Instance) {c : Bool}
    → is_start b ≡ false
    → b.bursting ≡ c
    → admit_event uuid e b p s
      ≡ (ok tt, (if c then put_burst uuid e.watched_path (cool b) else queue_event uuid e b p) s)
unfolding admit_event
admit_event_going uuid e b p s h k =
    ap
      (λ d.
        (if d
            then start_burst uuid e.watched_path b
            else modify (
                if b.bursting
                then put_burst uuid e.watched_path (cool b)
                else queue_event uuid e b p))
          s)
      h
    ∙ ap
        (λ d.
          (ok tt, (if d then put_burst uuid e.watched_path (cool b) else queue_event uuid e b p) s))
        k

admit_event-Adds :
    (uuid : String) (e : FsEvent) (b : Burst) (p : PathState) (s : Instance)
    → lookup uuid s.path_state ≡ some p
    → Adds uuid e.watched_path b (length p.batch) (admit_event uuid e b p s).1
admit_event-Adds uuid e b p s h = elim (Bool-cases (is_start b)) [
  | inl start ↦ rw (admit_event_start uuid e b p s start) (
      Counts-Adds uuid e.watched_path b p.batch (start_burst uuid e.watched_path b s).1
        (start_burst-Counts uuid e.watched_path b p s h))
  | inr going ↦ elim (Bool-cases b.bursting) [
    | inl hot ↦ rw (admit_event_going uuid e b p s going hot) (
        Counts-Adds uuid e.watched_path b p.batch (put_burst uuid e.watched_path (cool b) s)
          (put_burst-Counts uuid e.watched_path b (cool b) p s h refl refl))
    | inr calm ↦
        rw (admit_event_going uuid e b p s going calm)
          (queue_event-Adds uuid e b p s (calm_count b going calm))
  ]
]

pub handle_watch_event-Adds :
    (uuid : String) (e : FsEvent) (p : PathState) (s : Instance)
    → lookup uuid s.path_state ≡ some p
    → Adds uuid e.watched_path
        (counted e.timestamp (burst_of e.watched_path p))
        (length p.batch)
        (handle_watch_event uuid e s).1
unfolding handle_watch_event
handle_watch_event-Adds uuid e p s h =
    rw (h, handle_watch_event)
      (admit_event-Adds uuid e (counted e.timestamp (burst_of e.watched_path p)) p s h)
