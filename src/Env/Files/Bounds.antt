-- ===== src/Env/Files/Bounds.antt =====
-- env/src/core/fs.service.ts: how many events of a burst reach the batch.
use hide_server.Base.{
  length, for_each, str_key, nat_key, lookup, ℕ, ◌+◌, ◌-◌, ◌≤◌, ◌<◌, String, ◌≡◌, refl, sym, subst,
  ◌∙◌, inl, inr, none, some, List, [], ◌∷◌, arith, Option-cases,
}
use hide_server.Platform.{FsEvent}
use hide_server.Env.{Burst, PathState, Instance}
use hide_server.Env.Files.Bursts.{
  handle_watch_event, counted, burst_threshold, burst_interval, burst_of,
}
use hide_server.Env.Files.Counting.{Adds, handle_watch_event-Adds}

-- the events of a watcher, one after another; a failure is only printed
abbrev pub watch_all : String → List FsEvent → Instance → Instance
watch_all uuid = for_each (λ e s. (handle_watch_event uuid e s).1)

-- Events of one path, each soon enough after the one before.
abbrev pub IsBurst : String → ℕ → List FsEvent → Type 0
IsBurst path t [] = Unit
IsBurst path t (e ∷ es) =
    (e.watched_path ≡ path) × (e.timestamp - t ≤ burst_interval) × IsBurst path e.timestamp es

abbrev pub batch_length : String → Instance → ℕ
batch_length uuid s = elim (lookup uuid s.path_state) [ none ↦ 0 | some p ↦ length p.batch ]

batch_length_at :
    (uuid : String) (s : Instance) (p : PathState)
    → lookup uuid s.path_state ≡ some p
    → batch_length uuid s ≡ length p.batch
batch_length_at uuid s p h = rw (h, batch_length) refl

counted_soon :
    (t : ℕ) (b : Burst) → t - b.last_event ≤ burst_interval → (counted t b).count ≡ b.count + 1
unfolding counted
counted_soon t b h = ground arith

counted_once : (t : ℕ) (b : Burst) → 0 < (counted t b).count
unfolding counted
counted_once t b = ground arith

counted_last : (t : ℕ) (b : Burst) → (counted t b).last_event ≡ t
unfolding counted
counted_last t b = refl

-- from the state after an event, at its path
event-Adds :
    (uuid path : String) (e : FsEvent) (p : PathState) (s : Instance)
    → lookup uuid s.path_state ≡ some p
    → e.watched_path ≡ path
    → Adds uuid path
        (counted e.timestamp (burst_of path p))
        (length p.batch)
        (handle_watch_event uuid e s).1
event-Adds uuid path e p s h k =
    subst
      (λ q.
        Adds uuid q (counted e.timestamp (burst_of q p)) (length p.batch)
          (handle_watch_event uuid e s).1)
      k (handle_watch_event-Adds uuid e p s h)

watch_all_bound :
    (uuid path : String) (es : List FsEvent) (p : PathState) (s : Instance)
    → lookup uuid s.path_state ≡ some p
    → IsBurst path (burst_of path p).last_event es
    → batch_length uuid (watch_all uuid es s)
      ≤ length p.batch + (burst_threshold - (burst_of path p).count)
watch_all_bound uuid path [] p s h k = rw (batch_length_at uuid s p h) (omega arith)
watch_all_bound uuid path (e ∷ es) p s h k =
    let b : Burst = counted e.timestamp (burst_of path p) in
    let a : Adds uuid path b (length p.batch) (handle_watch_event uuid e s).1 =
      event-Adds uuid path e p s h k.0 in
    let rest : batch_length uuid (watch_all uuid (e ∷ es) s)
        ≤ length a.state.batch + (burst_threshold - (burst_of path a.state).count) =
      watch_all_bound uuid path es a.state (handle_watch_event uuid e s).1 a.known (
        subst (λ t. IsBurst path t es) (sym (a.last ∙ counted_last e.timestamp (burst_of path p)))
          k.2) in
    omega (arith, rest, a.size, a.count, counted_soon e.timestamp (burst_of path p) k.1)

unknown_quiet :
    (uuid : String) (es : List FsEvent) (s : Instance)
    → lookup uuid s.path_state ≡ none
    → watch_all uuid es s ≡ s
unfolding handle_watch_event
unknown_quiet uuid [] s h = refl
unknown_quiet uuid (e ∷ es) s h = rw (h, handle_watch_event) (unknown_quiet uuid es s h)

-- Of events of one directory that follow one another within 200 ms, however many there are, at most
-- 50 join the batch of their workspace.
pub watch_all_bounded :
    (uuid : String) (e : FsEvent) (es : List FsEvent) (s : Instance)
    → IsBurst e.watched_path e.timestamp es
    → batch_length uuid (watch_all uuid (e ∷ es) s) ≤ batch_length uuid s + burst_threshold
watch_all_bounded uuid e es s k = elim (Option-cases (lookup uuid s.path_state)) [
  | inl h ↦ rw (unknown_quiet uuid (e ∷ es) s h) (omega arith)
  | inr (p, h) ↦
      let b : Burst = counted e.timestamp (burst_of e.watched_path p) in
      let a : Adds uuid e.watched_path b (length p.batch) (handle_watch_event uuid e s).1 =
        handle_watch_event-Adds uuid e p s h in
      let rest : batch_length uuid (watch_all uuid (e ∷ es) s)
          ≤ length a.state.batch + (burst_threshold - (burst_of e.watched_path a.state).count) =
        watch_all_bound uuid e.watched_path es a.state (handle_watch_event uuid e s).1 a.known (
          subst (λ t. IsBurst e.watched_path t es)
            (sym (a.last ∙ counted_last e.timestamp (burst_of e.watched_path p))) k) in
      rw (batch_length_at uuid s p h)
        (omega (arith, rest, a.size, a.count, counted_once e.timestamp (burst_of e.watched_path p)))
]
