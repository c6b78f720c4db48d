-- ===== src/Env/Tests.antt =====
-- One instance of the environment, on a workspace that two users have open.
use hide_server.Base.{
  member, str_dec, str_empty, str_key, nat_key, lookup, insert, erase, Map, ℕ, ◌+◌, ◌-◌, ◌≤◌,
  String, ◌≡◌, refl, sym, ap, subst, ◌≢◌, ite, true, false, ◌&&◌, ◌||◌, Option, none, some, List,
  [], ◌∷◌, arith, ℕ_discrete, if◌then◌else◌, ok,
}
use hide_server.Cache.{active, CachedPresence, CachedWorkspace}
use hide_server.Platform.{World, FsAction, FsKind, FsEvent}
use hide_server.Env.{Config, Yjs, Remote, SharedDoc, Instance, find_doc, put_doc}
use hide_server.Platform.{find_session}
use hide_server.Env.Sessions.{answer}
use hide_server.Env.Files.{watch, list_dir, open_dir, close_dir}
use hide_server.Env.Files.Watchers.{IsDistinct, IsTidy, is_same, IsDistinct}
use hide_server.Env.Files.Watching.{watching, AllTidy}
use hide_server.Env.Files.Framing.{OnlyDirs}
use hide_server.Env.Files.Listing.{can_list, open_dir-close_dir-refine, open_dir-close_dir-AllTidy}
use hide_server.Env.Files.Bursts.{set_workspace_state, handle_watch_event}
use hide_server.Env.Files.Bounds.{watch_all, batch_length, watch_all_bounded}
use hide_server.Env.Files.Batches.{process}
use hide_server.Env.Opening.{handle_env_ready}
use hide_server.Env.Closing.{handle_env_close}
use hide_server.Env.Released.{handle_env_ready-handle_env_close-release}
use hide_server.Env.Leaving.{LeftBy, handle_env_close_leaves}
use hide_server.Env.Sync.{holder, open_file, close_file}
use hide_server.Env.Sync.Filed.{AllFiled, put_doc-AllFiled}
use hide_server.Env.Sync.Picking.{IsRandom}
use hide_server.Env.Sync.Reached.{
  opens, here, next, start-AllFiled, Reach-AllFiled, Reach-process_succeeds,
}
use hide_server.Env.Sync.Conflicts.{close_file_resolver}

abbrev cfg : Config
cfg = record { instance_id = "e1"; ws_activity_timeout = 300000 }

-- a document's text is not looked at
abbrev yjs : Yjs
yjs = record {
  text = λ es. "text";
  update_of = λ es e. some (1 ∷ []);
  read_number = λ bs. none;
  read_bytes = λ bs. some bs;
  write_bytes = λ bs. bs;
  read_sync = λ es bs. none;
  write_sync_step1 = λ es. [];
  write_update = λ bs. bs;
  awareness_update = λ es e. none;
  clients = λ es. [];
  encode_awareness = λ es cs. cs;
}

-- a container that lists and reads everything, and one that reads nothing
abbrev answering : Option String → Remote
answering content = record {
  stat = λ uuid path. none;
  entries = λ uuid path. some ("a" ∷ []);
  content = λ uuid path. content;
  file_hash = λ uuid path. none;
  is_ready = λ uuid. true;
  affine = λ uuid id. true;
  command = λ uuid c. none;
  doc_hash = λ id uuid ino. some none;
  membership = λ uid uuid. some (record { image = "node"; dedicated = false });
  wait = λ uid uuid m. some false;
  random_int = λ n. n - 1;
  sha256 = λ t. t;
}

abbrev net : Remote
net = answering (some "text")

abbrev mute : Remote
mute = answering none

abbrev sessions : CachedPresence
sessions =
    ("s1", record { state = active; socket_id = "k1"; gateway_id = "g1"; ws_uuid = some "w1" }) ∷ []

abbrev cached : CachedWorkspace
cached = record { state = active; fs = "e1"; dirs = []; docs = []; sshs = [] }

abbrev home : World
home = record {
  cache = record {
    presences = ("ann", sessions) ∷ ("bob", sessions) ∷ [];
    workspaces = ("w1", cached) ∷ [];
    memberships = [];
    timers = [];
  };
  locks = [];
  sent = [];
}

abbrev instance_of : World → Instance
instance_of w = record { shared = w; docs = []; closed = []; path_state = []; conns = [] }

abbrev no_dirs : Map String (List String)
no_dirs = []

no_dir : (p : String) → lookup p no_dirs ≢ some []
unfolding lookup
no_dir p h = cc

no_one : (p : String) → IsDistinct (elim (lookup p no_dirs) [ none ↦ [] | some us ↦ us ])
unfolding lookup
no_one p = tt

cached-IsTidy : (x : CachedWorkspace) → x.dirs ≡ [] → IsTidy x
cached-IsTidy x e = record {
  watched = λ p. subst (λ d. lookup p d ≢ some []) (sym e) (no_dir p);
  distinct = λ p.
      subst (λ d. IsDistinct (elim (lookup p d) [ none ↦ [] | some us ↦ us ])) (sym e) (no_one p);
}

home-AllTidy : AllTidy home
unfolding lookup
home-AllTidy uuid x e = cached-IsTidy x (found (str_dec "w1" uuid) e)
  where
    found : (d : Dec ("w1" ≡ uuid)) → ite d (some cached) none ≡ some x → x.dirs ≡ []
    found (yes p) h = let q : cached ≡ x = cc in sym (ap (λ (c : CachedWorkspace). c.dirs) q)
    found (no n) h = cc

-- bob and ann open a directory
abbrev bob_watches : World
bob_watches = open_dir net "bob" "s1" "w1" "/workspace/" (some "c1") home

open_dir-close_dir-AllTidy_example :
    AllTidy bob_watches × AllTidy (close_dir "bob" "w1" "/workspace/" home)
open_dir-close_dir-AllTidy_example =
    open_dir-close_dir-AllTidy net "bob" "s1" "w1" "/workspace/" (some "c1") home home-AllTidy

bob_watches-AllTidy : AllTidy bob_watches
bob_watches-AllTidy =
    (open_dir-close_dir-AllTidy net "bob" "s1" "w1" "/workspace/" (some "c1") home home-AllTidy).0

open_dir-close_dir-refine_example :
    (watching "w1" (open_dir net "ann" "s1" "w1" "/workspace/" none bob_watches) "bob" "/workspace/"
      ≡ (watching "w1" bob_watches "bob" "/workspace/"
          || (can_list "w1" (net.entries "w1" "/workspace/") bob_watches
              && (is_same "ann" "bob" && is_same "/workspace/" "/workspace/"))))
    × (watching "w1" (close_dir "ann" "w1" "/workspace/" bob_watches) "bob" "/workspace/" ≡ (
        if is_same "ann" "bob" && is_same "/workspace/" "/workspace/"
        then false
        else watching "w1" bob_watches "bob" "/workspace/"))
    × OnlyDirs "w1" bob_watches (open_dir net "ann" "s1" "w1" "/workspace/" none bob_watches)
    × OnlyDirs "w1" bob_watches (close_dir "ann" "w1" "/workspace/" bob_watches)
open_dir-close_dir-refine_example =
    open_dir-close_dir-refine net "ann" "s1" "w1" "/workspace/" none bob_watches "bob" "/workspace/"
      bob_watches-AllTidy

-- bursts
abbrev event : ℕ → FsEvent
event t = record {
  watched_path = "/workspace";
  path = "/workspace/a";
  old_path = none;
  ino = none;
  action = FsAction.create;
  timestamp = t;
  kind = FsKind.file;
}

abbrev watched : Instance
watched = set_workspace_state "w1" (instance_of home)

watch_all_bounded_example :
    batch_length "w1" (watch_all "w1" (event 1000 ∷ event 1100 ∷ event 1300 ∷ []) watched)
    ≤ batch_length "w1" watched + 50
watch_all_bounded_example =
    watch_all_bounded "w1" (event 1000) (event 1100 ∷ event 1300 ∷ []) watched
      (refl, omega arith, (refl, omega arith, tt))

-- the lock
handle_env_ready-handle_env_close-release_example :
    ((handle_env_ready cfg net "ann" "s1" "w1" (instance_of bob_watches)).1.shared.locks
      ≡ bob_watches.locks)
    × ((handle_env_close cfg net "ann" "w1" (instance_of bob_watches)).1.shared.locks
        ≡ bob_watches.locks)
handle_env_ready-handle_env_close-release_example =
    handle_env_ready-handle_env_close-release cfg net "ann" "s1" "w1" (instance_of bob_watches)

handle_env_close_leaves_example :
    LeftBy "bob" "w1" bob_watches
      (handle_env_close cfg net "bob" "w1" (instance_of bob_watches)).1.shared
unfolding lookup str_dec find_session open_dir list_dir watch answer insert member str_empty
handle_env_close_leaves_example =
    handle_env_close_leaves cfg net "bob" "s1" "w1" (record { image = "node"; dedicated = false })
      sessions (instance_of bob_watches) bob_watches-AllTidy refl refl refl refl

-- documents
abbrev fresh : Instance
fresh = instance_of home

random : IsRandom net.random_int
random n h = omega arith

abbrev opened : Instance
opened = open_file cfg net yjs "ann" "s1" "w1" "/workspace/a" 7 (some "c2") fresh

Reach-AllFiled_example : AllFiled opened
Reach-AllFiled_example =
    Reach-AllFiled {s = fresh} refl
      (next here (opens net "ann" "s1" "w1" "/workspace/a" 7 (some "c2")))

-- another program has written the file of the document
abbrev written : FsEvent
written = record (event 1000) { ino = some 7; action = FsAction.write }

abbrev waiting : Instance
waiting = watch_all "w1" (written ∷ []) watched

waiting_fresh : waiting.docs ≡ []
unfolding handle_watch_event lookup set_workspace_state insert str_dec
waiting_fresh = refl

-- the document's hash is not that of the file, so that its user is asked what to keep
Reach-process_succeeds_example :
    (process cfg net yjs "w1"
      (open_file cfg net yjs "ann" "s1" "w1" "/workspace/a" 7 (some "c2") waiting)).0
    ≡ ok tt
Reach-process_succeeds_example =
    Reach-process_succeeds {s = waiting} waiting_fresh
      (next here (opens net "ann" "s1" "w1" "/workspace/a" 7 (some "c2"))) net "w1" random
      (λ id uuid ino e. cc e)

abbrev doc : SharedDoc
doc = record {
  ino = 7;
  path = "/workspace/a";
  uuid = "w1";
  users = ("ann", []) ∷ ("bob", []) ∷ [];
  is_displaced = false;
  is_conflicting = true;
  conflict_resolver = "ann";
  hash = "";
  edits = [];
  awareness = [];
  flush_due = true;
}

abbrev conflicting : Instance
conflicting = put_doc doc fresh

conflicting-AllFiled : AllFiled conflicting
conflicting-AllFiled = put_doc-AllFiled doc fresh (λ e. cc) (start-AllFiled fresh refl)

close_file_resolver_example :
    (d' : SharedDoc) × (find_doc "w1" 7 (close_file cfg yjs "ann" "s1" "w1" 7 conflicting)
      ≡ some d')
    × (d'.is_conflicting ≡ true)
    × (d'.conflict_resolver ≡ "ann")
    × (lookup "ann" d'.users ≡ none)
unfolding lookup insert erase str_dec ℕ_discrete put_doc find_doc holder
close_file_resolver_example =
    close_file_resolver cfg yjs "ann" "s1" "w1" 7 cached doc [] conflicting conflicting-AllFiled
      refl refl refl refl (λ e. cc) refl refl

-- the other document of the workspace is open, without a conflict
abbrev holding : Instance
holding = put_doc (record doc { is_conflicting = false; conflict_resolver = "" }) fresh
