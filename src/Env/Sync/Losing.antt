-- ===== src/Env/Sync/Losing.antt =====
-- env/src/core/sync.service.ts: a file that cannot be read is opened beside another one.
use hide_server.Base.{str_key, nat_key, lookup, ℕ, String, ◌≡◌, refl, Option, none, some}
use hide_server.Platform.{get_workspace}
use hide_server.Cache.{CachedWorkspace}
use hide_server.Env.{Config, Yjs, Remote, Instance, in_shared}
use hide_server.Env.Sessions.{send_error}
use hide_server.Env.Sync.{holder, ensure_docs, open_here, open_file}

pub open_file_here :
    (cfg : Config) (r : Remote) (y : Yjs) (uid sid uuid path : String) (ino : ℕ) (c : Option String)
    (x : CachedWorkspace) (s : Instance)
    → get_workspace s.shared uuid ≡ some x
    → holder cfg (lookup ino x.docs) ≡ none
    → open_file cfg r y uid sid uuid path ino c s ≡ open_here cfg r y uid sid uuid path ino c s
unfolding open_file
open_file_here cfg r y uid sid uuid path ino c x s e h = rw (e, open_file) (rw h refl)

-- the instance once the file could not be read
abbrev unread : String → String → String → Option String → Instance → Instance
unread uid sid uuid c s =
    in_shared (send_error uid sid "FS_ERR_READ_FILE" c)
      (record (ensure_docs uuid s) { shared = s.shared })
