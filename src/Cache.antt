-- ===== src/Cache.antt =====
-- The Redis cache that the gateway, the environments and the workspace service share
-- (libs/common/cache). A key of the cache is here a key of one of the maps by type; Cache/Keys
-- has the texts. A value that is read is a copy, and a write stores the whole value.
pub mod Keys
mod Tests
use hide_server.Base.{ℕ, String, Bool, Option, List, Map, Key, str_dec}

-- `"active" | "inactive"`
pub data Liveness : Type 0 where
  active inactive : Liveness

pub record CachedSession : Type 0 where
  pub state : Liveness
  pub socket_id : String
  pub gateway_id : String
  pub ws_uuid : Option String

-- by session
abbrev pub CachedPresence : Type 0
CachedPresence = Map String CachedSession

pub record CachedWorkspace : Type 0 where
  pub state : Liveness
  -- an environment's instance
  pub fs : String
  -- the users that watch a directory, by path
  pub dirs : Map String (List String)
  -- the environment's instance that holds a document, by inode
  pub docs : Map ℕ String
  -- the environment's instance that holds a connection, by session
  pub sshs : Map String String

-- by workspace
abbrev pub CachedMembership : Type 0
CachedMembership = Map String Bool

-- The keys that are set with a time to live: `presence:uid:sessionId` and
-- `presence:uid:sessionId:wsUuid`.
pub data Timer : Type 0 where
  session : String → String → Timer
  workspace : String → String → String → Timer

pub record Timed : Type 0 where
  pub value : ℕ
  pub ttl : ℕ

pub record Cache : Type 0 where
  pub presences : Map String CachedPresence
  pub workspaces : Map String CachedWorkspace
  pub memberships : Map String CachedMembership
  pub timers : Map Timer Timed

unfoldable pub timer_dec : Discrete Timer
unfolding str_dec
timer_dec = hlevel str_dec

instance abbrev pub timer_key : Key Timer
timer_key = record { dec = timer_dec }
