-- ===== src/Gateway/Timers.antt =====
-- The gateway as a whole: what may happen to the shared state through its handlers, in any order.
pub mod Keeping
pub mod Timed
pub mod Endings
pub mod Invariant
use hide_server.Base.{member, All, Key, str_key, nat_key, String, ◌≡◌, Bool, false, List}
use hide_server.Cache.{Timer}
use hide_server.Cache.Keys.{timer_text, timer_parts, IsPlain}
use hide_server.Platform.{World, del_timer}
use hide_server.Gateway.{Config, Services}
use hide_server.Gateway.Membership.{handle_members_modified}
use hide_server.Gateway.Socket.{
  Handshake, SocketData, ClientMessage, handle_connection, handle_disconnect, handle_socket_message,
  handle_cache_expiry, drop_lock,
}

-- A timer ends by leaving the cache before its handler runs; a lock lapses by itself. Each handler
-- may be run by another gateway, so the configuration is that of the step.
pub data Step (net : Services) (w : World) : World → Type 0 where
  connects :
      (cfg : Config) (allow : Bool) (h : Handshake)
      → Step net w (handle_connection cfg net allow h w).1
  leaves : (cfg : Config) (d : SocketData) → Step net w (handle_disconnect cfg d w).1
  says :
      (cfg : Config) (socket_id uid sid : String) (msg : ClientMessage)
      → Step net w (handle_socket_message cfg net socket_id uid sid msg w).1
  ends :
      (cfg : Config) (t : Timer)
      → All IsPlain (timer_parts t)
      → member (timer_text t) w.locks ≡ false
      → Step net w (handle_cache_expiry cfg net (timer_text t) (del_timer t w)).1
  lapses : (lock : String) → Step net w (record w { locks = drop_lock lock w.locks })
  changes :
      (uuid : String) (added removed : List String)
      → Step net w (handle_members_modified uuid added removed w)

pub data Reach (net : Services) (w : World) : World → Type 0 where
  here : Reach net w w
  next : {v u : World} → Reach net w v → Step net v u → Reach net w u
