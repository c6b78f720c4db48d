-- ===== src/Gateway/Timers/Invariant.antt =====
-- Whatever the order of the events, on whichever gateways: a cached session has its timer.
use hide_server.Base.{str_key, nat_key}
use hide_server.Cache.{timer_key}
