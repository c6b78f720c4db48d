-- ===== src/Gateway.antt =====
-- The gateway (gateway/src): what it is configured with, and what other services answer.
pub mod Membership
pub mod Presence
pub mod Socket
pub mod Timers
pub mod Proxy
pub mod Public
mod Tests
use hide_server.Base.{ℕ, String, Bool, Option}

pub record Config : Type 0 where
  -- `CommonRef.getInstanceId()`
  pub instance_id : String
  pub ws_ping_timeout : ℕ
  pub ws_activity_timeout : ℕ
  pub session_ping_timeout : ℕ
  pub session_activity_timeout : ℕ

-- The services that a handler asks. Each answer is that of one run of a handler.
pub record Services : Type 0 where
  -- the reply to `workspace.membership.check` for a user and a workspace; none is a rejection
  pub membership_check : String → String → Option Bool
  -- whether the request to the provisioner to dispose of a workspace is answered at all
  pub dispose_answered : String → Bool
  -- the user that the auth service finds behind a token
  pub authenticate : String → Option String
  -- whether an environment's instance answers its health check in time
  pub is_healthy : String → Bool

-- a number of the process environment, or its default if there is none
pub timeout_or : Option ℕ → ℕ → ℕ
timeout_or (Option.some t) d = t
timeout_or Option.none d = d
