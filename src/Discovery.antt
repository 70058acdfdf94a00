-- ===== src/Discovery.antt =====
-- eestv/net/discovery/discovery_states.hpp, and what the two discovery classes share. An endpoint is
-- what they read of one: its address as a text and its port.
pub mod Client
pub mod Server
mod Print
use eestv_lib.Common.{ℕ, ◌==◌, if◌then◌else◌}
use eestv_lib.Common.Text.{Text}

-- `UdpDiscoveryState`.
abbrev pub running : ℕ
running = 0

abbrev pub stopping : ℕ
stopping = 1

abbrev pub timer_running : ℕ
timer_running = 2

abbrev pub sending_async : ℕ
sending_async = 3

abbrev pub receiving_async : ℕ
receiving_async = 4

pub record Endpoint : Type 0 where
  pub address : Text
  pub port : ℕ
