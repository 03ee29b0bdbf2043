-- ===== src/Server/Packets/Delivery.antt =====
-- Which of the waiting messages one call of `processPendingPackets` hands to the application: what
-- is said of them.
pub mod Rounds
pub mod Looping
use chaos_in_multiplayer.Base.{ℕ, ◌≡◌, Bool, some}
use chaos_in_multiplayer.UnorderedMap.{contains}
use chaos_in_multiplayer.Server.{Server}

-- What is fixed while packets are processed: the poll group, the callable, the bound, and the
-- handles that are registered.
pub record Setting : Type 0 where
  pub group : ℕ
  pub callable : ℕ
  pub bound : ℕ
  pub known : ℕ → Bool

pub record IsServing (c : Setting) (s : Server) : Type 0 where
  pub polls : s.poll_group ≡ some c.group
  pub calls : s.packet_callback ≡ some c.callable
  pub bounded : s.max_processed_packets ≡ c.bound
  pub knows : (k : ℕ) → contains k s.connections ≡ c.known k
