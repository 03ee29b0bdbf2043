-- ===== src/Client/Packets/Delivery.antt =====
-- Which of the waiting messages one call of `processReceivedPackets` hands to the application: what
-- is said of them.
pub mod Rounds
pub mod Looping
use chaos_in_multiplayer.Base.{ℕ, pos, ◌≡◌, Bool, true, false, Option, none, some}
use chaos_in_multiplayer.Client.{Client}

-- What is fixed while packets are processed: the connection, the callable if there is one, and the
-- bound.
pub record Setting : Type 0 where
  pub connection : ℕ
  pub callable : Option ℕ
  pub bound : ℕ

pub record IsServing (c : Setting) (s : Client) : Type 0 where
  pub connects : s.server_connection ≡ some c.connection
  pub calls : s.packet_callback ≡ c.callable
  pub bounded : s.max_processed_packets ≡ pos c.bound

-- Whether anybody is told of a packet.
abbrev pub is_told : Option ℕ → Bool
is_told none = false
is_told (some f) = true

-- A client takes messages of any connection.
abbrev pub anybody : ℕ → Bool
anybody k = true
