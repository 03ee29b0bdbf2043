-- ===== src/Receiving/Whole.antt =====
-- What one call that receives gives when it does as it documents.
use chaos_in_multiplayer.Base.{
  ℕ, pos, false, ◌+◌, to_size_t, ◌≤◌, ◌<◌, ◌≡◌, ◌≢◌, ◌⊎◌, some, List, arith, length, le→ltb, ◌==◌,
}
use chaos_in_multiplayer.Platform.{Message, Received}
use chaos_in_multiplayer.Program.{undefined, fault}
use chaos_in_multiplayer.Program.Safe.{Safe, Safe-pure}
use chaos_in_multiplayer.Packet.{of_buffer}
use chaos_in_multiplayer.Packet.Copy.{copy_data_lem}
use chaos_in_multiplayer.Server.Packets.{int_max, increment}

-- A message with its size in bytes.
abbrev pub Fits : Message → Type 0
Fits m = to_size_t m.size ≤ length m.bytes

-- Either no message, or one that is whole.
abbrev pub IsWhole : Received → Type 0
IsWhole r = (r.count ≡ pos 0) ⊎ ((m : Message) × (r.message ≡ some m) × Fits m)

pub of_buffer-ne-undefined :
    (bytes : List ℕ) (n : ℕ) → n ≤ length bytes → of_buffer bytes n ≢ fault undefined
unfolding of_buffer
of_buffer-ne-undefined bytes n h =
    let whole = le→ltb (length bytes) n h in ground (arith, copy_data_lem bytes n, whole)

pub increment-Safe :
    {S Env : Type 0} {P : S → Env → Type 0} (i : ℕ) → i < int_max → Safe P undefined (increment i)
unfolding increment
increment-Safe i h =
    let below_max : (i == int_max) ≡ false = ground (arith, h) in rw below_max (Safe-pure (i + 1))
