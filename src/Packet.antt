-- ===== src/Packet.antt =====
-- Include/Common/Packet.h and Source/Common/Packet.cpp: a packet owns a copy of its bytes.
pub mod Copy
use chaos_in_multiplayer.Base.{
  ℕ, zero, suc, ◌-◌, ◌^◌, Bool, List, [], ◌∷◌, ltb, if◌then◌else◌, length, replicate, Text,
}
use chaos_in_multiplayer.Program.{Fault, length_error, undefined, Outcome, ok, fault, Action, lift}

-- The member `packet`.
pub record Packet : Type 0 where
  pub packet : List ℕ

-- `std::vector<char>::max_size`.
unfoldable pub max_size : ℕ
max_size = 2 ^ 63 - 1

abbrev pub prepend : ℕ → Outcome (List ℕ) → Outcome (List ℕ)
prepend b (ok bs) = ok (b ∷ bs)
prepend b (fault f) = fault f

-- `std::memcpy(dst, src, n)`, where both buffers have to be that long.
unfoldable pub memcpy : List ℕ → List ℕ → ℕ → Outcome (List ℕ)
memcpy dst src zero = ok dst
memcpy [] src (suc n) = fault undefined
memcpy (d ∷ dst) [] (suc n) = fault undefined
memcpy (d ∷ dst) (s ∷ src) (suc n) = prepend s (memcpy dst src n)

-- `data` points to `bytes`.
unfoldable pub copy_data : List ℕ → ℕ → Outcome (List ℕ)
unfolding memcpy
copy_data bytes size =
    if ltb max_size size then fault length_error else memcpy (replicate size 0) bytes size

abbrev pub to_packet : Outcome (List ℕ) → Outcome Packet
to_packet (ok bs) = ok (record { packet = bs })
to_packet (fault f) = fault f

-- The constructor from a buffer.
unfoldable pub of_buffer : List ℕ → ℕ → Outcome Packet
unfolding copy_data
of_buffer bytes size = to_packet (copy_data bytes size)

-- `set` replaces the bytes, and leaves the packet alone if it throws.
unfoldable pub set : List ℕ → ℕ → Packet → Outcome Packet
unfolding copy_data
set bytes size p = to_packet (copy_data bytes size)

abbrev pub bytes : Packet → List ℕ
bytes p = p.packet

abbrev pub size : Packet → ℕ
size p = length p.packet

-- A packet of the bytes of a string, as the example programs make it.
unfoldable pub packet_of : {S Env : Type 0} → Text → Action S Env Packet
packet_of message = lift (of_buffer message (length message))
