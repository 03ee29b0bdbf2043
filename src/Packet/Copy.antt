-- ===== src/Packet/Copy.antt =====
-- What `Packet::copyData` makes of a buffer and a size.
use chaos_in_multiplayer.Base.{
  ℕ, zero, suc, ◌≤◌, ◌≡◌, refl, List, [], ◌∷◌, arith, ltb, le→ltb, if◌then◌else◌, length, take,
  take-length, replicate, Text,
}
use chaos_in_multiplayer.Program.{length_error, undefined, ok, fault, World}
use chaos_in_multiplayer.Packet.{
  Packet, max_size, memcpy, copy_data, of_buffer, packet_of, set, bytes, size,
}

memcpy-replicate :
    (src : List ℕ) (n : ℕ)
    → memcpy (replicate n 0) src n
      ≡ (if ltb (length src) n then fault undefined else ok (take n src))
unfolding memcpy
memcpy-replicate src zero = ground arith
memcpy-replicate [] (suc n) = ground arith
memcpy-replicate (s ∷ src) (suc n) = ground (arith, memcpy-replicate src n)

-- For every buffer and size: a size that no vector can have throws `std::length_error`, a size
-- beyond the buffer reads out of bounds, and any other gives exactly the first `size` bytes.
pub copy_data_lem :
    (buffer : List ℕ) (n : ℕ)
    → copy_data buffer n ≡ (
        if ltb max_size n
        then fault length_error
        else if ltb (length buffer) n
        then fault undefined
        else ok (take n buffer))
unfolding copy_data
copy_data_lem buffer n = rw (memcpy-replicate buffer n)

-- A buffer that is handed over whole is the packet's content, if a vector can be that long.
pub of_buffer_whole :
    (buffer : List ℕ)
    → length buffer ≤ max_size
    → of_buffer buffer (length buffer) ≡ ok (record { packet = buffer })
unfolding of_buffer
of_buffer_whole buffer h =
    rw
      (
        copy_data_lem,
        le→ltb _ _ h,
        le→ltb (length buffer) (length buffer) (omega arith),
        take-length,
      )
      refl

-- Setting a packet to the bytes of another, by that packet's own pointer and size, makes it equal to
-- the other, if a vector can be that long.
pub set-bytes : (p q : Packet) → size p ≤ max_size → set (bytes p) (size p) q ≡ ok p
unfolding set of_buffer
set-bytes p q h = of_buffer_whole p.packet h

pub packet_of-eq :
    {S Env : Type 0} (t : Text) (w : World S Env)
    → length t ≤ max_size
    → packet_of t w ≡ (ok (record { packet = t }), w)
unfolding packet_of
packet_of-eq t w h = rw (of_buffer_whole t h)
