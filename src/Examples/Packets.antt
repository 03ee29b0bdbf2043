-- ===== src/Examples/Packets.antt =====
-- Packets of a few bytes.
use chaos_in_multiplayer.Base.{ℕ, List, ◌≡◌, [], ◌∷◌, length, take, ltb, if◌then◌else◌}
use chaos_in_multiplayer.Program.{length_error, undefined, ok, fault}
use chaos_in_multiplayer.Packet.{max_size, copy_data}
use chaos_in_multiplayer.Packet.Copy.{copy_data_lem}

abbrev buffer : List ℕ
buffer = 1 ∷ 2 ∷ 3 ∷ []

copy_data_lem_example : copy_data buffer 2 ≡ (
    if ltb max_size 2
    then fault length_error
    else if ltb (length buffer) 2
    then fault undefined
    else ok (take 2 buffer))
copy_data_lem_example = copy_data_lem buffer 2
