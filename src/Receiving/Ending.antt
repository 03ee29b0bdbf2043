-- ===== src/Receiving/Ending.antt =====
-- That the loop ends.
use chaos_in_multiplayer.Base.{ℕ, zero, suc, ◌+◌, ◌≤◌, ◌<◌, ◌≢◌, Bool, arith}
use chaos_in_multiplayer.Program.{unfinished, fault, World, Action}
use chaos_in_multiplayer.Program.Keeps.{Avoids}
use chaos_in_multiplayer.Server.Packets.{int_max, increment}
use chaos_in_multiplayer.Receiving.Looping.{receive_loop}

module _ {S Env : Type 0} (in_bound : ℕ → S → Bool) (round : Action S Env Bool)
    (ends : Avoids unfinished round) where
  receive_loop-ends :
      (fuel i : ℕ) (w : World S Env)
      → i ≤ int_max
      → int_max < fuel + i
      → (receive_loop in_bound round fuel i w).0 ≢ fault unfinished
  unfolding receive_loop increment
  receive_loop-ends zero i w h enough = absurd (omega arith)
  receive_loop-ends (suc fuel) i w h enough =
      let r = ends.at w in
      let next = receive_loop-ends fuel (i + 1) (round w).1 in ground (arith, r, next)

  -- The fuel of the code's loops is enough.
  pub receive_loop-finishes :
      (w : World S Env) → (receive_loop in_bound round (suc (suc int_max)) 0 w).0 ≢ fault unfinished
  receive_loop-finishes w = receive_loop-ends (suc (suc int_max)) 0 w (omega arith) (omega arith)
