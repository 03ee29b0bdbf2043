-- ===== src/Receiving/Looping.antt =====
-- What the loop as a whole delivers, given what a round does.
use chaos_in_multiplayer.Base.{
  ℕ, zero, suc, ◌+◌, ◌-◌, ◌≤◌, ◌<◌, ◌≡◌, refl, sym, Bool, true, false, List, [], ◌∷◌, subst, arith,
  ltb, ltb→lt, ltb→ge, ◌==◌, take, drop, All, Bool-cases, inl, inr,
}
use chaos_in_multiplayer.Platform.{Message}
use chaos_in_multiplayer.Program.{unfinished, Outcome, ok, World, Action, ◌>>=◌, stop, gets, when}
use chaos_in_multiplayer.Server.Packets.{int_max, increment}
use chaos_in_multiplayer.Receiving.{Delivered, Receives, IsRound}
use chaos_in_multiplayer.Receiving.Rounds.{Delivered-trans, Delivered-nothing}

-- The loop from an index on, for any test of the bound and any round.
module _ {S Env : Type 0} (in_bound : ℕ → S → Bool) (round : Action S Env Bool) where
  unfoldable pub receive_loop : ℕ → ℕ → Action S Env Unit
  receive_loop zero i = stop unfinished
  receive_loop (suc fuel) i = do
    go_on ← gets (in_bound i)
    when go_on (do more ← round; when more (do next ← increment i; receive_loop fuel next))

-- The three ways in which a round of the loop goes on.
module _ {S Env : Type 0} (in_bound : ℕ → S → Bool) (round : Action S Env Bool) (fuel i : ℕ)
    (w : World S Env) where
  receive_loop-bound :
      in_bound i w.object ≡ false → receive_loop in_bound round (suc fuel) i w ≡ (ok tt, w)
  unfolding receive_loop
  receive_loop-bound e = rw e

  receive_loop-last :
      in_bound i w.object ≡ true
      → (round w).0 ≡ ok false
      → receive_loop in_bound round (suc fuel) i w ≡ (ok tt, (round w).1)
  unfolding receive_loop
  receive_loop-last e r = rw (e, r)

  receive_loop-next :
      in_bound i w.object ≡ true
      → (round w).0 ≡ ok true
      → i < int_max
      → receive_loop in_bound round (suc fuel) i w
        ≡ receive_loop in_bound round fuel (i + 1) (round w).1
  unfolding receive_loop increment
  receive_loop-next e r h = let below : (i == int_max) ≡ false = ground arith in rw (e, r, below)

module _ {S Env : Type 0} (inbox : Env → List Message) (Serving : S → Type 0) (told : Bool)
    (Deliverable : Message → Type 0) (in_bound : ℕ → S → Bool) (round : Action S Env Bool)
    (bound : ℕ) (rounds : IsRound inbox Serving told Deliverable round)
    (bounded : (i : ℕ) (s : S) → Serving s → in_bound i s ≡ ltb i bound) where
  -- What the loop has done after `n` more rounds at most.
  abbrev Loops : World S Env → List Message → Outcome Unit × World S Env → ℕ → Type 0
  Loops w ms v n = Receives inbox Serving told w tt (take n ms) (drop n ms) v

  receive_loop-stops :
      (fuel i : ℕ) (ms : List Message) (w : World S Env)
      → inbox w.env ≡ ms
      → Serving w.object
      → ltb i bound ≡ false
      → Loops w ms (receive_loop in_bound round (suc fuel) i w) (bound - i)
  receive_loop-stops fuel i ms w e s reached =
      let none_left : bound - i ≡ 0 = omega (arith, ltb→ge i bound reached) in
      subst (Loops w ms (receive_loop in_bound round (suc fuel) i w)) (sym none_left) (
        subst (λ v. Loops w ms v 0)
          (sym (receive_loop-bound in_bound round fuel i w (rw (bounded i w.object s) reached)))
          (
            refl,
            subst (Delivered inbox Serving told w w []) e
                (Delivered-nothing inbox Serving told w s),
          ))

  receive_loop-delivers :
      (fuel i : ℕ) (ms : List Message) (w : World S Env)
      → inbox w.env ≡ ms
      → Serving w.object
      → All Deliverable ms
      → bound ≤ int_max
      → bound < fuel + i
      → i ≤ bound
      → Loops w ms (receive_loop in_bound round fuel i w) (bound - i)
  receive_loop-delivers zero i ms w e s d small enough fits = absurd (omega arith)
  receive_loop-delivers (suc fuel) i [] w e s d small enough fits =
      elim (Bool-cases (ltb i bound)) [
        | inr reached ↦ receive_loop-stops fuel i [] w e s reached
        | inl more ↦
            let left : bound - i ≡ suc (bound - (i + 1)) = omega (arith, ltb→lt i bound more) in
            let (r, done) = rounds.nothing w e s in
            subst (Loops w [] (receive_loop in_bound round (suc fuel) i w)) (sym left) (
              subst (λ v. Loops w [] v (suc (bound - (i + 1))))
                (sym (receive_loop-last in_bound round fuel i w (rw (bounded i w.object s) more) r))
                (refl, done))
      ]
  receive_loop-delivers (suc fuel) i (m ∷ ms) w e s d small enough fits =
      elim (Bool-cases (ltb i bound)) [
        | inr reached ↦ receive_loop-stops fuel i (m ∷ ms) w e s reached
        | inl more ↦
            let below : i < bound = ltb→lt i bound more in
            let left : bound - i ≡ suc (bound - (i + 1)) = omega arith in
            let k = bound - (i + 1) in
            let (r, first) = rounds.first m ms w e s d.0 in
            let w' = (round w).1 in
            let (r', rest) =
              receive_loop-delivers fuel (i + 1) ms w' first.waiting first.serving d.1 small
                (omega arith) (omega arith) in
            subst (Loops w (m ∷ ms) (receive_loop in_bound round (suc fuel) i w)) (sym left) (
              subst (λ v. Loops w (m ∷ ms) v (suc k))
                (sym (
                  receive_loop-next in_bound round fuel i w (rw (bounded i w.object s) more) r
                    (omega arith)))
                (
                  r',
                  Delivered-trans inbox Serving told w w' _ (m ∷ []) (take k ms) ms (drop k ms)
                      first rest,
                ))
      ]

  -- From index 0, with the fuel that the code's loops are given.
  pub receive_loop_whole :
      (w : World S Env)
      → Serving w.object
      → All Deliverable (inbox w.env)
      → bound ≤ int_max
      → Receives inbox Serving told w tt
          (take bound (inbox w.env))
          (drop bound (inbox w.env))
          (receive_loop in_bound round (suc (suc int_max)) 0 w)
  receive_loop_whole w s d small =
      let all : bound - 0 ≡ bound = omega arith in
      subst (Loops w (inbox w.env) (receive_loop in_bound round (suc (suc int_max)) 0 w)) all (
        receive_loop-delivers (suc (suc int_max)) 0 (inbox w.env) w refl s d small (omega arith)
          (omega arith))
