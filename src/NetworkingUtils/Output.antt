-- ===== src/NetworkingUtils/Output.antt =====
-- What the debug output says of the time.
use chaos_in_multiplayer.Base.{
  ℕ, pos, ◌-ℤ◌, ◌+◌, ◌≡◌, refl, [], ◌∷◌, ◌++◌, Text, arith, ◌==◌, if◌then◌else◌, Bool-cases, inl,
  inr, ap, ◌∙◌, append_assoc, List,
}
use chaos_in_multiplayer.Platform.{Utilities, Event, debug_message, stdout, stderr}
use chaos_in_multiplayer.Program.{ok, World}
use chaos_in_multiplayer.NetworkingUtils.{NetworkingUtils, initialize_sockets, debug_output}

module _ {Env : Type 0} (u : Utilities Env) where
  pub initialize_sockets-ok : (w : World NetworkingUtils Env) → (initialize_sockets u w).0 ≡ ok tt
  unfolding initialize_sockets
  initialize_sockets-ok w = ground arith

  -- What an output of this type flushes besides.
  abbrev flushes : ℕ → List Event
  flushes output_type =
      if output_type == u.output_type_bug then Event.flush stdout ∷ Event.flush stderr ∷ [] else []

  elapsed : (t d : ℕ) → (pos (t + d) -ℤ pos t) ≡ pos d
  elapsed t d = ground arith

  debug_output-trace :
      (output_type t d : ℕ) (message : Text) (v : World NetworkingUtils Env)
      → v.object.initialization_timestamp ≡ pos t
      → (u.local_timestamp v.env).0 ≡ pos (t + d)
      → let (r, v') = debug_output u output_type message v in
        (r ≡ ok tt)
        × (v'.trace
            ≡ v.trace
              ++ (Event.local_timestamp
                  ∷ Event.log (debug_message (pos d) message)
                  ∷ Event.flush stdout
                  ∷ flushes output_type))
  unfolding debug_output
  debug_output-trace output_type t d message v start now =
      elim (Bool-cases (output_type == u.output_type_bug)) [
        | inl y ↦ rw (y, now, start, elapsed t d) (refl, simp append_assoc)
        | inr n ↦ rw (n, now, start, elapsed t d) (refl, simp append_assoc)
      ]

  -- Initialising always returns, also when the library fails to start. If the clock has not gone back
  -- since, a message that the library reports later is logged with the time that has passed since, and
  -- then the standard output is flushed; for a bug, it and the error output are flushed again.
  pub debug_output-initialize :
      (output_type t d : ℕ) (message : Text) (w v : World NetworkingUtils Env)
      → v.object ≡ (initialize_sockets u w).1.object
      → (initialize_sockets u w).1.object.initialization_timestamp ≡ pos t
      → (u.local_timestamp v.env).0 ≡ pos (t + d)
      → let (r, v') = debug_output u output_type message v in
        ((initialize_sockets u w).0 ≡ ok tt)
        × (r ≡ ok tt)
        × (v'.trace
            ≡ v.trace
              ++ (Event.local_timestamp
                  ∷ Event.log (debug_message (pos d) message)
                  ∷ Event.flush stdout
                  ∷ flushes output_type))
  debug_output-initialize output_type t d message w v e start now =
      let kept : v.object.initialization_timestamp ≡ pos t =
        ap (λ n. n.initialization_timestamp) e ∙ start in
      let (returns, trace) = debug_output-trace output_type t d message v kept now in
      (initialize_sockets-ok w, returns, trace)
