-- ===== src/ExampleClient/Refused.antt =====
-- What `main` of the example client does after a failed `initializeConnection`.
use chaos_in_multiplayer.Base.{
  ℕ, pos, suc, ◌≡◌, ◌≢◌, refl, ap, ◌∙◌, inl, inr, false, some, none, codes, arith,
}
use chaos_in_multiplayer.Platform.{Platform}
use chaos_in_multiplayer.Program.{undefined, ok, fault, World}
use chaos_in_multiplayer.Client.{
  Client, new, connection, connected, initialize_connection, set_connection_status_change_callback,
}
use chaos_in_multiplayer.Client.Session.Refusals.{
  IsRefused, Refuses, initialize_connection-IsRefused, update_connection-undefined,
}
use chaos_in_multiplayer.ExampleClient.{wait_loop, packet_code, status_code, main}

module _ {Env : Type 0} (p : Platform Env) (refuses : Refuses p)
    (unconnected : (env : Env)
      → (p.connection_state p.invalid_connection env).0 ≢ p.state_connected) where
  connected-none :
      (w : World Client Env)
      → w.object.server_connection ≡ none
      → (connected p w).0 ≡ fault undefined
  unfolding connected connection
  connected-none w e = ground arith

  connected-invalid :
      (w : World Client Env)
      → w.object.server_connection ≡ some p.invalid_connection
      → let (r, w') = connected p w in (r ≡ ok false) × (w'.object ≡ w.object)
  unfolding connected connection
  connected-invalid w e = let never = unconnected w.env in ground (arith, e, never)

  wait_loop-undefined :
      (rounds b : ℕ) (w : World Client Env)
      → w.object.max_processed_packets ≡ pos (suc b)
      → IsRefused p w.object
      → (wait_loop p (suc rounds) w).0 ≡ fault undefined
  unfolding wait_loop
  wait_loop-undefined rounds b w m (inl n) = rw (connected-none w n) refl
  wait_loop-undefined rounds b w m (inr i) =
      let (r, same) = connected-invalid w i in
      let w' = (connected p w).1 in
      let ends =
        update_connection-undefined p (packet_code p) (status_code p) refuses b w'
          (ap (λ (c : Client). c.max_processed_packets) same ∙ m)
          (inr (ap (λ (c : Client). c.server_connection) same ∙ i)) in
      rw (r, ends) refl

  -- If `initializeConnection` returns `false` to the example client, which does not look at the result,
  -- `main` is undefined in its first round: the client asks by a handle that was never assigned, or
  -- follows the null pointer of a receive on the invalid handle. This supposes that the platform
  -- reports an error for the invalid handle and does not call it connected.
  pub main-undefined :
      (rounds : ℕ) (w : World Client Env)
      → let v = record w { object = set_connection_status_change_callback (some 1) new } in
        w.object ≡ new
        → (initialize_connection p (codes "127.0.0.1") 8080 v).0 ≡ ok false
        → (main p (suc rounds) w).0 ≡ fault undefined
  unfolding main
  main-undefined rounds w e i =
      let v : World Client Env = record w {
        object = set_connection_status_change_callback (some 1) new;
      } in
      let (r, same) = initialize_connection-IsRefused p (codes "127.0.0.1") 8080 v refl i in
      let w' = (initialize_connection p (codes "127.0.0.1") 8080 v).1 in
      let ends = wait_loop-undefined rounds 4 w' same r in rw (e, i, ends) refl
