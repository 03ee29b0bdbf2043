-- ===== src/Client/Session/Histories.antt =====
-- That no use of an initialised client is undefined.
use chaos_in_multiplayer.Base.{
  ℕ, ◌∙◌, ◌≡◌, ◌≢◌, refl, sym, subst, Bool, ◌++◌, true, false, Option, some, none, List, [], ◌∷◌,
  Text, arith, All, ◌==◌, if◌then◌else◌,
}
use chaos_in_multiplayer.Status.{ConnectionStatusChange}
use chaos_in_multiplayer.Platform.{
  Platform, Event, invalid_server_address, failed_to_create_connection,
}
use chaos_in_multiplayer.Program.{
  undefined, ok, World, Action, ◌>>◌, note, if_set, skip, pure, fault,
}
use chaos_in_multiplayer.Program.Safe.{Safe, Safe-modify, Safe-bind, Safe-skip}
use chaos_in_multiplayer.Packet.{Packet}
use chaos_in_multiplayer.Server.Opening.{format_address}
use chaos_in_multiplayer.Client.{
  Client, connect, connected, initialize_connection, set_max_processed_packets, set_packet_callback,
  set_connection_status_change_callback,
}
use chaos_in_multiplayer.Client.Sending.{
  send_reliable_packet_to_server, send_unreliable_packet_to_server,
}
use chaos_in_multiplayer.Client.Session.{Call, perform_call, run_history}
use chaos_in_multiplayer.Client.Session.Safety.{
  IsLiving, IsReady, IsInt, connected-Safe, send_packet-Safe,
}
use chaos_in_multiplayer.Client.Session.Updates.{IsReporting, update_connection-Safe}

-- The argument of `setMaxProcessedPackets` is an `int`.
abbrev pub Admits : Call → Type 0
Admits (Call.sets_max_processed_packets n) = IsInt n
Admits x = Unit

same_connection :
    {Env : Type 0} {live : ℕ → Env → Type 0} (c d : Client) (env : Env)
    → d.networking_interface ≡ c.networking_interface
    → d.server_connection ≡ c.server_connection
    → IsInt d.max_processed_packets
    → IsReady live c env
    → IsReady live d env
same_connection c d env i s b r =
    let (h, e, l) = r.connects in
    record { interface = i ∙ r.interface; connects = (h, s ∙ e, l); bounded = b }

-- `connect` returned `true` on a valid handle only.
on_valid :
    {Env : Type 0} (invalid : Bool) (w : World Client Env)
    → let r =
        (if invalid then note (Event.log failed_to_create_connection) >> pure false else pure true)
          w in
      r.0 ≡ ok true → (invalid ≡ false) × (r.1 ≡ w)
on_valid true w e = cc
on_valid false w e = (refl, refl)

module _ {Env : Type 0} (p : Platform Env) (live : ℕ → Env → Type 0) (living : IsLiving p live)
    (packet_code : ℕ → ℕ → Packet → Action Client Env Unit)
    (status_code : ℕ → ConnectionStatusChange → Action Client Env Unit)
    (packets_safe : (f k : ℕ) (q : Packet) → Safe (IsReady live) undefined (packet_code f k q))
    (changes_safe : (f : ℕ) (c : ConnectionStatusChange)
      → Safe (IsReporting live) undefined (status_code f c)) where
  perform_call-Safe :
      (x : Call)
      → Admits x
      → Safe (IsReady live) undefined (perform_call p packet_code status_code x)
  unfolding perform_call send_reliable_packet_to_server send_unreliable_packet_to_server
  perform_call-Safe Call.updates a =
      update_connection-Safe p live living packet_code status_code packets_safe changes_safe
  perform_call-Safe Call.asks a =
      Safe-bind (connected p) (λ _. skip) (connected-Safe p live living) (λ _. Safe-skip)
  perform_call-Safe (Call.sends_reliable q) a = send_packet-Safe p live living q p.send_reliable
  perform_call-Safe (Call.sends_unreliable q) a = send_packet-Safe p live living q p.send_unreliable
  perform_call-Safe (Call.sets_packet_callback f) a =
      Safe-modify (set_packet_callback f) (λ c env r. same_connection c _ env refl refl r.bounded r)
  perform_call-Safe (Call.sets_status_callback f) a =
      Safe-modify (set_connection_status_change_callback f)
        (λ c env r. same_connection c _ env refl refl r.bounded r)
  perform_call-Safe (Call.sets_max_processed_packets n) a =
      Safe-modify (set_max_processed_packets n) (λ c env r. same_connection c _ env refl refl a r)

  run_history-Safe :
      (xs : List Call)
      → All Admits xs
      → Safe (IsReady live) undefined (run_history p packet_code status_code xs)
  unfolding run_history
  run_history-Safe [] a = Safe-skip
  run_history-Safe (x ∷ xs) a =
      Safe-bind (perform_call p packet_code status_code x)
        (λ _. run_history p packet_code status_code xs) (perform_call-Safe x a.0)
        (λ _. run_history-Safe xs a.1)

  abbrev connecting : Option ℕ → Action Client Env Bool
  connecting o = if_set o (note (Event.log invalid_server_address) >> pure false) (connect p)

  connect-IsReady :
      (a : ℕ) (w : World Client Env)
      → w.object.networking_interface ≡ true
      → IsInt w.object.max_processed_packets
      → (connect p a w).0 ≡ ok true
      → let w' = (connect p a w).1 in IsReady live w'.object w'.env
  unfolding connect
  connect-IsReady a w i b e =
      let (h, env) = p.connect_by_address a w.env in
      let w' : World Client Env = record {
        object = record w.object { server_connection = some h };
        env = env;
        trace = w.trace ++ Event.connect_by_address a ∷ [];
      } in
      let (valid, same) = on_valid (h == p.invalid_connection) w' e in
      let ready : IsReady live w'.object w'.env = record {
        interface = i;
        connects = (h, refl, living.connects a w.env (λ x. ground (arith, valid, x)));
        bounded = b;
      } in
      subst (λ (v : World Client Env). IsReady live v.object v.env) (sym same) ready

  on_parsed :
      (o : Option ℕ) (w : World Client Env)
      → w.object.networking_interface ≡ true
      → IsInt w.object.max_processed_packets
      → (connecting o w).0 ≡ ok true
      → let w' = (connecting o w).1 in IsReady live w'.object w'.env
  on_parsed none w i b e = cc
  on_parsed (some a) w i b e = connect-IsReady a w i b e

  initialize_connection-IsReady :
      (ip : Text) (port : ℕ) (w : World Client Env)
      → IsInt w.object.max_processed_packets
      → (initialize_connection p ip port w).0 ≡ ok true
      → let w' = (initialize_connection p ip port w).1 in IsReady live w'.object w'.env
  unfolding initialize_connection
  initialize_connection-IsReady ip port w b e =
      on_parsed (p.parse_string (format_address ip port))
        (record w { object = record w.object { networking_interface = true } }) refl b e

  -- After `initializeConnection` has returned `true`, no use of the client is undefined: whatever its
  -- other methods but `closeConnection` are called with, in any order, and whatever the platform
  -- gives, they end without undefined behaviour. This supposes that the bounds are `int`s, that a
  -- valid connection lives until it is closed and receives whole messages, and that the callbacks
  -- keep to the same.
  pub run_history-ne-undefined :
      (ip : Text) (port : ℕ) (xs : List Call) (w : World Client Env)
      → IsInt w.object.max_processed_packets
      → (initialize_connection p ip port w).0 ≡ ok true
      → All Admits xs
      → (run_history p packet_code status_code xs (initialize_connection p ip port w).1).0
        ≢ fault undefined
  run_history-ne-undefined ip port xs w b e a =
      ((run_history-Safe xs a).at (initialize_connection p ip port w).1
        (initialize_connection-IsReady ip port w b e)).0
