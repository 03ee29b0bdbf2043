-- ===== src/Client/Session/Safety.antt =====
-- A client with a living connection: its sends, its question whether it is connected, and its loop
-- over packets are never undefined.
use chaos_in_multiplayer.Base.{
  ℕ, ℤ, ◌<◌, ◌≡◌, ◌≢◌, refl, inl, inr, true, false, some, List, [], ◌∷◌, zero, suc, is_some,
  to_size_t, ◌++◌,
}
use chaos_in_multiplayer.Platform.{Platform, Event, Message, Received, error_checking_messages}
use chaos_in_multiplayer.Program.{
  undefined, Action, ◌>>=◌, call, perform, require, pure, ◌>>◌, when, note,
}
use chaos_in_multiplayer.Program.Safe.{
  Safe, safe_rules, Safe-call, Safe-perform, Safe-read, Safe-required, Safe-known, Safe-bind,
  Safe-pure, Safe-if, Safe-when, defined_rules,
}
use chaos_in_multiplayer.Packet.{Packet}
use chaos_in_multiplayer.Receiving.Whole.{IsWhole, Fits, of_buffer-ne-undefined, increment-Safe}
use chaos_in_multiplayer.Server.Packets.{int_max, increment, is_zero, is_negative}
use chaos_in_multiplayer.Client.{Client, connection, connected}
use chaos_in_multiplayer.Client.Packets.{
  below, call_packet_callback, process_pending_packet, handle_received, packet_round, packet_loop,
  process_received_packets,
}
use chaos_in_multiplayer.Client.Sending.{send_data_to_server, send_packet}

-- Which connections are alive, in a state of the platform: valid, and not closed by this program.
-- Such a connection receives whole messages, and only closing it ends its life.
pub record IsLiving {Env : Type 0} (p : Platform Env) (live : ℕ → Env → Type 0) : Type 0 where
  pub connects :
      (a : ℕ) (env : Env)
      → let (h, env') = p.connect_by_address a env in h ≢ p.invalid_connection → live h env'
  pub is_whole : (h : ℕ) (env : Env) → live h env → IsWhole (p.receive_on_connection h env).0
  pub receives : (h k : ℕ) (env : Env) → live h env → live h (p.receive_on_connection k env).1
  pub releases : (h : ℕ) (m : Message) (env : Env) → live h env → live h (p.release m env)
  pub runs : (h : ℕ) (env : Env) → live h env → live h (p.run_callbacks env).1
  pub sends :
      (h k n t : ℕ) (bytes : List ℕ) (env : Env)
      → live h env
      → live h (p.send_message k bytes n t env)
  pub asks : (h k : ℕ) (env : Env) → live h env → live h (p.connection_state k env).1

-- The bound is an `int`.
abbrev pub IsInt : ℤ → Type 0
IsInt n = (i : ℕ) → below i n ≡ true → i < int_max

-- A client with a living connection.
pub record IsReady {Env : Type 0} (live : ℕ → Env → Type 0) (c : Client) (env : Env) : Type 0 where
  pub interface : c.networking_interface ≡ true
  pub connects : (h : ℕ) × (c.server_connection ≡ some h) × live h env
  pub bounded : IsInt c.max_processed_packets

module _ {Env : Type 0} (p : Platform Env) (live : ℕ → Env → Type 0)
    (living : IsLiving p live) where
  -- A call of the platform that ends no life.
  pub moves :
      (c : Client) (env env' : Env)
      → ((h : ℕ) → live h env → live h env')
      → IsReady live c env
      → IsReady live c env'
  moves c env env' k r =
      let (h, e, l) = r.connects in
      record { interface = r.interface; connects = (h, e, k h l); bounded = r.bounded }

  release-Safe : (m : Message) (e : Event) → Safe (IsReady live) undefined (perform e (p.release m))
  release-Safe m e = Safe-perform e _ (λ c env. moves c env _ (λ h. living.releases h m env))

  asks-Safe : (k : ℕ) (e : Event) → Safe (IsReady live) undefined (call e (p.connection_state k))
  asks-Safe k e = Safe-call e _ (λ c env. moves c env _ (λ h. living.asks h k env))

  sends-Safe :
      (k n t : ℕ) (bytes : List ℕ) (e : Event)
      → Safe (IsReady live) undefined (perform e (p.send_message k bytes n t))
  sends-Safe k n t bytes e =
      Safe-perform e _ (λ c env. moves c env _ (λ h. living.sends h k n t bytes env))

  -- The handle is there.
  connection-Safe : Safe (IsReady live) undefined (connection p)
  unfolding connection
  connection-Safe =
      Safe-read (λ o. is_some o ≡ true) (λ c. c.server_connection) (require undefined)
        (λ c env r. let (h, e, l) = r.connects in rw e refl) (λ o h. Safe-required undefined o h)

  pub connected-Safe : Safe (IsReady live) undefined (connected p)
  unfolding connected
  connected-Safe = search (safe_rules, connection-Safe, asks-Safe) depth 12

  pub send_packet-Safe : (q : Packet) (t : ℕ) → Safe (IsReady live) undefined (send_packet p q t)
  unfolding send_packet send_data_to_server
  send_packet-Safe q t =
      search (safe_rules, defined_rules, connection-Safe, connected-Safe, sends-Safe) depth 12

  module _ (packet_code : ℕ → ℕ → Packet → Action Client Env Unit)
      (packets_safe : (f k : ℕ) (q : Packet)
        → Safe (IsReady live) undefined (packet_code f k q)) where
    call_packet_callback-Safe :
        (m : Message) (f : ℕ)
        → Fits m
        → Safe (IsReady live) undefined (call_packet_callback p packet_code m f)
    unfolding call_packet_callback
    call_packet_callback-Safe m f fits =
        let copies = of_buffer-ne-undefined m.bytes (to_size_t m.size) fits in
        search (safe_rules, copies, packets_safe) depth 12

    process_pending_packet-Safe :
        (m : Message)
        → Fits m
        → Safe (IsReady live) undefined (process_pending_packet p packet_code m)
    unfolding process_pending_packet
    process_pending_packet-Safe m fits =
        let calls = λ (f : ℕ). call_packet_callback-Safe m f fits in
        search (safe_rules, calls) depth 12

    handle_received-Safe :
        (r : Received) → IsWhole r → Safe (IsReady live) undefined (handle_received p packet_code r)
    unfolding handle_received
    handle_received-Safe r (inl e) = rw e (Safe-pure false)
    handle_received-Safe r (inr (m, e, fits)) =
        let handles = process_pending_packet-Safe m fits in
        let rest = λ (n : Message). (do
          process_pending_packet p packet_code n
          perform (Event.release n) (p.release n)
          pure true) in
        let tail : Safe (IsReady live) undefined (rest m) =
          Safe-bind (process_pending_packet p packet_code m) _ handles (λ _.
            Safe-bind (perform (Event.release m) (p.release m)) _ (release-Safe m _)
              (λ _. Safe-pure true)) in
        let known : Safe (IsReady live) undefined (require undefined r.message >>= rest) =
          Safe-known undefined r.message m rest e tail in
        Safe-if (is_zero r.count) (pure false) _ (Safe-pure false) (
          Safe-bind (when (is_negative r.count) (note (Event.log error_checking_messages))) _
            (search safe_rules) (λ _. known))

    -- A round in which the platform receives on a living connection.
    packet_round-Safe : Safe (IsReady live) undefined (packet_round p packet_code)
    unfolding packet_round connection
    packet_round-Safe = record {
      at = λ w r.
          let (h, e, l) = r.connects in
          let (received, env) = p.receive_on_connection h w.env in
          let whole = living.is_whole h w.env l in
          let ready = moves w.object w.env env (λ k. living.receives k h w.env) r in
          let handled =
            (handle_received-Safe received whole).at
              (record w { env = env; trace = w.trace ++ Event.receive_on_connection h ∷ [] })
              ready in
          simp e handled;
    }

    packet_loop-Safe :
        (fuel i : ℕ) → Safe (IsReady live) undefined (packet_loop p packet_code fuel i)
    unfolding packet_loop
    packet_loop-Safe zero i = search (safe_rules, defined_rules)
    packet_loop-Safe (suc fuel) i =
        Safe-read IsInt (λ c. c.max_processed_packets)
          (λ bound. when (below i bound) (do
            more ← packet_round p packet_code
            when more (do next ← increment i; packet_loop p packet_code fuel next)))
          (λ c env r. r.bounded)
          (λ bound small. Safe-when (below i bound) _ (λ goes.
            Safe-bind (packet_round p packet_code) _ packet_round-Safe (λ more.
              Safe-when more _ (λ _.
                Safe-bind (increment i) (packet_loop p packet_code fuel)
                  (increment-Safe i (small i goes)) (packet_loop-Safe fuel)))))

    pub packets-Safe : Safe (IsReady live) undefined (process_received_packets p packet_code)
    unfolding process_received_packets
    packets-Safe = packet_loop-Safe _ 0
