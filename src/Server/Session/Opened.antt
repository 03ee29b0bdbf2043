-- ===== src/Server/Session/Opened.antt =====
-- A server that has been opened: its loop over packets is never undefined.
use chaos_in_multiplayer.Base.{
  ℕ, zero, suc, ◌≤◌, ◌≡◌, ◌≢◌, inl, inr, Bool, true, false, some, List, [], ◌∷◌, ◌++◌, arith,
  is_some, ltb, ltb→lt, to_size_t,
}
use chaos_in_multiplayer.Platform.{Platform, Event, Message, Received, error_checking_messages}
use chaos_in_multiplayer.Program.{undefined, Action, ◌>>=◌, ◌>>◌, pure, perform, when, note}
use chaos_in_multiplayer.Program.Safe.{
  Safe, safe_rules, defined_rules, Safe-perform, Safe-bind, Safe-pure, Safe-if, Safe-when,
  Safe-known, Safe-read,
}
use chaos_in_multiplayer.Packet.{Packet}
use chaos_in_multiplayer.Receiving.Whole.{IsWhole, Fits, of_buffer-ne-undefined, increment-Safe}
use chaos_in_multiplayer.Server.{Server}
use chaos_in_multiplayer.Server.Packets.{
  int_max, is_zero, is_negative, increment, process_pending_packet, handle_received, packet_round,
  packet_loop, process_pending_packets,
}

-- Which poll groups are alive, in a state of the platform: valid, and not destroyed by this program.
-- Such a group receives whole messages, and only destroying it ends its life.
pub record IsPolling {Env : Type 0} (p : Platform Env) (live : ℕ → Env → Type 0) : Type 0 where
  pub creates :
      (env : Env)
      → let (g, env') = p.create_poll_group env in g ≢ p.invalid_poll_group → live g env'
  pub is_whole : (g : ℕ) (env : Env) → live g env → IsWhole (p.receive_on_poll_group g env).0
  pub receives : (g k : ℕ) (env : Env) → live g env → live g (p.receive_on_poll_group k env).1
  pub releases : (g : ℕ) (m : Message) (env : Env) → live g env → live g (p.release m env)
  pub runs : (g : ℕ) (env : Env) → live g env → live g (p.run_callbacks env).1
  pub accepts : (g h : ℕ) (env : Env) → live g env → live g (p.accept_connection h env).1
  pub groups : (g h k : ℕ) (env : Env) → live g env → live g (p.set_connection_poll_group h k env).1
  pub closes :
      (g h r : ℕ) (l : Bool) (env : Env) → live g env → live g (p.close_connection h r l env)
  pub sends :
      (g h n t : ℕ) (bs : List ℕ) (env : Env) → live g env → live g (p.send_message h bs n t env)

-- A server with both handles, the poll group alive.
pub record IsServing {Env : Type 0} (live : ℕ → Env → Type 0) (s : Server) (env : Env)
    : Type 0 where
  pub listens : is_some s.listening_socket ≡ true
  pub polls : (g : ℕ) × (s.poll_group ≡ some g) × live g env
  pub bounded : s.max_processed_packets ≤ int_max

module _ {Env : Type 0} (p : Platform Env) (live : ℕ → Env → Type 0)
    (polling : IsPolling p live) where
  -- A call of the platform that ends no life.
  serves :
      (s : Server) (env env' : Env)
      → ((g : ℕ) → live g env → live g env')
      → IsServing live s env
      → IsServing live s env'
  serves s env env' k r =
      let (g, e, l) = r.polls in
      record { listens = r.listens; polls = (g, e, k g l); bounded = r.bounded }

  release-Safe :
      (m : Message) (e : Event) → Safe (IsServing live) undefined (perform e (p.release m))
  release-Safe m e = Safe-perform e _ (λ s env. serves s env _ (λ g. polling.releases g m env))

  module _ (packet_code : ℕ → ℕ → Packet → Action Server Env Unit)
      (packets_safe : (f k : ℕ) (q : Packet)
        → Safe (IsServing live) undefined (packet_code f k q)) where
    process_pending_packet-Safe :
        (m : Message)
        → Fits m
        → Safe (IsServing live) undefined (process_pending_packet p packet_code m)
    unfolding process_pending_packet
    process_pending_packet-Safe m fits =
        let copies = of_buffer-ne-undefined m.bytes (to_size_t m.size) fits in
        search (safe_rules, defined_rules, copies, packets_safe) depth 15

    handle_received-Safe :
        (r : Received)
        → IsWhole r
        → Safe (IsServing live) undefined (handle_received p packet_code r)
    unfolding handle_received
    handle_received-Safe r (inl e) = rw e (Safe-pure false)
    handle_received-Safe r (inr (m, e, fits)) =
        let rest = λ (n : Message). (do
          process_pending_packet p packet_code n
          perform (Event.release n) (p.release n)
          pure true) in
        let tail : Safe (IsServing live) undefined (rest m) =
          Safe-bind (process_pending_packet p packet_code m) _ (process_pending_packet-Safe m fits)
            (λ _.
              Safe-bind (perform (Event.release m) (p.release m)) _ (release-Safe m _)
                (λ _. Safe-pure true)) in
        Safe-if (is_zero r.count) (pure false) _ (Safe-pure false) (
          Safe-bind (when (is_negative r.count) (note (Event.log error_checking_messages))) _
            (search safe_rules) (λ _. Safe-known undefined r.message m rest e tail))

    -- A round in which the platform receives on a living group.
    packet_round-Safe : Safe (IsServing live) undefined (packet_round p packet_code)
    unfolding packet_round
    packet_round-Safe = record {
      at = λ w r.
          let (g, e, l) = r.polls in
          let (received, env) = p.receive_on_poll_group g w.env in
          let whole = polling.is_whole g w.env l in
          let ready = serves w.object w.env env (λ k. polling.receives k g w.env) r in
          let handled =
            (handle_received-Safe received whole).at
              (record w { env = env; trace = w.trace ++ Event.receive_on_poll_group g ∷ [] })
              ready in
          simp e handled;
    }

    packet_loop-Safe :
        (fuel i : ℕ) → Safe (IsServing live) undefined (packet_loop p packet_code fuel i)
    unfolding packet_loop
    packet_loop-Safe zero i = search (safe_rules, defined_rules)
    packet_loop-Safe (suc fuel) i =
        Safe-read (λ bound. bound ≤ int_max) (λ s. s.max_processed_packets)
          (λ bound. when (ltb i bound) (do
            more ← packet_round p packet_code
            when more (do next ← increment i; packet_loop p packet_code fuel next)))
          (λ s env r. r.bounded)
          (λ bound small. Safe-when (ltb i bound) _ (λ goes.
            let below = ltb→lt i bound goes in
            Safe-bind (packet_round p packet_code) _ packet_round-Safe (λ more.
              Safe-when more _ (λ _.
                Safe-bind (increment i) (packet_loop p packet_code fuel)
                  (increment-Safe i (omega (arith, below, small))) (packet_loop-Safe fuel)))))

    pub process_pending_packets-Safe :
        Safe (IsServing live) undefined (process_pending_packets p packet_code)
    unfolding process_pending_packets
    process_pending_packets-Safe = search (safe_rules, packet_loop-Safe) depth 12
