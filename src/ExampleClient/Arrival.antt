-- ===== src/ExampleClient/Arrival.antt =====
-- A connection that comes up while the example client waits for it.
use chaos_in_multiplayer.Base.{
  ℕ, zero, suc, ◌-◌, ◌≤◌, ◌<◌, ◌≡◌, ◌≢◌, refl, ap, ◌∙◌, inl, inr, true, false, some, List, [], ◌∷◌,
  ◌++◌, pos, arith, append-nil, Bool-cases, All, ◌==◌, ==-refl, sym, subst,
}
use chaos_in_multiplayer.Status.{ConnectionStatus, ConnectionStatusChange}
use chaos_in_multiplayer.Platform.{Platform, Event, StatusInfo}
use chaos_in_multiplayer.Program.{ok, Outcome, World, for_each}
use chaos_in_multiplayer.Reporting.{Reports, AllReport}
use chaos_in_multiplayer.Server.Packets.{int_max}
use chaos_in_multiplayer.Client.{Client, connection, connected}
use chaos_in_multiplayer.Client.Packets.{
  handle_received, packet_round, packet_loop, process_received_packets, below,
}
use chaos_in_multiplayer.Client.StatusChanges.{
  connection_status_mappings, report_status_change, on_connection_status_changed,
  connection_status_changed_callback, run_callbacks, process_connection_state_changes,
  update_connection,
}
use chaos_in_multiplayer.ExampleClient.{
  wait_loop, on_status, connection_status_change_callback, packet_code, status_code,
}
use chaos_in_multiplayer.ExampleClient.Messages.{sent, sent-append}

-- A status at which the callback of the example client closes nothing.
abbrev pub IsHarmless : ConnectionStatus → Type 0
IsHarmless ConnectionStatus.closed_by_peer = ⊥
IsHarmless ConnectionStatus.problem_detected_locally = ⊥
IsHarmless s = Unit

-- A connection `h` that is up after as many `RunCallbacks` as `pending` says, and then stays up: to ask
-- and to send do not end it. While it is not up nothing is received from it. The changes that are
-- queued have states in the client's table, and none of them is to a closed connection.
pub record IsComing {Env : Type 0} (p : Platform Env) (h : ℕ) (pending : Env → ℕ) : Type 0 where
  pub up : (env : Env) → pending env ≡ 0 → (p.connection_state h env).0 ≡ p.state_connected
  pub down : (env : Env) → pending env ≢ 0 → (p.connection_state h env).0 ≢ p.state_connected
  pub asked : (env : Env) → pending (p.connection_state h env).1 ≡ pending env
  pub sends :
      (env : Env) (bs : List ℕ) (n t : ℕ)
      → pending env ≡ 0
      → pending (p.send_message h bs n t env) ≡ 0
  pub receives :
      (env : Env)
      → pending env ≢ 0
      → let (r, env') = p.receive_on_connection h env in
        (r.count ≡ pos 0) × (pending env' ≤ pending env)
  pub runs : (env : Env) → pending (p.run_callbacks env).1 ≤ pending env - 1
  pub changes :
      (env : Env)
      → (cs : List ConnectionStatusChange) × AllReport
          (connection_status_mappings p)
          (p.run_callbacks env).0
          cs
        × All (λ c. IsHarmless c.current_status) cs

module _ {Env : Type 0} (p : Platform Env) (h : ℕ) where
  -- Ready to be told of changes, with its connection.
  abbrev pub IsWaiting : Client → Type 0
  IsWaiting c =
      (c.server_connection ≡ some h)
      × (c.connection_status_change_callback ≡ some 1)
      × (c.networking_interface ≡ true)

  -- A call returned and sent nothing, and the client waits.
  abbrev pub Waits : World Client Env → Outcome Unit × World Client Env → Type 0
  Waits w v = (v.0 ≡ ok tt) × IsWaiting v.1.object × (sent v.1.trace ≡ sent w.trace)

  on_status-harmless :
      (s : ConnectionStatus) (w : World Client Env) → IsHarmless s → on_status p s w ≡ (ok tt, w)
  unfolding on_status
  on_status-harmless ConnectionStatus.closed_by_peer w x = absurd x
  on_status-harmless ConnectionStatus.problem_detected_locally w x = absurd x
  on_status-harmless ConnectionStatus.connecting w x = refl
  on_status-harmless ConnectionStatus.connected w x = refl
  on_status-harmless ConnectionStatus.finding_route w x = refl
  on_status-harmless ConnectionStatus.none w x = refl

  pub sent-silent :
      (trace : List Event) (e : Event) → sent (e ∷ []) ≡ [] → sent (trace ++ e ∷ []) ≡ sent trace
  sent-silent trace e s =
      sent-append trace (e ∷ []) ∙ ap (λ l. sent trace ++ l) s ∙ append-nil (sent trace)

  -- While an update reports.
  abbrev IsReporting : Client → Type 0
  IsReporting c = IsWaiting c × (c.client_instance ≡ true)

  changed_callback-calls :
      (i : StatusInfo) (c : ConnectionStatusChange) (w : World Client Env)
      → IsReporting w.object
      → Reports (connection_status_mappings p) i c
      → connection_status_changed_callback p (status_code p) i w
        ≡ status_code p 1 c (record w { trace = w.trace ++ Event.call_status_callback 1 c ∷ [] })
  unfolding connection_status_changed_callback on_connection_status_changed report_status_change
  changed_callback-calls i c w s r = ground arith

  changed_callback-eq :
      (i : StatusInfo) (c : ConnectionStatusChange) (w : World Client Env)
      → IsReporting w.object
      → Reports (connection_status_mappings p) i c
      → IsHarmless c.current_status
      → connection_status_changed_callback p (status_code p) i w
        ≡ (ok tt, record w { trace = w.trace ++ Event.call_status_callback 1 c ∷ [] })
  unfolding connection_status_change_callback
  changed_callback-eq i c w s r x =
      changed_callback-calls i c w s r ∙ on_status-harmless c.current_status _ x

  for_each-changes :
      (is' : List StatusInfo) (cs : List ConnectionStatusChange) (w : World Client Env)
      → IsReporting w.object
      → AllReport (connection_status_mappings p) is' cs
      → All (λ c. IsHarmless c.current_status) cs
      → let (r, w') = for_each is' (connection_status_changed_callback p (status_code p)) w in
        (r ≡ ok tt) × (w'.object ≡ w.object) × (w'.env ≡ w.env) × (sent w'.trace ≡ sent w.trace)
  unfolding for_each
  for_each-changes [] [] w s r x = (refl, refl, refl, refl)
  for_each-changes [] (c ∷ cs) w s r x = absurd r
  for_each-changes (i ∷ is') [] w s r x = absurd r
  for_each-changes (i ∷ is') (c ∷ cs) w s (r, rs) (x, xs) =
      let w' = record w { trace = w.trace ++ Event.call_status_callback 1 c ∷ [] } in
      let (returned, kept, still, silent) = for_each-changes is' cs w' s rs xs in
      rw (changed_callback-eq i c w s r x)
        (returned, kept, still, silent ∙ sent-silent w.trace (Event.call_status_callback 1 c) refl)

module _ {Env : Type 0} (p : Platform Env) (h : ℕ) (pending : Env → ℕ)
    (coming : IsComing p h pending) where
  packets-quiet :
      (n i : ℕ) (w : World Client Env)
      → w.object.server_connection ≡ some h
      → pending w.env ≢ 0
      → let (r, w') = packet_loop p (packet_code p) (suc n) i w in
        (r ≡ ok tt)
        × (w'.object ≡ w.object)
        × (pending w'.env ≤ pending w.env)
        × (sent w'.trace ≡ sent w.trace)
  unfolding packet_loop packet_round connection handle_received
  packets-quiet n i w e far =
      let (none_waits, nearer) = coming.receives w.env far in
      let silent = sent-silent p h w.trace (Event.receive_on_connection h) refl in
      elim (Bool-cases (below i w.object.max_processed_packets)) [
        | inl y ↦ rw (y, e, none_waits) (refl, refl, nearer, silent)
        | inr n' ↦ rw n' (refl, refl, omega arith, refl)
      ]

  -- While the changes are reported.
  abbrev telling : World Client Env → World Client Env
  telling w = record {
    object = record w.object { client_instance = true };
    env = (p.run_callbacks w.env).1;
    trace = w.trace ++ Event.run_callbacks ∷ [];
  }

  changes-eq :
      (w : World Client Env)
      → w.object.networking_interface ≡ true
      → process_connection_state_changes p (status_code p) w
        ≡ for_each
            (p.run_callbacks w.env).0
            (connection_status_changed_callback p (status_code p))
            (telling w)
  unfolding process_connection_state_changes run_callbacks
  changes-eq w e = ground arith

  changes-quiet :
      (w : World Client Env)
      → IsWaiting p h w.object
      → let v = process_connection_state_changes p (status_code p) w in
        Waits p h w v × (pending v.1.env ≤ pending w.env - 1)
  changes-quiet w s =
      let (cs, mapped, harmless) = coming.changes w.env in
      let (returned, kept, still, silent) =
        for_each-changes p h (p.run_callbacks w.env).0 cs (telling w) (s, refl) mapped harmless in
      let nearer = coming.runs w.env in
      let before = sent-silent p h w.trace Event.run_callbacks refl in
      subst (λ v. Waits p h w v × (pending v.1.env ≤ pending w.env - 1)) (sym (changes-eq w s.2))
        ((returned, rw kept s, silent ∙ before), rw still nearer)

  update-quiet :
      (w : World Client Env)
      → IsWaiting p h w.object
      → pending w.env ≢ 0
      → let v = update_connection p (packet_code p) (status_code p) w in
        Waits p h w v × (pending v.1.env ≤ pending w.env - 1)
  unfolding update_connection process_received_packets
  update-quiet w s far =
      let (returned, kept, nearer, silent) = packets-quiet (suc int_max) 0 w s.0 far in
      let w₁ = (process_received_packets p (packet_code p) w).1 in
      let ((returned', waits, silent'), nearer') = changes-quiet w₁ (rw kept s) in
      rw returned ((returned', waits, silent' ∙ silent), omega arith)

  -- After a question for the state of the connection.
  abbrev asking : World Client Env → World Client Env
  asking w = record w {
    env = (p.connection_state h w.env).1;
    trace = w.trace ++ Event.connection_state h ∷ [];
  }

  connected-eq :
      (w : World Client Env)
      → w.object.server_connection ≡ some h
      → connected p w ≡ (ok ((p.connection_state h w.env).0 == p.state_connected), asking w)
  unfolding connected connection
  connected-eq w e = ground arith

  -- The loop that waits ends with the connection up, if it has more rounds than are needed.
  pub wait_loop-Waits :
      (rounds : ℕ) (w : World Client Env)
      → IsWaiting p h w.object
      → pending w.env < rounds
      → let v = wait_loop p rounds w in Waits p h w v × (pending v.1.env ≡ 0)
  unfolding wait_loop
  wait_loop-Waits zero w s few = absurd (omega arith)
  wait_loop-Waits (suc rounds) w s few =
      let w₁ = asking w in
      let same = coming.asked w.env in
      let silent = sent-silent p h w.trace (Event.connection_state h) refl in
      elim (Bool-cases (pending w.env == 0)) [
        | inl here ↦
            let none_left : pending w.env ≡ 0 = ground arith in
            let up = coming.up w.env none_left in
            rw (connected-eq w s.0, up, ==-refl p.state_connected)
              ((refl, s, silent), same ∙ none_left)
        | inr far ↦
            let some_left : pending w.env ≢ 0 = λ e. ground arith in
            let some_left' : pending w₁.env ≢ 0 = λ e. some_left (sym same ∙ e) in
            let down : ((p.connection_state h w.env).0 == p.state_connected) ≡ false =
              let n = coming.down w.env some_left in ground arith in
            let ((returned, waits, silent'), nearer) = update-quiet w₁ s some_left' in
            let w₂ = (update_connection p (packet_code p) (status_code p) w₁).1 in
            let fewer : pending w₂.env < rounds = omega arith in
            let ((returned', waits', silent''), up) = wait_loop-Waits rounds w₂ waits fewer in
            rw (connected-eq w s.0, down, returned)
              ((returned', waits', silent'' ∙ silent' ∙ silent), up)
      ]
