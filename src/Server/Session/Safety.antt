-- ===== src/Server/Session/Safety.antt =====
-- The calls of a server that change its connections, send, or set a member are never undefined.
use chaos_in_multiplayer.Base.{ℕ, ◌≢◌, Bool, Option, List, arith, Option-cases, inl, inr}
use chaos_in_multiplayer.Platform.{Platform, Event}
use chaos_in_multiplayer.Program.{undefined, fault, World, Action, modify, call, perform}
use chaos_in_multiplayer.Program.Safe.{
  Safe, safe_rules, defined_rules, Safe-modify, Safe-call, Safe-perform, Safe-bind,
}
use chaos_in_multiplayer.Packet.{Packet}
use chaos_in_multiplayer.UnorderedMap.{UnorderedMap, lookup, try_emplace, erase}
use chaos_in_multiplayer.ClientConnection.{
  ClientConnection, of_handle, accept, set_poll_group, close, destroy,
}
use chaos_in_multiplayer.Server.{Server}
use chaos_in_multiplayer.Server.Clients.{
  client_connection, at_client, create_client_connection, ensure_client_connection_exists,
  remove_client_connection, close_client_connection,
}
use chaos_in_multiplayer.Server.Sending.{
  send_packet_to_client_impl, send_to, send_to_entry, send_packet_to_clients,
  send_packet_to_all_connected_clients_impl,
}

-- What hangs neither on the connections nor on what is done with them.
pub record IsStable {Env : Type 0} (p : Platform Env) (P : Server → Env → Type 0) : Type 0 where
  pub registers :
      (s : Server) (env : Env) (m : UnorderedMap ClientConnection)
      → P s env
      → P (record s { connections = m }) env
  pub accepts : (h : ℕ) (s : Server) (env : Env) → P s env → P s (p.accept_connection h env).1
  pub groups :
      (h g : ℕ) (s : Server) (env : Env) → P s env → P s (p.set_connection_poll_group h g env).1
  pub closes :
      (h r : ℕ) (l : Bool) (s : Server) (env : Env) → P s env → P s (p.close_connection h r l env)
  pub sends :
      (h n t : ℕ) (bs : List ℕ) (s : Server) (env : Env)
      → P s env
      → P s (p.send_message h bs n t env)

module _ {Env : Type 0} (p : Platform Env) (P : Server → Env → Type 0) (stable : IsStable p P) where
  -- A method of a client that keeps `P` for every server.
  pub at_client-Safe :
      {A : Type 0} (k : ℕ) (act : Action ClientConnection Env A)
      → ((s : Server) → Safe (λ c env. P s env) undefined act)
      → Safe P undefined (at_client k act)
  unfolding at_client
  at_client-Safe k act safe = record {
    at = λ w h. elim (Option-cases (lookup k w.object.connections)) [
      | inl n ↦ rw n (λ e. cc, h)
      | inr (c, e) ↦
          let x : World ClientConnection Env = record {
            object = c;
            env = w.env;
            trace = w.trace;
          } in
          let (n, kept) = (safe w.object).at x h in
          rw e (n, stable.registers w.object (act x).1.env _ kept)
    ];
  }

  -- The methods of a client, which keep what is true of the server `s`.
  module _ (s : Server) where
    abbrev Beside : ClientConnection → Env → Type 0
    Beside c env = P s env

    pub modify-Safe : (f : ClientConnection → ClientConnection) → Safe Beside undefined (modify f)
    modify-Safe f = Safe-modify f (λ c env h. h)

    accepts-Safe : (h : ℕ) (e : Event) → Safe Beside undefined (call e (p.accept_connection h))
    accepts-Safe h e = Safe-call e _ (λ c. stable.accepts h s)

    groups-Safe :
        (h g : ℕ) (e : Event) → Safe Beside undefined (call e (p.set_connection_poll_group h g))
    groups-Safe h g e = Safe-call e _ (λ c. stable.groups h g s)

    closes-Safe :
        (h r : ℕ) (l : Bool) (e : Event)
        → Safe Beside undefined (perform e (p.close_connection h r l))
    closes-Safe h r l e = Safe-perform e _ (λ c. stable.closes h r l s)

    ruleset client_rules = (safe_rules, modify-Safe, accepts-Safe, groups-Safe, closes-Safe)

    pub accept-Safe : Safe Beside undefined (accept p)
    unfolding accept
    accept-Safe = search client_rules depth 12

    pub set_poll_group-Safe : (g : ℕ) → Safe Beside undefined (set_poll_group p g)
    unfolding set_poll_group
    set_poll_group-Safe g = search client_rules depth 12

    pub close-Safe : Safe Beside undefined (close p)
    unfolding close
    close-Safe = search client_rules depth 12

  pub destroy-ne-undefined : (c : ClientConnection) → destroy p c ≢ fault undefined
  unfolding destroy
  destroy-ne-undefined c = ground arith

  adds-Safe :
      (k : ℕ)
      → Safe P undefined
          (modify (λ s. record s { connections = try_emplace k (of_handle k) s.connections }))
  adds-Safe k = Safe-modify _ (λ s env. stable.registers s env _)

  erases-Safe :
      (k : ℕ) → Safe P undefined (modify (λ s. record s { connections = erase k s.connections }))
  erases-Safe k = Safe-modify _ (λ s env. stable.registers s env _)

  sends-Safe :
      (h n t : ℕ) (bs : List ℕ) (e : Event) → Safe P undefined (perform e (p.send_message h bs n t))
  sends-Safe h n t bs e = Safe-perform e _ (stable.sends h n t bs)

  client_connection-Safe : (k : ℕ) → Safe P undefined (client_connection k)
  unfolding client_connection
  client_connection-Safe k = record {
    at = λ w h. elim (Option-cases (lookup k w.object.connections)) [
      | inl n ↦ rw n (λ e. cc, h)
      | inr (c, e) ↦ rw e (λ f. cc, h)
    ];
  }

  ruleset registry_rules = (
    safe_rules, defined_rules, adds-Safe, erases-Safe, sends-Safe, destroy-ne-undefined,
    client_connection-Safe,
  )

  pub create_client_connection-Safe : (k : ℕ) → Safe P undefined (create_client_connection k)
  unfolding create_client_connection
  create_client_connection-Safe k = search registry_rules depth 15

  pub ensure-Safe : (k : ℕ) → Safe P undefined (ensure_client_connection_exists k)
  unfolding ensure_client_connection_exists
  ensure-Safe k = search registry_rules depth 15

  pub remove_client_connection-Safe : (k : ℕ) → Safe P undefined (remove_client_connection p k)
  unfolding remove_client_connection
  remove_client_connection-Safe k = search registry_rules depth 15

  pub close_client_connection-Safe : (k : ℕ) → Safe P undefined (close_client_connection p k)
  unfolding close_client_connection
  close_client_connection-Safe k =
      Safe-bind (at_client k (close p)) (λ _. remove_client_connection p k)
        (at_client-Safe k (close p) close-Safe) (λ _. remove_client_connection-Safe k)

  pub send_to-Safe :
      (q : Packet) (t : ℕ) (c : ClientConnection) → Safe P undefined (send_to p q t c)
  unfolding send_to send_packet_to_client_impl
  send_to-Safe q t c = search registry_rules depth 12

  send_to_entry-Safe :
      (q : Packet) (t : ℕ) (x : Option ClientConnection) (e : ℕ × ClientConnection)
      → Safe P undefined (send_to_entry p q t x e)
  unfolding send_to_entry
  send_to_entry-Safe q t x (k, c) = search registry_rules depth 12

  pub broadcast-Safe :
      (q : Packet) (t : ℕ) (x : Option ClientConnection)
      → Safe P undefined (send_packet_to_all_connected_clients_impl p q t x)
  unfolding send_packet_to_all_connected_clients_impl send_packet_to_clients
  broadcast-Safe q t x = search (registry_rules, send_to_entry-Safe) depth 12
