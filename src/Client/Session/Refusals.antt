-- ===== src/Client/Session/Refusals.antt =====
-- What a client does after `initializeConnection` has returned `false`.
use chaos_in_multiplayer.Base.{
  ℕ, pos, negsuc, suc, ◌≡◌, refl, ap, ◌∙◌, ◌⊎◌, false, Option, some, none, Text, arith, inl, inr,
  ==-eq,
}
use chaos_in_multiplayer.Status.{ConnectionStatusChange}
use chaos_in_multiplayer.Platform.{Platform}
use chaos_in_multiplayer.Program.{undefined, ok, fault, World, Action}
use chaos_in_multiplayer.Packet.{Packet}
use chaos_in_multiplayer.Server.Opening.{format_address}
use chaos_in_multiplayer.Client.{Client, connection, initialize_connection}
use chaos_in_multiplayer.Client.Connecting.{reached, stored, initialize_connection_lem}
use chaos_in_multiplayer.Client.Packets.{packet_round, packet_loop, process_received_packets}
use chaos_in_multiplayer.Client.Packets.Faults.{process_received_packets-negative}
use chaos_in_multiplayer.Client.StatusChanges.{update_connection}

-- The handle is missing or invalid.
abbrev pub IsRefused : {Env : Type 0} → Platform Env → Client → Type 0
IsRefused p c = (c.server_connection ≡ none) ⊎ (c.server_connection ≡ some p.invalid_connection)

-- For the invalid handle, receiving is an error and fills in no message.
pub record Refuses {Env : Type 0} (p : Platform Env) : Type 0 where
  pub error :
      (env : Env)
      → (n : ℕ) × ((p.receive_on_connection p.invalid_connection env).0.count ≡ negsuc n)
  pub empty : (env : Env) → (p.receive_on_connection p.invalid_connection env).0.message ≡ none

module _ {Env : Type 0} (p : Platform Env) where
  refused :
      (o : Option ℕ) (w : World Client Env)
      → w.object.server_connection ≡ none
      → reached p o w.env ≡ false
      → (stored p o w ≡ none) ⊎ (stored p o w ≡ some p.invalid_connection)
  refused none w h e = inl h
  refused (some a) w h e =
      let same = ==-eq (p.connect_by_address a w.env).0 p.invalid_connection (ground (arith, e)) in
      inr (ap some same)

  pub initialize_connection-IsRefused :
      (ip : Text) (port : ℕ) (w : World Client Env)
      → w.object.server_connection ≡ none
      → (initialize_connection p ip port w).0 ≡ ok false
      → let c = (initialize_connection p ip port w).1.object in
        IsRefused p c × (c.max_processed_packets ≡ w.object.max_processed_packets)
  initialize_connection-IsRefused ip port w h e =
      let (r, changed, _) = initialize_connection_lem p ip port w in
      let o = p.parse_string (format_address ip port) in
      let unreached : reached p o w.env ≡ false = ground (arith, r, e) in
      let kept : _ ≡ stored p o w = ap (λ (c : Client). c.server_connection) changed in
      (
        elim (refused o w h unreached) [ inl n ↦ inl (kept ∙ n) | inr i ↦ inr (kept ∙ i) ],
        ap (λ (c : Client). c.max_processed_packets) changed,
      )

  module _ (packet_code : ℕ → ℕ → Packet → Action Client Env Unit)
      (status_code : ℕ → ConnectionStatusChange → Action Client Env Unit)
      (refuses : Refuses p) where
    receives-undefined :
        (b : ℕ) (w : World Client Env)
        → w.object.max_processed_packets ≡ pos (suc b)
        → IsRefused p w.object
        → (process_received_packets p packet_code w).0 ≡ fault undefined
    unfolding process_received_packets packet_loop packet_round connection
    receives-undefined b w m (inl n) = ground (arith, m, n)
    receives-undefined b w m (inr i) =
        process_received_packets-negative p packet_code p.invalid_connection b
          (refuses.error w.env).0 w i m (refuses.error w.env).1 (refuses.empty w.env)

    pub update_connection-undefined :
        (b : ℕ) (w : World Client Env)
        → w.object.max_processed_packets ≡ pos (suc b)
        → IsRefused p w.object
        → (update_connection p packet_code status_code w).0 ≡ fault undefined
    unfolding update_connection
    update_connection-undefined b w m r = rw (receives-undefined b w m r) refl

    -- If `initializeConnection` of a client with no handle returns `false`, be it that the address is not
    -- parsed or that the platform gives the invalid handle, the next `updateConnection` is undefined,
    -- when the bound is positive and the platform, as it documents, reports an error for the invalid
    -- handle and fills in no message.
    pub update_connection-initialize :
        (ip : Text) (port b : ℕ) (w : World Client Env)
        → w.object.server_connection ≡ none
        → w.object.max_processed_packets ≡ pos (suc b)
        → (initialize_connection p ip port w).0 ≡ ok false
        → (update_connection p packet_code status_code (initialize_connection p ip port w).1).0
          ≡ fault undefined
    update_connection-initialize ip port b w h m e =
        let (r, same) = initialize_connection-IsRefused ip port w h e in
        update_connection-undefined b (initialize_connection p ip port w).1 (same ∙ m) r
