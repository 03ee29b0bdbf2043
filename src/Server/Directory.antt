-- ===== src/Server/Directory.antt =====
-- What the registry of client connections promises, whatever map keeps it: a directory from handles
-- to client connections. Each operation of the server is described once more, on a directory.
pub mod Operations
pub mod Refinement
use chaos_in_multiplayer.Base.{
  ℕ, Bool, true, false, Option, none, some, List, [], ◌∷◌, Text, ◌==◌, if◌then◌else◌,
}
use chaos_in_multiplayer.Platform.{Platform, Event}
use chaos_in_multiplayer.Program.{
  assertion, out_of_range, Action, ◌>>=◌, ◌>>◌, pure, stop, gets, modify, perform,
}
use chaos_in_multiplayer.Packet.{Packet, size}
use chaos_in_multiplayer.ClientConnection.{
  ClientConnection, of_handle, closed, set_alias, accept, close, set_poll_group,
}
use chaos_in_multiplayer.Server.{Server, connection_exists}
use chaos_in_multiplayer.Server.Clients.{
  client_connection, at_client, create_client_connection, ensure_client_connection_exists,
  remove_client_connection, close_client_connection,
}
use chaos_in_multiplayer.Server.Sending.{send_to, to_uint32}

abbrev pub Directory : Type 0
Directory = ℕ → Option ClientConnection

abbrev pub update : ℕ → Option ClientConnection → Directory → Directory
update k o d j = if j == k then o else d j

-- A use of the registry.
pub data Operation : Type 0 where
  creates ensures removes closes_client asks accepts closes_entry : ℕ → Operation
  sets_poll_group : ℕ → ℕ → Operation
  sets_alias : ℕ → Text → Operation
  -- the packet, the send flags, and the handle of the client
  sends : Packet → ℕ → ℕ → Operation

abbrev pub is_known : Option ClientConnection → Bool
is_known none = false
is_known (some c) = true

-- On a directory.
module _ {Env : Type 0} where
  abbrev pub on_entry :
      {A : Type 0}
      → Option ClientConnection
      → (ClientConnection → Action Directory Env A)
      → Action Directory Env A
  on_entry none f = stop out_of_range
  on_entry (some c) f = f c

  -- With the entry of a handle, or else an exception.
  abbrev pub with_entry :
      {A : Type 0} → ℕ → (ClientConnection → Action Directory Env A) → Action Directory Env A
  with_entry k f w = on_entry (w.object k) f w

  -- A method of the entry, which is then what the method leaves.
  abbrev pub by_method :
      {A : Type 0} → ℕ → Action ClientConnection Env A → ClientConnection → Action Directory Env A
  by_method k act c w =
      let (r, w') = act (record { object = c; env = w.env; trace = w.trace }) in
      (r, record { object = update k (some w'.object) w.object; env = w'.env; trace = w'.trace })

  abbrev pub add_entry : ℕ → Option ClientConnection → Action Directory Env Bool
  add_entry k none = modify (update k (some (of_handle k))) >> pure true
  add_entry k (some c) = pure true

  abbrev pub add_if_new : ℕ → Action Directory Env Bool
  add_if_new k w = add_entry k (w.object k) w

module _ {Env : Type 0} (p : Platform Env) where
  unfoldable pub specified : Operation → Action Directory Env Bool
  specified (creates k) = add_if_new k
  specified (ensures k) = add_if_new k
  specified (removes k) =
      with_entry k (λ c. if closed c then modify (update k none) >> pure true else stop assertion)
  specified (closes_client k) = with_entry k (λ c.
      perform (Event.close_connection k 0 false) (p.close_connection k 0 false)
      >> modify (update k none)
      >> pure true)
  specified (asks k) = gets (λ d. is_known (d k))
  specified (accepts k) = with_entry k (by_method k (accept p))
  specified (closes_entry k) = with_entry k (by_method k (close p)) >> pure true
  specified (sets_poll_group k g) = with_entry k (by_method k (set_poll_group p g))
  specified (sets_alias k t) = with_entry k (by_method k (modify (set_alias t))) >> pure true
  specified (sends packet t k) = with_entry k (λ c.
      perform (Event.send_message k packet.packet (to_uint32 (size packet)) t)
        (p.send_message k packet.packet (to_uint32 (size packet)) t)
      >> pure true)

  -- On a server.
  unfoldable pub operated : Operation → Action Server Env Bool
  operated (creates k) = create_client_connection k >> pure true
  operated (ensures k) = ensure_client_connection_exists k >> pure true
  operated (removes k) = remove_client_connection p k >> pure true
  operated (closes_client k) = close_client_connection p k >> pure true
  operated (asks k) = gets (connection_exists k)
  operated (accepts k) = at_client k (accept p)
  operated (closes_entry k) = at_client k (close p) >> pure true
  operated (sets_poll_group k g) = at_client k (set_poll_group p g)
  operated (sets_alias k t) = at_client k (modify (set_alias t)) >> pure true
  operated (sends packet t k) = (client_connection k >>= send_to p packet t) >> pure true

-- A list of operations in order, with their answers; a fault ends it.
unfoldable pub run :
    {S Env : Type 0} → (Operation → Action S Env Bool) → List Operation → Action S Env (List Bool)
run f [] = pure []
run f (x ∷ xs) = do answer ← f x; answers ← run f xs; pure (answer ∷ answers)
