-- ===== src/Server/Clients.antt =====
-- Server.cpp: `createClientConnection`, `closeClientConnection`, `removeClientConnection`,
-- `ensureClientConnectionExists`; Server.h: `clientConnection`. A reference to an entry of the map
-- is its key.
pub mod Registry
use chaos_in_multiplayer.Base.{ℕ, not, Option, none, some}
use chaos_in_multiplayer.Platform.{Platform}
use chaos_in_multiplayer.Program.{
  out_of_range, Outcome, fault, World, Action, ◌>>=◌, ◌>>◌, pure, gets, lift, require, modify,
  assert, when,
}
use chaos_in_multiplayer.UnorderedMap.{lookup, contains, try_emplace, replace, erase}
use chaos_in_multiplayer.ClientConnection.{ClientConnection, of_handle, closed, destroy, close}
use chaos_in_multiplayer.Server.{Server}

module _ {Env : Type 0} where
  -- `connections.at(k)`, to read.
  unfoldable pub client_connection : ℕ → Action Server Env ClientConnection
  client_connection k w = require out_of_range (lookup k w.object.connections) w

  abbrev on_found :
      {A : Type 0}
      → ℕ
      → Action ClientConnection Env A
      → Option ClientConnection
      → Action Server Env A
  on_found k act none w = (fault out_of_range, w)
  on_found k act (some c) w =
      let (r, w') = act (record { object = c; env = w.env; trace = w.trace }) in
      (
        r,
        record {
          object = record w.object { connections = replace k w'.object w.object.connections };
          env = w'.env;
          trace = w'.trace;
        },
      )

  -- A method of `connections.at(k)`.
  unfoldable pub at_client : {A : Type 0} → ℕ → Action ClientConnection Env A → Action Server Env A
  at_client k act w = on_found k act (lookup k w.object.connections) w

  -- The result is a reference to the entry.
  unfoldable pub create_client_connection : ℕ → Action Server Env ℕ
  unfolding of_handle client_connection
  create_client_connection k = do
    modify (λ s. record s { connections = try_emplace k (of_handle k) s.connections })
    client_connection k
    pure k

  unfoldable pub ensure_client_connection_exists : ℕ → Action Server Env Unit
  unfolding of_handle
  ensure_client_connection_exists k = do
    present ← gets (λ s. contains k s.connections)
    when (not present)
        (modify (λ s. record s { connections = try_emplace k (of_handle k) s.connections }))

module _ {Env : Type 0} (p : Platform Env) where
  -- `erase` runs the destructor of the entry.
  unfoldable pub remove_client_connection : ℕ → Action Server Env Unit
  unfolding client_connection
  remove_client_connection k = do
    c ← client_connection k
    assert (closed c)
    lift (destroy p c)
    modify (λ s. record s { connections = erase k s.connections })

  unfoldable pub close_client_connection : ℕ → Action Server Env Unit
  unfolding at_client remove_client_connection
  close_client_connection k = do at_client k (close p); remove_client_connection k
