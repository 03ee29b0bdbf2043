-- ===== src/ExampleServer/Entries.antt =====
-- The newest entry of a server's map, while a client is let in.
use chaos_in_multiplayer.Base.{ℕ, ◌≡◌, none, ◌∷◌}
use chaos_in_multiplayer.Program.{ok, World, Action}
use chaos_in_multiplayer.UnorderedMap.{UnorderedMap, lookup}
use chaos_in_multiplayer.UnorderedMap.Laws.{try_emplace-new, lookup-front, replace-front}
use chaos_in_multiplayer.ClientConnection.{ClientConnection, of_handle}
use chaos_in_multiplayer.Server.{Server}
use chaos_in_multiplayer.Server.Clients.{client_connection, at_client, create_client_connection}
use chaos_in_multiplayer.Server.Clients.Registry.{create_client_connection-eq}

module _ {Env : Type 0} where
  -- The world with these clients.
  abbrev pub with_clients : UnorderedMap ClientConnection → World Server Env → World Server Env
  with_clients m w = record w { object = record w.object { connections = m } }

  pub create-front :
      (k : ℕ) (w : World Server Env)
      → lookup k w.object.connections ≡ none
      → create_client_connection k w
        ≡ (ok k, with_clients ((k, of_handle k) ∷ w.object.connections) w)
  create-front k w e =
      rw (create_client_connection-eq k w, try_emplace-new k (of_handle k) w.object.connections e)

  pub at_client-front :
      {A : Type 0} (k : ℕ) (c : ClientConnection) (m : UnorderedMap ClientConnection)
      (act : Action ClientConnection Env A) (w : World Server Env)
      → at_client k act (with_clients ((k, c) ∷ m) w) ≡ (
          let (r, w') = act (record { object = c; env = w.env; trace = w.trace }) in
          (
            r,
            record {
              object = record w.object { connections = (k, w'.object) ∷ m };
              env = w'.env;
              trace = w'.trace;
            },
          ))
  unfolding at_client
  at_client-front k c m act w = rw (lookup-front k c m, at_client, replace-front)

  pub client_connection-front :
      (k : ℕ) (c : ClientConnection) (m : UnorderedMap ClientConnection) (w : World Server Env)
      → client_connection k (with_clients ((k, c) ∷ m) w) ≡ (ok c, with_clients ((k, c) ∷ m) w)
  unfolding client_connection
  client_connection-front k c m w = rw (lookup-front k c m)
