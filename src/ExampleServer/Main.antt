-- ===== src/ExampleServer/Main.antt =====
-- Examples/ExampleServer/ExampleServer.cpp: `main`. Callable 1 is `packetCallback`, and 2 the lambda around
-- `connectionStatusChangeCallback`.
pub mod Runs
use chaos_in_multiplayer.Base.{ℕ, some, List, Text}
use chaos_in_multiplayer.Status.{ConnectionStatusChange}
use chaos_in_multiplayer.Platform.{Platform, Utilities}
use chaos_in_multiplayer.Program.{Action, ◌>>=◌, ◌>>◌, modify, on_part}
use chaos_in_multiplayer.NetworkingUtils.{NetworkingUtils, initialize_sockets, close_sockets}
use chaos_in_multiplayer.Packet.{Packet}
use chaos_in_multiplayer.Server.{
  Server, of_port, set_packet_callback, set_connection_status_change_callback,
}
use chaos_in_multiplayer.Server.Opening.{open_connection}
use chaos_in_multiplayer.Server.Closing.{close_connection, destroy_server}
use chaos_in_multiplayer.ExampleServer.{main_loop}
use chaos_in_multiplayer.ExampleServer.Callbacks.{
  packet_callback, connection_status_change_callback,
}

module _ {Env : Type 0} (p : Platform Env) (rand : Env → ℕ × Env) where
  abbrev pub packet_code : ℕ → ℕ → Packet → Action Server Env Unit
  packet_code f = packet_callback

  abbrev pub status_code : ℕ → ConnectionStatusChange → Action Server Env Unit
  status_code f = connection_status_change_callback p rand

  -- What `main` does with the new server, with fuel for the rounds of the loop.
  unfoldable pub main : ℕ → Action Server Env Unit
  main rounds = do
    modify (set_packet_callback (some 1))
    modify (set_connection_status_change_callback (some 2))
    open_connection p
    main_loop p packet_code status_code rounds
    close_connection p

-- What the program holds: the static member of `NetworkingUtils`, and the server.
pub record Process : Type 0 where
  pub networking : NetworkingUtils
  pub server : Server

module _ {Env : Type 0} (p : Platform Env) (u : Utilities Env) (rand : Env → ℕ × Env) where
  abbrev pub on_networking : Action NetworkingUtils Env Unit → Action Process Env Unit
  on_networking = on_part (λ s. s.networking) (λ n s. record s { networking = n })

  abbrev pub on_server : Action Server Env Unit → Action Process Env Unit
  on_server = on_part (λ s. s.server) (λ v s. record s { server = v })

  -- All of `main`, with what will be typed, to the destructor of the server.
  unfoldable pub process : List (List Text) → ℕ → Action Process Env Unit
  process typed rounds = do
    on_networking (initialize_sockets u)
    modify (λ s. record s { server = of_port 8080 typed })
    on_server (main p rand rounds)
    on_networking (close_sockets u)
    on_server (destroy_server p)
