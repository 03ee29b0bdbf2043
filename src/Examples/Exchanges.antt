-- ===== src/Examples/Exchanges.antt =====
-- Packets that reach the example server.
use chaos_in_multiplayer.Base.{ℕ, true, ◌≡◌, refl, [], ◌∷◌, arith}
use chaos_in_multiplayer.Program.{undefined, fault, World}
use chaos_in_multiplayer.UnorderedMap.{lookup, contains}
use chaos_in_multiplayer.Server.{Server}
use chaos_in_multiplayer.Server.Packets.{process_pending_packets}
use chaos_in_multiplayer.Exchange.{arriving}
use chaos_in_multiplayer.ExampleServer.Main.{packet_code}
use chaos_in_multiplayer.ExampleClient.{message}
use chaos_in_multiplayer.ExampleClient.Received.{process_pending_packets-message}
use chaos_in_multiplayer.Examples.Setup.{Mail, platform}
use chaos_in_multiplayer.Examples.Registries.{clients, world}

-- A `rand` that always draws 4.
abbrev rand : Mail → ℕ × Mail
rand env = (4, env)

abbrev addressed_world : World Server Mail
addressed_world = record world { env = arriving 5 (record { packet = message 3 }) ∷ [] }

known-5 : contains 5 clients ≡ true
unfolding lookup
known-5 = refl

process_pending_packets-message_example :
    (process_pending_packets (platform []) (packet_code (platform []) rand) addressed_world).0
    ≡ fault undefined
process_pending_packets-message_example =
    process_pending_packets-message (platform []) rand 12 5 3 addressed_world (omega arith) known-5
      refl refl (omega arith) refl refl
