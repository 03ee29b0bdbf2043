-- ===== src/Examples/Endings.antt =====
-- How the two example programs end.
use mathlib.Core.List.{flatten}
use chaos_in_multiplayer.Base.{
  ℕ, ◌≡◌, ◌≢◌, refl, true, false, some, List, [], ◌∷◌, Text, codes, arith,
}
use chaos_in_multiplayer.Program.{ok, undefined, fault, World}
use chaos_in_multiplayer.Server.{Server, of_port}
use chaos_in_multiplayer.Server.UserInput.Commands.{has_quit}
use chaos_in_multiplayer.Server.Updating.Idle.{IsIdle}
use chaos_in_multiplayer.InputController.Polling.{first_of_lines}
use chaos_in_multiplayer.ExampleServer.Main
use chaos_in_multiplayer.ExampleServer.Quitting.{main-ne-ok_unasked}
use chaos_in_multiplayer.ExampleServer.Quitting.Endings.{IsClosed, main-IsClosed}
use chaos_in_multiplayer.Client.{Client, new}
use chaos_in_multiplayer.Client.Session.Refusals.{Refuses, update_connection-initialize}
use chaos_in_multiplayer.Client.StatusChanges.{update_connection}
use chaos_in_multiplayer.Client.{connect, initialize_connection}
use chaos_in_multiplayer.ExampleClient
use chaos_in_multiplayer.ExampleClient.Refused.{main-undefined}
use chaos_in_multiplayer.Examples.Setup.{Mail, platform, idle_platform, closed_platform, ip}
use chaos_in_multiplayer.Examples.Inputs.{lines, poller_after, poller-reached}

-- A `rand` that always draws 4.
abbrev rand : Mail → ℕ × Mail
rand env = (4, env)

abbrev greeted : List (List Text)
greeted = (codes "hi" ∷ []) ∷ []

abbrev greeted_server : World Server Mail
greeted_server = record { object = of_port 8080 greeted; env = []; trace = [] }

first-unasked : has_quit (first_of_lines lines) ≡ false
first-unasked = refl

greeted-added : flatten greeted ≡ poller_after.added
unfolding flatten
greeted-added = refl

main-ne-ok_unasked_example : (Main.main (platform []) rand 7 greeted_server).0 ≢ ok tt
main-ne-ok_unasked_example =
    main-ne-ok_unasked (platform []) rand lines greeted 8080 7 greeted_server first-unasked
      poller-reached greeted-added refl

abbrev quitting : List (List Text)
quitting = [] ∷ (codes "hi" ∷ codes "/quit" ∷ []) ∷ []

abbrev quitting_server : World Server Mail
quitting_server = record { object = of_port 8080 quitting; env = []; trace = [] }

idle_platform-IsIdle : IsIdle idle_platform
idle_platform-IsIdle = record { receives_none = λ g env. refl; changes_none = λ env. refl }

quitting-asks : has_quit (flatten quitting) ≡ true
unfolding flatten
quitting-asks = refl

main-IsClosed_example :
    let (r, w') = Main.main idle_platform rand 4 quitting_server in
    (r ≡ ok tt) × IsClosed idle_platform w'.object
main-IsClosed_example =
    main-IsClosed idle_platform rand 4 8080 quitting quitting_server idle_platform-IsIdle refl refl
      quitting-asks (omega arith)

abbrev starting_client : World Client Mail
starting_client = record { object = new; env = []; trace = [] }

abbrev configured_client : World Client Mail
configured_client = record {
  object = record new { connection_status_change_callback = some 1 };
  env = [];
  trace = [];
}

closed_platform-Refuses : Refuses closed_platform
closed_platform-Refuses = record { error = λ env. (0, refl); empty = λ env. refl }

never-connected :
    (env : Mail)
    → (closed_platform.connection_state closed_platform.invalid_connection env).0
      ≢ closed_platform.state_connected
never-connected env e = omega arith

configured-fails :
    (initialize_connection closed_platform (codes "127.0.0.1") 8080 configured_client).0 ≡ ok false
unfolding initialize_connection connect
configured-fails = refl

main-undefined_example : (ExampleClient.main closed_platform 7 starting_client).0 ≡ fault undefined
main-undefined_example =
    main-undefined closed_platform closed_platform-Refuses never-connected 6 starting_client refl
      configured-fails

starting-fails : (initialize_connection closed_platform ip 27020 starting_client).0 ≡ ok false
unfolding initialize_connection connect
starting-fails = refl

update_connection-initialize_example :
    (update_connection closed_platform
      (ExampleClient.packet_code closed_platform)
      (ExampleClient.status_code closed_platform)
      (initialize_connection closed_platform ip 27020 starting_client).1).0
    ≡ fault undefined
update_connection-initialize_example =
    update_connection-initialize closed_platform (ExampleClient.packet_code closed_platform)
      (ExampleClient.status_code closed_platform) closed_platform-Refuses ip 27020 4 starting_client
      refl refl starting-fails
