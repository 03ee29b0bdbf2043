-- ===== src/Examples/Sessions.antt =====
-- A short history of a server, and a loop that does not end.
use chaos_in_multiplayer.Base.{ℕ, ◌≡◌, refl, none, false, List, [], ◌∷◌}
use chaos_in_multiplayer.Status.{ConnectionStatusChange}
use chaos_in_multiplayer.Program.{terminate, unfinished, fault, World}
use chaos_in_multiplayer.Program.Keeps.{Keeps, Keeps-skip}
use chaos_in_multiplayer.Packet.{Packet}
use chaos_in_multiplayer.Server.{Server, of_address, of_port}
use chaos_in_multiplayer.Server.Closing.{destroy_server}
use chaos_in_multiplayer.Server.Session.{
  Call, opens, creates, accepts, sends_to_all, closes_client, updates, run_history,
}
use chaos_in_multiplayer.Server.Session.Soundness.{IsSound}
use chaos_in_multiplayer.Server.Session.Histories.{run_history-new, destroy_server-run_history}
use chaos_in_multiplayer.ExampleServer.{main_loop}
use chaos_in_multiplayer.Platform.{Platform}
use chaos_in_multiplayer.ExampleServer.Main.{main}
use chaos_in_multiplayer.ExampleServer.Main.Runs.{main-IsSound}
use chaos_in_multiplayer.ExampleServer.Looping.{main_loop-endless}
use chaos_in_multiplayer.Examples.Setup.{
  Mail, platform, hello, ip, quiet_packet_code, quiet_status_code,
}

abbrev new_server : World Server Mail
new_server = record { object = of_address ip 27020 []; env = []; trace = [] }

abbrev history : List Call
history = opens ∷ creates 5 ∷ accepts 5 ∷ sends_to_all hello 8 none ∷ updates ∷ closes_client 5 ∷ []

packets_keep : (f k : ℕ) (q : Packet) → Keeps IsSound (quiet_packet_code f k q)
packets_keep f k q = Keeps-skip

changes_keep : (f : ℕ) (c : ConnectionStatusChange) → Keeps IsSound (quiet_status_code f c)
changes_keep f c = Keeps-skip

run_history-new_example :
    IsSound
      (run_history (platform []) quiet_packet_code quiet_status_code history new_server).1.object
run_history-new_example =
    run_history-new (platform []) quiet_packet_code quiet_status_code packets_keep changes_keep ip
      27020 [] history new_server refl

destroy_server-run_history_example :
    (destroy_server
      (platform [])
      (run_history (platform []) quiet_packet_code quiet_status_code history new_server).1).0
    ≡ fault terminate
destroy_server-run_history_example =
    destroy_server-run_history (platform []) quiet_packet_code quiet_status_code packets_keep
      changes_keep ip 27020 [] history new_server refl

new_server-down : new_server.object.running ≡ false
unfolding of_address
new_server-down = refl

new_server-stays : new_server.object.quit_requested ≡ false
unfolding of_address
new_server-stays = refl

main_loop-endless_example :
    main_loop (platform []) quiet_packet_code quiet_status_code 100 new_server
    ≡ (fault unfinished, new_server)
main_loop-endless_example =
    main_loop-endless (platform []) quiet_packet_code quiet_status_code 100 new_server
      new_server-down new_server-stays

abbrev new_example_server : World Server Mail
new_example_server = record { object = of_port 8080 ((ip ∷ []) ∷ []); env = []; trace = [] }

-- A `rand` that always draws 4.
abbrev rand : Mail → ℕ × Mail
rand env = (4, env)

abbrev joining_platform : Platform Mail
joining_platform = platform (record { conn = 9; old_state = 0; state = 1 } ∷ [])

main-IsSound_example :
    let w' = (main joining_platform rand 3 new_example_server).1 in
    IsSound w'.object × ((destroy_server joining_platform w').0 ≡ fault terminate)
main-IsSound_example =
    main-IsSound joining_platform rand 8080 3 ((ip ∷ []) ∷ []) new_example_server refl
