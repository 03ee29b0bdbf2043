-- ===== src/Examples/Openings.antt =====
-- A history of an opened server, and a close without an opening.
use chaos_in_multiplayer.Base.{ℕ, ◌≡◌, ◌≢◌, ◌≤◌, refl, none, some, inr, List, [], ◌∷◌, All, arith}
use chaos_in_multiplayer.Status.{ConnectionStatusChange}
use chaos_in_multiplayer.Program.{undefined, fault, World}
use chaos_in_multiplayer.Program.Safe.{Safe, Safe-skip}
use chaos_in_multiplayer.Packet.{Packet}
use chaos_in_multiplayer.UnorderedMap.{IsDistinct}
use chaos_in_multiplayer.Server.{Server, of_address}
use chaos_in_multiplayer.Server.Packets.{int_max}
use chaos_in_multiplayer.Server.Opening.{open_connection}
use chaos_in_multiplayer.Server.Closing.{close_connection}
use chaos_in_multiplayer.Server.Closing.Teardown.{close_connection-open_connection}
use chaos_in_multiplayer.Server.Session.{
  Call, creates, accepts, updates, closes, opens, sets_packet_callback, sets_max_processed_packets,
  run_history,
}
use chaos_in_multiplayer.Server.Session.Opened.{IsPolling, IsServing}
use chaos_in_multiplayer.Server.Session.Defined.{IsReporting}
use chaos_in_multiplayer.Server.Session.Definedness.{Admits, run_history-ne-undefined_opened}
use chaos_in_multiplayer.Examples.Setup.{
  Mail, busy_platform, strict_platform, ip, quiet_packet_code, quiet_status_code,
}
use chaos_in_multiplayer.Examples.Histories.{IsValid, busy-Fits}

busy_platform-IsPolling : IsPolling busy_platform IsValid
busy_platform-IsPolling = record {
  creates = λ env n. n;
  is_whole = λ g env l. inr (_, refl, busy-Fits);
  receives = λ g k env l. l;
  releases = λ g m env l. l;
  runs = λ g env l. l;
  accepts = λ g h env l. l;
  groups = λ g h k env l. l;
  closes = λ g h r x env l. l;
  sends = λ g h n t bs env l. l;
}

abbrev new_server : World Server Mail
new_server = record { object = of_address ip 27020 []; env = []; trace = [] }

server_packets-Safe :
    (f k : ℕ) (q : Packet) → Safe (IsServing IsValid) undefined (quiet_packet_code f k q)
server_packets-Safe f k q = Safe-skip

server_changes-Safe :
    (f : ℕ) (c : ConnectionStatusChange)
    → Safe (IsReporting IsValid) undefined (quiet_status_code f c)
server_changes-Safe f c = Safe-skip

abbrev server_calls : List Call
server_calls =
    sets_packet_callback (some 1)
    ∷ creates 9
    ∷ accepts 9
    ∷ sets_max_processed_packets 7
    ∷ updates
    ∷ closes
    ∷ opens
    ∷ closes
    ∷ []

seven-small : 7 ≤ int_max
unfolding int_max
seven-small = omega arith

server_calls-Admits : All Admits server_calls
server_calls-Admits = (tt, (tt, (tt, (seven-small, (tt, (tt, (tt, (tt, tt))))))))

new_server-small : new_server.object.max_processed_packets ≤ int_max
unfolding of_address int_max
new_server-small = omega arith

run_history-ne-undefined_opened_example :
    (run_history busy_platform quiet_packet_code quiet_status_code server_calls
      (open_connection busy_platform new_server).1).0
    ≢ fault undefined
run_history-ne-undefined_opened_example =
    run_history-ne-undefined_opened busy_platform IsValid busy_platform-IsPolling quiet_packet_code
      quiet_status_code server_packets-Safe server_changes-Safe 7 server_calls new_server refl
      new_server-small server_calls-Admits

new_server-IsDistinct : IsDistinct new_server.object.connections
unfolding of_address
new_server-IsDistinct = tt

new_server-unassigned : new_server.object.listening_socket ≡ none
unfolding of_address
new_server-unassigned = refl

close_connection-open_connection_example :
    (close_connection strict_platform (open_connection strict_platform new_server).1).0
    ≡ fault undefined
close_connection-open_connection_example =
    close_connection-open_connection strict_platform new_server new_server-IsDistinct
      new_server-unassigned refl
