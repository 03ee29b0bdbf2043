-- ===== src/Examples/Histories.antt =====
-- A history of an initialised client.
use chaos_in_multiplayer.Base.{
  ℕ, ◌≡◌, ◌≢◌, refl, true, some, inr, List, [], ◌∷◌, All, arith, pos, ltb→lt, to_size_t-pos,
}
use chaos_in_multiplayer.Status.{ConnectionStatusChange}
use chaos_in_multiplayer.Program.{ok, undefined, fault, World, Action, skip}
use chaos_in_multiplayer.Program.Safe.{Safe, Safe-skip}
use chaos_in_multiplayer.Packet.{Packet}
use chaos_in_multiplayer.Receiving.Whole.{Fits}
use chaos_in_multiplayer.Server.Packets.{int_max}
use chaos_in_multiplayer.Client.{Client, new, connect, initialize_connection}
use chaos_in_multiplayer.Client.Session.{
  Call, updates, asks, sends_reliable, sets_packet_callback, sets_max_processed_packets,
  run_history,
}
use chaos_in_multiplayer.Client.Session.Safety.{IsLiving, IsReady, IsInt}
use chaos_in_multiplayer.Client.Session.Updates.{IsReporting}
use chaos_in_multiplayer.Client.Session.Histories.{Admits, run_history-ne-undefined}
use chaos_in_multiplayer.Examples.Setup.{Mail, busy_platform, hello, ip}

-- A handle is alive when it is not the invalid one.
abbrev pub IsValid : ℕ → Mail → Type 0
IsValid h env = h ≢ 0

-- The one message of that platform.
pub busy-Fits : Fits (record { conn = 9; bytes = 7 ∷ []; size = pos 1 })
busy-Fits = omega (arith, to_size_t-pos 1 (omega arith))

busy_platform-IsLiving : IsLiving busy_platform IsValid
busy_platform-IsLiving = record {
  connects = λ a env n. n;
  is_whole = λ h env l. inr (_, refl, busy-Fits);
  receives = λ h k env l. l;
  releases = λ h m env l. l;
  runs = λ h env l. l;
  sends = λ h k n t bs env l. l;
  asks = λ h k env l. l;
}

abbrev quiet_client_code : ℕ → ℕ → Packet → Action Client Mail Unit
quiet_client_code f k q = skip

abbrev quiet_client_status : ℕ → ConnectionStatusChange → Action Client Mail Unit
quiet_client_status f c = skip

abbrev new_client : World Client Mail
new_client = record { object = new; env = []; trace = [] }

client_packets-Safe :
    (f k : ℕ) (q : Packet) → Safe (IsReady IsValid) undefined (quiet_client_code f k q)
client_packets-Safe f k q = Safe-skip

client_changes-Safe :
    (f : ℕ) (c : ConnectionStatusChange)
    → Safe (IsReporting IsValid) undefined (quiet_client_status f c)
client_changes-Safe f c = Safe-skip

five-IsInt : IsInt (pos 5)
unfolding int_max
five-IsInt i h = omega (arith, ltb→lt i 5 h)

client_starts : (initialize_connection busy_platform ip 27020 new_client).0 ≡ ok true
unfolding initialize_connection connect
client_starts = refl

abbrev client_calls : List Call
client_calls =
    sets_packet_callback (some 1)
    ∷ updates
    ∷ sets_max_processed_packets (pos 5)
    ∷ sends_reliable hello
    ∷ asks
    ∷ []

client_calls-Admits : All Admits client_calls
client_calls-Admits = (tt, (tt, (five-IsInt, (tt, (tt, tt)))))

run_history-ne-undefined_example :
    (run_history busy_platform quiet_client_code quiet_client_status client_calls
      (initialize_connection busy_platform ip 27020 new_client).1).0
    ≢ fault undefined
run_history-ne-undefined_example =
    run_history-ne-undefined busy_platform IsValid busy_platform-IsLiving quiet_client_code
      quiet_client_status client_packets-Safe client_changes-Safe ip 27020 client_calls new_client
      five-IsInt client_starts client_calls-Admits
