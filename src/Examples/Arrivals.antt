-- ===== src/Examples/Arrivals.antt =====
-- The example client, on a platform whose connection needs two calls of `RunCallbacks` to come up.
use chaos_in_multiplayer.Base.{
  ℕ, zero, suc, ◌-◌, ◌≤◌, ◌≡◌, ◌≢◌, refl, true, some, none, List, [], ◌∷◌, ◌++◌, pos, arith, All,
}
use chaos_in_multiplayer.Status.{ConnectionStatus, ConnectionStatusChange}
use chaos_in_multiplayer.Platform.{Platform, StatusInfo}
use chaos_in_multiplayer.Program.{ok, World}
use chaos_in_multiplayer.UnorderedMap.{lookup}
use chaos_in_multiplayer.Reporting.{AllReport}
use chaos_in_multiplayer.Client.{Client, new}
use chaos_in_multiplayer.Client.StatusChanges.{connection_status_mappings}
use chaos_in_multiplayer.ExampleClient
use chaos_in_multiplayer.ExampleClient.Messages.{sent}
use chaos_in_multiplayer.ExampleClient.Arrival.{IsComing, IsHarmless}
use chaos_in_multiplayer.ExampleClient.Sending.{all_messages, main-sends}

abbrev goes_up : StatusInfo
goes_up = record { conn = 9; old_state = 1; state = 3 }

-- With the last call that is needed, the change to the connected state is reported.
abbrev next_changes : ℕ → List StatusInfo × ℕ
next_changes zero = ([], 0)
next_changes (suc zero) = (goes_up ∷ [], 0)
next_changes (suc (suc n)) = ([], suc n)

abbrev state_after : ℕ → ℕ
state_after zero = 3
state_after (suc n) = 1

-- The state is how many calls are still needed.
abbrev slow_platform : Platform ℕ
slow_platform = record {
  invalid_connection = 0;
  invalid_listen_socket = 0;
  invalid_poll_group = 0;
  send_reliable = 8;
  send_unreliable = 0;
  result_ok = 1;
  state_none = 0;
  state_connecting = 1;
  state_connected = 3;
  state_closed_by_peer = 4;
  state_problem_detected_locally = 5;
  parse_string = λ t. some 7;
  accept_connection = λ h env. (1, env);
  set_connection_poll_group = λ h g env. (true, env);
  close_connection = λ h reason linger env. env;
  send_message = λ h bs n t env. env;
  create_listen_socket = λ a env. (11, env);
  close_listen_socket = λ h env. env;
  create_poll_group = λ env. (12, env);
  destroy_poll_group = λ g env. env;
  receive_on_poll_group = λ g env. (record { count = pos 0; message = none }, env);
  receive_on_connection = λ h env. (record { count = pos 0; message = none }, env);
  release = λ m env. env;
  run_callbacks = next_changes;
  connect_by_address = λ a env. (9, 2);
  connection_state = λ h env. (state_after env, env);
}

up-connected : (env : ℕ) → env ≡ 0 → state_after env ≡ 3
up-connected zero e = refl
up-connected (suc n) e = absurd (omega arith)

down-connected : (env : ℕ) → env ≢ 0 → state_after env ≢ 3
down-connected zero d = absurd (d refl)
down-connected (suc n) d = λ e. omega arith

next_changes-nearer : (env : ℕ) → (next_changes env).1 ≤ env - 1
next_changes-nearer zero = omega arith
next_changes-nearer (suc zero) = omega arith
next_changes-nearer (suc (suc n)) = omega arith

next_changes-IsHarmless :
    (env : ℕ)
    → (cs : List ConnectionStatusChange) × AllReport
        (connection_status_mappings slow_platform)
        (next_changes env).0
        cs
      × All (λ c. IsHarmless c.current_status) cs
unfolding connection_status_mappings lookup
next_changes-IsHarmless zero = ([], tt, tt)
next_changes-IsHarmless (suc zero) = (
  record {
    connection = 9;
    old_status = ConnectionStatus.connecting;
    current_status = ConnectionStatus.connected;
  }
      ∷ [],
  (record { connection = refl; old = refl; current = refl }, tt),
  (tt, tt),
)
next_changes-IsHarmless (suc (suc n)) = ([], tt, tt)

slow_platform-IsComing : IsComing slow_platform 9 (λ env. env)
slow_platform-IsComing = record {
  up = up-connected;
  down = down-connected;
  asked = λ env. refl;
  sends = λ env bs n t e. e;
  receives = λ env far. (refl, omega arith);
  runs = next_changes-nearer;
  changes = next_changes-IsHarmless;
}

abbrev starting_client : World Client ℕ
starting_client = record { object = new; env = 5; trace = [] }

nine-valid : ◌≢◌ {A = ℕ} 9 slow_platform.invalid_connection
nine-valid e = omega arith

main-sends_example :
    let (r, w') = ExampleClient.main slow_platform 7 starting_client in
    (r ≡ ok tt) × (sent w'.trace ≡ [] ++ all_messages slow_platform 9)
main-sends_example =
    main-sends slow_platform 9 (λ env. env) slow_platform-IsComing 7 7 starting_client refl refl
      nine-valid (omega arith)
