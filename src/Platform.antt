-- ===== src/Platform.antt =====
-- What the repository calls and does not hold: the GameNetworkingSockets library
-- (`ISteamNetworkingSockets`, its constants and its messages). A `Platform` is a parameter of the
-- model: `Env` is the state behind the interface, and each function says what a call returns and
-- what it does to that state. An `Event` is one such call, one call of an application's callback,
-- or one line of the log.
use chaos_in_multiplayer.Base.{ℕ, ℤ, Text, List, Option, Bool}
use chaos_in_multiplayer.Status.{ConnectionStatusChange}

-- The fields of `ISteamNetworkingMessage` that the code reads.
pub record Message : Type 0 where
  -- `m_conn`
  pub conn : ℕ
  -- what `m_pData` points to
  pub bytes : List ℕ
  -- `m_cbSize`, an `int`
  pub size : ℤ

-- What one call that asks for at most one message gives: its result, and the pointer it fills in.
pub record Received : Type 0 where
  pub count : ℤ
  pub message : Option Message

-- The fields of `SteamNetConnectionStatusChangedCallback_t` that the code reads.
pub record StatusInfo : Type 0 where
  -- `m_hConn`
  pub conn : ℕ
  -- `m_eOldState`
  pub old_state : ℕ
  -- `m_info.m_eState`
  pub state : ℕ

pub record Platform (Env : Type 0) : Type 0 where
  -- `k_HSteamNetConnection_Invalid`, `k_HSteamListenSocket_Invalid`, `k_HSteamNetPollGroup_Invalid`
  pub invalid_connection : ℕ
  pub invalid_listen_socket : ℕ
  pub invalid_poll_group : ℕ
  -- `k_nSteamNetworkingSend_Reliable`, `k_nSteamNetworkingSend_Unreliable`
  pub send_reliable : ℕ
  pub send_unreliable : ℕ
  -- `EResult::k_EResultOK`
  pub result_ok : ℕ
  -- `k_ESteamNetworkingConnectionState_*`, the enumerators that the code names
  pub state_none : ℕ
  pub state_connecting : ℕ
  pub state_connected : ℕ
  pub state_closed_by_peer : ℕ
  pub state_problem_detected_locally : ℕ
  -- `SteamNetworkingIPAddr::ParseString`; an address is carried as a number
  pub parse_string : Text → Option ℕ
  pub accept_connection : ℕ → Env → ℕ × Env
  pub set_connection_poll_group : ℕ → ℕ → Env → Bool × Env
  pub close_connection : ℕ → ℕ → Bool → Env → Env
  pub send_message : ℕ → List ℕ → ℕ → ℕ → Env → Env
  pub create_listen_socket : ℕ → Env → ℕ × Env
  pub close_listen_socket : ℕ → Env → Env
  pub create_poll_group : Env → ℕ × Env
  pub destroy_poll_group : ℕ → Env → Env
  pub receive_on_poll_group : ℕ → Env → Received × Env
  pub receive_on_connection : ℕ → Env → Received × Env
  pub release : Message → Env → Env
  -- `RunCallbacks`: the changes queued so far, for which it calls the registered function in turn
  pub run_callbacks : Env → List StatusInfo × Env
  pub connect_by_address : ℕ → Env → ℕ × Env
  -- `GetConnectionInfo`: the `m_eState` that it fills in
  pub connection_state : ℕ → Env → ℕ × Env

pub data Stream : Type 0 where
  stdout stderr : Stream

-- What `NetworkingUtils` calls, of the library and of the system.
pub record Utilities (Env : Type 0) : Type 0 where
  -- `k_ESteamNetworkingSocketsDebugOutputType_Msg`, `k_ESteamNetworkingSocketsDebugOutputType_Bug`
  pub output_type_msg : ℕ
  pub output_type_bug : ℕ
  -- `GameNetworkingSockets_Init`: its result, and the text that it fills in
  pub initialize : Env → (Bool × Text) × Env
  -- `GameNetworkingSockets_Kill`
  pub kill : Env → Env
  -- `GetLocalTimestamp`, in microseconds
  pub local_timestamp : Env → ℤ × Env
  -- `SetDebugOutputFunction`, always with `debugOutput`
  pub set_debug_output : ℕ → Env → Env
  pub sleep : ℕ → Env → Env
  pub flush : Stream → Env → Env

-- The lines that the code hands to spdlog.
pub data LogLine : Type 0 where
  invalid_server_address : LogLine
  failed_to_listen : ℕ → LogLine
  server_listening : ℕ → LogLine
  error_checking_messages : LogLine
  no_callback_for_status_change : LogLine
  shutting_down_server : LogLine
  unknown_command : LogLine
  closing_connections : LogLine
  failed_to_create_connection : LogLine
  initialization_failed : Text → LogLine
  -- the microseconds, which are written as seconds, and the message
  debug_message : ℤ → Text → LogLine
  -- a line that an application formats
  text : Text → LogLine

pub data Event : Type 0 where
  accept_connection : ℕ → Event
  set_connection_poll_group : ℕ → ℕ → Event
  -- the handle, the reason, whether to linger
  close_connection : ℕ → ℕ → Bool → Event
  -- the handle, the bytes pointed to, how many of them, the send flags
  send_message : ℕ → List ℕ → ℕ → ℕ → Event
  create_listen_socket : ℕ → Event
  close_listen_socket : ℕ → Event
  create_poll_group : Event
  destroy_poll_group : ℕ → Event
  receive_on_poll_group : ℕ → Event
  receive_on_connection : ℕ → Event
  release : Message → Event
  run_callbacks : Event
  connect_by_address : ℕ → Event
  connection_state : ℕ → Event
  initialize : Event
  kill : Event
  local_timestamp : Event
  set_debug_output : ℕ → Event
  -- in milliseconds
  sleep : ℕ → Event
  flush : Stream → Event
  -- the callable, and its arguments
  call_packet_callback : ℕ → ℕ → List ℕ → Event
  call_status_callback : ℕ → ConnectionStatusChange → Event
  log : LogLine → Event
