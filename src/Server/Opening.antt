-- ===== src/Server/Opening.antt =====
-- Server.cpp: `openConnection`.
pub mod Handles
use chaos_in_multiplayer.Base.{
  ℕ, zero, suc, ◌+◌, ◌/◌, ◌%◌, true, false, Option, none, some, List, [], ◌∷◌, ◌++◌, Text, codes,
  ltb, ◌==◌, if◌then◌else◌,
}
use chaos_in_multiplayer.Platform.{
  Platform, Event, LogLine, invalid_server_address, failed_to_listen, server_listening,
}
use chaos_in_multiplayer.Program.{Action, ◌>>=◌, ◌>>◌, gets, call, note, modify, when}
use chaos_in_multiplayer.Server.{Server}

-- The decimal digits of a number, before `acc`; each round divides by ten, so `n + 1` rounds do.
unfoldable pub decimal_from : ℕ → ℕ → Text → Text
decimal_from zero n acc = acc
decimal_from (suc f) n acc =
    let digit = 48 + n % 10 in
    let rest = decimal_from f (n / 10) (digit ∷ acc) in if ltb n 10 then digit ∷ acc else rest

-- `std::format("{}:{}", server_ip, server_port)`.
unfoldable pub format_address : Text → ℕ → Text
unfolding decimal_from
format_address ip port = ip ++ (codes ":" ++ decimal_from (suc port) port [])

module _ {Env : Type 0} (p : Platform Env) where
  -- The socket and the poll group, for a parsed address.
  unfoldable pub open_handles : ℕ → ℕ → Action Server Env Unit
  open_handles port address = do
    socket ← call (Event.create_listen_socket address) (p.create_listen_socket address)
    modify (λ s. record s { listening_socket = some socket; running = true })
    when (socket == p.invalid_listen_socket)
        (do note (Event.log (failed_to_listen port)); modify (λ s. record s { running = false }))
    group ← call Event.create_poll_group p.create_poll_group
    modify (λ s. record s { poll_group = some group })
    when (group == p.invalid_poll_group)
        (do note (Event.log (failed_to_listen port)); modify (λ s. record s { running = false }))

  unfoldable pub listen : ℕ → ℕ → Action Server Env Unit
  unfolding open_handles
  listen port address = do open_handles port address; note (Event.log (server_listening port))

  abbrev on_address : ℕ → Option ℕ → Action Server Env Unit
  on_address port none = do
    note (Event.log invalid_server_address)
    modify (λ s. record s { running = false })
  on_address port (some address) = listen port address

  unfoldable pub open_connection : Action Server Env Unit
  unfolding listen format_address
  open_connection = do
    ip ← gets (λ s. s.server_ip)
    port ← gets (λ s. s.server_port)
    on_address port (p.parse_string (format_address ip port))
