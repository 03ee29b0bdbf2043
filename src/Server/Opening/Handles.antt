-- ===== src/Server/Opening/Handles.antt =====
-- When a server runs after `openConnection`, and the text of its address.
use chaos_in_multiplayer.Base.{
  ℕ, zero, suc, ◌+◌, ◌-◌, ◌*◌, ◌≤◌, ◌<◌, ◌≡◌, refl, Bool, false, not, ◌&&◌, Option, none, some,
  List, [], ◌∷◌, ◌++◌, Text, arith, length, ◌==◌, ltb, ltb→lt, ltb→ge, ap, ◌∙◌, ◌/◌, ◌%◌,
  Option-cases, inl, inr, Bool-cases,
}
use chaos_in_multiplayer.Platform.{Platform, Event, server_listening}
use chaos_in_multiplayer.Program.{ok, World}
use chaos_in_multiplayer.Server.{Server}
use chaos_in_multiplayer.Server.Opening.{
  decimal_from, format_address, open_handles, listen, on_address, open_connection,
}

-- The number that decimal digits stand for, after the number `n`.
abbrev pub value : ℕ → Text → ℕ
value n [] = n
value n (d ∷ ds) = value (n * 10 + (d - 48)) ds

pub length-decimal_from : (f n : ℕ) (acc : Text) → length (decimal_from f n acc) ≤ f + length acc
unfolding decimal_from
length-decimal_from zero n acc = omega arith
length-decimal_from (suc f) n acc =
    ground (arith, length-decimal_from f (n / 10) ((48 + n % 10) ∷ acc))

decimal_from-value : (f n : ℕ) (acc : Text) → n < f → value 0 (decimal_from f n acc) ≡ value n acc
unfolding decimal_from
decimal_from-value zero n acc h = absurd (omega arith)
decimal_from-value (suc f) n acc h =
    let digit = 48 + n % 10 in
    elim (Bool-cases (ltb n 10)) [
      | inl small ↦ rw small (ap (λ v. value v acc) (omega (arith, ltb→lt n 10 small)))
      | inr large ↦ rw large (
          decimal_from-value f (n / 10) (digit ∷ acc) (omega (arith, ltb→ge n 10 large))
          ∙ ap (λ v. value v acc) (omega arith))
    ]

-- The port that the address text ends in reads back as the port, for every port.
pub format_address-value :
    (ip : Text) (port : ℕ)
    → (digits : Text) × (format_address ip port ≡ ip ++ 58 ∷ digits) × (value 0 digits ≡ port)
unfolding format_address
format_address-value ip port =
    (decimal_from (suc port) port [], refl, decimal_from-value (suc port) port [] (omega arith))

module _ {Env : Type 0} (p : Platform Env) where
  -- Whether both handles are valid, when the address is parsed.
  abbrev pub opened : Option ℕ → Env → Bool
  opened none env = false
  opened (some address) env =
      let (socket, env₁) = p.create_listen_socket address env in
      let (group, env₂) = p.create_poll_group env₁ in
      not (socket == p.invalid_listen_socket) && not (group == p.invalid_poll_group)

  abbrev address : World Server Env → Option ℕ
  address w = p.parse_string (format_address w.object.server_ip w.object.server_port)

  -- Opening always returns, and the server runs afterwards exactly when its address is parsed and
  -- both the listening socket and the poll group are valid handles. Registered connections and a
  -- request to quit stay.
  pub open_connection-running :
      (w : World Server Env)
      → let (r, w') = open_connection p w in
        (r ≡ ok tt)
        × (w'.object.running ≡ opened (address w) w.env)
        × (w'.object.connections ≡ w.object.connections)
        × (w'.object.quit_requested ≡ w.object.quit_requested)
  unfolding open_connection
  open_connection-running w = elim (Option-cases (address w)) [
    | inl e ↦ ground arith
    | inr (a, e) ↦ ground arith
  ]

  open_handles-ok : (port a : ℕ) (w : World Server Env) → (open_handles p port a w).0 ≡ ok tt
  unfolding open_handles
  open_handles-ok port a w = ground arith

  -- The last line of the log says that the server listens, for every address that is parsed, also
  -- when a handle is invalid and the server does not run.
  pub open_connection-logs :
      (w : World Server Env) (a : ℕ)
      → address w ≡ some a
      → (t : List Event) × ((open_connection p w).1.trace
          ≡ t ++ Event.log (server_listening w.object.server_port) ∷ [])
  unfolding open_connection listen
  open_connection-logs w a e =
      let port = w.object.server_port in
      ((open_handles p port a w).1.trace, rw (e, on_address, open_handles-ok port a w))
