-- ===== src/Client/Connecting.antt =====
-- When a client is connected, and when it fails to connect.
use chaos_in_multiplayer.Base.{
  ℕ, ◌≡◌, true, false, not, Bool, some, none, Option, Option-cases, inl, inr, Text, ◌==◌, arith,
}
use chaos_in_multiplayer.Platform.{Platform}
use chaos_in_multiplayer.Program.{ok, World}
use chaos_in_multiplayer.Server.Opening.{format_address}
use chaos_in_multiplayer.Client.{Client, connect, initialize_connection}

module _ {Env : Type 0} (p : Platform Env) where
  -- Whether the platform gives a valid handle, when the address is parsed.
  abbrev pub reached : Option ℕ → Env → Bool
  reached none env = false
  reached (some address) env = not ((p.connect_by_address address env).0 == p.invalid_connection)

  -- The handle that is stored.
  abbrev pub stored : Option ℕ → World Client Env → Option ℕ
  stored none w = w.object.server_connection
  stored (some address) w = some (p.connect_by_address address w.env).0

  -- Initialising always returns, with `true` exactly when the address is parsed and the platform
  -- gives a valid handle. The handle of a parsed address is stored, also an invalid one; if the
  -- address is not parsed, the handle stays and the platform is not called.
  pub initialize_connection_lem :
      (ip : Text) (port : ℕ) (w : World Client Env)
      → let (r, w') = initialize_connection p ip port w in
        let address = p.parse_string (format_address ip port) in
        (r ≡ ok (reached address w.env))
        × (w'.object
            ≡ record w.object { networking_interface = true; server_connection = stored address w })
        × (address ≡ none → w'.env ≡ w.env)
  unfolding initialize_connection connect
  initialize_connection_lem ip port w =
      elim (Option-cases (p.parse_string (format_address ip port))) [
        | inl e ↦ ground arith
        | inr (a, e) ↦ ground arith
      ]
