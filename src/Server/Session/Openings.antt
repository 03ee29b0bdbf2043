-- ===== src/Server/Session/Openings.antt =====
-- What opening does to a server.
use chaos_in_multiplayer.Base.{
  ℕ, ◌≤◌, ◌≡◌, refl, sym, subst, inl, inr, true, false, some, none, arith, Option-cases, ◌==◌,
}
use chaos_in_multiplayer.Platform.{Platform}
use chaos_in_multiplayer.Program.{undefined, ok, World}
use chaos_in_multiplayer.Program.Safe.{Safe}
use chaos_in_multiplayer.Server.{Server}
use chaos_in_multiplayer.Server.Packets.{int_max}
use chaos_in_multiplayer.Server.Opening.{format_address, open_handles, listen, open_connection}
use chaos_in_multiplayer.Server.Opening.Handles.{open_connection-running}
use chaos_in_multiplayer.Server.Session.Opened.{IsPolling}
use chaos_in_multiplayer.Server.Session.Defined.{IsOpen}
use chaos_in_multiplayer.Server.Session.Shutdown.{Stopped-IsOpen}

module _ {Env : Type 0} (p : Platform Env) where
  open_handles-members :
      (port a : ℕ) (w : World Server Env)
      → let (r, w') = open_handles p port a w in
        let (socket, env) = p.create_listen_socket a w.env in
        let (group, env') = p.create_poll_group env in
        (r ≡ ok tt)
        × (w'.object.listening_socket ≡ some socket)
        × (w'.object.poll_group ≡ some group)
        × (w'.env ≡ env')
        × (w'.object.running ≡ true → (group == p.invalid_poll_group) ≡ false)
        × (w'.object.max_processed_packets ≡ w.object.max_processed_packets)
  unfolding open_handles
  open_handles-members port a w = ground arith

  module _ (live : ℕ → Env → Type 0) (polling : IsPolling p live) where
    open_handles-IsOpen :
        (port a : ℕ) (w : World Server Env)
        → w.object.max_processed_packets ≤ int_max
        → let w' = (open_handles p port a w).1 in IsOpen live w'.object w'.env
    open_handles-IsOpen port a w b =
        let (_, socket, group, env, up, bound) = open_handles-members port a w in
        let (g, after) = p.create_poll_group (p.create_listen_socket a w.env).1 in
        record {
          listens = rw socket refl;
          grouped = rw group refl;
          polls = λ runs.
              let valid = up runs in
              let lives =
                polling.creates (p.create_listen_socket a w.env).1
                  (λ e. ground (arith, e, valid)) in
              (g, group, subst (live g) (sym env) lives);
          bounded = subst (λ n. n ≤ int_max) (sym bound) b;
        }

    listen-IsOpen :
        (port a : ℕ) (w : World Server Env)
        → w.object.max_processed_packets ≤ int_max
        → let w' = (listen p port a w).1 in IsOpen live w'.object w'.env
    unfolding listen
    listen-IsOpen port a w b =
        let r = (open_handles-members port a w).0 in rw r (open_handles-IsOpen port a w b)

    -- A parsed address gives both handles.
    pub open_connection-IsOpen :
        (a : ℕ) (w : World Server Env)
        → p.parse_string (format_address w.object.server_ip w.object.server_port) ≡ some a
        → w.object.max_processed_packets ≤ int_max
        → let w' = (open_connection p w).1 in IsOpen live w'.object w'.env
    unfolding open_connection
    open_connection-IsOpen a w e b = rw e (listen-IsOpen w.object.server_port a w b)

    unparsed-IsOpen :
        (w : World Server Env)
        → p.parse_string (format_address w.object.server_ip w.object.server_port) ≡ none
        → IsOpen live w.object w.env
        → let w' = (open_connection p w).1 in IsOpen live w'.object w'.env
    unfolding open_connection
    unparsed-IsOpen w e o = rw e (
        Stopped-IsOpen _ _ (record {
          listens = o.listens;
          grouped = o.grouped;
          stopped = refl;
          bounded = o.bounded;
        }))

    pub open_connection-Safe : Safe (IsOpen live) undefined (open_connection p)
    open_connection-Safe = record {
      at = λ w o.
          let r = (open_connection-running p w).0 in
          (
            λ e. ground (arith, r, e),
            elim (Option-cases
                (p.parse_string (format_address w.object.server_ip w.object.server_port))) [
                  | inl n ↦ unparsed-IsOpen w n o
                  | inr (a, e) ↦ open_connection-IsOpen a w e o.bounded
                ],
          );
    }
