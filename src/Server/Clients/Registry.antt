-- ===== src/Server/Clients/Registry.antt =====
-- The map of client connections: its invariant, and each operation on every branch.
use chaos_in_multiplayer.Base.{
  ℕ, ◌≡◌, refl, false, Option, none, some, [], ◌∷◌, ◌++◌, arith, ◌==◌, if◌then◌else◌, All,
  Option-cases, Bool-cases, inl, inr,
}
use chaos_in_multiplayer.Status.{ConnectionState}
use chaos_in_multiplayer.Platform.{Platform, Event}
use chaos_in_multiplayer.Program.{assertion, out_of_range, Outcome, ok, fault, World, Action}
use chaos_in_multiplayer.UnorderedMap.{lookup, contains, try_emplace, erase, IsDistinct}
use chaos_in_multiplayer.UnorderedMap.Laws.{
  lookup-try_emplace, try_emplace-found, lookup-replace, lookup-erase, try_emplace-IsDistinct,
  replace-IsDistinct, erase-IsDistinct, try_emplace-All, replace-All, erase-All, lookup-All,
  erase-replace,
}
use chaos_in_multiplayer.ClientConnection.{ClientConnection, of_handle, closed, destroy, close}
use chaos_in_multiplayer.ClientConnection.Lifecycle.{IsLive}
use chaos_in_multiplayer.Server.{Server}
use chaos_in_multiplayer.Server.Clients.{
  at_client, create_client_connection, remove_client_connection, close_client_connection,
}

abbrev pub IsRegistered : ℕ × ClientConnection → Type 0
IsRegistered (k, c) = IsLive k c

-- No handle is registered twice, and each entry is for the handle that is its key and has a state
-- that the code assigns.
pub record IsWellFormed (s : Server) : Type 0 where
  pub distinct : IsDistinct s.connections
  pub registered : All IsRegistered s.connections

of_handle-IsLive : (k : ℕ) → IsLive k (of_handle k)
unfolding of_handle
of_handle-IsLive k = ground arith

pub emplaced-IsWellFormed :
    (k : ℕ) (s : Server)
    → IsWellFormed s
    → IsWellFormed (record s { connections = try_emplace k (of_handle k) s.connections })
emplaced-IsWellFormed k s f = record {
  distinct = try_emplace-IsDistinct k (of_handle k) s.connections f.distinct;
  registered =
      try_emplace-All IsRegistered k (of_handle k) s.connections (of_handle-IsLive k) f.registered;
}

module _ {Env : Type 0} where
  pub create_client_connection-eq :
      (k : ℕ) (w : World Server Env)
      → create_client_connection k w ≡ (
        ok k,
        record w {
          object = record w.object {
            connections = try_emplace k (of_handle k) w.object.connections;
          };
        },
      )
  unfolding create_client_connection
  create_client_connection-eq k w =
      let (c, e) = try_emplace-found k (of_handle k) w.object.connections in ground arith

  -- Creating a connection always returns; a handle that is known keeps its entry, a new one gets an
  -- entry that is connecting, every other entry is as before, and the platform is not called.
  pub create_client_connection_lem :
      (k j : ℕ) (w : World Server Env)
      → let (r, w') = create_client_connection k w in
        (r ≡ ok k)
        × (lookup j w'.object.connections ≡ (
            if j == k
            then (if contains k w.object.connections
                then lookup k w.object.connections
                else some (of_handle k))
            else lookup j w.object.connections))
        × (w'.trace ≡ w.trace)
        × (w'.env ≡ w.env)
  create_client_connection_lem k j w =
      rw (create_client_connection-eq k w)
        (refl, lookup-try_emplace j k (of_handle k) w.object.connections, refl, refl)

  pub create_client_connection-IsWellFormed :
      (k : ℕ) (w : World Server Env)
      → IsWellFormed w.object
      → IsWellFormed (create_client_connection k w).1.object
  create_client_connection-IsWellFormed k w f =
      rw (create_client_connection-eq k w) (emplaced-IsWellFormed k w.object f)

  -- A method of one entry keeps the registry, if it keeps the entry for its handle.
  pub at_client-IsWellFormed :
      {A : Type 0} (k : ℕ) (act : Action ClientConnection Env A) (w : World Server Env)
      → ((v : World ClientConnection Env) → IsLive k v.object → IsLive k (act v).1.object)
      → IsWellFormed w.object
      → IsWellFormed (at_client k act w).1.object
  unfolding at_client
  at_client-IsWellFormed k act w keep f = elim (Option-cases (lookup k w.object.connections)) [
    | inl n ↦ rw (n, at_client) f
    | inr (c, e) ↦
        rw (e, at_client)
          (record {
            distinct = replace-IsDistinct k _ _ f.distinct;
            registered =
                replace-All IsRegistered k _ w.object.connections
                  (keep _ (lookup-All IsRegistered k c w.object.connections e f.registered))
                  f.registered;
          })
  ]

module _ {Env : Type 0} (p : Platform Env) where
  abbrev pub after_close :
      ℕ → World Server Env → Option ClientConnection → Outcome Unit × World Server Env
  after_close k w none = (fault out_of_range, w)
  after_close k w (some c) = (
    ok tt,
    record {
      object = record w.object { connections = erase k w.object.connections };
      env = p.close_connection c.net_connection 0 false w.env;
      trace = w.trace ++ Event.close_connection c.net_connection 0 false ∷ [];
    },
  )

  -- Closing a client: an unknown handle throws `std::out_of_range` and changes nothing; a known one
  -- is closed by one call of the platform, neither assertion on the way fails, and its entry goes.
  pub close_client_connection_lem :
      (k : ℕ) (w : World Server Env)
      → close_client_connection p k w ≡ after_close k w (lookup k w.object.connections)
  unfolding close_client_connection close destroy
  close_client_connection_lem k w = elim (Option-cases (lookup k w.object.connections)) [
    | inl n ↦ rw (n, close_client_connection, at_client)
    | inr (c, e) ↦
        let m = w.object.connections in
        let c' = record c { connection_state = ConnectionState.closed } in
        ground (arith, lookup-replace k k c' m, erase-replace k c' m)
  ]

  -- If the registry is well formed, then after a call that closes a client its handle is unknown and
  -- every other entry is as before; the registry is well formed still, also when the handle was
  -- unknown.
  pub lookup-close_client_connection :
      (k j : ℕ) (w : World Server Env)
      → IsWellFormed w.object
      → let s' = (close_client_connection p k w).1.object in
        (lookup j s'.connections ≡ (if j == k then none else lookup j w.object.connections))
        × IsWellFormed s'
  lookup-close_client_connection k j w f =
      rw (close_client_connection_lem k w) (elim (Option-cases (lookup k w.object.connections)) [
        | inl n ↦ rw n (ground arith, f)
        | inr (c, e) ↦ rw e (
          lookup-erase j k w.object.connections f.distinct,
          record {
            distinct = erase-IsDistinct k w.object.connections f.distinct;
            registered = erase-All IsRegistered k w.object.connections f.registered;
          },
        )
      ])

  abbrev pub after_remove :
      ℕ → World Server Env → Option ClientConnection → Outcome Unit × World Server Env
  after_remove k w none = (fault out_of_range, w)
  after_remove k w (some c) =
      if closed c
      then (
        ok tt,
        record w { object = record w.object { connections = erase k w.object.connections } },
      )
      else (fault assertion, w)

  -- Removing a client: an unknown handle throws `std::out_of_range`, one that is not closed fails
  -- the method's assertion, and both change nothing; a closed one is erased, and the destructor's
  -- assertion holds. The platform is never called.
  pub remove_client_connection_lem :
      (k : ℕ) (w : World Server Env)
      → remove_client_connection p k w ≡ after_remove k w (lookup k w.object.connections)
  unfolding remove_client_connection destroy
  remove_client_connection_lem k w = elim (Option-cases (lookup k w.object.connections)) [
    | inl n ↦ rw (n, remove_client_connection)
    | inr (c, e) ↦ ground arith
  ]

  pub remove_client_connection-IsWellFormed :
      (k : ℕ) (w : World Server Env)
      → IsWellFormed w.object
      → IsWellFormed (remove_client_connection p k w).1.object
  remove_client_connection-IsWellFormed k w f =
      let erased : IsWellFormed (record w.object { connections = erase k w.object.connections }) =
        record {
          distinct = erase-IsDistinct k w.object.connections f.distinct;
          registered = erase-All IsRegistered k w.object.connections f.registered;
        } in
      rw (remove_client_connection_lem k w) (elim (Option-cases (lookup k w.object.connections)) [
        | inl n ↦ rw n f
        | inr (c, e) ↦ rw e (elim (Bool-cases (closed c)) [ inl y ↦ rw y erased | inr n ↦ rw n f ])
      ])
