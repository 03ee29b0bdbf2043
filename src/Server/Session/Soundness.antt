-- ===== src/Server/Session/Soundness.antt =====
-- The invariant of a server over every history of calls.
use chaos_in_multiplayer.Base.{
  ℕ, ◌≡◌, refl, All, sym, subst, ◌∙◌, ap, true, Text, arith, Option-cases, Bool-cases, inl, inr,
}
use chaos_in_multiplayer.Platform.{Platform}
use chaos_in_multiplayer.Program.{World, Action, modify}
use chaos_in_multiplayer.Program.Keeps.{Keeps, Keeps-modify, keeps_rules}
use chaos_in_multiplayer.UnorderedMap.{lookup, try_emplace, IsDistinct}
use chaos_in_multiplayer.ClientConnection.{
  ClientConnection, get_poll_group, of_handle, closed, set_alias, accept, set_poll_group, close,
}
use chaos_in_multiplayer.ClientConnection.Lifecycle.{IsLive}
use chaos_in_multiplayer.Server.{Server}
use chaos_in_multiplayer.Server.Clients.{
  at_client, create_client_connection, remove_client_connection, close_client_connection,
  ensure_client_connection_exists,
}
use chaos_in_multiplayer.Server.Clients.Registry.{
  IsRegistered, IsWellFormed, create_client_connection-eq, create_client_connection-IsWellFormed,
  at_client-IsWellFormed, close_client_connection_lem, remove_client_connection_lem,
  emplaced-IsWellFormed, remove_client_connection-IsWellFormed, lookup-close_client_connection,
}
use chaos_in_multiplayer.Server.Opening.{open_connection, open_handles, listen}
use chaos_in_multiplayer.Server.Opening.Handles.{open_connection-running}
use chaos_in_multiplayer.Server.Closing.Teardown.{HasSockets}

-- The registry is well formed, a running server has its sockets, and the polling thread is joinable.
pub record IsSound (s : Server) : Type 0 where
  pub registry : IsWellFormed s
  pub sockets : HasSockets s
  pub thread : s.input_controller.joinable ≡ true

pub same_registry : (s t : Server) → t.connections ≡ s.connections → IsWellFormed s → IsWellFormed t
same_registry s t c r = record {
  distinct = subst IsDistinct (sym c) r.distinct;
  registered = subst (All IsRegistered) (sym c) r.registered;
}

-- Changes of other members keep it.
pub same_members :
    (s t : Server)
    → t.connections ≡ s.connections
    → t.input_controller.joinable ≡ s.input_controller.joinable
    → HasSockets t
    → IsSound s
    → IsSound t
same_members s t c j h f = record {
  registry = same_registry s t c f.registry;
  sockets = h;
  thread = j ∙ f.thread;
}

module _ {Env : Type 0} (p : Platform Env) where
  open_connection-HasSockets :
      (w : World Server Env) → (HasSockets w.object) → HasSockets (open_connection p w).1.object
  unfolding open_connection listen open_handles
  open_connection-HasSockets w h up = ground arith

  open_connection-joinable :
      (w : World Server Env)
      → (open_connection p w).1.object.input_controller.joinable
        ≡ w.object.input_controller.joinable
  unfolding open_connection listen open_handles
  open_connection-joinable w = ground arith

  pub open_connection-IsSound : Keeps IsSound (open_connection p)
  open_connection-IsSound = record {
    at = λ w f.
        let (_, _, c, _) = open_connection-running p w in
        same_members w.object _ c (open_connection-joinable w)
          (open_connection-HasSockets w f.sockets) f;
  }

-- Nothing but the registry differs.
abbrev pub SameButRegistry : Server → Server → Type 0
SameButRegistry s t = t ≡ record s { connections = t.connections }

same_but_registry : (s t : Server) → SameButRegistry s t → IsWellFormed t → IsSound s → IsSound t
same_but_registry s t e r f = record {
  registry = r;
  sockets = subst HasSockets (sym e) f.sockets;
  thread = ap (λ u. u.input_controller.joinable) e ∙ f.thread;
}

emplaced-IsSound :
    (k : ℕ) (s : Server)
    → IsSound s
    → IsSound (record s { connections = try_emplace k (of_handle k) s.connections })
emplaced-IsSound k s f = same_but_registry s _ refl (emplaced-IsWellFormed k s f.registry) f

module _ {Env : Type 0} where
  pub create-same :
      (k : ℕ) (w : World Server Env)
      → SameButRegistry w.object (create_client_connection k w).1.object
  create-same k w = rw (create_client_connection-eq k w)

  pub create-IsSound : (k : ℕ) → Keeps {Env = Env} IsSound (create_client_connection k)
  create-IsSound k = record {
    at = λ w f.
        same_but_registry w.object _ (create-same k w)
          (create_client_connection-IsWellFormed k w f.registry) f;
  }

  pub ensure-IsSound : (k : ℕ) → Keeps {Env = Env} IsSound (ensure_client_connection_exists k)
  unfolding ensure_client_connection_exists
  ensure-IsSound k = search (keeps_rules, Keeps-modify, emplaced-IsSound k)

  pub at_client-same :
      {A : Type 0} (k : ℕ) (act : Action ClientConnection Env A) (w : World Server Env)
      → SameButRegistry w.object (at_client k act w).1.object
  unfolding at_client
  at_client-same k act w = elim (Option-cases (lookup k w.object.connections)) [
    | inl n ↦ rw (n, at_client)
    | inr (c, e) ↦ rw (e, at_client)
  ]

  pub at_client-IsSound :
      {A : Type 0} (k : ℕ) (act : Action ClientConnection Env A)
      → Keeps (IsLive k) act
      → Keeps IsSound (at_client k act)
  at_client-IsSound k act keep = record {
    at = λ w f.
        same_but_registry w.object _ (at_client-same k act w)
          (at_client-IsWellFormed k act w keep.at f.registry) f;
  }

module _ {Env : Type 0} (p : Platform Env) where
  pub close_client-same :
      (k : ℕ) (w : World Server Env)
      → SameButRegistry w.object (close_client_connection p k w).1.object
  close_client-same k w =
      rw (close_client_connection_lem p k w)
        (elim (Option-cases (lookup k w.object.connections)) [ inl n ↦ rw n | inr (c, e) ↦ rw e ])

  pub close_client-IsSound : (k : ℕ) → Keeps IsSound (close_client_connection p k)
  close_client-IsSound k = record {
    at = λ w f.
        same_but_registry w.object _ (close_client-same k w)
          (lookup-close_client_connection p k k w f.registry).1 f;
  }

  remove-same :
      (k : ℕ) (w : World Server Env)
      → SameButRegistry w.object (remove_client_connection p k w).1.object
  remove-same k w =
      rw (remove_client_connection_lem p k w) (elim (Option-cases (lookup k w.object.connections)) [
        | inl n ↦ rw n
        | inr (c, e) ↦ rw e (elim (Bool-cases (closed c)) [ inl y ↦ rw y | inr n ↦ rw n ])
      ])

  pub remove-IsSound : (k : ℕ) → Keeps IsSound (remove_client_connection p k)
  remove-IsSound k = record {
    at = λ w f.
        same_but_registry w.object _ (remove-same k w)
          (remove_client_connection-IsWellFormed p k w f.registry) f;
  }

  pub accept-IsLive : (k : ℕ) → Keeps (IsLive k) (accept p)
  unfolding accept
  accept-IsLive k = record { at = λ w l. ground arith }

  pub get_poll_group-IsLive : (k : ℕ) → Keeps {Env = Env} (IsLive k) get_poll_group
  unfolding get_poll_group
  get_poll_group-IsLive k = record { at = λ w l. ground arith }

  pub close-IsLive : (k : ℕ) → Keeps (IsLive k) (close p)
  unfolding close
  close-IsLive k = record { at = λ w l. ground arith }

  pub set_poll_group-IsLive : (k g : ℕ) → Keeps (IsLive k) (set_poll_group p g)
  unfolding set_poll_group
  set_poll_group-IsLive k g = record { at = λ w l. ground arith }

  pub set_alias-IsLive : (k : ℕ) (t : Text) → Keeps {Env = Env} (IsLive k) (modify (set_alias t))
  set_alias-IsLive k t = record { at = λ w l. ground arith }
