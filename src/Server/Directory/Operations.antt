-- ===== src/Server/Directory/Operations.antt =====
-- Each operation of the registry, on the map and on the directory.
use mathlib.Core.Path.{fun_ext}
use chaos_in_multiplayer.Base.{
  ℕ, ◌≡◌, sym, true, none, some, List, arith, Option-cases, Bool-cases, inl, inr,
}
use chaos_in_multiplayer.Platform.{Platform, Event}
use chaos_in_multiplayer.Program.{Outcome, ok, World, Action}
use chaos_in_multiplayer.Program.Keeps.{Keeps}
use chaos_in_multiplayer.UnorderedMap.{
  UnorderedMap, lookup, try_emplace, replace, erase, IsDistinct,
}
use chaos_in_multiplayer.UnorderedMap.Laws.{
  lookup-try_emplace, lookup-replace, lookup-erase, lookup-All,
}
use chaos_in_multiplayer.Packet.{Packet}
use chaos_in_multiplayer.ClientConnection.{ClientConnection, of_handle, closed}
use chaos_in_multiplayer.ClientConnection.Lifecycle.{IsLive}
use chaos_in_multiplayer.Server.{Server}
use chaos_in_multiplayer.Server.Clients.{
  client_connection, at_client, ensure_client_connection_exists,
}
use chaos_in_multiplayer.Server.Clients.Registry.{
  IsRegistered, IsWellFormed, create_client_connection-eq, emplaced-IsWellFormed,
  close_client_connection_lem, remove_client_connection_lem, at_client-IsWellFormed,
}
use chaos_in_multiplayer.Server.Sending.{send_to}
use chaos_in_multiplayer.Server.Directory.{
  Directory, update, creates, ensures, removes, closes_client, sends, with_entry, by_method,
  add_if_new, specified, operated,
}

abbrev pub entries : UnorderedMap ClientConnection → Directory
entries m k = lookup k m

-- What a user of the registry sees of the world.
abbrev pub view : {Env : Type 0} → World Server Env → World Directory Env
view w = record { object = entries w.object.connections; env = w.env; trace = w.trace }

entries-try_emplace :
    (k : ℕ) (v : ClientConnection) (m : UnorderedMap ClientConnection)
    → lookup k m ≡ none
    → update k (some v) (entries m) ≡ entries (try_emplace k v m)
entries-try_emplace k v m n = fun_ext λ j. ground (arith, lookup-try_emplace j k v m)

entries-try_emplace_known :
    (k : ℕ) (c v : ClientConnection) (m : UnorderedMap ClientConnection)
    → lookup k m ≡ some c
    → entries m ≡ entries (try_emplace k v m)
entries-try_emplace_known k c v m e = fun_ext λ j. ground (arith, lookup-try_emplace j k v m)

entries-replace :
    (k : ℕ) (c v : ClientConnection) (m : UnorderedMap ClientConnection)
    → lookup k m ≡ some c
    → update k (some v) (entries m) ≡ entries (replace k v m)
entries-replace k c v m e = fun_ext λ j. ground (arith, lookup-replace j k v m)

entries-erase :
    (k : ℕ) (m : UnorderedMap ClientConnection)
    → IsDistinct m
    → update k none (entries m) ≡ entries (erase k m)
entries-erase k m d = fun_ext λ j. sym (lookup-erase j k m d)

module _ {Env : Type 0} (p : Platform Env) (w : World Server Env) (f : IsWellFormed w.object) where
  entries_path :
      {A : Type 0} (r : Outcome A) (env : Env) (trace : List Event) {d d' : Directory}
      → d ≡ d'
      → Path
          (Outcome A × World Directory Env)
          (r, record { object = d; env = env; trace = trace })
          (r, record { object = d'; env = env; trace = trace })
  entries_path r env trace e = λ i. (r, record { object = e i; env = env; trace = trace })

  pub removes_path :
      (k : ℕ)
      → specified p (removes k) (view w) ≡ (let (r, w') = operated p (removes k) w in (r, view w'))
  unfolding specified operated
  removes_path k =
      rw (remove_client_connection_lem p k w) (elim (Option-cases (lookup k w.object.connections)) [
        | inl n ↦ rw n
        | inr (c, e) ↦ rw e (elim (Bool-cases (closed c)) [
          | inl y ↦ rw y (entries_path _ _ _ (entries-erase k w.object.connections f.distinct))
          | inr n ↦ rw n
        ])
      ])

  pub closes_path :
      (k : ℕ)
      → specified p (closes_client k) (view w)
        ≡ (let (r, w') = operated p (closes_client k) w in (r, view w'))
  unfolding specified operated
  closes_path k =
      rw (close_client_connection_lem p k w) (elim (Option-cases (lookup k w.object.connections)) [
        | inl n ↦ rw n
        | inr (c, e) ↦
            let named : c.net_connection ≡ k =
              (lookup-All IsRegistered k c w.object.connections e f.registered).named in
            rw (e, named) (entries_path _ _ _ (entries-erase k w.object.connections f.distinct))
      ])

  ensure-eq :
      (k : ℕ)
      → ensure_client_connection_exists k w ≡ (
        ok tt,
        record w {
          object = record w.object {
            connections = try_emplace k (of_handle k) w.object.connections;
          };
        },
      )
  unfolding ensure_client_connection_exists try_emplace
  ensure-eq k = ground arith

  -- A new entry, in the map and in the directory.
  add_path :
      (k : ℕ)
      → add_if_new k (view w) ≡ (
        ok true,
        record (view w) { object = entries (try_emplace k (of_handle k) w.object.connections) },
      )
  add_path k = elim (Option-cases (lookup k w.object.connections)) [
    | inl n ↦ rw n (entries_path _ _ _ (entries-try_emplace k (of_handle k) w.object.connections n))
    | inr (c, e) ↦
        rw e
          (entries_path _ _ _ (entries-try_emplace_known k c (of_handle k) w.object.connections e))
  ]

  pub creates_path :
      (k : ℕ)
      → specified p (creates k) (view w) ≡ (let (r, w') = operated p (creates k) w in (r, view w'))
  unfolding specified operated
  creates_path k = rw (create_client_connection-eq k w) (add_path k)

  pub ensures_path :
      (k : ℕ)
      → specified p (ensures k) (view w) ≡ (let (r, w') = operated p (ensures k) w in (r, view w'))
  unfolding specified operated
  ensures_path k = rw (ensure-eq k) (add_path k)

  pub ensures-IsWellFormed : (k : ℕ) → IsWellFormed (operated p (ensures k) w).1.object
  unfolding operated
  ensures-IsWellFormed k = rw (ensure-eq k) (emplaced-IsWellFormed k w.object f)

  pub sends_path :
      (packet : Packet) (t k : ℕ)
      → specified p (sends packet t k) (view w)
        ≡ (let (r, w') = operated p (sends packet t k) w in (r, view w'))
  unfolding specified operated client_connection send_to
  sends_path packet t k = elim (Option-cases (lookup k w.object.connections)) [
    | inl n ↦ rw n
    | inr (c, e) ↦
        let named : c.net_connection ≡ k =
          (lookup-All IsRegistered k c w.object.connections e f.registered).named in
        rw (e, named)
  ]

  pub sends-IsWellFormed :
      (packet : Packet) (t k : ℕ) → IsWellFormed (operated p (sends packet t k) w).1.object
  unfolding operated client_connection send_to
  sends-IsWellFormed packet t k = elim (Option-cases (lookup k w.object.connections)) [
    | inl n ↦ rw n f
    | inr (c, e) ↦ rw e f
  ]

  pub method_path :
      {A : Type 0} (k : ℕ) (act : Action ClientConnection Env A)
      → with_entry k (by_method k act) (view w) ≡ (let (r, w') = at_client k act w in (r, view w'))
  unfolding at_client
  method_path k act = elim (Option-cases (lookup k w.object.connections)) [
    | inl n ↦ rw (n, at_client)
    | inr (c, e) ↦
        rw (e, at_client) (entries_path _ _ _ (entries-replace k c _ w.object.connections e))
  ]

  pub method-IsWellFormed :
      {A : Type 0} (k : ℕ) (act : Action ClientConnection Env A)
      → Keeps (IsLive k) act
      → IsWellFormed (at_client k act w).1.object
  method-IsWellFormed k act keep = at_client-IsWellFormed k act w keep.at f
