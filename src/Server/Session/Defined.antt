-- ===== src/Server/Session/Defined.antt =====
-- The other calls of an opened server: each keeps it open and none is undefined.
use chaos_in_multiplayer.Base.{
  ℕ, ◌≤◌, ◌≡◌, refl, sym, ap, subst, ◌∙◌, true, some, arith, is_some, if◌then◌else◌,
}
use chaos_in_multiplayer.Status.{ConnectionStatusChange}
use chaos_in_multiplayer.Platform.{Platform, Event, StatusInfo}
use chaos_in_multiplayer.Program.{undefined, Action, ◌>>=◌, call, stop, for_each}
use chaos_in_multiplayer.Program.Safe.{
  Safe, safe_rules, defined_rules, Safe-call, Safe-bind, Safe-read, Safe-for_each,
}
use chaos_in_multiplayer.Server.{Server}
use chaos_in_multiplayer.Server.Packets.{int_max}
use chaos_in_multiplayer.Server.StatusChanges.{
  report_status_change, on_connection_status_changed, connection_status_changed_callback,
  process_connection_state_changes,
}
use chaos_in_multiplayer.Server.UserInput.{process_user_input}
use chaos_in_multiplayer.Server.UserInput.Commands.{process_user_input-Served}
use chaos_in_multiplayer.Server.Session.Safety.{IsStable}
use chaos_in_multiplayer.Server.Session.Opened.{IsPolling, IsServing}

-- A server with both handles; while it runs, its poll group is alive.
pub record IsOpen {Env : Type 0} (live : ℕ → Env → Type 0) (s : Server) (env : Env) : Type 0 where
  pub listens : is_some s.listening_socket ≡ true
  pub grouped : is_some s.poll_group ≡ true
  pub polls : s.running ≡ true → (g : ℕ) × (s.poll_group ≡ some g) × live g env
  pub bounded : s.max_processed_packets ≤ int_max

-- While an update reports, the static pointer points to the server.
abbrev pub IsReporting : {Env : Type 0} → (ℕ → Env → Type 0) → Server → Env → Type 0
IsReporting live s env = IsOpen live s env × (s.server_instance ≡ true)

-- From `s` to `t` no handle changed.
pub same_handles :
    {Env : Type 0} {live : ℕ → Env → Type 0} (s t : Server) (env env' : Env)
    → t.listening_socket ≡ s.listening_socket
    → t.poll_group ≡ s.poll_group
    → t.running ≡ s.running
    → t.max_processed_packets ≤ int_max
    → ((g : ℕ) → live g env → live g env')
    → IsOpen live s env
    → IsOpen live t env'
same_handles s t env env' l g r b k o = record {
  listens = ap is_some l ∙ o.listens;
  grouped = ap is_some g ∙ o.grouped;
  polls = λ up. let (h, e, a) = o.polls (sym r ∙ up) in (h, g ∙ e, k h a);
  bounded = b;
}

pub Serving-IsOpen :
    {Env : Type 0} {live : ℕ → Env → Type 0} (s : Server) (env : Env)
    → IsServing live s env
    → IsOpen live s env
Serving-IsOpen s env v =
    let (g, e, l) = v.polls in
    record {
      listens = v.listens;
      grouped = rw e refl;
      polls = λ up. (g, e, l);
      bounded = v.bounded;
    }

module _ {Env : Type 0} (p : Platform Env) (live : ℕ → Env → Type 0)
    (polling : IsPolling p live) where
  -- A call of the platform that ends no life.
  moves :
      (s : Server) (env env' : Env)
      → ((g : ℕ) → live g env → live g env')
      → IsOpen live s env
      → IsOpen live s env'
  moves s env env' k o = same_handles s s env env' refl refl refl o.bounded k o

  pub IsOpen-IsStable : IsStable p (IsOpen live)
  IsOpen-IsStable = record {
    registers = λ s env m o. same_handles s _ env env refl refl refl o.bounded (λ g l. l) o;
    accepts = λ h s env. moves s env _ (λ g. polling.accepts g h env);
    groups = λ h k s env. moves s env _ (λ g. polling.groups g h k env);
    closes = λ h r l s env. moves s env _ (λ g. polling.closes g h r l env);
    sends = λ h n t bs s env. moves s env _ (λ g. polling.sends g h n t bs env);
  }

  pub process_user_input-Safe : Safe (IsOpen live) undefined process_user_input
  process_user_input-Safe = record {
    at = λ w o.
        let (r, found) = process_user_input-Served w in
        let others = found.1.others in
        let s = (process_user_input w).1.object in
        (
          λ e. ground (arith, r, e),
          subst (λ env. IsOpen live s env) (sym found.1.env)
              (same_handles w.object s w.env w.env (ap (λ (x : Server). x.listening_socket) others)
                (ap (λ (x : Server). x.poll_group) others) (ap (λ (x : Server). x.running) others)
                (subst (λ n. n ≤ int_max)
                  (sym (ap (λ (x : Server). x.max_processed_packets) others)) o.bounded)
                (λ g l. l) o),
        );
  }

  module _ (status_code : ℕ → ConnectionStatusChange → Action Server Env Unit)
      (changes_safe : (f : ℕ) (c : ConnectionStatusChange)
        → Safe (IsReporting live) undefined (status_code f c)) where
    report-Safe :
        (f : ℕ) (i : StatusInfo)
        → Safe (IsReporting live) undefined (report_status_change p status_code f i)
    unfolding report_status_change
    report-Safe f i = search (safe_rules, defined_rules, changes_safe) depth 12

    on_changed-Safe :
        (i : StatusInfo)
        → Safe (IsReporting live) undefined (on_connection_status_changed p status_code i)
    unfolding on_connection_status_changed
    on_changed-Safe i = search (safe_rules, defined_rules, report-Safe) depth 12

    changed_callback-Safe :
        (i : StatusInfo)
        → Safe (IsReporting live) undefined (connection_status_changed_callback p status_code i)
    unfolding connection_status_changed_callback
    changed_callback-Safe i =
        Safe-read (λ set. set ≡ true) (λ s. s.server_instance)
          (λ set. if set then on_connection_status_changed p status_code i else stop undefined)
          (λ s env r. r.1) (λ set e. rw e (on_changed-Safe i))

    reports-Safe : Safe (IsReporting live) undefined (do
      changes ← call Event.run_callbacks p.run_callbacks
      for_each changes (connection_status_changed_callback p status_code))
    reports-Safe =
        Safe-bind (call Event.run_callbacks p.run_callbacks)
          (λ changes. for_each changes (connection_status_changed_callback p status_code))
          (Safe-call Event.run_callbacks _
            (λ s env r. (moves s env _ (λ g. polling.runs g env) r.0, r.1)))
          (λ changes. Safe-for_each changes _ changed_callback-Safe)

    pub process_changes-Safe :
        Safe (IsOpen live) undefined (process_connection_state_changes p status_code)
    unfolding process_connection_state_changes
    process_changes-Safe = record {
      at = λ w o.
          let s = record w.object { server_instance = true } in
          let open' = same_handles w.object s w.env w.env refl refl refl o.bounded (λ g l. l) o in
          let (n, kept) = reports-Safe.at (record w { object = s }) (open', refl) in (n, kept.0);
    }
