-- ===== src/Server/Instances.antt =====
-- Server.cpp: `processConnectionStateChanges` in a process with two servers, which share the static
-- pointer `server_instance`. The flag of each server is whether it points there.
use chaos_in_multiplayer.Base.{ℕ, ◌≡◌, refl, true, false, some, List, [], ◌∷◌, ◌++◌, if◌then◌else◌}
use chaos_in_multiplayer.Status.{ConnectionStatusChange}
use chaos_in_multiplayer.Platform.{Platform, Event, StatusInfo}
use chaos_in_multiplayer.Program.{
  undefined, Outcome, ok, fault, World, Action, ◌>>=◌, ◌>>◌, continue, stop, gets, call, modify,
  for_each, on_part,
}
use chaos_in_multiplayer.Program.Keeps.{Keeps, keeps_rules}
use chaos_in_multiplayer.Reporting.{reports, AllReport, IsReporter}
use chaos_in_multiplayer.Server.{Server}
use chaos_in_multiplayer.Server.StatusChanges.{
  connection_status_mappings, report_status_change, on_connection_status_changed,
  connection_status_changed_callback, process_connection_state_changes,
}
use chaos_in_multiplayer.Server.StatusChanges.Mapping.{
  IsReporting, process_connection_state_changes-reports,
}

-- The server whose update runs, and the other one.
pub record Servers : Type 0 where
  pub asking : Server
  pub other : Server

abbrev pub on_asking : {Env : Type 0} → Action Server Env Unit → Action Servers Env Unit
on_asking = on_part (λ s. s.asking) (λ v s. record s { asking = v })

abbrev pub on_other : {Env : Type 0} → Action Server Env Unit → Action Servers Env Unit
on_other = on_part (λ s. s.other) (λ v s. record s { other = v })

-- `server_instance = this;`
abbrev pub point_to_asking : Servers → Servers
point_to_asking s = record {
  asking = record s.asking { server_instance = true };
  other = record s.other { server_instance = false };
}

module _ {Env : Type 0} (p : Platform Env)
    (asking_code other_code : ℕ → ConnectionStatusChange → Action Server Env Unit) where
  -- The static function that the platform is given: it follows the pointer.
  unfoldable pub steam_net_connection_status_changed_callback : StatusInfo → Action Servers Env Unit
  steam_net_connection_status_changed_callback info = do
    to_asking ← gets (λ s. s.asking.server_instance)
    to_other ← gets (λ s. s.other.server_instance)
    if to_asking
        then on_asking (on_connection_status_changed p asking_code info)
        else if to_other
        then on_other (on_connection_status_changed p other_code info)
        else stop undefined

  -- For the asking server.
  unfoldable pub process_changes_of_process : Action Servers Env Unit
  process_changes_of_process = do
    modify point_to_asking
    changes ← call Event.run_callbacks p.run_callbacks
    for_each changes steam_net_connection_status_changed_callback

  -- The pointer points to the asking server.
  abbrev Pointed : Servers → Type 0
  Pointed s = (s.asking.server_instance ≡ true) × (s.other.server_instance ≡ false)

  callback-on_asking :
      (info : StatusInfo) (w : World Servers Env)
      → Pointed w.object
      → steam_net_connection_status_changed_callback info w
        ≡ on_asking (connection_status_changed_callback p asking_code info) w
  unfolding steam_net_connection_status_changed_callback connection_status_changed_callback
  callback-on_asking info w (a, o) = rw a refl

  -- The callback of the asking server leaves the pointer alone.
  module _
      (keeps : (info : StatusInfo)
        → Keeps
            (λ s. s.server_instance ≡ true)
            (connection_status_changed_callback p asking_code info)) where
    abbrev step : StatusInfo → Action Server Env Unit
    step = connection_status_changed_callback p asking_code

    rest-on_asking :
        (r : Outcome Unit) (is' : List StatusInfo) (w : World Servers Env)
        → ((v : World Servers Env)
            → Pointed v.object
            → for_each is' steam_net_connection_status_changed_callback v
              ≡ on_asking (for_each is' step) v)
        → Pointed w.object
        → continue r (λ _. for_each is' steam_net_connection_status_changed_callback) w
          ≡ on_asking (continue r (λ _. for_each is' step)) w
    rest-on_asking (ok u) is' w f h = f w h
    rest-on_asking (fault x) is' w f h = refl

    for_each-on_asking :
        (is' : List StatusInfo) (w : World Servers Env)
        → Pointed w.object
        → for_each is' steam_net_connection_status_changed_callback w
          ≡ on_asking (for_each is' step) w
    unfolding for_each
    for_each-on_asking [] w h = refl
    for_each-on_asking (i ∷ is') w h =
        let x = on_asking (step i) w in
        let kept =
          (keeps i).at (record { object = w.object.asking; env = w.env; trace = w.trace }) h.0 in
        rw (callback-on_asking i w h)
          (rest-on_asking x.0 is' x.1 (for_each-on_asking is') (kept, h.1))

    -- While one server updates, two servers are as one: the call does to the asking server what it does
    -- to the only one, and to the other nothing but that the pointer leaves it.
    process_changes_of_process-on_asking :
        (w : World Servers Env)
        → process_changes_of_process w
          ≡ on_asking (process_connection_state_changes p asking_code) (record w {
            object = record w.object { other = record w.object.other { server_instance = false } };
          })
    unfolding process_changes_of_process process_connection_state_changes
    process_changes_of_process-on_asking w =
        let (changes, env) = p.run_callbacks w.env in
        for_each-on_asking changes
          (record {
            object = point_to_asking w.object;
            env = env;
            trace = w.trace ++ Event.run_callbacks ∷ [];
          })
          (refl, refl)

  module _
      (code_keeps : (f : ℕ) (c : ConnectionStatusChange)
        → Keeps (λ s. s.server_instance ≡ true) (asking_code f c)) where
    report-Keeps :
        (f : ℕ) (i : StatusInfo)
        → Keeps (λ s. s.server_instance ≡ true) (report_status_change p asking_code f i)
    unfolding report_status_change
    report-Keeps f i = search (keeps_rules, code_keeps) depth 12

    callback-Keeps :
        (i : StatusInfo)
        → Keeps (λ s. s.server_instance ≡ true) (connection_status_changed_callback p asking_code i)
    unfolding connection_status_changed_callback on_connection_status_changed
    callback-Keeps i = search (keeps_rules, report-Keeps) depth 12

    -- With two servers in a process, the one whose update runs takes every queued change, of the other's
    -- connections too: each is reported to its callback, in the order of the queue, and the other
    -- server is left as it was but for the pointer. This supposes that the callback is set, returns,
    -- stays set and leaves the pointer alone, and that the table has the states.
    pub process_changes_of_process-reports :
        (f : ℕ) (cs : List ConnectionStatusChange) (w : World Servers Env)
        → IsReporter (IsReporting f) (asking_code f)
        → w.object.asking.connection_status_change_callback ≡ some f
        → AllReport (connection_status_mappings p) (p.run_callbacks w.env).0 cs
        → let (r, w') = process_changes_of_process w in
          (r ≡ ok tt)
          × (reports w'.trace ≡ reports w.trace ++ cs)
          × (w'.object.other ≡ record w.object.other { server_instance = false })
    process_changes_of_process-reports f cs w reporter set all =
        let v : World Server Env = record {
          object = w.object.asking;
          env = w.env;
          trace = w.trace;
        } in
        let (r, _, told) =
          process_connection_state_changes-reports p asking_code f reporter cs v set all in
        rw (process_changes_of_process-on_asking callback-Keeps w) (r, told, refl)
