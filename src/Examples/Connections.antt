-- ===== src/Examples/Connections.antt =====
-- Client connections and their histories.
use chaos_in_multiplayer.Base.{List, ◌≡◌, ◌↔◌, refl, true, [], ◌∷◌, codes, arith}
use chaos_in_multiplayer.Program.{ok, World}
use chaos_in_multiplayer.ClientConnection.{ClientConnection, of_handle, closed, destroy}
use chaos_in_multiplayer.ClientConnection.Lifecycle.{
  Call, accepts, closes, sets_alias, run_history, destroy-run_history,
}
use chaos_in_multiplayer.Examples.Setup.{Mail, platform}

abbrev fresh : World ClientConnection Mail
fresh = record { object = of_handle 5; env = []; trace = [] }

abbrev history : List Call
history = accepts ∷ sets_alias (codes "ann") ∷ closes ∷ []

destroy-run_history_example :
    let c = (run_history (platform []) history fresh).object in
    (c.net_connection ≡ 5) × ((destroy (platform []) c ≡ ok tt) ↔ (closed c ≡ true))
destroy-run_history_example =
    destroy-run_history (platform []) 5 history fresh refl (λ e. omega arith)
