-- ===== src/Server/Directory/Refinement.antt =====
-- The server's registry as an implementation of a directory.
use chaos_in_multiplayer.Base.{◌≡◌, refl, Bool, true, List, [], ◌∷◌}
use chaos_in_multiplayer.Platform.{Platform}
use chaos_in_multiplayer.Program.{Outcome, ok, fault, World, modify, continue, pure, ◌>>=◌}
use chaos_in_multiplayer.ClientConnection.{set_alias, accept, close, set_poll_group}
use chaos_in_multiplayer.Server.{Server}
use chaos_in_multiplayer.Server.Clients.Registry.{
  IsWellFormed, create_client_connection-IsWellFormed, remove_client_connection-IsWellFormed,
  lookup-close_client_connection,
}
use chaos_in_multiplayer.Server.Session.Soundness.{
  accept-IsLive, close-IsLive, set_poll_group-IsLive, set_alias-IsLive,
}
use chaos_in_multiplayer.Server.Directory.{
  Directory, Operation, creates, ensures, removes, closes_client, asks, accepts, closes_entry,
  sets_poll_group, sets_alias, sends, specified, operated, run,
}
use chaos_in_multiplayer.Server.Directory.Operations.{
  view, creates_path, ensures_path, removes_path, closes_path, sends_path, method_path,
  ensures-IsWellFormed, sends-IsWellFormed, method-IsWellFormed,
}

module _ {Env : Type 0} (p : Platform Env) where
  -- The same result, the same events and platform, and the directory that the map stands for.
  abbrev Refines : Operation → World Server Env → Type 0
  Refines x w =
      let (r, w') = operated p x w in
      (specified p x (view w) ≡ (r, view w')) × IsWellFormed w'.object

  -- An answer that is made of a result changes nothing else.
  answered : {A B : Type 0} → (A → B) → Outcome A → World Server Env → Outcome B × World Server Env
  answered g r = continue r (λ a. pure (g a))

  answered-IsWellFormed :
      {A B : Type 0} (g : A → B) (r : Outcome A) (w : World Server Env)
      → IsWellFormed w.object
      → IsWellFormed (answered g r w).1.object
  unfolding answered
  answered-IsWellFormed g (ok a) w f = f
  answered-IsWellFormed g (fault x) w f = f

  answered-view :
      {A B : Type 0} (g : A → B) (r : Outcome A) (w : World Server Env)
      → continue r (λ a. pure (g a)) (view w) ≡ (let (r', w') = answered g r w in (r', view w'))
  unfolding answered
  answered-view g (ok a) w = refl
  answered-view g (fault x) w = refl

  operated-Refines : (x : Operation) (w : World Server Env) → IsWellFormed w.object → Refines x w
  unfolding operated answered
  operated-Refines (creates k) w f = (
    creates_path p w f k,
    answered-IsWellFormed (λ _. true) _ _ (create_client_connection-IsWellFormed k w f),
  )
  operated-Refines (ensures k) w f = (ensures_path p w f k, ensures-IsWellFormed p w f k)
  operated-Refines (removes k) w f = (
    removes_path p w f k,
    answered-IsWellFormed (λ _. true) _ _ (remove_client_connection-IsWellFormed p k w f),
  )
  operated-Refines (closes_client k) w f = (
    closes_path p w f k,
    answered-IsWellFormed (λ _. true) _ _ (lookup-close_client_connection p k k w f).1,
  )
  operated-Refines (asks k) w f = (unfold specified in refl, f)
  operated-Refines (accepts k) w f = (
    unfold specified in method_path p w f k (accept p),
    method-IsWellFormed p w f k (accept p) (accept-IsLive p k),
  )
  operated-Refines (closes_entry k) w f = (
    unfold specified in rw (method_path p w f k (close p)) (answered-view (λ _. true) _ _),
    answered-IsWellFormed (λ _. true) _ _
        (method-IsWellFormed p w f k (close p) (close-IsLive p k)),
  )
  operated-Refines (sets_poll_group k g) w f = (
    unfold specified in method_path p w f k (set_poll_group p g),
    method-IsWellFormed p w f k (set_poll_group p g) (set_poll_group-IsLive p k g),
  )
  operated-Refines (sets_alias k t) w f = (
    unfold specified in
        rw (method_path p w f k (modify (set_alias t))) (answered-view (λ _. true) _ _),
    answered-IsWellFormed (λ _. true) _ _
        (method-IsWellFormed p w f k (modify (set_alias t)) (set_alias-IsLive p k t)),
  )
  operated-Refines (sends packet t k) w f =
      (sends_path p w f packet t k, sends-IsWellFormed p w f packet t k)

  -- Two runs, of the directory and of the server, that agree.
  abbrev Agree :
      {A : Type 0} → Outcome A × World Directory Env → Outcome A × World Server Env → Type 0
  Agree u v = (u ≡ (v.0, view v.1)) × IsWellFormed v.1.object

  -- They agree still when an answer is put before the others.
  Agree-answered :
      {A B : Type 0} (g : A → B) (u : Outcome A × World Directory Env)
      (v : Outcome A × World Server Env)
      → Agree u v
      → Agree (continue u.0 (λ a. pure (g a)) u.1) (answered g v.0 v.1)
  Agree-answered g u v (e, f) = (rw e (answered-view g v.0 v.1), answered-IsWellFormed g v.0 v.1 f)

  run-continued :
      (xs : List Operation) (r : Outcome Bool) (w : World Server Env)
      → IsWellFormed w.object
      → Agree (run (specified p) xs (view w)) (run (operated p) xs w)
      → Agree
          (continue r (λ b. run (specified p) xs >>= λ bs. pure (b ∷ bs)) (view w))
          (continue r (λ b. run (operated p) xs >>= λ bs. pure (b ∷ bs)) w)
  unfolding answered
  run-continued xs (ok b) w f h = Agree-answered (λ bs. b ∷ bs) _ _ h
  run-continued xs (fault x) w f h = (refl, f)

  -- Any operations on a well-formed registry, in any order, give the answers that the directory gives,
  -- stop by the same fault if they stop, make the same calls of the platform, and leave a well-formed
  -- registry that stands for the directory that is left: by these a user can not tell the map, nor the order of
  -- its entries, from the directory.
  pub run-refines :
      (xs : List Operation) (w : World Server Env)
      → IsWellFormed w.object
      → let (r, w') = run (operated p) xs w in
        (run (specified p) xs (view w) ≡ (r, view w')) × IsWellFormed w'.object
  unfolding run
  run-refines [] w f = (refl, f)
  run-refines (x ∷ xs) w f =
      let (step, f') = operated-Refines x w f in
      rw step (run-continued xs (operated p x w).0 _ f' (run-refines xs _ f'))
