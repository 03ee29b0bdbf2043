-- ===== src/Network.antt =====
-- The network between a client and a server: what the networking library has been given to send, and has
-- not yet handed to the other side.
use chaos_in_multiplayer.Base.{
  ℕ, zero, suc, ◌≡◌, refl, sym, ap, ◌∙◌, List, [], ◌∷◌, ◌++◌, append-nil, append_assoc, take, drop,
}
use chaos_in_multiplayer.Platform.{Message}

-- A network of which `arrive` is one step: what is on its way arrives in the order in which it was sent.
pub record IsNetwork {Env : Type 0} (arrive : Env → Env) (transit inbox : Env → List Message)
    : Type 0 where
  pub leaves : (env : Env) → transit (arrive env) ≡ drop 1 (transit env)
  pub joins : (env : Env) → inbox (arrive env) ≡ inbox env ++ take 1 (transit env)

-- That many steps of the network.
abbrev pub arrivals : {Env : Type 0} → (Env → Env) → ℕ → Env → Env
arrivals arrive zero env = env
arrivals arrive (suc n) env = arrivals arrive n (arrive env)

take_more : (xs : List Message) (n : ℕ) → take 1 xs ++ take n (drop 1 xs) ≡ take (suc n) xs
take_more [] zero = refl
take_more [] (suc n) = refl
take_more (x ∷ xs) n = refl

module _ {Env : Type 0} (arrive : Env → Env) (transit inbox : Env → List Message)
    (network : IsNetwork arrive transit inbox) where
  pub inbox-arrivals :
      (n : ℕ) (env : Env) → inbox (arrivals arrive n env) ≡ inbox env ++ take n (transit env)
  inbox-arrivals zero env = sym (append-nil (inbox env))
  inbox-arrivals (suc n) env =
      inbox-arrivals n (arrive env)
      ∙ ap (λ ms. ms ++ take n (transit (arrive env))) (network.joins env)
      ∙ append_assoc (inbox env) (take 1 (transit env)) (take n (transit (arrive env)))
      ∙ ap (λ ms. inbox env ++ (take 1 (transit env) ++ take n ms)) (network.leaves env)
      ∙ ap (λ ms. inbox env ++ ms) (take_more (transit env) n)
