-- ===== src/Receiving/Rounds.antt =====
-- The parts of a round.
use chaos_in_multiplayer.Base.{
  ℕ, ◌≡◌, refl, ap, sym, ◌∙◌, Bool, true, false, List, [], ◌∷◌, ◌++◌, append-nil, append_assoc,
}
use chaos_in_multiplayer.Platform.{Platform, Event, Message, Received}
use chaos_in_multiplayer.Program.{World}
use chaos_in_multiplayer.Receiving.{
  deliveries, releases, deliveries-append, releases-append, given, given-append, given-nothing,
  IsInbox, Delivered,
}

module _ {S Env : Type 0} (inbox : Env → List Message) (Serving : S → Type 0) (told : Bool) where
  pub Delivered-trans :
      (u v w : World S Env) (ms ns rest rest' : List Message)
      → Delivered inbox Serving told u v ms rest
      → Delivered inbox Serving told v w ns rest'
      → Delivered inbox Serving told u w (ms ++ ns) rest'
  Delivered-trans u v w ms ns rest rest' a b = record {
    serving = b.serving;
    delivered =
        b.delivered
        ∙ ap (λ xs. xs ++ given told ns) a.delivered
        ∙ append_assoc (deliveries u.trace) (given told ms) (given told ns)
        ∙ ap (◌++◌ (deliveries u.trace)) (sym (given-append told ms ns));
    released = b.released ∙ ap (λ xs. xs ++ ns) a.released ∙ append_assoc (releases u.trace) ms ns;
    waiting = b.waiting;
  }

  pub Delivered-nothing :
      (w : World S Env) → Serving w.object → Delivered inbox Serving told w w [] (inbox w.env)
  Delivered-nothing w s = record {
    serving = s;
    delivered =
        sym (ap (◌++◌ (deliveries w.trace)) (given-nothing told) ∙ append-nil (deliveries w.trace));
    released = sym (append-nil (releases w.trace));
    waiting = refl;
  }

  -- A call of the platform that receives.
  pub Delivered-receive :
      (e : Event) (env : Env) (w : World S Env) (rest : List Message)
      → deliveries (e ∷ []) ≡ []
      → releases (e ∷ []) ≡ []
      → inbox env ≡ rest
      → Serving w.object
      → Delivered inbox Serving told w (record w { env = env; trace = w.trace ++ e ∷ [] }) [] rest
  Delivered-receive e env w rest d r waits s = record {
    serving = s;
    delivered =
        deliveries-append w.trace (e ∷ [])
        ∙ ap (◌++◌ (deliveries w.trace)) (d ∙ sym (given-nothing told));
    released = releases-append w.trace (e ∷ []) ∙ ap (◌++◌ (releases w.trace)) r;
    waiting = waits;
  }

module _ {S Env : Type 0} (p : Platform Env) (receive : Env → Received × Env)
    (inbox : Env → List Message) (Serving : S → Type 0) (receives : IsInbox p receive inbox) where
  -- The world when the callback is called.
  abbrev pub at_call : ℕ → Message → World S Env → World S Env
  at_call f m w = record w { trace = w.trace ++ Event.call_packet_callback f m.conn m.bytes ∷ [] }

  abbrev pub after_release : Message → World S Env → World S Env
  after_release m w = record w { env = p.release m w.env; trace = w.trace ++ Event.release m ∷ [] }

  -- A message that the callback was called with, and that was given back afterwards.
  pub Delivered-call :
      (f : ℕ) (m : Message) (w v : World S Env) (rest : List Message)
      → inbox w.env ≡ rest
      → Delivered inbox Serving true (at_call f m w) v [] (inbox w.env)
      → Delivered inbox Serving true w (after_release m v) (m ∷ []) rest
  Delivered-call f m w v rest e q =
      let called = Event.call_packet_callback f m.conn m.bytes in
      record {
        serving = q.serving;
        delivered =
            deliveries-append v.trace (Event.release m ∷ [])
            ∙ append-nil (deliveries v.trace)
            ∙ q.delivered
            ∙ append-nil (deliveries (at_call f m w).trace)
            ∙ deliveries-append w.trace (called ∷ []);
        released =
            releases-append v.trace (Event.release m ∷ [])
            ∙ ap (λ xs. xs ++ m ∷ [])
                (q.released
                  ∙ append-nil (releases (at_call f m w).trace)
                  ∙ releases-append w.trace (called ∷ [])
                  ∙ append-nil (releases w.trace));
        waiting = receives.released v.env m ∙ q.waiting ∙ e;
      }

  -- A message that was given back, and nobody was told of.
  pub Delivered-drop :
      (m : Message) (w : World S Env) (rest : List Message)
      → inbox w.env ≡ rest
      → Serving w.object
      → Delivered inbox Serving false w (after_release m w) (m ∷ []) rest
  Delivered-drop m w rest e s = record {
    serving = s;
    delivered = deliveries-append w.trace (Event.release m ∷ []);
    released = releases-append w.trace (Event.release m ∷ []);
    waiting = receives.released w.env m ∙ e;
  }
