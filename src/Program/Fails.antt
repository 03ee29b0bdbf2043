-- ===== src/Program/Fails.antt =====
-- Actions that never return: one rule for each place in which such an action can stand.
use chaos_in_multiplayer.Base.{◌≢◌, refl, Bool, true, false, if◌then◌else◌}
use chaos_in_multiplayer.Program.{
  Fault, Outcome, ok, fault, World, Action, ◌>>=◌, stop, continue, skip, on_part,
}
use chaos_in_multiplayer.Program.Keeps.{Keeps}

-- From an object with the property `P`, `m` does not return: it stops by a fault.
pub record Fails {S Env A : Type 0} (P : S → Type 0) (m : Action S Env A) : Type 0 where
  pub at : (w : World S Env) → P w.object → (a : A) → (m w).0 ≢ ok a

module _ {S Env A : Type 0} {P : S → Type 0} where
  pub Fails-stop : (x : Fault) → Fails {Env = Env} {A = A} P (stop x)
  Fails-stop x = record { at = λ w f a e. cc }

module _ {S Env A B : Type 0} where
  continue-first :
      (r : Outcome A) (f : A → Action S Env B) (w : World S Env)
      → ((a : A) → r ≢ ok a)
      → (b : B) → (continue r f w).0 ≢ ok b
  continue-first (ok a) f w n b e = n a refl
  continue-first (fault x) f w n b e = cc

module _ {S Env A B : Type 0} {P : S → Type 0} where
  -- What stands behind is not reached.
  pub Fails-first : (m : Action S Env A) (f : A → Action S Env B) → Fails P m → Fails P (m >>= f)
  Fails-first m f n = record { at = λ w h. let (r, w') = m w in continue-first r f w' (n.at w h) }

  continue-after :
      (r : Outcome A) (f : A → Action S Env B) (w : World S Env)
      → P w.object
      → ((a : A) → Fails P (f a))
      → (b : B) → (continue r f w).0 ≢ ok b
  continue-after (ok a) f w h n b e = (n a).at w h b e
  continue-after (fault x) f w h n b e = cc

  -- What stands before keeps `P`, or does not return.
  pub Fails-after :
      (m : Action S Env A) (f : A → Action S Env B)
      → Keeps P m
      → ((a : A) → Fails P (f a))
      → Fails P (m >>= f)
  Fails-after m f k n = record {
    at = λ w h. let (r, w') = m w in continue-after r f w' (k.at w h) n;
  }

module _ {S Env : Type 0} {P : S → Type 0} where
  continue-unless :
      (r : Outcome Bool) (m : Action S Env Unit) (w : World S Env)
      → P w.object
      → r ≢ ok true
      → Fails P m
      → (u : Unit) → (continue r (λ b. if b then skip else m) w).0 ≢ ok u
  continue-unless (ok true) m w h n k u e = n refl
  continue-unless (ok false) m w h n k u e = k.at w h u e
  continue-unless (fault x) m w h n k u e = cc

  -- A loop whose test never lets it end.
  pub Fails-unless :
      (t : Action S Env Bool) (m : Action S Env Unit)
      → Keeps P t
      → ((w : World S Env) → P w.object → (t w).0 ≢ ok true)
      → Fails P m
      → Fails P (t >>= λ b. if b then skip else m)
  Fails-unless t m k n f = record {
    at = λ w h. let (r, w') = t w in continue-unless r m w' (k.at w h) (n w h) f;
  }

module _ {S T Env A : Type 0} {P : S → Type 0} {Q : T → Type 0} where
  -- On the part of an object that has the property.
  pub Fails-on_part :
      (get : T → S) (set : S → T → T) (m : Action S Env A)
      → ((t : T) → Q t → P (get t))
      → Fails P m
      → Fails Q (on_part get set m)
  Fails-on_part get set m q n = record {
    at =
        λ w h. n.at (record { object = get w.object; env = w.env; trace = w.trace }) (q w.object h);
  }
