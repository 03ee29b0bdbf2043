-- ===== src/ExampleServer/Printing.antt =====
-- What the example server's packet callback prints.
use chaos_in_multiplayer.Base.{
  ℕ, zero, suc, ◌≡◌, ◌⊎◌, inl, inr, refl, Bool, true, false, none, some, List, [], ◌∷◌, ◌++◌, Text,
  codes, arith, Option-cases,
}
use chaos_in_multiplayer.Platform.{Event, text}
use chaos_in_multiplayer.Program.{undefined, ok, fault, World}
use chaos_in_multiplayer.Packet.{Packet, bytes}
use chaos_in_multiplayer.Server.{Server}
use chaos_in_multiplayer.ExampleServer.Callbacks.{c_string, packet_callback}

abbrev pub has_nul : List ℕ → Bool
has_nul [] = false
has_nul (zero ∷ bs) = true
has_nul (suc b ∷ bs) = has_nul bs

c_string-none : (bs : List ℕ) → c_string bs ≡ none → has_nul bs ≡ false
unfolding c_string
c_string-none [] e = refl
c_string-none (zero ∷ bs) e = cc
c_string-none (suc b ∷ bs) e = ground (arith, c_string-none bs)

-- Without a NUL no text ends.
pub c_string-endless : (bs : List ℕ) → has_nul bs ≡ false → c_string bs ≡ none
unfolding c_string
c_string-endless [] e = refl
c_string-endless (zero ∷ bs) e = cc
c_string-endless (suc b ∷ bs) e = rw (c_string-endless bs e)

c_string-some :
    (bs : List ℕ) (t : Text)
    → c_string bs ≡ some t
    → (rest : List ℕ) × (bs ≡ t ++ 0 ∷ rest) × (has_nul t ≡ false)
unfolding c_string
c_string-some [] t e = absurd (cc)
c_string-some (zero ∷ bs) t e = (bs, ground arith, ground arith)
c_string-some (suc b ∷ bs) t e = elim (Option-cases (c_string bs)) [
  | inl n ↦ absurd (ground arith)
  | inr (u, h) ↦
      let (rest, split, clean) = c_string-some bs u h in (rest, ground arith, ground arith)
]

module _ {Env : Type 0} where
  -- For every packet: with no NUL among its bytes the callback's behaviour is undefined, and otherwise
  -- it returns and logs the bytes before the first NUL.
  pub packet_callback_lem :
      (k : ℕ) (q : Packet) (w : World Server Env)
      → ((has_nul (bytes q) ≡ false) × (packet_callback k q w ≡ (fault undefined, w)))
        ⊎ ((t : Text) × (rest : List ℕ) × (bytes q ≡ t ++ 0 ∷ rest)
            × (has_nul t ≡ false)
            × (packet_callback k q w ≡ (
              ok tt,
              record w { trace = w.trace ++ Event.log (text (codes "Received: " ++ t)) ∷ [] },
            )))
  unfolding packet_callback
  packet_callback_lem k q w = elim (Option-cases (c_string (bytes q))) [
    | inl n ↦ inl (c_string-none (bytes q) n, rw n)
    | inr (t, e) ↦
        let (rest, split, clean) = c_string-some (bytes q) t e in inr (t, rest, split, clean, rw e)
  ]
