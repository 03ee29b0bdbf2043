-- ===== src/ExampleClient/Messages.antt =====
-- What the example client sends.
use chaos_in_multiplayer.Base.{
  ℕ, suc, ◌≤◌, ◌<◌, ◌≡◌, ◌≢◌, ◌⊎◌, inl, inr, refl, sym, ap, ◌∙◌, some, List, [], ◌∷◌, ◌++◌, map,
  append-nil, append_assoc, subst, arith, ◌==◌, Bool-cases, length, All,
}
use chaos_in_multiplayer.Platform.{Platform, Event}
use chaos_in_multiplayer.Program.{assertion, Outcome, ok, fault, World, Action, continue, for_each}
use chaos_in_multiplayer.Packet.{Packet, max_size, size}
use chaos_in_multiplayer.Packet.Copy.{packet_of-eq}
use chaos_in_multiplayer.Server.Opening.Handles.{length-decimal_from}
use chaos_in_multiplayer.Server.Sending.{to_uint32}
use chaos_in_multiplayer.Client.{Client}
use chaos_in_multiplayer.Client.Sending.{
  send_packet, send_reliable_packet_to_server, send_unreliable_packet_to_server,
}
use chaos_in_multiplayer.Client.Sending.Connected.{send_packet_lem}
use chaos_in_multiplayer.ExampleClient.{
  message, indices_from, num_of_messages, send_reliable, send_unreliable, send_messages,
}

-- One call that sends: the handle, the bytes pointed to, how many of them, and the flags.
abbrev pub Sent : Type 0
Sent = ℕ × List ℕ × ℕ × ℕ

abbrev pub sent : List Event → List Sent
sent [] = []
sent (Event.send_message h bs n t ∷ es) = (h, bs, n, t) ∷ sent es
sent (e ∷ es) = sent es

pub sent-append : (xs ys : List Event) → sent (xs ++ ys) ≡ sent xs ++ sent ys
sent-append [] ys = refl
sent-append (Event.send_message h bs n t ∷ xs) ys = ap (◌∷◌ (h, bs, n, t)) (sent-append xs ys)
sent-append (e ∷ xs) ys = sent-append xs ys

pub message-fits : (i : ℕ) → i < 100 → length (message i) ≤ max_size
unfolding message max_size
message-fits i h = omega (arith, length-decimal_from (suc i) i [])

-- The size of a message is given to the platform whole.
message-whole : (i : ℕ) → i < 100 → to_uint32 (length (message i)) ≡ length (message i)
unfolding message to_uint32
message-whole i h = omega (arith, length-decimal_from (suc i) i [])

abbrev pub sent_as : ℕ → ℕ → ℕ → Sent
sent_as h t i = (h, message i, length (message i), t)

module _ {Env : Type 0} (p : Platform Env) (h : ℕ) where
  -- The platform's state when all of these were sent through the handle, each after a question for the
  -- state of the connection.
  abbrev pub replay : List Sent → Env → Env
  replay [] env = env
  replay ((k, bs, n, t) ∷ xs) env = replay xs (p.send_message h bs n t (p.connection_state h env).1)

  replay-append :
      (xs ys : List Sent) (env : Env) → replay (xs ++ ys) env ≡ replay ys (replay xs env)
  replay-append [] ys env = refl
  replay-append ((k, bs, n, t) ∷ xs) ys env = replay-append xs ys _

  -- A call that was to send `xs` through the handle: it returned and has sent them all; or it has sent
  -- those before one of them, was then told a state other than the connected one, and the assertion
  -- stopped it. Either way the platform's state is what these calls make it.
  abbrev pub SentPrefix : List Sent → World Client Env → Outcome Unit × World Client Env → Type 0
  SentPrefix xs w v =
      (v.1.object ≡ w.object)
      × (((v.0 ≡ ok tt) × (sent v.1.trace ≡ sent w.trace ++ xs) × (v.1.env ≡ replay xs w.env))
          ⊎ ((v.0 ≡ fault assertion)
              × ((ys : List Sent) × (x : Sent) × (zs : List Sent) × (xs ≡ ys ++ x ∷ zs)
                  × (sent v.1.trace ≡ sent w.trace ++ ys)
                  × ((p.connection_state h (replay ys w.env)).0 ≢ p.state_connected)
                  × (v.1.env ≡ (p.connection_state h (replay ys w.env)).1))))

  send_packet-SentPrefix :
      (packet : Packet) (t : ℕ) (w : World Client Env)
      → w.object.server_connection ≡ some h
      → SentPrefix
          ((h, packet.packet, to_uint32 (size packet), t) ∷ [])
          w
          (send_packet p packet t w)
  send_packet-SentPrefix packet t w e =
      let asked = w.trace ++ Event.connection_state h ∷ [] in
      let quiet : sent asked ≡ sent w.trace =
        sent-append w.trace (Event.connection_state h ∷ []) ∙ append-nil (sent w.trace) in
      let n = to_uint32 (size packet) in
      rw (send_packet_lem p h t packet w e)
        (elim (Bool-cases ((p.connection_state h w.env).0 == p.state_connected)) [
          | inl up ↦ rw up (
            refl,
            inl (
              refl,
              sent-append asked (Event.send_message h packet.packet n t ∷ [])
                  ∙ ap (λ s. s ++ (h, packet.packet, n, t) ∷ []) quiet,
              refl,
            ),
          )
          | inr down ↦ rw down (
            refl,
            inr (
              refl,
              (
                [],
                (h, packet.packet, n, t),
                [],
                refl,
                quiet ∙ sym (append-nil (sent w.trace)),
                λ s. ground arith,
                refl,
              ),
            ),
          )
        ])

  SentPrefix-continue :
      (xs ys : List Sent) (w : World Client Env) (v : Outcome Unit × World Client Env)
      (k : Action Client Env Unit)
      → SentPrefix xs w v
      → ((w' : World Client Env) → w'.object ≡ w.object → SentPrefix ys w' (k w'))
      → SentPrefix (xs ++ ys) w (continue v.0 (λ _. k) v.1)
  SentPrefix-continue xs ys w (fault x, w') k (o, inl (r, s, q)) f = cc
  SentPrefix-continue xs ys w (fault x, w') k (o, inr (r, (a, b, c, e, s, d, q))) f =
      (o, inr (r, (a, b, c ++ ys, ap (λ l. l ++ ys) e ∙ append_assoc a (b ∷ c) ys, s, d, q)))
  SentPrefix-continue xs ys w (ok u, w') k (o, inr (r, e)) f = cc
  SentPrefix-continue xs ys w (ok u, w') k (o, inl (r, s, m)) f =
      let (q, rest) = f w' o in
      (
        q ∙ o,
        elim rest [
          | inl y ↦
              let (r', s', m') = y in
              inl (
                r',
                s' ∙ ap (λ l. l ++ ys) s ∙ append_assoc (sent w.trace) xs ys,
                m' ∙ ap (replay ys) m ∙ sym (replay-append xs ys w.env),
              )
          | inr n ↦
              let (r', (a, b, c, e, s', d, m')) = n in
              let before : replay a w'.env ≡ replay (xs ++ a) w.env =
                ap (replay a) m ∙ sym (replay-append xs a w.env) in
              inr (
                r',
                (
                  xs ++ a,
                  b,
                  c,
                  ap (λ l. xs ++ l) e ∙ sym (append_assoc xs a (b ∷ c)),
                  s' ∙ ap (λ l. l ++ a) s ∙ append_assoc (sent w.trace) xs a,
                  subst (λ env. (p.connection_state h env).0 ≢ p.state_connected) before d,
                  m' ∙ ap (λ env. (p.connection_state h env).1) before,
                ),
              )
        ],
      )

  for_each-SentPrefix :
      (f : ℕ → Action Client Env Unit) (t : ℕ) (is : List ℕ) (w : World Client Env)
      → ((i : ℕ)
          → i < 100
          → (v : World Client Env) → v.object.server_connection ≡ some h
          → SentPrefix (sent_as h t i ∷ []) v (f i v))
      → All (λ i. i < 100) is
      → w.object.server_connection ≡ some h
      → SentPrefix (map (sent_as h t) is) w (for_each is f w)
  unfolding for_each
  for_each-SentPrefix f t [] w g a e = (refl, inl (refl, sym (append-nil _), refl))
  for_each-SentPrefix f t (i ∷ is) w g (b, a) e =
      SentPrefix-continue (sent_as h t i ∷ []) (map (sent_as h t) is) w (f i w) (for_each is f)
        (g i b w e)
        (λ w' o. for_each-SentPrefix f t is w' g a (ap (λ c. c.server_connection) o ∙ e))

  send_reliable-SentPrefix :
      (i : ℕ) (w : World Client Env)
      → i < 100
      → w.object.server_connection ≡ some h
      → SentPrefix (sent_as h p.send_reliable i ∷ []) w (send_reliable p i w)
  unfolding send_reliable send_reliable_packet_to_server
  send_reliable-SentPrefix i w b e = rw (packet_of-eq (message i) w (message-fits i b)) (
      subst
        (λ n.
          SentPrefix ((h, message i, n, p.send_reliable) ∷ []) w
            (send_packet p (record { packet = message i }) p.send_reliable w))
        (message-whole i b)
        (send_packet-SentPrefix (record { packet = message i }) p.send_reliable w e))

  send_unreliable-SentPrefix :
      (i : ℕ) (w : World Client Env)
      → i < 100
      → w.object.server_connection ≡ some h
      → SentPrefix (sent_as h p.send_unreliable i ∷ []) w (send_unreliable p i w)
  unfolding send_unreliable send_unreliable_packet_to_server
  send_unreliable-SentPrefix i w b e = rw (packet_of-eq (message i) w (message-fits i b)) (
      subst
        (λ n.
          SentPrefix ((h, message i, n, p.send_unreliable) ∷ []) w
            (send_packet p (record { packet = message i }) p.send_unreliable w))
        (message-whole i b)
        (send_packet-SentPrefix (record { packet = message i }) p.send_unreliable w e))

  indices-below : All (λ i. i < 100) (indices_from 0 num_of_messages)
  indices-below = (
    omega arith,
    (
      omega arith,
      (
        omega arith,
        (
          omega arith,
          (
            omega arith,
            (omega arith, (omega arith, (omega arith, (omega arith, (omega arith, tt))))),
          ),
        ),
      ),
    ),
  )

  -- With a connection, the two loops send ten messages reliably and the same ten unreliably, each once,
  -- in this order and with its own size, and return; or they have sent the messages before one of them,
  -- each so, the platform, in the state after those, then answered with a state other than the connected
  -- one, and an assertion stopped the loops, with nothing sent after.
  pub send_messages-SentPrefix :
      (w : World Client Env)
      → w.object.server_connection ≡ some h
      → SentPrefix
          (map (sent_as h p.send_reliable) (indices_from 0 num_of_messages)
            ++ map (sent_as h p.send_unreliable) (indices_from 0 num_of_messages))
          w
          (send_messages p w)
  unfolding send_messages
  send_messages-SentPrefix w e =
      let is = indices_from 0 num_of_messages in
      SentPrefix-continue (map (sent_as h p.send_reliable) is)
        (map (sent_as h p.send_unreliable) is) w (for_each is (send_reliable p) w)
        (for_each is (send_unreliable p))
        (for_each-SentPrefix (send_reliable p) p.send_reliable is w
          (λ i b v. send_reliable-SentPrefix i v b) indices-below e)
        (λ w' o.
          for_each-SentPrefix (send_unreliable p) p.send_unreliable is w'
            (λ i b v. send_unreliable-SentPrefix i v b) indices-below
            (ap (λ c. c.server_connection) o ∙ e))
