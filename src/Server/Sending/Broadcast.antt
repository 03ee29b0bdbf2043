-- ===== src/Server/Sending/Broadcast.antt =====
-- Who is sent a packet, how often, and which bytes.
use chaos_in_multiplayer.Base.{
  ℕ, ◌+◌, ◌≡◌, refl, Bool, false, not, ◌&&◌, Option, none, some, List, [], ◌∷◌, ◌++◌, map,
  append-nil, append_assoc, arith, ◌==◌, if◌then◌else◌, select, count_if, count_if-append, All, sym,
  ap, ◌∙◌, map-append,
}
use chaos_in_multiplayer.Platform.{Platform, Event}
use chaos_in_multiplayer.Program.{ok, World}
use chaos_in_multiplayer.Packet.{Packet, bytes, size}
use chaos_in_multiplayer.UnorderedMap.{UnorderedMap, lookup, IsDistinct}
use chaos_in_multiplayer.ClientConnection.{ClientConnection, connected}
use chaos_in_multiplayer.Server.{Server}
use chaos_in_multiplayer.Server.Clients.Registry.{IsRegistered, IsWellFormed}
use chaos_in_multiplayer.Server.Sending.{
  to_uint32, is_excepted, send_to_entry, send_packet_to_clients,
  send_packet_to_all_connected_clients_impl,
}

-- The entries that the loop sends to.
abbrev pub recipients :
    Option ClientConnection → UnorderedMap ClientConnection → UnorderedMap ClientConnection
recipients except = select λ e. not (is_excepted except e.0) && connected e.1

recipients-cons :
    (except : Option ClientConnection) (e : ℕ × ClientConnection)
    (es : UnorderedMap ClientConnection)
    → recipients except (e ∷ es) ≡ recipients except (e ∷ []) ++ recipients except es
recipients-cons except e es = ground arith

-- The call of the platform for one entry.
abbrev pub send_event : Packet → ℕ → ℕ × ClientConnection → Event
send_event packet t e =
    Event.send_message e.1.net_connection (bytes packet) (to_uint32 (size packet)) t

module _ {Env : Type 0} (p : Platform Env) where
  abbrev pub send_all : Packet → ℕ → UnorderedMap ClientConnection → Env → Env
  send_all packet t [] env = env
  send_all packet t (e ∷ es) env =
      send_all packet t es
        (p.send_message e.1.net_connection (bytes packet) (to_uint32 (size packet)) t env)

  -- The world after a packet was sent for some entries.
  abbrev pub after_sending :
      Packet → ℕ → UnorderedMap ClientConnection → World Server Env → World Server Env
  after_sending packet t es w = record w {
    env = send_all packet t es w.env;
    trace = w.trace ++ map (send_event packet t) es;
  }

  send_all-append :
      (packet : Packet) (t : ℕ) (xs ys : UnorderedMap ClientConnection) (env : Env)
      → send_all packet t ys (send_all packet t xs env) ≡ send_all packet t (xs ++ ys) env
  send_all-append packet t [] ys env = refl
  send_all-append packet t (x ∷ xs) ys env = send_all-append packet t xs ys _

  after_sending-append :
      (packet : Packet) (t : ℕ) (xs ys : UnorderedMap ClientConnection) (w : World Server Env)
      → after_sending packet t ys (after_sending packet t xs w)
        ≡ after_sending packet t (xs ++ ys) w
  after_sending-append packet t xs ys w = λ i. record w {
    env = send_all-append packet t xs ys w.env i;
    trace =
        (append_assoc w.trace (map (send_event packet t) xs) (map (send_event packet t) ys)
            ∙ ap (◌++◌ w.trace) (sym (map-append (send_event packet t) xs ys)))
          i;
  }

  send_to_entry_lem :
      (packet : Packet) (t : ℕ) (except : Option ClientConnection) (e : ℕ × ClientConnection)
      (w : World Server Env)
      → send_to_entry p packet t except e w
        ≡ (ok tt, after_sending packet t (recipients except (e ∷ [])) w)
  unfolding send_to_entry
  send_to_entry_lem packet t except (k, c) w = ground (arith, append-nil w.trace)

  send_packet_to_clients_lem :
      (packet : Packet) (t : ℕ) (except : Option ClientConnection)
      (es : UnorderedMap ClientConnection) (w : World Server Env)
      → send_packet_to_clients p packet t except es w
        ≡ (ok tt, after_sending packet t (recipients except es) w)
  unfolding send_packet_to_clients
  send_packet_to_clients_lem packet t except [] w = ground (arith, append-nil w.trace)
  send_packet_to_clients_lem packet t except (e ∷ es) w =
      rw (send_to_entry_lem packet t except e w) (
        send_packet_to_clients_lem packet t except es _
        ∙ ap (λ v. (ok tt, v))
            (after_sending-append packet t (recipients except (e ∷ [])) (recipients except es) w
              ∙ ap (λ xs. after_sending packet t xs w) (sym (recipients-cons except e es))))

  -- A broadcast returns and leaves the server as it was; it sends to the connected clients that are
  -- not the excepted one, in the order of the map, and calls the platform for nothing else.
  pub send_packet_to_all_lem :
      (packet : Packet) (t : ℕ) (except : Option ClientConnection) (w : World Server Env)
      → let es = recipients except w.object.connections in
        send_packet_to_all_connected_clients_impl p packet t except w
        ≡ (ok tt, after_sending packet t es w)
  unfolding send_packet_to_all_connected_clients_impl
  send_packet_to_all_lem packet t except w =
      send_packet_to_clients_lem packet t except w.object.connections w

-- Whether an event sends something to a handle.
abbrev pub sends_to : ℕ → Event → Bool
sends_to h (Event.send_message k data' n t) = h == k
sends_to h _ = false

-- An event that sends nothing does not count.
pub count-silent :
    (h : ℕ) (e : Event) (trace : List Event)
    → sends_to h e ≡ false
    → count_if (sends_to h) (trace ++ e ∷ []) ≡ count_if (sends_to h) trace
count-silent h e trace s = ground (arith, count_if-append (sends_to h) trace (e ∷ []))

-- Whether a broadcast is for a handle.
abbrev pub is_recipient : Option ClientConnection → ℕ → Option ClientConnection → Bool
is_recipient except h none = false
is_recipient except h (some c) = not (is_excepted except h) && connected c

pub count-recipients :
    (packet : Packet) (t h : ℕ) (except : Option ClientConnection)
    (es : UnorderedMap ClientConnection)
    → IsDistinct es
    → All IsRegistered es
    → count_if (sends_to h) (map (send_event packet t) (recipients except es))
      ≡ (if is_recipient except h (lookup h es) then 1 else 0)
unfolding lookup
count-recipients packet t h except [] d r = ground arith
count-recipients packet t h except ((k, c) ∷ es) d r =
    ground (arith, count-recipients packet t h except es d.1 r.1)

module _ {Env : Type 0} (p : Platform Env) where
  -- In a well-formed server a broadcast sends once to each handle that is registered as connected and
  -- is not excepted, and not at all to any other handle.
  pub broadcast_once :
      (packet : Packet) (t h : ℕ) (except : Option ClientConnection) (w : World Server Env)
      → IsWellFormed w.object
      → let (r, w') = send_packet_to_all_connected_clients_impl p packet t except w in
        (r ≡ ok tt)
        × (count_if (sends_to h) w'.trace
            ≡ count_if (sends_to h) w.trace
              + (if is_recipient except h (lookup h w.object.connections) then 1 else 0))
  broadcast_once packet t h except w f = rw (send_packet_to_all_lem p packet t except w) (
    refl,
    omega (
      arith,
      count_if-append (sends_to h) w.trace
          (map (send_event packet t) (recipients except w.object.connections)),
      count-recipients packet t h except w.object.connections f.distinct f.registered,
    ),
  )

  -- How often a broadcast sends to a handle does not depend on the order of the map: two well-formed
  -- servers that have the same entry for each handle, and that had sent equally often to this one,
  -- have done so after the broadcast.
  pub broadcast-order :
      (packet : Packet) (t h : ℕ) (except : Option ClientConnection) (v w : World Server Env)
      → IsWellFormed v.object
      → IsWellFormed w.object
      → ((k : ℕ) → lookup k v.object.connections ≡ lookup k w.object.connections)
      → count_if (sends_to h) v.trace ≡ count_if (sends_to h) w.trace
      → let v' = (send_packet_to_all_connected_clients_impl p packet t except v).1 in
        let w' = (send_packet_to_all_connected_clients_impl p packet t except w).1 in
        count_if (sends_to h) v'.trace ≡ count_if (sends_to h) w'.trace
  broadcast-order packet t h except v w fv fw same before =
      let (_, after_v) = broadcast_once packet t h except v fv in
      let (_, after_w) = broadcast_once packet t h except w fw in
      let entry = same h in rw (after_v, after_w, entry, before)
