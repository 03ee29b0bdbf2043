-- ===== src/Exchange.antt =====
-- A client and a server together, over a network that brings what the client sends to the inbox of the
-- server, one message at a time: Client.cpp's `sendReliablePacketToServer`, and then Server.cpp's
-- `processPendingPackets`.
pub mod Broadcasts
use chaos_in_multiplayer.Base.{
  ℕ, suc, Bool, pos, to_size_t-pos, ◌^◌, ◌≤◌, ◌<◌, ◌≡◌, refl, ap, true, List, [], ◌∷◌, ◌++◌, map,
  arith, length, All,
}
use chaos_in_multiplayer.Platform.{Platform, Message}
use chaos_in_multiplayer.Program.{ok, Outcome, World, Action, for_each}
use chaos_in_multiplayer.Packet.{Packet, max_size, size}
use chaos_in_multiplayer.Receiving.{IsDeliverable}
use chaos_in_multiplayer.Server.{Server}
use chaos_in_multiplayer.Client.{Client}
use chaos_in_multiplayer.Client.Sending.{send_reliable_packet_to_server}

-- A packet as the server gets it from the connection `k`.
abbrev pub arriving : ℕ → Packet → Message
arriving k q = record { conn = k; bytes = q.packet; size = pos (size q) }

-- `k_cbMaxSteamNetworkingSocketsMessageSizeSend`.
abbrev pub max_message : ℕ
max_message = 524288

-- A packet that the networking library does not refuse for its size.
abbrev pub IsSmall : Packet → Type 0
IsSmall q = size q ≤ max_message

-- A connection, as the client's handle `h` and the server's `k`. `takes` says of a state that the
-- connection is up and that its send buffer has room for these packets, the first of which is next.
-- It is then reported as connected, and a reliable message of a size that is allowed is put on its
-- way, behind those before it. Nothing arrives but by a step of the network.
pub record IsLink {Env : Type 0} (p : Platform Env) (h k : ℕ) (takes : List Packet → Env → Type 0)
    (transit inbox : Env → List Message) : Type 0 where
  pub connected :
      (qs : List Packet) (env : Env)
      → takes qs env
      → let (state, env') = p.connection_state h env in
        (state ≡ p.state_connected)
        × takes qs env'
        × (transit env' ≡ transit env)
        × (inbox env' ≡ inbox env)
  pub carries :
      (q : Packet) (qs : List Packet) (env : Env)
      → IsSmall q
      → takes (q ∷ qs) env
      → let env' = p.send_message h q.packet (size q) p.send_reliable env in
        takes qs env' × (transit env' ≡ transit env ++ arriving k q ∷ []) × (inbox env' ≡ inbox env)

pub arriving-IsDeliverable :
    (known : ℕ → Bool) (k : ℕ) (q : Packet)
    → known k ≡ true
    → IsSmall q
    → IsDeliverable known (arriving k q)
unfolding max_size
arriving-IsDeliverable known k q registered small = record {
  from = registered;
  sized = to_size_t-pos (size q) (omega arith);
  fits = omega arith;
}

abbrev pub send_all : {Env : Type 0} → Platform Env → List Packet → Action Client Env Unit
send_all p qs = for_each qs (send_reliable_packet_to_server p)

pub length-arriving : (k : ℕ) (qs : List Packet) → length (map (arriving k) qs) ≡ length qs
length-arriving k [] = refl
length-arriving k (q ∷ qs) = ap suc (length-arriving k qs)

pub map-arriving-IsDeliverable :
    (known : ℕ → Bool) (k : ℕ) (qs : List Packet)
    → known k ≡ true
    → All IsSmall qs
    → All (IsDeliverable known) (map (arriving k) qs)
map-arriving-IsDeliverable known k [] registered small = tt
map-arriving-IsDeliverable known k (q ∷ qs) registered small = (
  arriving-IsDeliverable known k q registered small.0,
  map-arriving-IsDeliverable known k qs registered small.1,
)

module _ {Env : Type 0} (p : Platform Env) (h k : ℕ) (takes : List Packet → Env → Type 0)
    (transit inbox : Env → List Message) (link : IsLink p h k takes transit inbox) where
  -- A call returned, left the client as it was, and these are on their way in addition.
  abbrev Sent : List Packet → World Client Env → Outcome Unit × World Client Env → Type 0
  Sent qs w v =
      (v.0 ≡ ok tt)
      × (v.1.object ≡ w.object)
      × (transit v.1.env ≡ transit w.env ++ map (arriving k) qs)
      × (inbox v.1.env ≡ inbox w.env)
