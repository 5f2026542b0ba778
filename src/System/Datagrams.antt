-- ===== src/System/Datagrams.antt =====
-- The way of a UDP datagram and of its answer: siffleux/src/server/ingress/udp_ingress.rs,
-- siffleux/src/common/frames/v1.rs and siffleux/src/client/egress/udp_egress.rs together.
use siffleux.Prelude.{
  ℕ, ◌≡◌, ◌≤◌, ◌<◌, inl, inr, refl, true, none, some, List, [], ◌∷◌, length, take, arith, lookup,
}
use siffleux.Error.{ok}
use siffleux.Frames.{extract_origin_socket_addr_from_datagram, SocketAddr, v4, v6, to_datagram}
use siffleux.Frames.Origin.{IsAddr, as_sent, extract-to_datagram}
use siffleux.Tunnel.{Tunnel}
use siffleux.Ingress.Udp.{UdpIngress, received, socket_turn, tunnel_turn, datagram, deliver}
use siffleux.Ingress.Udp.Traffic.{socket_turn_total}
use siffleux.Egress.Sockets.{
  after_extract, send_from, Sockets, Channel, addr_beq_iff, addr_eq, try_send, process_datagram,
}
use siffleux.Egress.Sockets.Flows.{lookup-send_from}
use siffleux.Egress.Sockets.Replies
use siffleux.Egress.Sockets.Replies.{reply_with, origin_turn, messages_ready, reply_turn}

IsAddr-as_sent : (a : SocketAddr) → IsAddr a → IsAddr (as_sent a)
IsAddr-as_sent (v4 octets port) h = h
IsAddr-as_sent (v6 octets port f s) h = h

as_sent-as_sent : (a : SocketAddr) → as_sent (as_sent a) ≡ as_sent a
as_sent-as_sent (v4 octets port) = refl
as_sent-as_sent (v6 octets port f s) = refl

-- A datagram of a new sender and its answer, through an ingress, an egress's sockets and back.
pub record Answered (s : UdpIngress) (sockets : Sockets) (a : SocketAddr) (payload answer : List ℕ)
    (buffer reply_buffer : List ℕ) (n m : ℕ) : Type 0 where
  -- Into the tunnel
  pub tunnel : Tunnel
  pub asked : List ℕ
  pub forwarded : (socket_turn (received a buffer n) s).sent ≡ some (tunnel, asked)
  -- Out of the tunnel, into the channel of an origin for which a task is spawned, and on to this task's socket
  pub sockets' : Sockets
  pub processed : process_datagram asked sockets ≡ ok sockets'
  pub origin : SocketAddr
  pub spawned : sockets'.spawned ≡ origin ∷ sockets.spawned
  pub channel : Channel
  pub found : lookup origin sockets'.udp_sockets ≡ some channel
  pub to_target : (origin_turn messages_ready channel).sent ≡ payload ∷ []
  -- The answer of the target on this socket, into the tunnel and out to the sender
  pub answered : List ℕ
  pub replied : (reply_turn origin (Replies.received reply_buffer m)).sent ≡ some answered
  pub delivered : (tunnel_turn (datagram answered)).sent ≡ some (as_sent a, answer)

processed-extract :
    (d : List ℕ) (o : SocketAddr) (payload : List ℕ) (sockets : Sockets)
    → extract_origin_socket_addr_from_datagram d ≡ (ok (some o), payload)
    → process_datagram d sockets ≡ ok (send_from o payload sockets)
unfolding process_datagram after_extract
processed-extract d o payload sockets e = rw e refl

delivered-extract :
    (d : List ℕ) (o : SocketAddr) (payload : List ℕ)
    → extract_origin_socket_addr_from_datagram d ≡ (ok (some o), payload)
    → (tunnel_turn (datagram d)).sent ≡ some (o, payload)
unfolding tunnel_turn deliver
delivered-extract d o payload e = rw e refl

-- The channel of an origin that had none.
abbrev first_channel : List ℕ → Channel
first_channel payload = record { queue = payload ∷ []; open_end = true }

found-send_from :
    (o : SocketAddr) (payload : List ℕ) (sockets : Sockets)
    → lookup o sockets.udp_sockets ≡ none
    → lookup o (send_from o payload sockets).udp_sockets ≡ some (first_channel payload)
unfolding try_send
found-send_from o payload sockets new =
    ground (arith, lookup-send_from o payload sockets o, addr_beq_iff o o, new)

spawned-new :
    (o : SocketAddr) (payload : List ℕ) (sockets : Sockets)
    → lookup o sockets.udp_sockets ≡ none
    → (send_from o payload sockets).spawned ≡ o ∷ sockets.spawned
unfolding send_from
spawned-new o payload sockets new = ground (arith, new)

reply-to_datagram :
    (o : SocketAddr) (buffer : List ℕ) (m : ℕ) (d : List ℕ)
    → to_datagram o buffer m ≡ ok d
    → (reply_turn o (Replies.received buffer m)).sent ≡ some d
unfolding reply_turn reply_with
reply-to_datagram o buffer m d e = rw e refl

-- When an ingress that has a tunnel receives a datagram of a sender that the egress has no socket for, the datagram goes
-- into a tunnel; the egress spawns a task for a new origin, which sends just the payload on its socket; and what the target
-- answers on that socket leaves the ingress again for the sender, unchanged. The sizes fit the buffers, and an
-- address has 4 or 16 octets; of an address of version 6 the flow info and the scope id are lost.
pub datagram-Answered :
    (s : UdpIngress) (sockets : Sockets) (a : SocketAddr) (buffer reply_buffer : List ℕ) (n m : ℕ)
    → IsAddr a
    → 0 < length s.pool.tunnels
    → n ≤ length buffer
    → m ≤ length reply_buffer
    → lookup (as_sent a) sockets.udp_sockets ≡ none
    → Answered s sockets a (take n buffer) (take m reply_buffer) buffer reply_buffer n m
datagram-Answered s sockets a buffer reply_buffer n m va some_tunnel fits reply_fits new =
    elim (socket_turn_total s a buffer n va fits).1 [
      | inl (empty, _) ↦ absurd (omega (arith, empty, some_tunnel))
      | inr (t, d, _, forwarded, extracted) ↦
          let o = as_sent a in
          let payload = take n buffer in
          let (back, built, answered) =
            extract-to_datagram o reply_buffer m (IsAddr-as_sent a va) reply_fits in
          record {
            tunnel = t;
            asked = d;
            forwarded = forwarded;
            sockets' = send_from o payload sockets;
            processed = processed-extract d o payload sockets extracted;
            origin = o;
            spawned = spawned-new o payload sockets new;
            channel = first_channel payload;
            found = found-send_from o payload sockets new;
            to_target = unfold origin_turn in refl;
            answered = back;
            replied = reply-to_datagram o reply_buffer m back built;
            delivered =
                delivered-extract back o (take m reply_buffer) (rw as_sent-as_sent at answered);
          }
    ]
