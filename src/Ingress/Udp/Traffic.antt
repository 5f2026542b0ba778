-- ===== src/Ingress/Udp/Traffic.antt =====
-- siffleux/src/server/ingress/udp_ingress.rs: datagrams through an ingress, both ways.
use mathlib.Core.Path.{ap₂}
use siffleux.Prelude.{
  ◌∙◌, ℕ, ◌≡◌, ◌≤◌, ◌⊎◌, inl, inr, refl, ap, [], ◌++◌, none, some, List, ◌∷◌, arith, length, take,
  get_elem?, true, false,
}
use siffleux.Error.{ok, panic}
use siffleux.Frames.{SocketAddr, to_datagram, extract_origin_socket_addr_from_datagram}
use siffleux.Frames.Origin.{IsAddr, as_sent, extract-to_datagram, IsShort, extract-short}
use siffleux.Tunnel.{Tunnel}
use siffleux.Ingress.Pool
use siffleux.Ingress.Pool.Rotation.{slot, get_tunnel_total}
use siffleux.Ingress.Udp.{
  UdpIngress, socket_turn, tunnel_turn, received, datagram, deliver, Delivered, TunnelEvent,
  Reading, reads_on, panicked, after_tunnel_turn, tunnel_run,
}

-- A datagram that reaches the socket and fits in the buffer, from an address of 4 or 16 octets,
-- is dropped if there is no tunnel; otherwise it goes, with its sender's address in front, into
-- the tunnel whose turn it is. The loop goes on.
pub socket_turn_total :
    (s : UdpIngress) (a : SocketAddr) (buffer : List ℕ) (n : ℕ)
    → IsAddr a
    → n ≤ length buffer
    → ((socket_turn (received a buffer n) s).goes_on ≡ ok true)
      × (((length s.pool.tunnels ≡ 0) × ((socket_turn (received a buffer n) s).sent ≡ none))
          ⊎ ((t : Tunnel) × (d : List ℕ) × (get_elem? s.pool.tunnels
                  (slot s.pool.tunnel_rotation (length s.pool.tunnels))
                ≡ some t)
              × ((socket_turn (received a buffer n) s).sent ≡ some (t, d))
              × (extract_origin_socket_addr_from_datagram d
                  ≡ (ok (some (as_sent a)), take n buffer))))
unfolding socket_turn Pool.get_tunnel_to_connect
socket_turn_total s a buffer n va fits =
    let (d, built, back) = extract-to_datagram a buffer n va fits in
    elim (get_tunnel_total s.pool) [
      | inl (e, f) ↦ (ground (arith, f), inl (e, ground (arith, f)))
      | inr (t, at, got, kept) ↦
          (ground (arith, got, built), inr (t, d, at, ground (arith, got, built), back))
    ]

-- An answer that the other end built for a sender is sent to just that address, unchanged, and the
-- task goes on.
pub answer_reaches_sender :
    (a : SocketAddr) (buffer : List ℕ) (n : ℕ)
    → IsAddr a
    → n ≤ length buffer
    → (d : List ℕ) × (to_datagram a buffer n ≡ ok d)
      × (tunnel_turn (datagram d) ≡ record {
        goes_on = ok true;
        sent = some (as_sent a, take n buffer);
        closes_tunnel = false;
      })
unfolding tunnel_turn
answer_reaches_sender a buffer n va fits =
    let (d, built, back) = extract-to_datagram a buffer n va fits in (d, built, rw back)

short-panics :
    (d : List ℕ)
    → IsShort d
    → tunnel_turn (datagram d) ≡ record { goes_on = panic; sent = none; closes_tunnel = false }
unfolding tunnel_turn deliver
short-panics d h = ground (arith, extract-short d h)

-- What a turn leaves of the rest of the run, if the run is to go on.
after-reads_on :
    (turn : Delivered) (rest rest' : Reading)
    → (after_tunnel_turn turn rest).end ≡ reads_on
    → rest'.sent ≡ rest.sent
    → (rest.end ≡ reads_on)
      × ((after_tunnel_turn turn rest').sent ≡ (after_tunnel_turn turn rest).sent)
      × ((after_tunnel_turn turn rest').end ≡ rest'.end)
unfolding after_tunnel_turn
after-reads_on turn rest rest' h same = (ground arith, ground arith, ground arith)

-- One datagram that is too short for its address makes the task that reads the tunnel panic: if the task still read
-- before it, the task sends what it had sent before, and nothing of all that the tunnel brings later.
pub short_datagram_kills :
    (before : List TunnelEvent) (d : List ℕ) (after : List TunnelEvent)
    → IsShort d
    → (tunnel_run before).end ≡ reads_on
    → tunnel_run (before ++ (datagram d ∷ after))
      ≡ record { sent = (tunnel_run before).sent; end = panicked }
unfolding tunnel_run
short_datagram_kills [] d after h still = rw (short-panics d h) (unfold after_tunnel_turn in refl)
short_datagram_kills (e ∷ before) d after h still =
    let rest = tunnel_run before in
    let rest' = tunnel_run (before ++ (datagram d ∷ after)) in
    let (on, _, _) = after-reads_on (tunnel_turn e) rest rest still refl in
    let whole = short_datagram_kills before d after h on in
    let (_, sent, end) =
      after-reads_on (tunnel_turn e) rest rest' still (ap (λ (r : Reading). r.sent) whole) in
    ap₂ (λ s x. record { sent = s; end = x }) sent (end ∙ ap (λ (r : Reading). r.end) whole)
