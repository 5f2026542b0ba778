-- ===== src/Egress/Sockets/Flows.antt =====
-- client/egress/udp_egress.rs: datagrams of one origin keep to one socket.
use mathlib.Core.Path.{subst}
use siffleux.Prelude.{
  ℕ, ◌≤◌, ◌<◌, ◌≡◌, ◌∙◌, ◌⊎◌, ◌++◌, ap, refl, false, true, Option, none, some, List, [], ◌∷◌,
  length, length-append, take, arith, lookup, lookup-insert, lookup-remove, if◌then◌else◌,
  Option-cases, inl, inr,
}
use siffleux.Error.{Result, ok, err, panic}
use siffleux.Frames.{SocketAddr, to_datagram, extract_origin_socket_addr_from_datagram}
use siffleux.Frames.Origin.{IsAddr, as_sent, extract-to_datagram}
use siffleux.Egress.Sockets.{
  addr_beq_iff, Sockets, Channel, addr_beq, addr_eq, try_send, send_from, after_extract,
  process_datagram, expire,
}

-- An origin's channel, or the one that it would be given.
abbrev pub channel_or_new : Option Channel → Channel
channel_or_new none = record { queue = []; open_end = true }
channel_or_new (some c) = c

abbrev pub spawned_or_new : Option Channel → SocketAddr → List SocketAddr → List SocketAddr
spawned_or_new none o l = o ∷ l
spawned_or_new (some c) o l = l

pub lookup-send_from :
    (o : SocketAddr) (bytes : List ℕ) (s : Sockets) (j : SocketAddr)
    → lookup j (send_from o bytes s).udp_sockets ≡ (
        if addr_beq o j
        then some (try_send bytes (channel_or_new (lookup o s.udp_sockets)))
        else lookup j s.udp_sockets)
unfolding send_from
lookup-send_from o bytes s j = elim (Option-cases (lookup o s.udp_sockets)) [
  | inl e ↦
      rw (e, send_from)
        (lookup-insert o j (try_send bytes (record { queue = []; open_end = true })) s.udp_sockets)
  | inr (c, e) ↦ rw (e, send_from) (lookup-insert o j (try_send bytes c) s.udp_sockets)
]

spawned-send_from :
    (o : SocketAddr) (bytes : List ℕ) (s : Sockets)
    → (send_from o bytes s).spawned ≡ spawned_or_new (lookup o s.udp_sockets) o s.spawned
unfolding send_from
spawned-send_from o bytes s = ground arith

-- The task of the channel still receives, and fewer than 128 datagrams wait for it.
abbrev pub HasRoom : Channel → Type 0
HasRoom c = (c.open_end ≡ true) × (length c.queue < 128)

abbrev pub IsLost : Channel → Type 0
IsLost c = (c.open_end ≡ false) ⊎ (128 ≤ length c.queue)

-- What a datagram of an origin does: it opens a channel with a task, or waits behind the others in the origin's channel,
-- or is lost.
pub data Flow (o : SocketAddr) (bytes : List ℕ) (s s' : Sockets) : Type 0 where
  opened :
      lookup o s.udp_sockets ≡ none
      → lookup o s'.udp_sockets ≡ some (record { queue = bytes ∷ []; open_end = true })
      → s'.spawned ≡ o ∷ s.spawned
      → Flow o bytes s s'
  waits :
      (c : Channel)
      → lookup o s.udp_sockets ≡ some c
      → HasRoom c
      → lookup o s'.udp_sockets ≡ some (record { queue = c.queue ++ (bytes ∷ []); open_end = true })
      → s'.spawned ≡ s.spawned
      → Flow o bytes s s'
  lost :
      (c : Channel)
      → lookup o s.udp_sockets ≡ some c
      → IsLost c
      → lookup o s'.udp_sockets ≡ some c
      → s'.spawned ≡ s.spawned
      → Flow o bytes s s'

room : (c : Channel) → HasRoom c ⊎ IsLost c
room c = ground arith

try_send-room :
    (bytes : List ℕ) (c : Channel)
    → HasRoom c
    → try_send bytes c ≡ record { queue = c.queue ++ (bytes ∷ []); open_end = true }
unfolding try_send
try_send-room bytes c h = ground (arith, h)

try_send-lost : (bytes : List ℕ) (c : Channel) → IsLost c → try_send bytes c ≡ c
unfolding try_send
try_send-lost bytes c h = ground (arith, h)

own-send_from :
    (o : SocketAddr) (bytes : List ℕ) (s : Sockets)
    → lookup o (send_from o bytes s).udp_sockets
      ≡ some (try_send bytes (channel_or_new (lookup o s.udp_sockets)))
own-send_from o bytes s = ground (arith, lookup-send_from o bytes s o, addr_beq_iff o o)

send_from-Flow :
    (o : SocketAddr) (bytes : List ℕ) (s : Sockets) → Flow o bytes s (send_from o bytes s)
send_from-Flow o bytes s = elim (Option-cases (lookup o s.udp_sockets)) [
  | inl e ↦
      opened e
        (own-send_from o bytes s
          ∙ ap (λ x. some (try_send bytes (channel_or_new x))) e
          ∙ ap (λ x. some x) (try_send-room bytes (channel_or_new none) (refl, omega arith)))
        (spawned-send_from o bytes s ∙ ap (λ x. spawned_or_new x o s.spawned) e)
  | inr (c, e) ↦
      let own = own-send_from o bytes s ∙ ap (λ x. some (try_send bytes (channel_or_new x))) e in
      let same = spawned-send_from o bytes s ∙ ap (λ x. spawned_or_new x o s.spawned) e in
      elim (room c) [
        | inl r ↦ waits c e r (own ∙ ap (λ x. some x) (try_send-room bytes c r)) same
        | inr l ↦ lost c e l (own ∙ ap (λ x. some x) (try_send-lost bytes c l)) same
      ]
]

others-send_from :
    (o : SocketAddr) (bytes : List ℕ) (s : Sockets) (j : SocketAddr)
    → (o ≡ j) ⊎ (lookup j (send_from o bytes s).udp_sockets ≡ lookup j s.udp_sockets)
others-send_from o bytes s j = ground (arith, lookup-send_from o bytes s j, addr_beq_iff o j)

-- A datagram that the other end built from `n` bytes of a sender, whose address has 4 or 16 octets, opens a
-- channel with a task if the sender has none; otherwise no task is spawned, and it is put behind the others in the sender's
-- channel if the task still receives and fewer than 128 wait, and is lost if not. Every other channel stays.
pub datagram_flow :
    (a : SocketAddr) (buffer : List ℕ) (n : ℕ) (s : Sockets)
    → IsAddr a
    → n ≤ length buffer
    → (d : List ℕ) × (s' : Sockets) × (to_datagram a buffer n ≡ ok d)
      × (process_datagram d s ≡ ok s')
      × Flow (as_sent a) (take n buffer) s s'
      × ((j : SocketAddr) → (as_sent a ≡ j) ⊎ (lookup j s'.udp_sockets ≡ lookup j s.udp_sockets))
unfolding process_datagram
datagram_flow a buffer n s va fits =
    let (d, built, back) = extract-to_datagram a buffer n va fits in
    let o = as_sent a in
    let bytes = take n buffer in
    (
      d,
      send_from o bytes s,
      built,
      rw back (unfold after_extract in refl),
      send_from-Flow o bytes s,
      λ j. others-send_from o bytes s j,
    )

-- No channel holds more than 128 datagrams.
pub record IsBounded (s : Sockets) : Type 0 where
  pub at : (o : SocketAddr) (c : Channel) → lookup o s.udp_sockets ≡ some c → length c.queue ≤ 128

length-try_send :
    (bytes : List ℕ) (c : Channel) → length c.queue ≤ 128 → length (try_send bytes c).queue ≤ 128
unfolding try_send
length-try_send bytes c h = ground (arith, length-append c.queue (bytes ∷ []))

channel_or_new-IsBounded :
    (o : SocketAddr) (s : Sockets)
    → IsBounded s
    → length (channel_or_new (lookup o s.udp_sockets)).queue ≤ 128
channel_or_new-IsBounded o s h = elim (Option-cases (lookup o s.udp_sockets)) [
  | inl e ↦ rw e (omega arith)
  | inr (c, e) ↦ rw e (h.at o c e)
]

send_from-IsBounded :
    (o : SocketAddr) (bytes : List ℕ) (s : Sockets) → IsBounded s → IsBounded (send_from o bytes s)
send_from-IsBounded o bytes s h = record {
  at = λ j c e. ground (
    arith,
    lookup-send_from o bytes s j,
    h.at j c,
    length-try_send bytes (channel_or_new (lookup o s.udp_sockets))
        (channel_or_new-IsBounded o s h),
  );
}

after_extract-IsBounded :
    (r : Result (Option SocketAddr)) (bytes : List ℕ) (s s' : Sockets)
    → IsBounded s
    → after_extract r bytes s ≡ ok s'
    → IsBounded s'
unfolding after_extract
after_extract-IsBounded (ok none) bytes s s' h e = let q : s ≡ s' = cc in subst IsBounded q h
after_extract-IsBounded (ok (some o)) bytes s s' h e =
    let q : send_from o bytes s ≡ s' = cc in subst IsBounded q (send_from-IsBounded o bytes s h)
after_extract-IsBounded (err x) bytes s s' h e = cc
after_extract-IsBounded panic bytes s s' h e = cc

-- If no channel holds more than 128 datagrams, then none does after any datagram that is
-- processed without a panic, nor when an origin expires after that.
pub process_datagram-IsBounded :
    (d : List ℕ) (o : SocketAddr) (s s' : Sockets)
    → IsBounded s
    → process_datagram d s ≡ ok s'
    → IsBounded s' × IsBounded (expire o s')
unfolding process_datagram expire
process_datagram-IsBounded d o s s' h e =
    let (r, rest) = extract_origin_socket_addr_from_datagram d in
    let b : IsBounded s' = after_extract-IsBounded r rest s s' h e in
    (b, record { at = λ j c f. ground (arith, lookup-remove o j s'.udp_sockets, b.at j c) })
