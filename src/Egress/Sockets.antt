-- ===== src/Egress/Sockets.antt =====
-- client/egress/udp_egress.rs: `process_datagram`, which gives each origin of datagrams a socket of its own,
-- and the removal of an origin that has expired.
pub mod Flows
pub mod Expiry
pub mod Replies
use siffleux.Prelude.{
  ℕ, suc, ◌+◌, ◌<◌, ◌≡◌, ◌↔◌, Bool, true, false, ◌&&◌, Option, none, some, List, [], ◌∷◌, ◌++◌,
  length, ltb, ◌==◌, ==_iff, arith, Eq, lookup, insert, remove, bytes_beq, bytes_beq_iff,
  if◌then◌else◌,
}
use siffleux.Error.{Result, ok, err, panic}
use siffleux.Frames.{SocketAddr, v4, v6, extract_origin_socket_addr_from_datagram}

-- `SocketAddr` as a key.
unfoldable pub addr_beq : SocketAddr → SocketAddr → Bool
addr_beq (v4 a p) (v4 b q) = bytes_beq a b && p == q
addr_beq (v4 a p) (v6 b q f s) = false
addr_beq (v6 a p f s) (v4 b q) = false
addr_beq (v6 a p f s) (v6 b q g r) = (bytes_beq a b && p == q) && (f == g && s == r)

pub addr_beq_iff : (a b : SocketAddr) → (addr_beq a b ≡ true) ↔ (a ≡ b)
unfolding addr_beq
addr_beq_iff (v4 a p) (v4 b q) = ground (arith, bytes_beq_iff a b, ==_iff p q)
addr_beq_iff (v4 a p) (v6 b q f s) = (λ h. cc, λ h. cc)
addr_beq_iff (v6 a p f s) (v4 b q) = (λ h. cc, λ h. cc)
addr_beq_iff (v6 a p f s) (v6 b q g r) =
    ground (arith, bytes_beq_iff a b, ==_iff p q, ==_iff f g, ==_iff s r)

instance abbrev pub addr_eq : Eq SocketAddr
addr_eq = record { beq = addr_beq; beq_iff = addr_beq_iff }

abbrev pub max_messages_received : ℕ
max_messages_received = 128

-- A bounded channel: the datagrams that the task of the origin has not taken yet, and whether that task still
-- holds the receiver.
pub record Channel : Type 0 where
  pub queue : List (List ℕ)
  pub open_end : Bool

-- `try_send`: a full or closed channel drops the datagram.
unfoldable pub try_send : List ℕ → Channel → Channel
try_send bytes c =
    if c.open_end && ltb (length c.queue) max_messages_received
    then record c { queue = c.queue ++ (bytes ∷ []) }
    else c

-- `udp_sockets`, and the origins for which a task was spawned.
pub record Sockets : Type 0 where
  pub udp_sockets : List (SocketAddr × Channel)
  pub spawned : List SocketAddr

unfoldable pub send_from : SocketAddr → List ℕ → Sockets → Sockets
unfolding try_send
send_from origin bytes s = elim (lookup origin s.udp_sockets) [
  | some channel ↦ record s { udp_sockets = insert origin (try_send bytes channel) s.udp_sockets }
  | none ↦ record {
    udp_sockets =
        insert origin (try_send bytes (record { queue = []; open_end = true })) s.udp_sockets;
    spawned = origin ∷ s.spawned;
  }
]

unfoldable pub after_extract : Result (Option SocketAddr) → List ℕ → Sockets → Result Sockets
unfolding send_from
after_extract (ok (some origin)) bytes s = ok (send_from origin bytes s)
after_extract (ok none) bytes s = ok s
after_extract (err e) bytes s = err e
after_extract panic bytes s = panic

unfoldable pub process_datagram : List ℕ → Sockets → Result Sockets
unfolding after_extract
process_datagram bytes s =
    let (origin, rest) = extract_origin_socket_addr_from_datagram bytes in
    after_extract origin rest s

-- `udp_sockets.remove(&socket_addr)`, for an address from the channel of expired origins.
unfoldable pub expire : SocketAddr → Sockets → Sockets
expire origin s = record s { udp_sockets = remove origin s.udp_sockets }
