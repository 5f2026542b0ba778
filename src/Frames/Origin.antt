-- ===== src/Frames/Origin.antt =====
-- siffleux/src/common/frames/v1.rs: the datagram that `to_datagram` builds, and its origin.
use siffleux.Prelude.{
  [], arith, append_assoc, ◌<◌, ◌⊎◌, inl, inr, drop, ltb, length-drop, Bool-cases, ltb→lt, ℕ, ◌/◌,
  ◌%◌, ◌≤◌, ◌≡◌, false, refl, List, ◌∷◌, ◌++◌, some, length, take, ltb-false, sym,
}
use siffleux.Error.{panic, ok}
use siffleux.Bytes.{get_u16, split_to, get_u8, put_slice}
use siffleux.Bytes.Laws.{split_to-panic, split_to-length, get_u16-put}
use siffleux.Frames.Types.{SocketAddr, v4, v6, udp_ipv4_origin, udp_ipv6_origin}
use siffleux.Frames.Datagram.{
  to_datagram, origin_header, extract_origin, extract_ipv4, extract_ipv6,
  extract_origin_socket_addr_from_datagram,
}

-- An address has 4 or 16 octets.
abbrev pub IsAddr : SocketAddr → Type 0
IsAddr (v4 octets port) = length octets ≡ 4
IsAddr (v6 octets port flowinfo scope_id) = length octets ≡ 16

-- What the datagram keeps of an address: all but the flow info and the scope id.
abbrev pub as_sent : SocketAddr → SocketAddr
as_sent (v4 octets port) = v4 octets port
as_sent (v6 octets port flowinfo scope_id) = v6 octets port 0 0

origin_header-v4 :
    (octets : List ℕ) (port : ℕ) (rest : List ℕ)
    → origin_header (v4 octets port) ++ rest ≡ 0 ∷ (octets ++ (port / 256 ∷ port % 256 ∷ rest))
unfolding origin_header
origin_header-v4 octets port rest = simp append_assoc

origin_header-v6 :
    (octets : List ℕ) (port f s : ℕ) (rest : List ℕ)
    → origin_header (v6 octets port f s) ++ rest ≡ 1 ∷ (octets ++ (port / 256 ∷ port % 256 ∷ rest))
unfolding origin_header
origin_header-v6 octets port f s rest = simp append_assoc

pub extract-header :
    (a : SocketAddr) (payload : List ℕ)
    → IsAddr a
    → extract_origin_socket_addr_from_datagram (origin_header a ++ payload)
      ≡ (ok (some (as_sent a)), payload)
unfolding extract_origin_socket_addr_from_datagram extract_origin get_u8 extract_ipv4 extract_ipv6
extract-header (v4 octets port) payload h =
    rw origin_header-v4
      (rw (split_to-length 4 octets (port / 256 ∷ port % 256 ∷ payload) (sym h)) (rw get_u16-put))
extract-header (v6 octets port f s) payload h =
    rw origin_header-v6
      (rw (split_to-length 16 octets (port / 256 ∷ port % 256 ∷ payload) (sym h)) (rw get_u16-put))

-- A datagram built for an address of 4 or 16 octets, from the first `n` bytes of a buffer that
-- has them, gives back its origin (the flow info and the scope id of version 6 come back as 0),
-- and leaves just these `n` bytes.
pub extract-to_datagram :
    (a : SocketAddr) (buffer : List ℕ) (n : ℕ)
    → IsAddr a
    → n ≤ length buffer
    → (datagram : List ℕ) × (to_datagram a buffer n ≡ ok datagram)
      × (extract_origin_socket_addr_from_datagram datagram ≡ (ok (some (as_sent a)), take n buffer))
unfolding to_datagram put_slice
extract-to_datagram a buffer n ha hn = (
  origin_header a ++ take n buffer,
  rw (ltb-false (length buffer) n hn),
  extract-header a (take n buffer) ha,
)

get_u16-short : (src : List ℕ) → length src < 2 → (get_u16 src).0 ≡ panic
unfolding get_u16
get_u16-short [] h = refl
get_u16-short (a ∷ []) h = refl
get_u16-short (a ∷ b ∷ src) h = absurd (omega arith)

split_to-drop :
    (n : ℕ) (src : List ℕ)
    → ltb (length src) n ≡ false
    → split_to n src ≡ (ok (take n src), drop n src)
unfolding split_to
split_to-drop n src h = rw h

extract_ipv4-short : (src : List ℕ) → length src < 6 → (extract_ipv4 src).0 ≡ panic
unfolding extract_ipv4
extract_ipv4-short src h = elim (Bool-cases (ltb (length src) 4)) [
  | inl e ↦ rw (split_to-panic 4 src (ltb→lt _ _ e))
  | inr e ↦
      rw (split_to-drop 4 src e) (ground (arith, get_u16-short (drop 4 src), length-drop 4 src))
]

extract_ipv6-short : (src : List ℕ) → length src < 18 → (extract_ipv6 src).0 ≡ panic
unfolding extract_ipv6
extract_ipv6-short src h = elim (Bool-cases (ltb (length src) 16)) [
  | inl e ↦ rw (split_to-panic 16 src (ltb→lt _ _ e))
  | inr e ↦
      rw (split_to-drop 16 src e) (ground (arith, get_u16-short (drop 16 src), length-drop 16 src))
]

-- A datagram that is too short for the address that its first byte announces.
abbrev pub IsShort : List ℕ → Type 0
IsShort [] = Unit
IsShort (t ∷ src) =
    ((t ≡ udp_ipv4_origin) × (length src < 6)) ⊎ ((t ≡ udp_ipv6_origin) × (length src < 18))

-- An empty datagram, or one that ends inside its address, makes the extraction panic.
pub extract-short :
    (src : List ℕ) → IsShort src → (extract_origin_socket_addr_from_datagram src).0 ≡ panic
unfolding extract_origin_socket_addr_from_datagram extract_origin get_u8
extract-short [] h = refl
extract-short (t ∷ src) (inl h) = rw h.0 (extract_ipv4-short src h.1)
extract-short (t ∷ src) (inr h) = rw h.0 (extract_ipv6-short src h.1)
