-- ===== src/Egress/Binding/Got.antt =====
-- client/egress/udp_egress.rs and client/egress/tcp_egress.rs: what is known of a socket that was got.
use siffleux.Prelude.{
  sym, ℕ, zero, suc, ◌+◌, ◌≡◌, true, none, some, List, [], ◌∷◌, All, arith, ap, sym, Option, ◌⊎◌,
  inl, inr,
}
use siffleux.Error.{Result, ok, err, panic, ◌>>=◌, bind-ok}
use siffleux.Frames.{SocketAddr}
use siffleux.Egress.Streams.{attempt, connected, handle_stream, copies, gives_up, panics}
use siffleux.Protocol.Copying.{shutdown}
use siffleux.Egress.Binding.{
  Os, SocketCall, Kind, datagrams, connections, local_addr, buffer_size, get_udp_socket,
  get_tcp_socket, set_reuse_port, set_reuse_address, set_nonblocking, set_recv_buffer_size,
  set_send_buffer_size, set_zero_linger, bind, from_std, connect, writable, set_reuse_port_on,
}

-- A socket of its kind, on which every one of the calls has succeeded.
pub record IsGot (os : Os) (kind : Kind) (calls : List SocketCall) (socket : ℕ) : Type 0 where
  pub made : os.socket kind ≡ ok socket
  pub called : All (λ c. os.call socket c ≡ ok tt) calls

abbrev pub udp_calls : SocketAddr → List SocketCall
udp_calls target_addr =
    set_reuse_port
    ∷ set_reuse_address
    ∷ set_nonblocking
    ∷ set_recv_buffer_size buffer_size
    ∷ set_send_buffer_size buffer_size
    ∷ bind local_addr
    ∷ from_std
    ∷ connect target_addr
    ∷ writable
    ∷ []

abbrev pub tcp_calls : List SocketCall
tcp_calls = set_reuse_address ∷ set_reuse_port ∷ set_zero_linger ∷ bind local_addr ∷ []

-- The next call of a chain has succeeded, and so has the rest.
then-ok :
    {B : Type 0} (os : Os) (socket : ℕ) (c : SocketCall) (rest : Result B) (b : B)
    → (os.call socket c >>= λ _. rest) ≡ ok b
    → (os.call socket c ≡ ok tt) × (rest ≡ ok b)
then-ok os socket c rest b h =
    let (_, e, h') = bind-ok (os.call socket c) (λ _. rest) b h in (e, h')

pub get_tcp_socket-IsGot :
    (os : Os) (socket : ℕ) → get_tcp_socket os ≡ ok socket → IsGot os connections tcp_calls socket
unfolding get_tcp_socket
get_tcp_socket-IsGot os socket h =
    let (s, made, h₀) = bind-ok (os.socket connections) _ socket h in
    let (c₁, h₁) = then-ok os s set_reuse_address _ socket h₀ in
    let (c₂, h₂) = then-ok os s set_reuse_port _ socket h₁ in
    let (c₃, h₃) = then-ok os s set_zero_linger _ socket h₂ in
    let (c₄, h₄) = then-ok os s (bind local_addr) _ socket h₃ in
    let same : s ≡ socket = cc h₄ in
    rw (sym same) (record { made = made; called = (c₁, (c₂, (c₃, (c₄, tt)))) })

pub get_udp_socket-IsGot :
    (os : Os) (target_addr : SocketAddr) (socket : ℕ)
    → get_udp_socket true os target_addr ≡ ok socket
    → IsGot os datagrams (udp_calls target_addr) socket
unfolding get_udp_socket set_reuse_port_on
get_udp_socket-IsGot os target_addr socket h =
    let (s, made, h₀) = bind-ok (os.socket datagrams) _ socket h in
    let (c₁, h₁) = then-ok os s set_reuse_port _ socket h₀ in
    let (c₂, h₂) = then-ok os s set_reuse_address _ socket h₁ in
    let (c₃, h₃) = then-ok os s set_nonblocking _ socket h₂ in
    let (c₄, h₄) = then-ok os s (set_recv_buffer_size buffer_size) _ socket h₃ in
    let (c₅, h₅) = then-ok os s (set_send_buffer_size buffer_size) _ socket h₄ in
    let (c₆, h₆) = then-ok os s (bind local_addr) _ socket h₅ in
    let (c₇, h₇) = then-ok os s from_std _ socket h₆ in
    let (c₈, h₈) = then-ok os s (connect target_addr) _ socket h₇ in
    let (c₉, h₉) = then-ok os s writable _ socket h₈ in
    let same : s ≡ socket = cc h₉ in
    rw (sym same)
      (record { made = made; called = (c₁, (c₂, (c₃, (c₄, (c₅, (c₆, (c₇, (c₈, (c₉, tt))))))))) })

-- An attempt that gives a socket, or one after it.
given :
    (r : Result ℕ) (rest : Result (Option ℕ)) (s : ℕ)
    → (elim r [ ok socket ↦ ok (some socket) | err _ ↦ rest | panic ↦ panic ]) ≡ ok (some s)
    → (r ≡ ok s) ⊎ (rest ≡ ok (some s))
given (ok a) rest s h = inl (let e : a ≡ s = cc h in ap (λ x. ok x) e)
given (err e) rest s h = inr h
given panic rest s h = cc

attempt-ok :
    (n i : ℕ) (get : ℕ → Result ℕ) (s : ℕ)
    → attempt n i get ≡ ok (some s)
    → (j : ℕ) × (get j ≡ ok s)
unfolding attempt
attempt-ok zero i get s h = cc
attempt-ok (suc n) i get s h = elim (given (get i) (attempt n (i + 1) get) s h) [
  | inl e ↦ (i, e)
  | inr rest ↦ attempt-ok n (i + 1) get s rest
]

connected-copies :
    (socket : ℕ) (r : Result (Result SocketAddr)) (s : ℕ) (addr : SocketAddr)
    → connected socket r ≡ copies s addr
    → (socket ≡ s) × (r ≡ ok (ok addr))
unfolding connected
connected-copies socket r s addr h = ground arith

-- `handle_stream` after its attempts.
attempted :
    (a : Result (Option ℕ)) (connect_to : ℕ → Result (Result SocketAddr)) (s : ℕ)
    (addr : SocketAddr)
    → (elim a [
      | ok socket ↦ elim socket [
        | none ↦ gives_up (shutdown ∷ [])
        | some s ↦ connected s (connect_to s)
      ]
      | err _ ↦ panics
      | panic ↦ panics
    ])
      ≡ copies s addr
    → (a ≡ ok (some s)) × (connect_to s ≡ ok (ok addr))
attempted (ok none) connect_to s addr h = cc
attempted (ok (some x)) connect_to s addr h =
    let (same, e) = connected-copies x (connect_to x) s addr h in
    (ap (λ y. ok (some y)) same, cc (same, e))
attempted (err e) connect_to s addr h = cc
attempted panic connect_to s addr h = cc

-- The bytes of a stream are copied only to a socket that one of the attempts got, of version 4, bound to any address
-- with its options set, and connected to the target.
pub copies-IsGot :
    (os : ℕ → Os) (connect_to : ℕ → Result (Result SocketAddr)) (s : ℕ) (addr : SocketAddr)
    → handle_stream (λ j. get_tcp_socket (os j)) connect_to ≡ copies s addr
    → (j : ℕ) × IsGot (os j) connections tcp_calls s × (connect_to s ≡ ok (ok addr))
unfolding handle_stream
copies-IsGot os connect_to s addr h =
    let get = λ (j : ℕ). get_tcp_socket (os j) in
    let (got, connected_to) = attempted (attempt 3 0 get) connect_to s addr h in
    let (j, e) = attempt-ok 3 0 get s got in (j, get_tcp_socket-IsGot (os j) s e, connected_to)
