-- ===== src/Egress/Streams.antt =====
-- client/egress/tcp_egress.rs: `handle_stream`, the task of a stream that the server has opened, up to the copying.
use siffleux.Prelude.{
  ℕ, zero, suc, ◌+◌, ◌≡◌, ◌⊎◌, inl, inr, refl, Option, none, some, List, [], ◌∷◌,
}
use siffleux.Error.{Error, Result, ok, err, panic}
use siffleux.Frames.{SocketAddr}
use siffleux.Protocol.Copying.{Call, shutdown}

-- `for _ in 0..3 { if let Ok(socket) = get_tcp_socket() … }`: what the calls return is given by their number.
unfoldable pub attempt : ℕ → ℕ → (ℕ → Result ℕ) → Result (Option ℕ)
attempt zero i get_tcp_socket = ok none
attempt (suc left) i get_tcp_socket =
    let rest = attempt left (i + 1) get_tcp_socket in
    elim (get_tcp_socket i) [ ok socket ↦ ok (some socket) | err _ ↦ rest | panic ↦ panic ]

-- What becomes of the stream: its bytes are copied to a socket, whose peer has an address, or the calls on the
-- tunnel's write end, or a panic.
pub data StreamEnd : Type 0 where
  copies : ℕ → SocketAddr → StreamEnd
  gives_up : List Call → StreamEnd
  panics : StreamEnd

-- `set_nodelay(true).unwrap()` and `peer_addr().unwrap()`: the address, or an error.
unfoldable pub connected : ℕ → Result (Result SocketAddr) → StreamEnd
connected socket (ok (ok addr)) = copies socket addr
connected socket (ok (err e)) = panics
connected socket (ok panic) = panics
connected socket (err e) = gives_up (shutdown ∷ [])
connected socket panic = panics

-- `connect` is what connecting each socket to the target returns.
unfoldable pub handle_stream : (ℕ → Result ℕ) → (ℕ → Result (Result SocketAddr)) → StreamEnd
unfolding attempt connected
handle_stream get_tcp_socket connect = elim (attempt 3 0 get_tcp_socket) [
  | ok socket ↦ elim socket [ none ↦ gives_up (shutdown ∷ []) | some s ↦ connected s (connect s) ]
  | err _ ↦ panics
  | panic ↦ panics
]

-- The first of `n` attempts from the `i`-th on that gives a socket gives this one; the ones before it fail.
abbrev pub FirstWithin : ℕ → ℕ → (ℕ → Result ℕ) → ℕ → Type 0
FirstWithin zero i get socket = ⊥
FirstWithin (suc n) i get socket =
    (get i ≡ ok socket) ⊎ ((e : Error) × (get i ≡ err e) × FirstWithin n (i + 1) get socket)

abbrev pub AllFail : ℕ → ℕ → (ℕ → Result ℕ) → Type 0
AllFail zero i get = Unit
AllFail (suc n) i get = (e : Error) × (get i ≡ err e) × AllFail n (i + 1) get

-- The call returns a value or an error.
abbrev pub Returns : Result ℕ → Type 0
Returns r = ((s : ℕ) × (r ≡ ok s)) ⊎ ((e : Error) × (r ≡ err e))

attempt_lem :
    (n i : ℕ) (get : ℕ → Result ℕ)
    → ((j : ℕ) → Returns (get j))
    → ((s : ℕ) × FirstWithin n i get s × (attempt n i get ≡ ok (some s)))
      ⊎ (AllFail n i get × (attempt n i get ≡ ok none))
unfolding attempt
attempt_lem zero i get total = inr (tt, refl)
attempt_lem (suc n) i get total = elim (total i) [
  | inl (s, e) ↦ inl (s, inl e, rw (e, attempt))
  | inr (x, e) ↦ elim (attempt_lem n (i + 1) get total) [
    | inl (s, f, r) ↦ inl (s, inr (x, e, f), rw (e, attempt) r)
    | inr (f, r) ↦ inr ((x, e, f), rw (e, attempt) r)
  ]
]

-- When getting a socket always returns: the stream goes to the first socket that one of three attempts gives, as
-- connecting it turns out; if all three fail, the tunnel's stream is shut down.
pub handle_stream_lem :
    (get : ℕ → Result ℕ) (connect : ℕ → Result (Result SocketAddr))
    → ((j : ℕ) → Returns (get j))
    → ((s : ℕ) × FirstWithin 3 0 get s × (handle_stream get connect ≡ connected s (connect s)))
      ⊎ (AllFail 3 0 get × (handle_stream get connect ≡ gives_up (shutdown ∷ [])))
unfolding handle_stream
handle_stream_lem get connect total = elim (attempt_lem 3 0 get total) [
  | inl (s, f, r) ↦ inl (s, f, rw (r, handle_stream))
  | inr (f, r) ↦ inr (f, rw (r, handle_stream))
]
