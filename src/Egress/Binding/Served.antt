-- ===== src/Egress/Binding/Served.antt =====
-- client/egress/tcp_egress.rs: `handle_stream` with `get_tcp_socket`.
use siffleux.Prelude.{ℕ, zero, suc, ◌+◌, ◌≡◌, ◌≢◌, ◌⊎◌, inl, inr, refl, [], ◌∷◌}
use siffleux.Error.{Error, Result, ok, err, panic, ◌>>=◌}
use siffleux.Frames.{SocketAddr}
use siffleux.Protocol.Copying.{shutdown}
use siffleux.Egress.Streams.{
  StreamEnd, copies, panics, AllFail, FirstWithin, Returns, connected, gives_up, handle_stream,
  handle_stream_lem,
}
use siffleux.Egress.Binding.{
  Os, Kind, SocketCall, connections, bind, local_addr, get_tcp_socket, set_reuse_address,
  set_reuse_port, set_zero_linger,
}
use siffleux.Egress.Binding.Got.{IsGot, tcp_calls, get_tcp_socket-IsGot}

-- No call of the operating system panics.
pub record IsAnswering (os : Os) : Type 0 where
  pub socket_answers : (kind : Kind) → os.socket kind ≢ panic
  pub call_answers : (socket : ℕ) (c : SocketCall) → os.call socket c ≢ panic

bind-answers :
    {A B : Type 0} (m : Result A) (f : A → Result B)
    → m ≢ panic
    → ((a : A) → f a ≢ panic)
    → (m >>= f) ≢ panic
bind-answers (ok a) f m_answers f_answers = f_answers a
bind-answers (err e) f m_answers f_answers = λ h. cc h
bind-answers panic f m_answers f_answers = λ h. m_answers refl

ok-answers : {A : Type 0} (a : A) → Result.ok a ≢ panic
ok-answers a h = cc h

get_tcp_socket-answers : (os : Os) → IsAnswering os → get_tcp_socket os ≢ panic
unfolding get_tcp_socket
get_tcp_socket-answers os a =
    bind-answers (os.socket connections) _ (a.socket_answers connections) (λ s.
      bind-answers (os.call s set_reuse_address) _ (a.call_answers s set_reuse_address) (λ _.
        bind-answers (os.call s set_reuse_port) _ (a.call_answers s set_reuse_port) (λ _.
          bind-answers (os.call s set_zero_linger) _ (a.call_answers s set_zero_linger) (λ _.
            bind-answers (os.call s (bind local_addr)) _ (a.call_answers s (bind local_addr))
              (λ _. ok-answers s)))))

answers-Returns : (r : Result ℕ) → r ≢ panic → Returns r
answers-Returns (ok s) h = inl (s, refl)
answers-Returns (err e) h = inr (e, refl)
answers-Returns panic h = absurd (h refl)

-- The first of `n` attempts from the `i`-th on that gives a socket gives this one, a socket of version 4 with its
-- options set that is bound to any address and port; the ones before it fail.
abbrev pub FirstServed : ℕ → ℕ → (ℕ → Os) → ℕ → Type 0
FirstServed zero i os s = ⊥
FirstServed (suc n) i os s =
    ((get_tcp_socket (os i) ≡ ok s) × IsGot (os i) connections tcp_calls s)
    ⊎ ((e : Error) × (get_tcp_socket (os i) ≡ err e) × FirstServed n (i + 1) os s)

served-first :
    (n i : ℕ) (os : ℕ → Os) (s : ℕ)
    → FirstWithin n i (λ j. get_tcp_socket (os j)) s
    → FirstServed n i os s
served-first zero i os s f = f
served-first (suc n) i os s (inl e) = inl (e, get_tcp_socket-IsGot (os i) s e)
served-first (suc n) i os s (inr (x, e, f)) = inr (x, e, served-first n (i + 1) os s f)

-- How a stream ends that got a socket, by what connecting the socket to the target gives: the peer's address, an error of
-- the connection, or a connection without an address or a panic.
pub data Serving (s : ℕ) : Result (Result SocketAddr) → StreamEnd → Type 0 where
  copied : (addr : SocketAddr) → Serving s (ok (ok addr)) (copies s addr)
  not_connected : (e : Error) → Serving s (err e) (gives_up (shutdown ∷ []))
  no_address : (e : Error) → Serving s (ok (err e)) panics
  address_panics : Serving s (ok panic) panics
  connect_panics : Serving s panic panics

connected-Serving : (s : ℕ) (r : Result (Result SocketAddr)) → Serving s r (connected s r)
unfolding connected
connected-Serving s (ok (ok addr)) = copied addr
connected-Serving s (ok (err e)) = no_address e
connected-Serving s (ok panic) = address_panics
connected-Serving s (err e) = not_connected e
connected-Serving s panic = connect_panics

-- When no call of the operating system panics: the stream goes to the first socket that one of three attempts gives, which
-- is of version 4 with its options set and bound to any address and port. If connecting it to the target gives a
-- peer with an address, the bytes are copied to it; if connecting fails, the tunnel's stream is shut down; if the address
-- is not known, the task panics. If all three attempts fail, the tunnel's stream is shut down.
pub stream_served :
    (os : ℕ → Os) (connect : ℕ → Result (Result SocketAddr))
    → ((j : ℕ) → IsAnswering (os j))
    → let get = λ (j : ℕ). get_tcp_socket (os j) in
      ((s : ℕ) × FirstServed 3 0 os s × Serving s (connect s) (handle_stream get connect))
      ⊎ (AllFail 3 0 get × (handle_stream get connect ≡ gives_up (shutdown ∷ [])))
stream_served os connect answering =
    let get = λ (j : ℕ). get_tcp_socket (os j) in
    let total = λ (j : ℕ). answers-Returns (get j) (get_tcp_socket-answers (os j) (answering j)) in
    elim (handle_stream_lem get connect total) [
      | inl (s, first, served) ↦
          inl (s, served-first 3 0 os s first, rw served (connected-Serving s (connect s)))
      | inr failed ↦ inr failed
    ]
