-- ===== src/Ingress/Udp/Lifecycle.antt =====
-- siffleux/src/server/ingress/udp_ingress.rs: the tasks of an ingress and its tokens, over its whole life.
use mathlib.Core.List.{Memᴰ}
use mathlib.Core.List.Memᴰ.{head, tail}
use siffleux.Prelude.{
  Option-cases, ℕ, ◌≡◌, ◌⊎◌, inl, inr, refl, none, some, List, [], ◌∷◌, All, All-map,
}
use siffleux.Error.{Result, ok, err, panic}
use siffleux.Ids.Names.{IngressId, AuthKey}
use siffleux.Frames.{SocketAddr}
use siffleux.Tunnel.{Tunnel}
use siffleux.Ingress.Trait.{Bound}
use siffleux.Ingress.Pool
use siffleux.Ingress.Udp
use siffleux.Ingress.Udp.{arith, UdpIngress, bind, start, stop, assign_tunnel, get_socket_addr}

-- What can happen to an ingress: a method is called, or one of its tunnels ends.
pub data UdpCall : Type 0 where
  starts : Bound → UdpCall
  stops : UdpCall
  assigns : Tunnel → UdpCall
  ends : Tunnel → UdpCall

unfoldable pub call : UdpCall → UdpIngress → UdpIngress
unfolding start stop assign_tunnel
call (starts bound) s = (start bound s).1
call stops s = (stop s).1
call (assigns tunnel) s = (assign_tunnel tunnel s).1
call (ends tunnel) s = record s { pool = Pool.on_closed tunnel s.pool }

unfoldable pub call_all : List UdpCall → UdpIngress → UdpIngress
unfolding call
call_all [] s = s
call_all (c ∷ calls) s = call_all calls (call c s)

-- The token of a task is cancelled, or its socket and its token are those that the ingress holds.
abbrev Tied : UdpIngress → ℕ × ℕ → Type 0
Tied s task = Memᴰ task.1 s.cancelled ⊎ (s.udp_socket ≡ some task)

record IsTied (s : UdpIngress) : Type 0 where
  pub loops_tied : All (Tied s) s.loops
  pub readers_tied : All (λ r. Tied s (r.1, r.2)) s.readers

-- What keeps the ties of every task, keeps those of all.
kept :
    (s s' : UdpIngress)
    → ((task : ℕ × ℕ) → Tied s task → Tied s' task)
    → s'.loops ≡ s.loops
    → s'.readers ≡ s.readers
    → IsTied s
    → IsTied s'
kept s s' keeps loops readers h = record {
  loops_tied = rw loops (All-map keeps s.loops h.loops_tied);
  readers_tied = rw readers (All-map (λ r. keeps (r.1, r.2)) s.readers h.readers_tied);
}

-- Without a socket every token is cancelled, and stays so.
cancelled_stays :
    (s s' : UdpIngress) (task : ℕ × ℕ)
    → s.udp_socket ≡ none
    → s'.cancelled ≡ s.cancelled
    → Tied s task
    → Tied s' task
cancelled_stays s s' task free same (inl m) = inl (rw same m)
cancelled_stays s s' task free same (inr held) = cc

bind-IsTied :
    (bound : Bound) (s : UdpIngress) → s.udp_socket ≡ none → IsTied s → IsTied (bind bound s).1
unfolding bind
bind-IsTied (err e) s free h = h
bind-IsTied panic s free h = h
bind-IsTied (ok (socket, ok addr)) s free h =
    let s' = (bind (ok (socket, ok addr)) s).1 in
    let old =
      kept s (record s' { loops = s.loops }) (λ task. cancelled_stays s s' task free refl) refl refl
        h in
    record { loops_tied = (inr refl, old.loops_tied); readers_tied = old.readers_tied }
bind-IsTied (ok (socket, err e)) s free h =
    let s' = (bind (ok (socket, err e)) s).1 in
    kept s s' (λ task. cancelled_stays s s' task free refl) refl refl h
bind-IsTied (ok (socket, panic)) s free h =
    let s' = (bind (ok (socket, panic)) s).1 in
    kept s s' (λ task. cancelled_stays s s' task free refl) refl refl h

-- What the methods do with a socket and without one.
start_free : (bound : Bound) (s : UdpIngress) → s.udp_socket ≡ none → start bound s ≡ bind bound s
unfolding start
start_free bound s free = ground (arith, free)

start_held :
    (bound : Bound) (s : UdpIngress) (task : ℕ × ℕ)
    → s.udp_socket ≡ some task
    → (start bound s).1 ≡ s
unfolding start
start_held bound s task held = ground (arith, held)

stop_free : (s : UdpIngress) → s.udp_socket ≡ none → (stop s).1 ≡ s
unfolding stop
stop_free s free = ground (arith, free)

stop_held :
    (s : UdpIngress) (socket token : ℕ)
    → s.udp_socket ≡ some (socket, token)
    → (stop s).1 ≡ record s { udp_socket = none; cancelled = token ∷ s.cancelled }
unfolding stop
stop_held s socket token held = ground (arith, held)

assign_free : (t : Tunnel) (s : UdpIngress) → s.udp_socket ≡ none → (assign_tunnel t s).1 ≡ s
unfolding assign_tunnel
assign_free t s free = ground (arith, free)

assign_held :
    (t : Tunnel) (s : UdpIngress) (socket token : ℕ)
    → s.udp_socket ≡ some (socket, token)
    → (assign_tunnel t s).1 ≡ record s {
      readers = (t, socket, token) ∷ s.readers;
      watchers = t ∷ s.watchers;
      pool = Pool.push t s.pool;
    }
unfolding assign_tunnel
assign_held t s socket token held = ground (arith, held)

start-IsTied : (bound : Bound) (s : UdpIngress) → IsTied s → IsTied (start bound s).1
start-IsTied bound s h = elim (Option-cases s.udp_socket) [
  | inl free ↦ rw (start_free bound s free) (bind-IsTied bound s free h)
  | inr (task, held) ↦ rw (start_held bound s task held) h
]

stop-IsTied : (s : UdpIngress) → IsTied s → IsTied (stop s).1
stop-IsTied s h = elim (Option-cases s.udp_socket) [
  | inl free ↦ rw (stop_free s free) h
  | inr ((socket, token), held) ↦ rw (stop_held s socket token held) (
      kept s (record s { udp_socket = none; cancelled = token ∷ s.cancelled })
        (λ task tied. elim tied [ inl m ↦ inl (tail m) | inr now ↦ inl (head (cc (now, held))) ])
        refl refl h)
]

assign-IsTied : (t : Tunnel) (s : UdpIngress) → IsTied s → IsTied (assign_tunnel t s).1
assign-IsTied t s h = elim (Option-cases s.udp_socket) [
  | inl free ↦ rw (assign_free t s free) h
  | inr ((socket, token), held) ↦
      rw (assign_held t s socket token held)
        (record { loops_tied = h.loops_tied; readers_tied = (inr held, h.readers_tied) })
]

call-IsTied : (c : UdpCall) (s : UdpIngress) → IsTied s → IsTied (call c s)
unfolding call
call-IsTied (starts bound) s h = start-IsTied bound s h
call-IsTied stops s h = stop-IsTied s h
call-IsTied (assigns tunnel) s h = assign-IsTied tunnel s h
call-IsTied (ends tunnel) s h = record { loops_tied = h.loops_tied; readers_tied = h.readers_tied }

call_all-IsTied : (calls : List UdpCall) (s : UdpIngress) → IsTied s → IsTied (call_all calls s)
unfolding call_all
call_all-IsTied [] s h = h
call_all-IsTied (c ∷ calls) s h = call_all-IsTied calls (call c s) (call-IsTied c s h)

cancelled_if_free :
    (s : UdpIngress) (task : ℕ × ℕ) → s.udp_socket ≡ none → Tied s task → Memᴰ task.1 s.cancelled
cancelled_if_free s task free (inl m) = m
cancelled_if_free s task free (inr held) = absurd (cc (free, held))

-- However starting, stopping, assigning tunnels and their ends follow one another: whenever the ingress has no socket, the
-- token of every task that it ever spawned is cancelled, both of those that read a socket and of those that
-- read a tunnel.
pub no_socket_no_task :
    (id : IngressId) (auth_key : AuthKey) (addr : SocketAddr) (calls : List UdpCall)
    → let s = call_all calls (Udp.new id auth_key addr) in
      s.udp_socket ≡ none
      → All (λ l. Memᴰ l.1 s.cancelled) s.loops × All (λ r. Memᴰ r.2 s.cancelled) s.readers
unfolding Udp.new
no_socket_no_task id auth_key addr calls free =
    let s = call_all calls (Udp.new id auth_key addr) in
    let h =
      call_all-IsTied calls (Udp.new id auth_key addr)
        (record { loops_tied = tt; readers_tied = tt }) in
    (
      All-map (λ l. cancelled_if_free s l free) s.loops h.loops_tied,
      All-map (λ r. cancelled_if_free s (r.1, r.2) free) s.readers h.readers_tied,
    )

-- A start of an ingress without a socket that binds one shows its address, and a stop after it hides the address
-- again.
pub address_while_listening :
    (local_addr : ℕ → Result SocketAddr) (socket : ℕ) (addr : SocketAddr) (s : UdpIngress)
    → s.udp_socket ≡ none
    → local_addr socket ≡ ok addr
    → let started = (start (ok (socket, ok addr)) s).1 in
      (get_socket_addr local_addr started ≡ ok (some addr))
      × (get_socket_addr local_addr (stop started).1 ≡ ok none)
unfolding start bind stop get_socket_addr
address_while_listening local_addr socket addr s free known =
    (ground (arith, free, known), ground (arith, free, known))
