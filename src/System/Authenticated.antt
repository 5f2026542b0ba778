-- ===== src/System/Authenticated.antt =====
-- The whole server of siffleux/src/server/server.rs: through which tunnels an ingress ever sends.
use mathlib.Core.List.{[]}
use mathlib.Core.List.Memᴰ.{head}
use siffleux.Prelude.{◌≡◌, inl, inr, refl, sym, some, List, ◌∷◌, All}
use siffleux.Ids.Names.{IngressId}
use siffleux.Ingress.Boxed
use siffleux.Ingress.Boxed.{BoxedIngress, boxed_ingress}
use siffleux.Server.{Server, get_ingress_by_id}
use siffleux.Server.Registry.{IsWellFormed}
use siffleux.Server.Connection.{Meeting, handle_connection}
use siffleux.System.Connections.{connection-cases}
use siffleux.Server.Auth.Outcomes.{auth_sound}
use siffleux.System.{
  tunnel_read, listened, ingress_started, ingress_stopped, ingress_started, socket_read,
  stream_accepted, tunnel_ended, step, run, uncounted, Happening, connected, World,
}
use siffleux.System.Granted.{
  Granted, Authenticated, same-Authenticated, update-Authenticated, in_ingress-Authenticated,
}
use siffleux.System.Pools.{
  All-assign_tunnel, stop-Keeps, start-Keeps, loop_turn-Keeps, socket_turn-Keeps,
  handle_stream-Keeps, on_closed-Keeps,
}

connected-Authenticated :
    {start : Server BoxedIngress} {past : List Happening} (m : Meeting) (w : World)
    → Authenticated start past w.0
    → Authenticated start (connected m ∷ past) (handle_connection w.0 w.1 m).server
connected-Authenticated {start} {past} m (s, cs) a = elim (connection-cases s cs m) [
  | inl e ↦ rw e (same-Authenticated (connected m) a)
  | inr t ↦
      let b = same-Authenticated (connected m) a in
      let ingress = t.ingress in
      let c =
        auth_sound s t.connection m.tunnel_id m.written cs m.event ingress t.tunnel t.accepted in
      let own : c.ingress_id ≡ Boxed.id ingress =
        sym (a.keyed.keyed c.ingress_id ingress c.found) in
      let found : get_ingress_by_id (Boxed.id ingress) s ≡ some ingress = rw (sym own) c.found in
      let key = Boxed.auth_key-assign t.tunnel ingress in
      let grant : Granted (connected m ∷ past) (Boxed.id ingress) (Boxed.auth_key ingress)
          t.tunnel =
        record {
          meeting = m;
          happened = head refl;
          asked = rw (c.right_key, sym own) c.asked;
          same_id = c.same_id;
        } in
      rw t.taken (
        update-Authenticated (Boxed.id ingress) ingress (Boxed.assign_tunnel t.tunnel ingress).1 b
          found (Boxed.id-assign t.tunnel ingress) key
          (rw key (
            All-assign_tunnel
              (Granted (connected m ∷ past) (Boxed.id ingress) (Boxed.auth_key ingress)) t.tunnel
              ingress (b.granted (Boxed.id ingress) ingress found) grant)))
]

step-Authenticated :
    {start : Server BoxedIngress} {past : List Happening} (e : Happening) (w : World)
    → Authenticated start past w.0
    → Authenticated start (e ∷ past) (step e w).0
unfolding step
step-Authenticated (connected m) w a = connected-Authenticated m w a
step-Authenticated (tunnel_ended k t) w a =
    in_ingress-Authenticated k (uncounted (Boxed.on_closed t)) w (λ i cs. on_closed-Keeps t i)
      (same-Authenticated (tunnel_ended k t) a)
step-Authenticated (stream_accepted k peer opened) w a =
    in_ingress-Authenticated k (Boxed.handle_stream peer opened) w (handle_stream-Keeps peer opened)
      (same-Authenticated (stream_accepted k peer opened) a)
step-Authenticated (socket_read k event) w a =
    in_ingress-Authenticated k (uncounted (Boxed.socket_turn event)) w
      (λ i cs. socket_turn-Keeps event i) (same-Authenticated (socket_read k event) a)
step-Authenticated (ingress_started k bound) w a =
    in_ingress-Authenticated k (uncounted (λ i. (Boxed.start bound i).1)) w
      (λ i cs. start-Keeps bound i) (same-Authenticated (ingress_started k bound) a)
step-Authenticated (ingress_stopped k) w a =
    in_ingress-Authenticated k (uncounted (λ i. (Boxed.stop i).1)) w (λ i cs. stop-Keeps i)
      (same-Authenticated (ingress_stopped k) a)
step-Authenticated (listened k l d event) w a =
    in_ingress-Authenticated k (uncounted (Boxed.loop_turn l d event)) w
      (λ i cs. loop_turn-Keeps l d event i) (same-Authenticated (listened k l d event) a)
step-Authenticated (tunnel_read event) w a = same-Authenticated (tunnel_read event) a

-- A server whose ingresses lie under their own ids and have no tunnel yet.
pub record IsFresh (s : Server BoxedIngress) : Type 0 where
  pub keyed : IsWellFormed s
  pub no_tunnels :
      (k : IngressId) (i : BoxedIngress)
      → get_ingress_by_id k s ≡ some i
      → (Boxed.pool i).tunnels ≡ []

run-Authenticated :
    (w : World) (past : List Happening) → IsFresh w.0 → Authenticated w.0 past (run past w).0
unfolding run
run-Authenticated w [] f = record {
  keyed = f.keyed;
  same_key = λ k i h. (i, h, refl);
  granted = λ k i h. rw (f.no_tunnels k i h) tt;
}
run-Authenticated w (e ∷ past) f = step-Authenticated e (run past w) (run-Authenticated w past f)

-- Whatever has happened to a server that started without tunnels, an ingress has the key that the ingress
-- of its id had at the start, and each of its tunnels has the id that was made for a connection whose
-- first frame named this ingress and held this key.
pub tunnels_authenticated :
    (w : World) (past : List Happening) (k : IngressId) (i : BoxedIngress)
    → IsFresh w.0
    → get_ingress_by_id k (run past w).0 ≡ some i
    → (i₀ : BoxedIngress) × (get_ingress_by_id k w.0 ≡ some i₀)
      × All (Granted past k (Boxed.auth_key i₀)) (Boxed.pool i).tunnels
tunnels_authenticated w past k i f h =
    let a = run-Authenticated w past f in
    let (i₀, g, key) = a.same_key k i h in (i₀, g, rw (sym key) (a.granted k i h))
