-- ===== src/System/Kept.antt =====
-- What a server keeps whatever happens to it: its endpoint, and the ids of its ingresses.
use siffleux.Prelude.{
  ◌≡◌, inl, inr, refl, ◌∙◌, some, List, [], ◌∷◌, arith, Bool-cases, bytes_beq, Option-cases,
}
use siffleux.Ids.Names.{IngressId}
use siffleux.ByteCounter.{Counters}
use siffleux.Ingress.Boxed
use siffleux.Ingress.Boxed.{BoxedIngress, boxed_ingress}
use siffleux.Server.{Server, get_ingress_by_id, update_ingress}
use siffleux.Server.Connection.{Meeting, handle_connection}
use siffleux.System.{
  tunnel_read, listened, Happening, connected, tunnel_ended, stream_accepted, socket_read,
  ingress_started, ingress_stopped, World, in_ingress, uncounted, step, run,
}
use siffleux.Server.Registry.{get-update}
use siffleux.System.Connections.{connection-cases}

-- The endpoint stays whatever happens.
endpoint-update :
    (k : IngressId) (i : BoxedIngress) (s : Server BoxedIngress)
    → (update_ingress k i s).endpoint ≡ s.endpoint
unfolding update_ingress
endpoint-update k i s = ground arith

endpoint-connection :
    (s : Server BoxedIngress) (cs : Counters) (m : Meeting)
    → (handle_connection s cs m).server.endpoint ≡ s.endpoint
endpoint-connection s cs m = elim (connection-cases s cs m) [
  | inl e ↦ rw e refl
  | inr t ↦
      rw t.taken (endpoint-update (Boxed.id t.ingress) (Boxed.assign_tunnel t.tunnel t.ingress).1 s)
]

endpoint-in_ingress :
    (k : IngressId) (f : BoxedIngress → Counters → BoxedIngress × Counters) (w : World)
    → (in_ingress k f w).0.endpoint ≡ w.0.endpoint
unfolding in_ingress
endpoint-in_ingress k f (s, cs) = elim (Option-cases (get_ingress_by_id k s)) [
  | inl e ↦ rw (e, in_ingress) refl
  | inr (i, e) ↦ rw (e, in_ingress) (endpoint-update k (f i cs).0 s)
]

endpoint-step : (e : Happening) (w : World) → (step e w).0.endpoint ≡ w.0.endpoint
unfolding step
endpoint-step (connected m) w = endpoint-connection w.0 w.1 m
endpoint-step (tunnel_ended k t) w = endpoint-in_ingress k (uncounted (Boxed.on_closed t)) w
endpoint-step (stream_accepted k p o) w = endpoint-in_ingress k (Boxed.handle_stream p o) w
endpoint-step (socket_read k event) w =
    endpoint-in_ingress k (uncounted (Boxed.socket_turn event)) w
endpoint-step (ingress_started k b) w =
    endpoint-in_ingress k (uncounted (λ i. (Boxed.start b i).1)) w
endpoint-step (ingress_stopped k) w = endpoint-in_ingress k (uncounted (λ i. (Boxed.stop i).1)) w
endpoint-step (listened k l d event) w =
    endpoint-in_ingress k (uncounted (Boxed.loop_turn l d event)) w
endpoint-step (tunnel_read event) w = refl

pub endpoint-run : (past : List Happening) (w : World) → (run past w).0.endpoint ≡ w.0.endpoint
unfolding run
endpoint-run [] w = refl
endpoint-run (e ∷ past) w = endpoint-step e (run past w) ∙ endpoint-run past w

-- An id that is found stays found whatever happens.
abbrev pub Found : IngressId → Server BoxedIngress → Type 0
Found k s = (i : BoxedIngress) × (get_ingress_by_id k s ≡ some i)

Found-update :
    (j k : IngressId) (i : BoxedIngress) (s : Server BoxedIngress)
    → Found j s
    → Found j (update_ingress k i s)
unfolding get_ingress_by_id update_ingress
Found-update j k i s (a, found) = elim (Option-cases (get_ingress_by_id k s)) [
  | inl e ↦ (a, rw (e, update_ingress) found)
  | inr (old, e) ↦ elim (Bool-cases (bytes_beq k.value j.value)) [
    | inl same ↦ (i, ground (arith, get-update k i s j e))
    | inr other ↦ (a, ground (arith, get-update k i s j e))
  ]
]

Found-in_ingress :
    (j k : IngressId) (f : BoxedIngress → Counters → BoxedIngress × Counters) (w : World)
    → Found j w.0
    → Found j (in_ingress k f w).0
unfolding in_ingress
Found-in_ingress j k f (s, cs) h = elim (Option-cases (get_ingress_by_id k s)) [
  | inl e ↦ rw (e, in_ingress) h
  | inr (i, e) ↦ rw (e, in_ingress) (Found-update j k (f i cs).0 s h)
]

Found-connection :
    (j : IngressId) (s : Server BoxedIngress) (cs : Counters) (m : Meeting)
    → Found j s
    → Found j (handle_connection s cs m).server
Found-connection j s cs m h = elim (connection-cases s cs m) [
  | inl e ↦ rw e h
  | inr t ↦
      rw t.taken
        (Found-update j (Boxed.id t.ingress) (Boxed.assign_tunnel t.tunnel t.ingress).1 s h)
]

Found-step : (j : IngressId) (e : Happening) (w : World) → Found j w.0 → Found j (step e w).0
unfolding step
Found-step j (connected m) w h = Found-connection j w.0 w.1 m h
Found-step j (tunnel_ended k t) w h = Found-in_ingress j k (uncounted (Boxed.on_closed t)) w h
Found-step j (stream_accepted k p o) w h = Found-in_ingress j k (Boxed.handle_stream p o) w h
Found-step j (socket_read k event) w h =
    Found-in_ingress j k (uncounted (Boxed.socket_turn event)) w h
Found-step j (ingress_started k b) w h =
    Found-in_ingress j k (uncounted (λ i. (Boxed.start b i).1)) w h
Found-step j (ingress_stopped k) w h = Found-in_ingress j k (uncounted (λ i. (Boxed.stop i).1)) w h
Found-step j (listened k l d event) w h =
    Found-in_ingress j k (uncounted (Boxed.loop_turn l d event)) w h
Found-step j (tunnel_read event) w h = h

pub Found-run :
    (j : IngressId) (past : List Happening) (w : World) → Found j w.0 → Found j (run past w).0
unfolding run
Found-run j [] w h = h
Found-run j (e ∷ past) w h = Found-step j e (run past w) (Found-run j past w h)
