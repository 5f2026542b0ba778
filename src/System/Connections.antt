-- ===== src/System/Connections.antt =====
-- siffleux/src/server/server.rs: when a connection changes the registry.
use siffleux.Prelude.{ℕ, ◌≡◌, ◌⊎◌, inl, inr, refl}
use siffleux.Error.{Result, ok, err, panic}
use siffleux.ByteCounter.{Counters}
use siffleux.Tunnel.{Tunnel}
use siffleux.Ingress.Boxed
use siffleux.Ingress.Boxed.{BoxedIngress, boxed_ingress}
use siffleux.Server.{Server, update_ingress}
use siffleux.Server.Auth.{handle_server_protocol_v1_auth}
use siffleux.Server.Connection.{Meeting, handle_connection, serve_tunnel}

-- The handshake has succeeded, and the ingress takes the tunnel.
pub record Takes (s : Server BoxedIngress) (cs : Counters) (m : Meeting) : Type 0 where
  pub connection : ℕ
  pub ingress : BoxedIngress
  pub tunnel : Tunnel
  pub accepted :
      (handle_server_protocol_v1_auth s connection m.tunnel_id m.written cs m.event).result
      ≡ ok (ingress, tunnel)
  pub taken :
      (handle_connection s cs m).server
      ≡ update_ingress (Boxed.id ingress) (Boxed.assign_tunnel tunnel ingress).1 s

-- A connection leaves the registry as it is, or its handshake has succeeded and the ingress takes the tunnel.
pub connection-cases :
    (s : Server BoxedIngress) (cs : Counters) (m : Meeting)
    → ((handle_connection s cs m).server ≡ s) ⊎ Takes s cs m
unfolding handle_connection serve_tunnel
connection-cases s cs m = go m.incoming m.accepted refl refl
  where
    served :
        (connection : ℕ) (r : Result (BoxedIngress × Tunnel))
        → m.incoming ≡ ok connection
        → m.accepted ≡ ok tt
        → (handle_server_protocol_v1_auth s connection m.tunnel_id m.written cs m.event).result ≡ r
        → ((handle_connection s cs m).server ≡ s) ⊎ Takes s cs m
    served connection (err e) hi ha h = inl (rw (hi, handle_connection, ha, h, serve_tunnel) refl)
    served connection panic hi ha h = inl (rw (hi, handle_connection, ha, h, serve_tunnel) refl)
    served connection (ok (ingress, tunnel)) hi ha h = inr (record {
      connection = connection;
      ingress = ingress;
      tunnel = tunnel;
      accepted = h;
      taken = rw (hi, handle_connection, ha, h, serve_tunnel) refl;
    })

    go :
        (i : Result ℕ) (a : Result (Unit {0}))
        → m.incoming ≡ i
        → m.accepted ≡ a
        → ((handle_connection s cs m).server ≡ s) ⊎ Takes s cs m
    go (err e) a hi ha = inl (rw (hi, handle_connection) refl)
    go panic a hi ha = inl (rw (hi, handle_connection) refl)
    go (ok c) (err e) hi ha = inl (rw (hi, handle_connection, ha) refl)
    go (ok c) panic hi ha = inl (rw (hi, handle_connection, ha) refl)
    go (ok c) (ok u) hi ha =
        served c (handle_server_protocol_v1_auth s c m.tunnel_id m.written cs m.event).result hi ha
          refl
