-- ===== src/Server/Auth/Outcomes.antt =====
-- siffleux/src/server/protocols/v1.rs: which connections get a tunnel.
use siffleux.Prelude.{ℕ, ◌≡◌, refl, none, some, [], ◌∷◌, arith}
use siffleux.Error.{Result, ok, err, panic}
use siffleux.Ids.Names.{AuthKey, IngressId, auth_key_beq_iff}
use siffleux.Frames.{Uuid, auth, authenticated, ping, pong}
use siffleux.ByteCounter.{Counters}
use siffleux.Tunnel
use siffleux.Tunnel.{Tunnel}
use siffleux.Ingress.Trait.{Ingress}
use siffleux.Protocol.{AuthEvent, AuthOutcome}
use siffleux.Server.{Server, get_ingress_by_id}
use siffleux.Server.Auth.{handle_server_protocol_v1_auth}

module _ {I : Type 0} ⦃t : Ingress I⦄ where
  -- What a successful handshake has checked and done.
  pub record Accepted (server : Server I) (tunnel_id : Uuid) (event : AuthEvent) (ingress : I)
      (tunnel : Tunnel) (outcome : AuthOutcome (I × Tunnel)) : Type 0 where
    pub auth_key : AuthKey
    pub ingress_id : IngressId
    pub asked : event ≡ AuthEvent.frame (ok (auth auth_key ingress_id))
    pub found : get_ingress_by_id ingress_id server ≡ some ingress
    pub right_key : t.auth_key ingress ≡ auth_key
    pub same_id : tunnel.id ≡ tunnel_id
    pub same_server : tunnel.server_id ≡ server.id
    pub answered : outcome.sent ≡ authenticated tunnel_id server.id ∷ []
    pub kept_open : outcome.close ≡ none

  -- A handshake succeeds only after an auth frame for an ingress of the registry with this
  -- ingress's key; the tunnel then has the new id and the server's own, the answer is written once,
  -- and the connection is not closed.
  pub auth_sound :
      (server : Server I) (connection : ℕ) (tunnel_id : Uuid) (written : Result (Unit {0}))
      (cs : Counters) (event : AuthEvent) (ingress : I) (tunnel : Tunnel)
      → (handle_server_protocol_v1_auth server connection tunnel_id written cs event).result
        ≡ ok (ingress, tunnel)
      → Accepted server tunnel_id event ingress tunnel
          (handle_server_protocol_v1_auth server connection tunnel_id written cs event)
  unfolding handle_server_protocol_v1_auth Tunnel.new
  auth_sound server connection tunnel_id written cs (AuthEvent.frame (ok (auth k i))) ingress tunnel
        h =
      record {
        auth_key = k;
        ingress_id = i;
        asked = refl;
        found = ground arith;
        right_key = ground (arith, auth_key_beq_iff (t.auth_key ingress) k);
        same_id = ground arith;
        same_server = ground arith;
        answered = ground arith;
        kept_open = ground arith;
      }
  auth_sound server connection tunnel_id written cs (AuthEvent.frame (ok (authenticated _ _)))
        ingress tunnel h =
      cc
  auth_sound server connection tunnel_id written cs (AuthEvent.frame (ok ping)) ingress tunnel h =
      cc
  auth_sound server connection tunnel_id written cs (AuthEvent.frame (ok pong)) ingress tunnel h =
      cc
  auth_sound server connection tunnel_id written cs (AuthEvent.frame (err e)) ingress tunnel h = cc
  auth_sound server connection tunnel_id written cs (AuthEvent.frame panic) ingress tunnel h = cc
  auth_sound server connection tunnel_id written cs AuthEvent.end_of_stream ingress tunnel h = cc
  auth_sound server connection tunnel_id written cs AuthEvent.timeout ingress tunnel h = cc
