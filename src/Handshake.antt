-- ===== src/Handshake.antt =====
-- The two sides of a handshake put together: server/protocols/v1.rs and client/protocols/v1.rs over
-- the frames of common/frames/v1.rs and the conversions of common/error.rs.
use siffleux.Prelude.{inr, ◌⊎◌, ℕ, ◌≡◌, ◌≢◌, refl, none, some, [], arith, inl, sym, append-nil, ap}
use siffleux.Error.{
  rejected_auth_key, rejected_ingress_id, Error, Result, ok, err, ConnectionError, ReadError,
  IoError,
}
use siffleux.Error.Convert.{
  rejected_auth_key_code, rejected_ingress_id_code, from_io_error, from_read_error,
  from_connection_error,
}
use siffleux.Ids.Names.{AuthKey, IngressId, auth_key_beq_iff}
use siffleux.Frames.{FrameV1, Uuid, auth, authenticated, encode, decode}
use siffleux.Frames.RoundTrip
use siffleux.Frames.RoundTrip.{decode-encode}
use siffleux.ByteCounter.{Counters}
use siffleux.Tunnel
use siffleux.Tunnel.{Tunnel}
use siffleux.Ingress.Trait.{Ingress}
use siffleux.Protocol.{AuthEvent, AuthOutcome, Close}
use siffleux.Server.{Server, get_ingress_by_id}
use siffleux.Server.Auth.{handle_server_protocol_v1_auth}
use siffleux.Client.Auth.{handle_client_protocol_v1_auth}

-- The event that a framed stream yields when the bytes of a frame have arrived: what the decoder
-- makes of them.
pub record Delivers (frame : FrameV1) (event : AuthEvent) : Type 0 where
  pub received : FrameV1
  pub decoded : (decode (encode frame [])).0 ≡ ok (some received)
  pub yielded : event ≡ AuthEvent.frame (ok received)

-- The event that a framed stream yields when the peer has closed the connection.
abbrev pub closed_by_peer : Close → AuthEvent
closed_by_peer (code, reason) = AuthEvent.frame (
    err (
      from_io_error (
        IoError.wraps_read
          (ReadError.connection_lost (ConnectionError.application_closed code reason)))))

Delivers-eq :
    (frame : FrameV1) (event : AuthEvent)
    → RoundTrip.IsValid frame
    → Delivers frame event
    → event ≡ AuthEvent.frame (ok frame)
Delivers-eq frame event v d = cc (
  d.decoded,
  d.yielded,
  ap (λ l. (decode l).0) (sym (append-nil (encode frame []))),
  ap (λ r. r.0) (decode-encode frame [] v),
)

-- Both sides have a tunnel, with one id and one server id, and neither has closed the connection.
pub record Agreed {I : Type 0} (ingress : I) (on_server : AuthOutcome (I × Tunnel))
    (on_client : AuthOutcome Tunnel) : Type 0 where
  pub server_tunnel : Tunnel
  pub client_tunnel : Tunnel
  pub server_result : on_server.result ≡ ok (ingress, server_tunnel)
  pub client_result : on_client.result ≡ ok client_tunnel
  pub one_id : client_tunnel.id ≡ server_tunnel.id
  pub one_server : client_tunnel.server_id ≡ server_tunnel.server_id
  pub server_open : on_server.close ≡ none
  pub client_open : on_client.close ≡ none

module _ {I : Type 0} ⦃t : Ingress I⦄ where
  -- Right key
  server_accepts :
      (server : Server I) (connection : ℕ) (tunnel_id : Uuid) (cs : Counters) (k : AuthKey)
      (i : IngressId) (ingress : I)
      → get_ingress_by_id i server ≡ some ingress
      → t.auth_key ingress ≡ k
      → let outcome =
          handle_server_protocol_v1_auth server connection tunnel_id
            (ok tt)
            cs
            (AuthEvent.frame (ok (auth k i))) in
        (outcome.result
          ≡ ok (
            ingress,
            (Tunnel.new tunnel_id server.id connection (some server.byte_counter) cs).0,
          ))
        × (outcome.close ≡ none)
  unfolding handle_server_protocol_v1_auth
  server_accepts server connection tunnel_id cs k i ingress found key = (
    ground (arith, auth_key_beq_iff (t.auth_key ingress) k),
    ground (arith, auth_key_beq_iff (t.auth_key ingress) k),
  )

  -- Once the client's auth frame and the server's answer, both valid, have been written and have
  -- arrived as bytes, and the registry has the ingress with this key, both sides have a tunnel
  -- with one id and one server id, and neither has closed the connection.
  pub handshake_agrees :
      (server : Server I) (connection client_connection client_counter : ℕ) (tunnel_id : Uuid)
      (cs client_cs : Counters) (k : AuthKey) (i : IngressId) (ingress : I)
      (asked answered : AuthEvent)
      → RoundTrip.IsValid (auth k i)
      → RoundTrip.IsValid (authenticated tunnel_id server.id)
      → get_ingress_by_id i server ≡ some ingress
      → t.auth_key ingress ≡ k
      → Delivers (auth k i) asked
      → Delivers (authenticated tunnel_id server.id) answered
      → Agreed ingress
          (handle_server_protocol_v1_auth server connection tunnel_id (ok tt) cs asked)
          (handle_client_protocol_v1_auth client_connection k i client_counter
            (ok tt)
            (ok tt)
            client_cs
            answered)
  unfolding handle_client_protocol_v1_auth Tunnel.new
  handshake_agrees server connection client_connection client_counter tunnel_id cs client_cs k i
        ingress asked answered va vb found key da db =
      rw
        (
          Delivers-eq (auth k i) asked va da,
          Delivers-eq (authenticated tunnel_id server.id) answered vb db,
        )
        (let (served, kept) = server_accepts server connection tunnel_id cs k i ingress found key in
          record {
            server_tunnel =
                (Tunnel.new tunnel_id server.id connection (some server.byte_counter) cs).0;
            client_tunnel =
                (Tunnel.new tunnel_id server.id client_connection (some client_counter)
                  client_cs).0;
            server_result = served;
            client_result = refl;
            one_id = refl;
            one_server = refl;
            server_open = kept;
            client_open = refl;
          })

  -- A refused client learns why: when its valid auth frame has arrived, and the ingress does not
  -- exist or its key is another, the server closes the connection with a code from which the
  -- client, on seeing that close, makes the very error that the server returned.
  pub refusal_known :
      (server : Server I) (connection client_connection client_counter : ℕ) (tunnel_id : Uuid)
      (written : Result (Unit {0})) (cs client_cs : Counters) (k : AuthKey) (i : IngressId)
      (asked : AuthEvent)
      → RoundTrip.IsValid (auth k i)
      → Delivers (auth k i) asked
      → (get_ingress_by_id i server ≡ none)
        ⊎ ((ingress : I) × (get_ingress_by_id i server ≡ some ingress) × (t.auth_key ingress ≢ k))
      → (close : Close) × (e : Error) × ((handle_server_protocol_v1_auth server connection tunnel_id
            written cs asked).close
          ≡ some close)
        × ((handle_server_protocol_v1_auth server connection tunnel_id written cs asked).result
            ≡ err e)
        × ((handle_client_protocol_v1_auth client_connection k i client_counter
              (ok tt)
              (ok tt)
              client_cs
              (closed_by_peer close)).result
            ≡ err e)
  unfolding handle_server_protocol_v1_auth handle_client_protocol_v1_auth from_io_error
      from_read_error from_connection_error
  refusal_known server connection client_connection client_counter tunnel_id written cs client_cs k
        i asked va da (inl missing) =
      rw (Delivers-eq (auth k i) asked va da) (
        (rejected_ingress_id_code, "rejected ingress id"),
        rejected_ingress_id,
        ground arith,
        ground arith,
        refl,
      )
  refusal_known server connection client_connection client_counter tunnel_id written cs client_cs k
        i asked va da (inr (ingress, found, other)) =
      rw (Delivers-eq (auth k i) asked va da) (
        (rejected_auth_key_code, "rejected auth key"),
        rejected_auth_key,
        ground (arith, auth_key_beq_iff (t.auth_key ingress) k),
        ground (arith, auth_key_beq_iff (t.auth_key ingress) k),
        refl,
      )
