-- ===== src/Server.antt =====
-- siffleux/src/server/server.rs: the server's registry of ingresses and its endpoint.
pub mod Registry
pub mod Auth
pub mod Command
pub mod Connection
use siffleux.Prelude.{ℕ, String, Option, map, none, some, List, [], ◌∷◌, Eq, lookup, insert}
use siffleux.Error.{
  Result, ok, err, panic, ingress_id_already_assigned, server_already_listening,
  server_not_listening, unwrap, ◌>>=◌,
}
use siffleux.Ids.Names.{ServerId, IngressId, ingress_id_eq}
use siffleux.ByteCounter
use siffleux.ByteCounter.{Counters}
use siffleux.Ingress.Trait.{Ingress}
use siffleux.Frames.{SocketAddr}
use siffleux.Protocol.{Close}

pub record Server (I : Type 0) : Type 0 where
  pub id : ServerId
  pub endpoint : Option ℕ
  pub ingress_by_id : List (IngressId × I)
  pub byte_counter : ℕ
  pub certificate_hash : List ℕ

module _ {I : Type 0} where
  -- The server's counter has no parent.
  unfoldable pub new : ServerId → List ℕ → Counters → Server I × Counters
  new id certificate_hash counters =
      let (byte_counter, counters') = ByteCounter.new none counters in
      (
        record {
          id = id;
          endpoint = none;
          ingress_by_id = [];
          byte_counter = byte_counter;
          certificate_hash = certificate_hash;
        },
        counters',
      )

  -- `single_cert` and `quic_config` are what the TLS library makes of the certificate and the key. The
  -- transport settings are constants.
  unfoldable pub new_with_certificate :
      ServerId
      → List ℕ
      → Result (Unit {0})
      → Result (Unit {0})
      → Counters
      → Result (Server I × Counters)
  unfolding new
  new_with_certificate id certificate_hash single_cert quic_config counters = do
    _ ← single_cert
    _ ← quic_config
    ok (new id certificate_hash counters)

  -- `local_addr` is what the operating system tells of an endpoint, which is unwrapped.
  unfoldable pub address : (ℕ → Result SocketAddr) → Server I → Result (Option SocketAddr)
  address local_addr s = elim s.endpoint [
    | none ↦ ok none
    | some e ↦ unwrap (local_addr e) >>= λ a. ok (some a)
  ]

  unfoldable pub get_ingress_by_id : IngressId → Server I → Option I
  get_ingress_by_id ingress_id s = lookup ingress_id s.ingress_by_id

  unfoldable pub assign_ingress : ⦃t : Ingress I⦄ → I → Server I → Result (Unit {0}) × Server I
  assign_ingress ⦃t⦄ ingress s = elim (lookup (t.id ingress) s.ingress_by_id) [
    | some _ ↦ (err (ingress_id_already_assigned (t.id ingress)), s)
    | none ↦ (ok tt, record s { ingress_by_id = insert (t.id ingress) ingress s.ingress_by_id })
  ]

  -- `Endpoint::server(…)?`: what binding the socket gives.
  unfoldable pub listen : Result ℕ → Server I → Result (Unit {0}) × Server I
  listen bound s = elim s.endpoint [
    | some _ ↦ (err server_already_listening, s)
    | none ↦ elim bound [
      | ok endpoint ↦ (ok tt, record s { endpoint = some endpoint })
      | err e ↦ (err e, s)
      | panic ↦ (panic, s)
    ]
  ]

  -- An ingress that is shared with its tasks changes under the registry too.
  unfoldable pub update_ingress : IngressId → I → Server I → Server I
  update_ingress ingress_id ingress s = elim (lookup ingress_id s.ingress_by_id) [
    | none ↦ s
    | some _ ↦ record s { ingress_by_id = insert ingress_id ingress s.ingress_by_id }
  ]

-- What `stop` leaves: its result, the server, each ingress with what its own `stop` returned (an
-- error of it is only logged), and how the endpoint was closed.
pub record Stopped (I : Type 0) : Type 0 where
  pub result : Result (Unit {0})
  pub server : Server I
  pub ingresses : List (Result (Unit {0}) × I)
  pub close : Option Close

module _ {I : Type 0} where
  unfoldable pub stop : ⦃t : Ingress I⦄ → Server I → Stopped I
  stop ⦃t⦄ s = elim s.endpoint [
    | none ↦ record { result = err server_not_listening; server = s; ingresses = []; close = none }
    | some _ ↦ record {
      result = ok tt;
      server = record s { endpoint = none; ingress_by_id = [] };
      ingresses = map (λ entry. t.stop entry.1) s.ingress_by_id;
      close = some (0, "done");
    }
  ]
