-- ===== src/Config/Cli.antt =====
-- siffleux-cli/src/cli.rs: what the arguments give, and their conversions. An argument with a default
-- always has a value. `keys` are the generated keys.
use siffleux.Prelude.{ℕ, String, Option}
use siffleux.Ids.Names.{AuthKey, EgressId, IngressId, ServerId}
use siffleux.Ids.AuthKey
use siffleux.Ids.EgressId
use siffleux.Ids.IngressId
use siffleux.Ids.ServerId
use siffleux.Config.Draw.{Draw, pure, ◌>>=◌, or_generated, Keys}
use siffleux.Config.Types.{
  IpAddr, new_socket_addr, ServerConfig, IngressConfig, AuthenticationConfig, EgressConfig,
}

pub record TlsArgs : Type 0 where
  pub cert_pem_path : String
  pub key_pem_path : String
  pub cert_subject_alt_name : String

pub record ServerArgs : Type 0 where
  pub id : Option ServerId
  pub ip : IpAddr
  pub port : ℕ
  pub tls : TlsArgs

pub record TcpIngressArgs : Type 0 where
  pub ip : IpAddr
  pub port : ℕ
  pub id : Option IngressId
  pub auth_key : Option AuthKey

pub record UdpIngressArgs : Type 0 where
  pub ip : IpAddr
  pub port : ℕ
  pub id : Option IngressId
  pub auth_key : Option AuthKey

pub record AuthenticationArgs : Type 0 where
  pub server : String
  pub cert_hash : String
  pub cert_subject_alt_name : String

pub record EgressArgs : Type 0 where
  pub id : Option EgressId
  pub ingress_id : IngressId
  pub auth_key : AuthKey

pub record TcpEgressArgs : Type 0 where
  pub authentication_args : AuthenticationArgs
  pub egress_args : EgressArgs
  pub target : String

pub record UdpEgressArgs : Type 0 where
  pub authentication_args : AuthenticationArgs
  pub egress_args : EgressArgs
  pub target : String

unfoldable pub authentication_of_args : AuthenticationArgs → AuthenticationConfig
authentication_of_args a = record {
  server = a.server;
  cert_hash = a.cert_hash;
  cert_subject_alt_name = a.cert_subject_alt_name;
}

module _ (keys : Keys) where
  unfoldable pub server_of_args : ServerArgs → Draw ServerConfig
  server_of_args a = do
    id ← or_generated keys 16 ServerId.try_from a.id
    pure (record {
      id = id;
      client_addr = new_socket_addr a.ip a.port;
      tls = record {
        cert_pem_path = a.tls.cert_pem_path;
        key_pem_path = a.tls.key_pem_path;
        cert_subject_alt_name = a.tls.cert_subject_alt_name;
      };
    })

  -- The key is drawn before the id.
  unfoldable pub tcp_ingress_of_args : TcpIngressArgs → Draw IngressConfig
  tcp_ingress_of_args a = do
    auth_key ← or_generated keys 32 AuthKey.try_from a.auth_key
    id ← or_generated keys 16 IngressId.try_from a.id
    pure (
        IngressConfig.tcp
          (record { addr = new_socket_addr a.ip a.port; id = id; auth_key = auth_key }))

  unfoldable pub udp_ingress_of_args : UdpIngressArgs → Draw IngressConfig
  udp_ingress_of_args a = do
    auth_key ← or_generated keys 32 AuthKey.try_from a.auth_key
    id ← or_generated keys 16 IngressId.try_from a.id
    pure (
        IngressConfig.udp
          (record { addr = new_socket_addr a.ip a.port; id = id; auth_key = auth_key }))

  unfoldable pub tcp_egress_of_args : TcpEgressArgs → Draw EgressConfig
  unfolding authentication_of_args
  tcp_egress_of_args a = do
    id ← or_generated keys 16 EgressId.try_from a.egress_args.id
    pure (
        EgressConfig.tcp (record {
          authentication_config = authentication_of_args a.authentication_args;
          id = id;
          ingress_id = a.egress_args.ingress_id;
          auth_key = a.egress_args.auth_key;
          target = a.target;
        }))

  unfoldable pub udp_egress_of_args : UdpEgressArgs → Draw EgressConfig
  unfolding authentication_of_args
  udp_egress_of_args a = do
    id ← or_generated keys 16 EgressId.try_from a.egress_args.id
    pure (
        EgressConfig.udp (record {
          authentication_config = authentication_of_args a.authentication_args;
          id = id;
          ingress_id = a.egress_args.ingress_id;
          auth_key = a.egress_args.auth_key;
          target = a.target;
        }))
