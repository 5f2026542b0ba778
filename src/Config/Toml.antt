-- ===== src/Config/Toml.antt =====
-- siffleux-cli/src/toml_config.rs: what a TOML file gives, and its conversions. `keys` are the generated
-- keys.
use siffleux.Prelude.{ℕ, String, Option, none, some, List, ◌++◌}
use siffleux.Ids.Names.{AuthKey, EgressId, IngressId, ServerId}
use siffleux.Ids.EgressId
use siffleux.Ids.IngressId
use siffleux.Ids.ServerId
use siffleux.Config.Draw.{
  Draw, pure, refuse, ◌>>=◌, collect, or_generated, Keys, tcp_without_server, udp_without_server,
  ConfigError,
}
use siffleux.Config.Types.{
  IpAddr, new_socket_addr, TlsConfig, ServerConfig, IngressConfig, AuthenticationConfig,
  EgressConfig, default_server_ip, default_server_port, default_ingress_ip,
  default_server_tls_subject_alt_name, default_server_tls_certificate_file,
  default_server_tls_private_key_file,
}

abbrev pub unwrap_or : {A : Type 0} → A → Option A → A
unwrap_or d none = d
unwrap_or d (some a) = a

pub record TlsToml : Type 0 where
  pub cert_pem_path : String
  pub key_pem_path : String
  pub cert_subject_alt_name : Option String

pub record TcpIngressToml : Type 0 where
  pub ip : Option IpAddr
  pub port : ℕ
  pub id : Option IngressId
  pub auth_key : AuthKey

pub record UdpIngressToml : Type 0 where
  pub ip : Option IpAddr
  pub port : ℕ
  pub id : Option IngressId
  pub auth_key : AuthKey

pub record ServerToml : Type 0 where
  pub id : Option ServerId
  pub ip : Option IpAddr
  pub port : Option ℕ
  pub tls : Option TlsToml
  pub tcp_ingress : List TcpIngressToml
  pub udp_ingress : List UdpIngressToml

pub record AuthenticationToml : Type 0 where
  pub address : String
  pub cert_hash : String
  pub cert_subject_alt_name : Option String

pub record TcpEgressToml : Type 0 where
  pub server : Option AuthenticationToml
  pub id : Option EgressId
  pub ingress_id : IngressId
  pub auth_key : AuthKey
  pub target : String

pub record UdpEgressToml : Type 0 where
  pub server : Option AuthenticationToml
  pub id : Option EgressId
  pub ingress_id : IngressId
  pub auth_key : AuthKey
  pub target : String

pub record ClientToml : Type 0 where
  pub server : Option AuthenticationToml
  pub tcp_egress : List TcpEgressToml
  pub udp_egress : List UdpEgressToml

unfoldable pub tls_config : Option TlsToml → TlsConfig
tls_config none = record {
  cert_pem_path = default_server_tls_certificate_file;
  key_pem_path = default_server_tls_private_key_file;
  cert_subject_alt_name = default_server_tls_subject_alt_name;
}
tls_config (some tls) = record {
  cert_pem_path = tls.cert_pem_path;
  key_pem_path = tls.key_pem_path;
  cert_subject_alt_name = unwrap_or default_server_tls_subject_alt_name tls.cert_subject_alt_name;
}

unfoldable pub authentication_config : AuthenticationToml → AuthenticationConfig
authentication_config toml = record {
  server = toml.address;
  cert_hash = toml.cert_hash;
  cert_subject_alt_name = unwrap_or default_server_tls_subject_alt_name toml.cert_subject_alt_name;
}

-- `egress.server.or_else(|| client_toml.server.clone())`
unfoldable pub server_or :
    Option AuthenticationToml → Option AuthenticationToml → Option AuthenticationToml
server_or (some own) default = some own
server_or none default = default

-- `ok_or_else(…)?.into()`
unfoldable pub require_server : ConfigError → Option AuthenticationToml → Draw AuthenticationConfig
unfolding authentication_config
require_server e none = refuse e
require_server e (some toml) = pure (authentication_config toml)

module _ (keys : Keys) where
  unfoldable pub tcp_ingress_config : TcpIngressToml → Draw IngressConfig
  tcp_ingress_config toml = do
    id ← or_generated keys 16 IngressId.try_from toml.id
    pure (
        IngressConfig.tcp (record {
          addr = new_socket_addr (unwrap_or default_ingress_ip toml.ip) toml.port;
          id = id;
          auth_key = toml.auth_key;
        }))

  unfoldable pub udp_ingress_config : UdpIngressToml → Draw IngressConfig
  udp_ingress_config toml = do
    id ← or_generated keys 16 IngressId.try_from toml.id
    pure (
        IngressConfig.udp (record {
          addr = new_socket_addr (unwrap_or default_ingress_ip toml.ip) toml.port;
          id = id;
          auth_key = toml.auth_key;
        }))

  unfoldable pub server_config : ServerToml → Draw (ServerConfig × List IngressConfig)
  server_config toml = do
    id ← or_generated keys 16 ServerId.try_from toml.id
    tcp_ingress ← collect tcp_ingress_config toml.tcp_ingress
    udp_ingress ← collect udp_ingress_config toml.udp_ingress
    pure (
      record {
        id = id;
        client_addr =
            new_socket_addr (unwrap_or default_server_ip toml.ip)
              (unwrap_or default_server_port toml.port);
        tls = tls_config toml.tls;
      },
      tcp_ingress ++ udp_ingress,
    )

  unfoldable pub tcp_egress_config : Option AuthenticationToml → TcpEgressToml → Draw EgressConfig
  tcp_egress_config default toml = do
    id ← or_generated keys 16 EgressId.try_from toml.id
    authentication ←
        require_server (tcp_without_server toml.ingress_id) (server_or toml.server default)
    pure (
        EgressConfig.tcp (record {
          authentication_config = authentication;
          id = id;
          ingress_id = toml.ingress_id;
          auth_key = toml.auth_key;
          target = toml.target;
        }))

  unfoldable pub udp_egress_config : Option AuthenticationToml → UdpEgressToml → Draw EgressConfig
  udp_egress_config default toml = do
    id ← or_generated keys 16 EgressId.try_from toml.id
    authentication ←
        require_server (udp_without_server toml.ingress_id) (server_or toml.server default)
    pure (
        EgressConfig.udp (record {
          authentication_config = authentication;
          id = id;
          ingress_id = toml.ingress_id;
          auth_key = toml.auth_key;
          target = toml.target;
        }))

  unfoldable pub egress_configs : ClientToml → Draw (List EgressConfig)
  egress_configs toml = do
    tcp_egress ← collect (tcp_egress_config toml.server) toml.tcp_egress
    udp_egress ← collect (udp_egress_config toml.server) toml.udp_egress
    pure (tcp_egress ++ udp_egress)
