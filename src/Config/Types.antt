-- ===== src/Config/Types.antt =====
-- siffleux-cli/src/siffleux_config.rs: the configurations. A path or a text is a `String`.
use siffleux.Prelude.{ℕ, String, List, [], ◌∷◌}
use siffleux.Ids.Names.{AuthKey, EgressId, IngressId, ServerId}
use siffleux.Frames.{SocketAddr, v4, v6}

pub data IpAddr : Type 0 where
  ip_v4 : List ℕ → IpAddr
  ip_v6 : List ℕ → IpAddr

-- `SocketAddr::new`
unfoldable pub new_socket_addr : IpAddr → ℕ → SocketAddr
new_socket_addr (ip_v4 octets) port = v4 octets port
new_socket_addr (ip_v6 octets) port = v6 octets port 0 0

-- `Ipv4Addr::UNSPECIFIED`
abbrev pub default_server_ip : IpAddr
default_server_ip = ip_v4 (0 ∷ 0 ∷ 0 ∷ 0 ∷ [])

abbrev pub default_server_port : ℕ
default_server_port = 8765

abbrev pub default_server_tls_subject_alt_name : String
default_server_tls_subject_alt_name = "self-host.siffleux.dev"

abbrev pub default_server_tls_certificate_file : String
default_server_tls_certificate_file = "siffleux-cert.pem"

abbrev pub default_server_tls_private_key_file : String
default_server_tls_private_key_file = "siffleux-key.pem"

abbrev pub default_ingress_ip : IpAddr
default_ingress_ip = ip_v4 (0 ∷ 0 ∷ 0 ∷ 0 ∷ [])

pub record TlsConfig : Type 0 where
  pub cert_pem_path : String
  pub key_pem_path : String
  pub cert_subject_alt_name : String

pub record ServerConfig : Type 0 where
  pub id : ServerId
  pub client_addr : SocketAddr
  pub tls : TlsConfig

pub record TcpIngressConfig : Type 0 where
  pub addr : SocketAddr
  pub id : IngressId
  pub auth_key : AuthKey

pub record UdpIngressConfig : Type 0 where
  pub addr : SocketAddr
  pub id : IngressId
  pub auth_key : AuthKey

pub data IngressConfig : Type 0 where
  tcp : TcpIngressConfig → IngressConfig
  udp : UdpIngressConfig → IngressConfig

pub record AuthenticationConfig : Type 0 where
  pub server : String
  pub cert_hash : String
  pub cert_subject_alt_name : String

pub record TcpEgressConfig : Type 0 where
  pub authentication_config : AuthenticationConfig
  pub id : EgressId
  pub ingress_id : IngressId
  pub auth_key : AuthKey
  pub target : String

pub record UdpEgressConfig : Type 0 where
  pub authentication_config : AuthenticationConfig
  pub id : EgressId
  pub ingress_id : IngressId
  pub auth_key : AuthKey
  pub target : String

pub data EgressConfig : Type 0 where
  tcp : TcpEgressConfig → EgressConfig
  udp : UdpEgressConfig → EgressConfig
