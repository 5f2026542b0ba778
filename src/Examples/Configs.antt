-- ===== src/Examples/Configs.antt =====
-- Configurations at concrete inputs.
use siffleux.Prelude.{ℕ, ◌≡◌, List, [], ◌∷◌, some, none, refl, map}
use siffleux.Config.Draw.{Keys, AreKeys, made}
use siffleux.Config.Types.{
  ServerConfig, IngressConfig, EgressConfig, new_socket_addr, default_server_ip,
}
use siffleux.Config.Toml.{
  server_or, ServerToml, ClientToml, TcpEgressToml, UdpEgressToml, AuthenticationToml,
  server_config, egress_configs,
}
use siffleux.Config.Servers.{server_config_total, endpoint, endpoints}
use siffleux.Config.Clients.{egress_configs_total, route, routes, HasServer}
use siffleux.Examples.Data.{key, web}

abbrev keys : Keys
keys size n =
    n ∷ 65 ∷ 65 ∷ 65 ∷ 65 ∷ 65 ∷ 65 ∷ 65 ∷ 65 ∷ 65 ∷ 65 ∷ 65 ∷ 65 ∷ 65 ∷ 65 ∷ 65 ∷ 65 ∷ 65 ∷ 65 ∷ 65
    ∷ 65 ∷ 65 ∷ 61 ∷ 61 ∷ []

keys-AreKeys : AreKeys keys
keys-AreKeys = record { of_16_bytes = λ n. refl }

abbrev server_file : ServerToml
server_file = record {
  id = none;
  ip = none;
  port = some 9000;
  tls = none;
  tcp_ingress = record { ip = none; port = 80; id = some web; auth_key = key } ∷ [];
  udp_ingress = record { ip = none; port = 53; id = none; auth_key = key } ∷ [];
}

server_config_total_example :
    (c : ServerConfig) × (l : List IngressConfig) × (m : ℕ) × (server_config keys server_file 0
      ≡ (made (c, l), m))
    × (map endpoint l ≡ endpoints server_file)
    × (c.client_addr ≡ new_socket_addr default_server_ip 9000)
server_config_total_example = server_config_total keys server_file 0 keys-AreKeys

abbrev authority : AuthenticationToml
authority = record { address = "example.org:8765"; cert_hash = "00"; cert_subject_alt_name = none }

abbrev tcp_own : TcpEgressToml
tcp_own = record {
  server = some authority;
  id = none;
  ingress_id = web;
  auth_key = key;
  target = "localhost:80";
}

abbrev tcp_bare : TcpEgressToml
tcp_bare = record {
  server = none;
  id = none;
  ingress_id = web;
  auth_key = key;
  target = "localhost:81";
}

abbrev udp_bare : UdpEgressToml
udp_bare = record {
  server = none;
  id = none;
  ingress_id = web;
  auth_key = key;
  target = "localhost:53";
}

abbrev client_file : ClientToml
client_file = record {
  server = some authority;
  tcp_egress = tcp_own ∷ tcp_bare ∷ [];
  udp_egress = udp_bare ∷ [];
}

abbrev no_server_file : ClientToml
no_server_file = record {
  server = none;
  tcp_egress = tcp_own ∷ tcp_bare ∷ [];
  udp_egress = udp_bare ∷ [];
}

tcp_own-HasServer : HasServer tcp_own.server client_file.server
unfolding server_or
tcp_own-HasServer = record { server = authority; found = refl }

tcp_own-HasServer_alone : HasServer tcp_own.server none
unfolding server_or
tcp_own-HasServer_alone = record { server = authority; found = refl }

bare-HasServer : HasServer none client_file.server
unfolding server_or
bare-HasServer = record { server = authority; found = refl }

egress_configs_total_example :
    (l : List EgressConfig) × (m : ℕ) × (egress_configs keys client_file 0 ≡ (made l, m))
    × (map route l ≡ routes client_file)
egress_configs_total_example =
    egress_configs_total keys client_file 0 keys-AreKeys (tcp_own-HasServer, (bare-HasServer, tt))
      (bare-HasServer, tt)
