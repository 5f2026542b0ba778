-- ===== src/Launch/Clients/Registered.antt =====
-- siffleux-cli/src/client.rs: which egresses a started client has.
use siffleux.Prelude.{false, ℕ, suc, ◌≡◌, ◌≢◌, refl, some, String, List, [], ◌∷◌, All, lookup}
use siffleux.Ids.Names.{AuthKey, EgressId, IngressId, egress_id_eq}
use siffleux.Frames.{SocketAddr}
use siffleux.Config.Types.{AuthenticationConfig, EgressConfig}
use siffleux.Client.Authentication.V1CertificateHash
use siffleux.Client.Authentication.V1CertificateHash.{V1CertificateHash}
use siffleux.Egress.Tunnelling.{starting}
use siffleux.Egress.Lifecycle
use siffleux.Egress.Lifecycle.{Egress}
use siffleux.Egress.Boxed
use siffleux.Egress.Boxed.{BoxedEgress, boxed_egress, egress, authentication}
use siffleux.Client.Registry.{Client, assign_egress}
use siffleux.Launch.Clients.{
  expect, unwrap, Resolver, first_address, lookup_address, prepare_server_config, launch_tcp_egress,
  launch_udp_egress, launch_egress,
}

-- What both kinds of configuration have.
abbrev pub config_id : EgressConfig → EgressId
config_id (EgressConfig.tcp c) = c.id
config_id (EgressConfig.udp c) = c.id

abbrev pub config_ingress : EgressConfig → IngressId
config_ingress (EgressConfig.tcp c) = c.ingress_id
config_ingress (EgressConfig.udp c) = c.ingress_id

abbrev pub config_key : EgressConfig → AuthKey
config_key (EgressConfig.tcp c) = c.auth_key
config_key (EgressConfig.udp c) = c.auth_key

abbrev pub config_target : EgressConfig → String
config_target (EgressConfig.tcp c) = c.target
config_target (EgressConfig.udp c) = c.target

abbrev pub config_authentication : EgressConfig → AuthenticationConfig
config_authentication (EgressConfig.tcp c) = c.authentication_config
config_authentication (EgressConfig.udp c) = c.authentication_config

abbrev pub Distinct : List EgressConfig → Type 0
Distinct [] = Unit {0}
Distinct (c ∷ cs) = All (λ d. config_id d ≢ config_id c) cs × Distinct cs

module _ (resolver : Resolver) where
  -- The names of a configuration are found, and its hash is base64.
  pub record Resolves (c : EgressConfig) : Type 0 where
    pub target : SocketAddr
    pub server : SocketAddr
    pub hash : List ℕ
    pub target_found : first_address (resolver.lookup_host (config_target c)) ≡ some target
    pub server_found :
        first_address (resolver.lookup_host (config_authentication c).server) ≡ some server
    pub hash_decoded : resolver.decode (config_authentication c).cert_hash ≡ some hash

  -- The egress of a configuration, of a client with a counter: it has the ids of the configuration and the
  -- target's first address; it gets its tunnels from the server's first address, by the name, the hash and
  -- the key of the configuration; and it has been started.
  abbrev pub fresh_egress : ℕ → (c : EgressConfig) → Resolves c → Egress
  fresh_egress token c r = record {
    id = config_id c;
    ingress_id = config_ingress c;
    target_addr = r.target;
    process = some token;
    process_lock = false;
    state = starting;
    spawned = token ∷ [];
    cancelled = [];
  }

  abbrev pub pinned : ℕ → (c : EgressConfig) → Resolves c → V1CertificateHash
  pinned counter c r = record {
    client_byte_counter = counter;
    auth_key = config_key c;
    server_address = r.server;
    server_name = (config_authentication c).cert_subject_alt_name;
    certificate_hash = r.hash;
  }

  abbrev pub boxed : ℕ → ℕ → (c : EgressConfig) → Resolves c → BoxedEgress
  boxed counter token (EgressConfig.tcp c) r =
      BoxedEgress.tcp (pinned counter (EgressConfig.tcp c) r)
        (fresh_egress token (EgressConfig.tcp c) r)
  boxed counter token (EgressConfig.udp c) r =
      BoxedEgress.udp (pinned counter (EgressConfig.udp c) r)
        (fresh_egress token (EgressConfig.udp c) r)

  abbrev pub AllResolve : List EgressConfig → Type 0
  AllResolve [] = Unit {0}
  AllResolve (c ∷ cs) = Resolves c × AllResolve cs

  -- Each configuration's egress is found under the configuration's id.
  abbrev pub Registered :
      ℕ → ℕ → (cs : List EgressConfig) → AllResolve cs → Client BoxedEgress → Type 0
  Registered counter token [] r client = Unit {0}
  Registered counter token (c ∷ cs) r client =
      (lookup (config_id c) client.egress_by_id ≡ some (boxed counter token c r.0))
      × Registered counter (suc token) cs r.1 client

  pub launch-boxed :
      (token : ℕ) (client : Client BoxedEgress) (c : EgressConfig) (r : Resolves c)
      → launch_egress resolver token client c
        ≡ unwrap (expect (assign_egress (boxed client.byte_counter token c r) client))
  unfolding launch_egress launch_tcp_egress launch_udp_egress lookup_address prepare_server_config
      V1CertificateHash.new Lifecycle.new Boxed.start Lifecycle.start
  launch-boxed token client (EgressConfig.tcp c) r =
      rw (r.target_found, r.server_found, r.hash_decoded) refl
  launch-boxed token client (EgressConfig.udp c) r =
      rw (r.target_found, r.server_found, r.hash_decoded) refl
