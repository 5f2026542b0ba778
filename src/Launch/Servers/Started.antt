-- ===== src/Launch/Servers/Started.antt =====
-- siffleux-cli/src/server.rs: a server from its configuration to its end.
use siffleux.Prelude.{lookup, lookup, ◌≢◌, ℕ, ◌≡◌, refl, some, none, List, [], ◌∷◌, All, arith}
use siffleux.Error.{ok}
use siffleux.Ids.Names.{IngressId}
use siffleux.ByteCounter.{Counters}
use siffleux.Certificates.{Certificate, load_or_generate_self_signed_certificate}
use siffleux.Config.Types.{IngressConfig, ServerConfig}
use siffleux.Ingress.Boxed.{BoxedIngress, boxed_ingress}
use siffleux.Server
use siffleux.Server.{Server, Stopped, get_ingress_by_id}
use siffleux.Launch.Servers.{Host, launch_with_certificate, launch_server_with_ingresses}
use siffleux.Launch.Servers.Registered.{
  config_id, Distinct, AllBind, Registered, Free, launch_total,
}

-- What the operating system and the libraries must allow.
pub record Allows {Files : Type 0} (host : Host Files) (config : ServerConfig)
    (ingresses : List IngressConfig) (files : Files) : Type 0 where
  pub certificate : Certificate
  pub loaded :
      (load_or_generate_self_signed_certificate host.disk host.crypto config.tls files).0
      ≡ ok certificate
  pub single_cert : host.with_single_cert certificate.cert_der certificate.key ≡ ok tt
  pub quic_config : host.quic_config ≡ ok tt
  pub endpoint : ℕ
  pub bound : host.endpoint config.client_addr ≡ ok endpoint
  pub ingresses_bound : AllBind host.bind 0 ingresses

-- A server that has started from a configuration.
pub record Started {Files : Type 0} (host : Host Files) (config : ServerConfig)
    (ingresses : List IngressConfig) (files : Files) (counters : Counters)
    (certificate : Certificate) : Type 0 where
  pub server : Server BoxedIngress
  pub counters' : Counters
  pub started :
      (launch_server_with_ingresses host config ingresses files counters).0 ≡ ok (server, counters')
  pub registered : Registered host.bind 0 ingresses server
  pub no_other :
      (k : IngressId) → All (λ c. config_id c ≢ k) ingresses → get_ingress_by_id k server ≡ none
  pub hash : server.certificate_hash ≡ certificate.cert_hash
  pub listening : (e : ℕ) × (server.endpoint ≡ some e)

empty-Free : (s : Server BoxedIngress) (cs : List IngressConfig) → s.ingress_by_id ≡ [] → Free s cs
unfolding get_ingress_by_id lookup
empty-Free s [] h = tt
empty-Free s (c ∷ cs) h = (ground (arith, h), empty-Free s cs h)

-- The server that the ingresses are launched on.
abbrev listening_server : ServerConfig → List ℕ → ℕ → Counters → Server BoxedIngress
listening_server config hash endpoint counters = record (Server.new config.id hash counters).0 {
  endpoint = some endpoint;
}

module _ {Files : Type 0} (host : Host Files) where
  -- When the certificate is loaded or made, the TLS library takes it, and every address can be bound, a
  -- server starts from any configuration whose ingresses have distinct ids: it listens, with the hash
  -- of that certificate; every ingress is found under its own id, with its key, listening on the
  -- socket that was bound for it, and without a tunnel; and no other id is found.
  pub launch_server_total :
      (config : ServerConfig) (ingresses : List IngressConfig) (files : Files) (counters : Counters)
      (a : Allows host config ingresses files)
      → Distinct ingresses
      → Started host config ingresses files counters a.certificate
  unfolding launch_server_with_ingresses launch_with_certificate Server.new_with_certificate
      Server.listen Server.new get_ingress_by_id lookup
  launch_server_total config ingresses files counters a distinct =
      let s = listening_server config a.certificate.cert_hash a.endpoint counters in
      let l =
        launch_total host.bind 0 ingresses s distinct (empty-Free s ingresses refl)
          a.ingresses_bound in
      record {
        server = l.server;
        counters' = (Server.new {I = BoxedIngress} config.id a.certificate.cert_hash counters).1;
        started = rw (a.loaded, a.single_cert, a.quic_config, a.bound, l.launched) refl;
        registered = l.registered;
        no_other = λ k apart. l.others k apart;
        hash = l.certificate_hash;
        listening = (a.endpoint, l.endpoint);
      }
