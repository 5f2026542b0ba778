-- ===== src/Launch/Servers.antt =====
-- siffleux-cli/src/server.rs: a server with its ingresses, from its start to its end.
pub mod Registered
pub mod Repeated
pub mod Started
pub mod Guarded
use siffleux.Prelude.{ℕ, suc, List, [], ◌∷◌}
use siffleux.Error.{Result, ok, err, panic, unwrap, ◌>>=◌}
use siffleux.Ids.Names.{IngressId}
use siffleux.Frames.{SocketAddr}
use siffleux.ByteCounter.{Counters}
use siffleux.Certificates.{Crypto, Disk, Certificate, load_or_generate_self_signed_certificate}
use siffleux.Config.Types.{IngressConfig, ServerConfig, TcpIngressConfig, UdpIngressConfig}
use siffleux.Ingress.Trait.{Bound}
use siffleux.Ingress.Boxed.{BoxedIngress, boxed_ingress}
use siffleux.Ingress.Tcp
use siffleux.Ingress.Tcp.{TcpIngress}
use siffleux.Ingress.Udp
use siffleux.Ingress.Udp.{UdpIngress}
use siffleux.Server
use siffleux.Server.{Server, Stopped}

-- What the operating system and the libraries answer. `bind` is asked for the ingress of that number.
pub record Host (Files : Type 0) : Type 0 where
  pub crypto : Crypto
  pub disk : Disk Files
  pub with_single_cert : List ℕ → List ℕ → Result (Unit {0})
  pub quic_config : Result (Unit {0})
  pub endpoint : SocketAddr → Result ℕ
  pub bind : ℕ → SocketAddr → Bound

-- `start().await.unwrap()`
abbrev pub started : {I : Type 0} → Result (Unit {0}) × I → Result I
started (result, ingress) = unwrap result >>= λ _. ok ingress

module _ (bind : ℕ → SocketAddr → Bound) where
  unfoldable pub launch_tcp_ingress : ℕ → TcpIngressConfig → Result TcpIngress
  unfolding Tcp.new Tcp.start
  launch_tcp_ingress n config =
      started (Tcp.start (bind n config.addr) (Tcp.new config.id config.auth_key config.addr))

  unfoldable pub launch_udp_ingress : ℕ → UdpIngressConfig → Result UdpIngress
  unfolding Udp.new Udp.start
  launch_udp_ingress n config =
      started (Udp.start (bind n config.addr) (Udp.new config.id config.auth_key config.addr))

  -- The `match` on a configuration, up to the box.
  unfoldable pub launch_ingress : ℕ → IngressConfig → Result BoxedIngress
  unfolding launch_tcp_ingress launch_udp_ingress
  launch_ingress n (IngressConfig.tcp config) =
      launch_tcp_ingress n config >>= λ ingress. ok (BoxedIngress.tcp ingress)
  launch_ingress n (IngressConfig.udp config) =
      launch_udp_ingress n config >>= λ ingress. ok (BoxedIngress.udp ingress)

  -- `for ingress_config in ingress_configs`
  unfoldable pub launch_ingresses :
      ℕ → List IngressConfig → Server BoxedIngress → Result (Server BoxedIngress)
  unfolding launch_ingress Server.assign_ingress
  launch_ingresses n [] server = ok server
  launch_ingresses n (config ∷ configs) server = do
    ingress ← launch_ingress n config
    server' ← started (Server.assign_ingress ingress server)
    launch_ingresses (suc n) configs server'

module _ {Files : Type 0} (host : Host Files) where
  unfoldable pub launch_with_certificate :
      ServerConfig
      → List IngressConfig
      → Counters
      → Certificate
      → Result (Server BoxedIngress × Counters)
  unfolding Server.new_with_certificate Server.listen launch_ingresses
  launch_with_certificate config ingresses counters certificate = do
    (server, counters') ← unwrap (
        Server.new_with_certificate config.id certificate.cert_hash
          (host.with_single_cert certificate.cert_der certificate.key) host.quic_config counters)
    listening ← started (Server.listen (host.endpoint config.client_addr) server)
    running ← launch_ingresses host.bind 0 ingresses listening
    ok (running, counters')

  -- `launch_server_with_ingresses` up to the signal.
  unfoldable pub launch_server_with_ingresses :
      ServerConfig
      → List IngressConfig
      → Files
      → Counters
      → Result (Server BoxedIngress × Counters) × Files
  unfolding load_or_generate_self_signed_certificate launch_with_certificate
  launch_server_with_ingresses config ingresses files counters =
      let (loaded, files') =
        load_or_generate_self_signed_certificate host.disk host.crypto config.tls files in
      (loaded >>= launch_with_certificate config ingresses counters, files')

-- After the signal: `server.stop().await.unwrap()`.
unfoldable pub shut_down : Server BoxedIngress → Result (Stopped BoxedIngress)
unfolding Server.stop
shut_down server = let stopped = Server.stop server in unwrap stopped.result >>= λ _. ok stopped
