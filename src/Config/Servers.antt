-- ===== src/Config/Servers.antt =====
-- siffleux-cli/src/toml_config.rs: what a server's TOML file comes to.
use mathlib.Core.Path.{ap₂}
use mathlib.Core.List.{map-append}
use siffleux.Prelude.{◌∙◌, ℕ, ◌≡◌, ◌+◌, refl, Option, none, some, List, [], ◌∷◌, ◌++◌, map, arith}
use siffleux.Ids.Names.{AuthKey, IngressId, ServerId}
use siffleux.Ids.IngressId
use siffleux.Ids.ServerId
use siffleux.Frames.{SocketAddr}
use siffleux.Config.Draw.{Draw, made, collect, or_generated, Keys, AreKeys}
use siffleux.Config.Types.{
  ServerConfig, new_socket_addr, IngressConfig, default_server_ip, default_server_port,
  default_ingress_ip,
}
use siffleux.Config.Toml.{
  tls_config, ServerToml, TcpIngressToml, UdpIngressToml, tcp_ingress_config, udp_ingress_config,
  server_config, unwrap_or,
}

-- An ingress as its operator sees it: the protocol, the address to listen on, and the key.
pub data Endpoint : Type 0 where
  tcp_at : SocketAddr → AuthKey → Endpoint
  udp_at : SocketAddr → AuthKey → Endpoint

abbrev pub endpoint : IngressConfig → Endpoint
endpoint (IngressConfig.tcp c) = tcp_at c.addr c.auth_key
endpoint (IngressConfig.udp c) = udp_at c.addr c.auth_key

abbrev pub tcp_endpoint : TcpIngressToml → Endpoint
tcp_endpoint t = tcp_at (new_socket_addr (unwrap_or default_ingress_ip t.ip) t.port) t.auth_key

abbrev pub udp_endpoint : UdpIngressToml → Endpoint
udp_endpoint t = udp_at (new_socket_addr (unwrap_or default_ingress_ip t.ip) t.port) t.auth_key

abbrev pub endpoints : ServerToml → List Endpoint
endpoints t = map tcp_endpoint t.tcp_ingress ++ map udp_endpoint t.udp_ingress

ingress_id-draw :
    (keys : Keys) (o : Option IngressId) (n : ℕ)
    → AreKeys keys
    → (id : IngressId) × (m : ℕ) × (or_generated keys 16 IngressId.try_from o n ≡ (made id, m))
unfolding or_generated IngressId.try_from IngressId.new
ingress_id-draw keys (some id) n k = (id, n, refl)
ingress_id-draw keys none n k =
    (record { value = keys 16 n }, n + 1, ground (arith, k.of_16_bytes n))

server_id-draw :
    (keys : Keys) (o : Option ServerId) (n : ℕ)
    → AreKeys keys
    → (id : ServerId) × (m : ℕ) × (or_generated keys 16 ServerId.try_from o n ≡ (made id, m))
unfolding or_generated ServerId.try_from ServerId.new
server_id-draw keys (some id) n k = (id, n, refl)
server_id-draw keys none n k =
    (record { value = keys 16 n }, n + 1, ground (arith, k.of_16_bytes n))

tcp-draw :
    (keys : Keys) (t : TcpIngressToml) (n : ℕ)
    → AreKeys keys
    → (c : IngressConfig) × (m : ℕ) × (tcp_ingress_config keys t n ≡ (made c, m))
      × (endpoint c ≡ tcp_endpoint t)
unfolding tcp_ingress_config
tcp-draw keys t n k =
    let (id, m, e) = ingress_id-draw keys t.id n k in
    (
      IngressConfig.tcp (record {
        addr = new_socket_addr (unwrap_or default_ingress_ip t.ip) t.port;
        id = id;
        auth_key = t.auth_key;
      }),
      m,
      rw e,
      refl,
    )

udp-draw :
    (keys : Keys) (t : UdpIngressToml) (n : ℕ)
    → AreKeys keys
    → (c : IngressConfig) × (m : ℕ) × (udp_ingress_config keys t n ≡ (made c, m))
      × (endpoint c ≡ udp_endpoint t)
unfolding udp_ingress_config
udp-draw keys t n k =
    let (id, m, e) = ingress_id-draw keys t.id n k in
    (
      IngressConfig.udp (record {
        addr = new_socket_addr (unwrap_or default_ingress_ip t.ip) t.port;
        id = id;
        auth_key = t.auth_key;
      }),
      m,
      rw e,
      refl,
    )

-- Conversions that always succeed, in the order of the list.
collect-draw :
    {A B C : Type 0} (f : A → Draw B) (g : B → C) (h : A → C)
    → ((a : A) (n : ℕ) → (b : B) × (m : ℕ) × (f a n ≡ (made b, m)) × (g b ≡ h a))
    → (l : List A) (n : ℕ)
    → (bs : List B) × (m : ℕ) × (collect f l n ≡ (made bs, m)) × (map g bs ≡ map h l)
unfolding collect
collect-draw f g h each [] n = ([], n, refl, refl)
collect-draw f g h each (a ∷ l) n =
    let (b, m, e, p) = each a n in
    let (bs, k, es, q) = collect-draw f g h each l m in
    (b ∷ bs, k, rw e (rw es), ap₂ (λ x xs. x ∷ xs) p q)

-- With generated keys of the length of the base64 text of their bytes, a server's file always gives a configuration: it listens for clients on
-- the address of the file or the default one, and has the ingresses of the file, the TCP ones first, each group in
-- the file's order, each with the address and the key that the file gives or the default address.
pub server_config_total :
    (keys : Keys) (t : ServerToml) (n : ℕ)
    → AreKeys keys
    → (c : ServerConfig) × (l : List IngressConfig) × (m : ℕ) × (server_config keys t n
        ≡ (made (c, l), m))
      × (map endpoint l ≡ endpoints t)
      × (c.client_addr
          ≡ new_socket_addr
              (unwrap_or default_server_ip t.ip)
              (unwrap_or default_server_port t.port))
unfolding server_config
server_config_total keys t n k =
    let (id, a, e) = server_id-draw keys t.id n k in
    let (ts, b, f, p) =
      collect-draw (tcp_ingress_config keys) endpoint tcp_endpoint (λ x i. tcp-draw keys x i k)
        t.tcp_ingress a in
    let (us, d, g, q) =
      collect-draw (udp_ingress_config keys) endpoint udp_endpoint (λ x i. udp-draw keys x i k)
        t.udp_ingress b in
    (
      record {
        id = id;
        client_addr =
            new_socket_addr (unwrap_or default_server_ip t.ip)
              (unwrap_or default_server_port t.port);
        tls = tls_config t.tls;
      },
      ts ++ us,
      d,
      rw e (rw f (rw g)),
      map-append endpoint ts us ∙ ap₂ (λ x y. x ++ y) p q,
      refl,
    )
