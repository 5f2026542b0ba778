-- ===== src/Launch/Clients.antt =====
-- siffleux-cli/src/client.rs: a client with its egresses, from its start to its end.
pub mod Registered
pub mod Launched
use Prim.Native.String
use siffleux.Prelude.{ℕ, suc, String, Option, none, some, List, [], ◌∷◌}
use siffleux.Error.{Result, ok, err, panic}
use siffleux.Ids.Names.{EgressId}
use siffleux.Frames.{SocketAddr}
use siffleux.ByteCounter.{Counters}
use siffleux.Config.Types.{AuthenticationConfig, EgressConfig, TcpEgressConfig, UdpEgressConfig}
use siffleux.Client.Authentication.V1CertificateHash
use siffleux.Egress.Lifecycle
use siffleux.Egress.Boxed
use siffleux.Egress.Boxed.{BoxedEgress, boxed_egress}
use siffleux.Client.Registry
use siffleux.Client.Registry.{Client, Stopped}

-- `Result<A, String>`, and a panic.
pub data Launch (A : Type 0) : Type 0 where
  done : A → Launch A
  failed : String → Launch A
  panicked : Launch A

infixl 5 ◌>>=◌
abbrev pub ◌>>=◌ : {A B : Type 0} → Launch A → (A → Launch B) → Launch B
done a >>= f = f a
failed e >>= f = failed e
panicked >>= f = panicked

-- `unwrap` of what a call of the library returns, and of what a function of this file returns.
abbrev pub expect : {A B : Type 0} → Result A × B → Launch B
expect (ok _, b) = done b
expect (err e, b) = panicked
expect (panic, b) = panicked

abbrev pub unwrap : {A : Type 0} → Launch A → Launch A
unwrap (done a) = done a
unwrap (failed e) = panicked
unwrap panicked = panicked

-- `lookup_host`, which may fail or find nothing, and the decoding of base64, which may fail.
pub record Resolver : Type 0 where
  pub lookup_host : String → Option (List SocketAddr)
  pub decode : String → Option (List ℕ)

-- `.ok().and_then(|mut a| a.next())`
abbrev pub first_address : Option (List SocketAddr) → Option SocketAddr
first_address none = none
first_address (some []) = none
first_address (some (a ∷ l)) = some a

abbrev pub ok_or : {A : Type 0} → String → Option A → Launch A
ok_or e none = failed e
ok_or e (some a) = done a

abbrev pub decoded : Option (List ℕ) → Launch (List ℕ)
decoded none = panicked
decoded (some bytes) = done bytes

module _ (resolver : Resolver) where
  unfoldable pub lookup_address : String → Launch SocketAddr
  lookup_address address =
      ok_or (String.◌++◌ "Invalid address: " address) (first_address (resolver.lookup_host address))

  unfoldable pub prepare_server_config : AuthenticationConfig → Launch (SocketAddr × List ℕ)
  prepare_server_config config = do
    server_address ←
        ok_or (String.◌++◌ "Invalid server address: " config.server)
          (first_address (resolver.lookup_host config.server))
    certificate_hash ← decoded (resolver.decode config.cert_hash)
    done (server_address, certificate_hash)

  -- `token` is the token of the egress's task.
  unfoldable pub launch_tcp_egress :
      ℕ → Client BoxedEgress → TcpEgressConfig → Launch (Client BoxedEgress)
  unfolding lookup_address prepare_server_config V1CertificateHash.new Lifecycle.new Boxed.start
      Registry.assign_egress
  launch_tcp_egress token client config = do
    target_address ← lookup_address config.target
    (server_address, certificate_hash) ← prepare_server_config config.authentication_config
    tcp_egress ← expect (
        Boxed.start token (
          BoxedEgress.tcp
            (V1CertificateHash.new client.byte_counter config.auth_key server_address
              config.authentication_config.cert_subject_alt_name certificate_hash)
            (Lifecycle.new config.id config.ingress_id target_address)))
    expect (Registry.assign_egress tcp_egress client)

  unfoldable pub launch_udp_egress :
      ℕ → Client BoxedEgress → UdpEgressConfig → Launch (Client BoxedEgress)
  unfolding lookup_address prepare_server_config V1CertificateHash.new Lifecycle.new Boxed.start
      Registry.assign_egress
  launch_udp_egress token client config = do
    target_address ← lookup_address config.target
    (server_address, certificate_hash) ← prepare_server_config config.authentication_config
    udp_egress ← expect (
        Boxed.start token (
          BoxedEgress.udp
            (V1CertificateHash.new client.byte_counter config.auth_key server_address
              config.authentication_config.cert_subject_alt_name certificate_hash)
            (Lifecycle.new config.id config.ingress_id target_address)))
    expect (Registry.assign_egress udp_egress client)

  -- One turn of the loop: the `match`, unwrapped.
  unfoldable pub launch_egress : ℕ → Client BoxedEgress → EgressConfig → Launch (Client BoxedEgress)
  unfolding launch_tcp_egress launch_udp_egress
  launch_egress token client (EgressConfig.tcp config) =
      unwrap (launch_tcp_egress token client config)
  launch_egress token client (EgressConfig.udp config) =
      unwrap (launch_udp_egress token client config)

  -- The tokens are numbered in the order of the egresses.
  unfoldable pub launch_egresses :
      ℕ → List EgressConfig → Client BoxedEgress → Launch (Client BoxedEgress)
  unfolding launch_egress
  launch_egresses token [] client = done client
  launch_egresses token (config ∷ configs) client =
      launch_egress token client config >>= launch_egresses (suc token) configs

  -- `launch_client_with_egresses` up to the signal.
  unfoldable pub launch_client_with_egresses :
      List EgressConfig → Counters → Launch (Client BoxedEgress × Counters)
  unfolding Registry.new launch_egresses
  launch_client_with_egresses configs counters =
      let (client, counters') = Registry.new counters in
      launch_egresses 0 configs client >>= λ launched. done (launched, counters')

-- After the signal: `client.stop().await.unwrap()`.
unfoldable pub shut_down :
    (EgressId → Result (Unit {0})) → Client BoxedEgress → Launch (Stopped BoxedEgress)
unfolding Registry.stop
shut_down joined client =
    let stopped = Registry.stop joined client in expect (stopped.result, stopped)
