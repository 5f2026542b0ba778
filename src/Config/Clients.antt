-- ===== src/Config/Clients.antt =====
-- siffleux-cli/src/toml_config.rs: what a client's TOML file comes to.
use mathlib.Core.Path.{ap₂}
use mathlib.Core.List.{map-append}
use siffleux.Prelude.{
  ℕ, String, ◌≡◌, ◌+◌, ◌∙◌, refl, Option, none, some, List, [], ◌∷◌, ◌++◌, map, arith, ap, All,
}
use siffleux.Ids.Names.{AuthKey, IngressId, EgressId}
use siffleux.Ids.EgressId
use siffleux.Config.Draw.{
  Draw, made, refused, collect, or_generated, Keys, AreKeys, ConfigError, tcp_without_server,
}
use siffleux.Config.Types.{EgressConfig, AuthenticationConfig}
use siffleux.Config.Toml.{
  ClientToml, TcpEgressToml, UdpEgressToml, AuthenticationToml, tcp_egress_config,
  udp_egress_config, egress_configs, server_or, require_server, authentication_config,
}

-- An egress as its operator sees it: the protocol, the server, the ingress with its key, the target.
pub data Route : Type 0 where
  tcp_to : Option AuthenticationConfig → IngressId → AuthKey → String → Route
  udp_to : Option AuthenticationConfig → IngressId → AuthKey → String → Route

abbrev pub route : EgressConfig → Route
route (EgressConfig.tcp c) = tcp_to (some c.authentication_config) c.ingress_id c.auth_key c.target
route (EgressConfig.udp c) = udp_to (some c.authentication_config) c.ingress_id c.auth_key c.target

abbrev pub resolve :
    Option AuthenticationToml → Option AuthenticationToml → Option AuthenticationConfig
resolve (some own) default = some (authentication_config own)
resolve none none = none
resolve none (some d) = some (authentication_config d)

abbrev pub tcp_route : Option AuthenticationToml → TcpEgressToml → Route
tcp_route default t = tcp_to (resolve t.server default) t.ingress_id t.auth_key t.target

abbrev pub udp_route : Option AuthenticationToml → UdpEgressToml → Route
udp_route default t = udp_to (resolve t.server default) t.ingress_id t.auth_key t.target

-- An egress that has a server of its own, or finds the file's.
pub record HasServer (own default : Option AuthenticationToml) : Type 0 where
  pub server : AuthenticationToml
  pub found : server_or own default ≡ some server

egress_id-draw :
    (keys : Keys) (o : Option EgressId) (n : ℕ)
    → AreKeys keys
    → (id : EgressId) × (m : ℕ) × (or_generated keys 16 EgressId.try_from o n ≡ (made id, m))
unfolding or_generated EgressId.try_from EgressId.new
egress_id-draw keys (some id) n k = (id, n, refl)
egress_id-draw keys none n k =
    (record { value = keys 16 n }, n + 1, ground (arith, k.of_16_bytes n))

resolve-server :
    (own default : Option AuthenticationToml) (s : AuthenticationToml)
    → server_or own default ≡ some s
    → some (authentication_config s) ≡ resolve own default
unfolding server_or
resolve-server (some own) default s h = ground arith
resolve-server none none s h = cc
resolve-server none (some d) s h = ground arith

tcp-draw :
    (keys : Keys) (default : Option AuthenticationToml) (t : TcpEgressToml) (n : ℕ)
    → AreKeys keys
    → HasServer t.server default
    → (c : EgressConfig) × (m : ℕ) × (tcp_egress_config keys default t n ≡ (made c, m))
      × (route c ≡ tcp_route default t)
unfolding tcp_egress_config require_server
tcp-draw keys default t n k h =
    let (id, m, e) = egress_id-draw keys t.id n k in
    (
      EgressConfig.tcp (record {
        authentication_config = authentication_config h.server;
        id = id;
        ingress_id = t.ingress_id;
        auth_key = t.auth_key;
        target = t.target;
      }),
      m,
      rw e (rw h.found),
      ap (λ a. tcp_to a t.ingress_id t.auth_key t.target)
          (resolve-server t.server default h.server h.found),
    )

udp-draw :
    (keys : Keys) (default : Option AuthenticationToml) (t : UdpEgressToml) (n : ℕ)
    → AreKeys keys
    → HasServer t.server default
    → (c : EgressConfig) × (m : ℕ) × (udp_egress_config keys default t n ≡ (made c, m))
      × (route c ≡ udp_route default t)
unfolding udp_egress_config require_server
udp-draw keys default t n k h =
    let (id, m, e) = egress_id-draw keys t.id n k in
    (
      EgressConfig.udp (record {
        authentication_config = authentication_config h.server;
        id = id;
        ingress_id = t.ingress_id;
        auth_key = t.auth_key;
        target = t.target;
      }),
      m,
      rw e (rw h.found),
      ap (λ a. udp_to a t.ingress_id t.auth_key t.target)
          (resolve-server t.server default h.server h.found),
    )

-- Conversions that succeed on each item of the list.
collect-draw :
    {A B C : Type 0} (P : A → Type 0) (f : A → Draw B) (g : B → C) (h : A → C)
    → ((a : A) (n : ℕ) → P a → (b : B) × (m : ℕ) × (f a n ≡ (made b, m)) × (g b ≡ h a))
    → (l : List A) (n : ℕ) → All P l
    → (bs : List B) × (m : ℕ) × (collect f l n ≡ (made bs, m)) × (map g bs ≡ map h l)
unfolding collect
collect-draw P f g h each [] n all = ([], n, refl, refl)
collect-draw P f g h each (a ∷ l) n all =
    let (b, m, e, p) = each a n all.0 in
    let (bs, k, es, q) = collect-draw P f g h each l m all.1 in
    (b ∷ bs, k, rw e (rw es), ap₂ (λ x xs. x ∷ xs) p q)

abbrev pub routes : ClientToml → List Route
routes t = map (tcp_route t.server) t.tcp_egress ++ map (udp_route t.server) t.udp_egress

-- With generated keys of the length of the base64 text of their bytes, a client's file in which every egress has a server of its own, or the
-- file has one, gives the egresses of the file, the TCP ones first, each group in the file's order, each with its own
-- server before the file's, and with the ingress, the key and the target of the file.
pub egress_configs_total :
    (keys : Keys) (t : ClientToml) (n : ℕ)
    → AreKeys keys
    → All (λ e. HasServer e.server t.server) t.tcp_egress
    → All (λ e. HasServer e.server t.server) t.udp_egress
    → (l : List EgressConfig) × (m : ℕ) × (egress_configs keys t n ≡ (made l, m))
      × (map route l ≡ routes t)
unfolding egress_configs
egress_configs_total keys t n k ht hu =
    let (ts, b, f, p) =
      collect-draw (λ e. HasServer e.server t.server) (tcp_egress_config keys t.server) route
        (tcp_route t.server) (λ x i h. tcp-draw keys t.server x i k h) t.tcp_egress n ht in
    let (us, d, g, q) =
      collect-draw (λ e. HasServer e.server t.server) (udp_egress_config keys t.server) route
        (udp_route t.server) (λ x i h. udp-draw keys t.server x i k h) t.udp_egress b hu in
    (ts ++ us, d, rw f (rw g), map-append route ts us ∙ ap₂ (λ x y. x ++ y) p q)

tcp-refused :
    (keys : Keys) (x : TcpEgressToml) (n : ℕ)
    → AreKeys keys
    → x.server ≡ none
    → (m : ℕ) × (tcp_egress_config keys none x n ≡ (refused (tcp_without_server x.ingress_id), m))
unfolding tcp_egress_config require_server server_or
tcp-refused keys x n k h = let (id, m, e) = egress_id-draw keys x.id n k in (m, rw e (rw h))

collect-refused :
    {A B C : Type 0} (P : A → Type 0) (f : A → Draw B) (g : B → C) (h : A → C)
    → ((a : A) (n : ℕ) → P a → (b : B) × (m : ℕ) × (f a n ≡ (made b, m)) × (g b ≡ h a))
    → (before after : List A) (x : A) (e : ConfigError)
    → ((n : ℕ) → (m : ℕ) × (f x n ≡ (refused e, m)))
    → (n : ℕ) → All P before
    → (m : ℕ) × (collect f (before ++ (x ∷ after)) n ≡ (refused e, m))
unfolding collect
collect-refused P f g h each [] after x e lacking n all = let (m, r) = lacking n in (m, rw r)
collect-refused P f g h each (a ∷ l) after x e lacking n all =
    let (b, m, ma, p) = each a n all.0 in
    let (k, r) = collect-refused P f g h each l after x e lacking m all.1 in (k, rw ma (rw r))

-- A client's file with no server of its own is refused for the first TCP egress that has none either,
-- naming its ingress; nothing is made of the egresses behind it.
pub egress_configs_refused :
    (keys : Keys) (t : ClientToml) (n : ℕ) (before after : List TcpEgressToml) (x : TcpEgressToml)
    → AreKeys keys
    → t.server ≡ none
    → t.tcp_egress ≡ before ++ (x ∷ after)
    → All (λ e. HasServer e.server none) before
    → x.server ≡ none
    → (m : ℕ) × (egress_configs keys t n ≡ (refused (tcp_without_server x.ingress_id), m))
unfolding egress_configs
egress_configs_refused keys t n before after x k no_server split has lacks =
    let (m, r) =
      collect-refused (λ e. HasServer e.server none) (tcp_egress_config keys none) route
        (tcp_route none) (λ y i h. tcp-draw keys none y i k h) before after x
        (tcp_without_server x.ingress_id) (λ i. tcp-refused keys x i k lacks) n has in
    (m, rw (no_server, split) (rw r))
