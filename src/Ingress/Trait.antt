-- ===== src/Ingress/Trait.antt =====
-- siffleux/src/server/ingress/ingress.rs: the trait `Ingress`, as an interface over the type of the
-- ingresses. A method that changes the shared object returns the changed one.
use siffleux.Prelude.{ℕ, ◌≡◌}
use siffleux.Error.{Result}
use siffleux.Ids.Names.{IngressId, AuthKey}
use siffleux.Frames.{SocketAddr}
use siffleux.Tunnel.{Tunnel}

-- What the operating system answers when a socket is bound: the socket, and its local address.
abbrev pub Bound : Type 0
Bound = Result (ℕ × Result SocketAddr)

pub record Ingress (I : Type 0) : Type 0 where
  pub id : I → IngressId
  pub auth_key : I → AuthKey
  pub assign_tunnel : Tunnel → I → Result (Unit {0}) × I
  pub start : Bound → I → Result (Unit {0}) × I
  pub stop : I → Result (Unit {0}) × I
  -- The id is fixed when the ingress is made.
  pub id-assign_tunnel : (t : Tunnel) (i : I) → id (assign_tunnel t i).1 ≡ id i
  pub auth_key-assign_tunnel : (t : Tunnel) (i : I) → auth_key (assign_tunnel t i).1 ≡ auth_key i
