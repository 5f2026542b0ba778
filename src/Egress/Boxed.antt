-- ===== src/Egress/Boxed.antt =====
-- siffleux/src/client/egress/egress.rs: `Box<dyn Egress>`, over the two egresses that there are, each with
-- the authentication that it was made with.
use siffleux.Prelude.{ℕ, ◌≡◌}
use siffleux.Error.{Result}
use siffleux.Client.Authentication.V1CertificateHash.{V1CertificateHash}
use siffleux.Egress.Trait
use siffleux.Egress.Trait.{EgressTrait}
use siffleux.Egress.Lifecycle
use siffleux.Egress.Lifecycle.{Egress}

pub data BoxedEgress : Type 0 where
  tcp : V1CertificateHash → Egress → BoxedEgress
  udp : V1CertificateHash → Egress → BoxedEgress

abbrev pub egress : BoxedEgress → Egress
egress (tcp authentication e) = e
egress (udp authentication e) = e

abbrev pub authentication : BoxedEgress → V1CertificateHash
authentication (tcp a e) = a
authentication (udp a e) = a

abbrev pub with_egress : Egress → BoxedEgress → BoxedEgress
with_egress e (tcp a old) = tcp a e
with_egress e (udp a old) = udp a e

unfoldable pub start : ℕ → BoxedEgress → Result (Unit {0}) × BoxedEgress
unfolding Lifecycle.start
start token b = let (result, e) = Lifecycle.start token (egress b) in (result, with_egress e b)

unfoldable pub stop : Result (Unit {0}) → BoxedEgress → Result (Unit {0}) × BoxedEgress
unfolding Lifecycle.stop
stop joined b = let (result, e) = Lifecycle.stop joined (egress b) in (result, with_egress e b)

pub id-start : (token : ℕ) (b : BoxedEgress) → (egress (start token b).1).id ≡ (egress b).id
unfolding start
id-start token (tcp a e) = Trait.id-start token e
id-start token (udp a e) = Trait.id-start token e

pub id-stop :
    (joined : Result (Unit {0})) (b : BoxedEgress) → (egress (stop joined b).1).id ≡ (egress b).id
unfolding stop
id-stop joined (tcp a e) = Trait.id-stop joined e
id-stop joined (udp a e) = Trait.id-stop joined e

-- The methods called through the box.
instance abbrev pub boxed_egress : EgressTrait BoxedEgress
boxed_egress = record {
  id = λ b. (egress b).id;
  ingress_id = λ b. (egress b).ingress_id;
  state = λ b. (egress b).state;
  start = start;
  stop = stop;
  id-start = id-start;
  id-stop = id-stop;
}
