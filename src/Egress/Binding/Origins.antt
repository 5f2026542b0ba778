-- ===== src/Egress/Binding/Origins.antt =====
-- client/egress/udp_egress.rs: the task of an origin with `get_udp_socket`.
use siffleux.Prelude.{ℕ, ◌≡◌, refl, true}
use siffleux.Error.{Result, ok, err, panic}
use siffleux.Frames.{SocketAddr}
use siffleux.Egress.Sockets.{Channel}
use siffleux.Egress.Sockets.Replies.{origin_start}
use siffleux.Egress.Binding.{Os, datagrams, get_udp_socket}
use siffleux.Egress.Binding.Got.{IsGot, udp_calls, get_udp_socket-IsGot}

started-ok :
    (r : Result ℕ) (channel : Channel)
    → (origin_start r channel).goes_on ≡ true
    → (s : ℕ) × (r ≡ ok s) × ((origin_start r channel).channel ≡ channel)
unfolding origin_start
started-ok (ok s) channel h = (s, refl, refl)
started-ok (err e) channel h = cc
started-ok panic channel h = cc

-- On a Unix system the task of an origin goes on only with a socket of version 4 whose options are set, that is bound to
-- any address and port, connected to the target and writable; and it then has its channel as it was.
pub origin_start-IsGot :
    (os : Os) (target_addr : SocketAddr) (channel : Channel)
    → (origin_start (get_udp_socket true os target_addr) channel).goes_on ≡ true
    → (s : ℕ) × IsGot os datagrams (udp_calls target_addr) s
      × ((origin_start (get_udp_socket true os target_addr) channel).channel ≡ channel)
origin_start-IsGot os target_addr channel h =
    let (s, got, same) = started-ok (get_udp_socket true os target_addr) channel h in
    (s, get_udp_socket-IsGot os target_addr s got, same)
