-- ===== src/Examples/Pinning.antt =====
-- A client's connection to its server, and the program's arguments, at concrete inputs.
use siffleux.ByteCounter
use siffleux.Prelude.{none, bytes_beq, ℕ, ◌≡◌, ◌≢◌, refl, some, List, [], ◌∷◌}
use siffleux.Error.{panic, Result, ok}
use siffleux.Frames.{auth, authenticated}
use siffleux.Protocol.{AuthEvent}
use siffleux.Tunnel.{Tunnel}
use siffleux.Client.Authentication.Verifier.{Verified, assertion, general, other}
use siffleux.Client.Authentication.V1CertificateHash.{V1CertificateHash, Network, dial, connect}
use siffleux.Client.Authentication.Pinned.{
  IsVerifying, IsPinned, key_sent_only-IsPinned, connect_sound,
}
use siffleux.Config.Draw.{Keys}
use siffleux.Config.Types.{default_server_ip, default_ingress_ip}
use siffleux.Config.Cli.{ServerArgs}
use siffleux.Launch.Program.{
  IngressCommand, EgressCommand, Reader, plan_server_args, plan_server_file,
}
use siffleux.Launch.Program.Arguments.{file_of_args, file_of_egress, server_args_as_file}
use siffleux.Examples.Data.{key, web, home, first_id, loopback}

abbrev connected_if : Verified → Result ℕ
connected_if assertion = ok 5
connected_if (general text) = panic
connected_if (other n) = panic

abbrev cert : List ℕ
cert = 7 ∷ 7 ∷ []

-- A network with one server, whose certificate is `cert`.
abbrev network : Network
network = record {
  sha256 = λ bytes. 0 ∷ bytes;
  provider = some (record { signature_verification_algorithms = 1; supported_schemes = [] });
  quic_config = ok tt;
  endpoint = ok tt;
  connect_with = λ address name. ok tt;
  handshake = λ verify address name. connected_if (verify cert);
  peer_certificate = λ connection. cert;
}

connected-assertion : (v : Verified) (c : ℕ) → connected_if v ≡ ok c → v ≡ assertion
connected-assertion assertion c h = refl
connected-assertion (general text) c h = cc
connected-assertion (other n) c h = cc

network-IsVerifying : IsVerifying network
network-IsVerifying = record {
  verified = λ verify address name c h. connected-assertion (verify cert) c h;
}

abbrev authentication : V1CertificateHash
authentication = record {
  client_byte_counter = 0;
  auth_key = key;
  server_address = loopback;
  server_name = "a";
  certificate_hash = 0 ∷ cert;
}

abbrev answer : AuthEvent
answer = AuthEvent.frame (ok (authenticated first_id home))

abbrev own_tunnel : Tunnel
own_tunnel = record { id = first_id; server_id = home; connection = 5; byte_counter = 0 }

connects : (connect network authentication web (ok tt) (ok tt) [] answer).result ≡ ok own_tunnel
unfolding connect bytes_beq ByteCounter.new
connects = refl

sends : (connect network authentication web (ok tt) (ok tt) [] answer).sent ≢ []
unfolding connect bytes_beq ByteCounter.new
sends h = let e : auth key web ∷ [] ≡ [] = h in cc e

key_sent_only-IsPinned_example :
    (c : ℕ) × (dial network authentication ≡ ok c)
    × IsPinned network authentication c
    × ((connect network authentication web (ok tt) (ok tt) [] answer).sent ≡ auth key web ∷ [])
key_sent_only-IsPinned_example =
    key_sent_only-IsPinned network network-IsVerifying authentication web (ok tt) (ok tt) [] answer
      sends

connect_sound_example :
    IsPinned network authentication own_tunnel.connection
    × (answer ≡ AuthEvent.frame (ok (authenticated first_id home)))
    × ((connect network authentication web (ok tt) (ok tt) [] answer).sent ≡ auth key web ∷ [])
connect_sound_example =
    connect_sound network network-IsVerifying authentication web (ok tt) (ok tt) [] answer
      own_tunnel connects

abbrev args : ServerArgs
args = record {
  id = none;
  ip = default_server_ip;
  port = 9000;
  tls = record { cert_pem_path = "c"; key_pem_path = "k"; cert_subject_alt_name = "a" };
}

abbrev tcp_command : IngressCommand
tcp_command =
    IngressCommand.tcp
      (record { ip = default_ingress_ip; port = 80; id = none; auth_key = some key })

abbrev udp_command : EgressCommand
udp_command = EgressCommand.udp (record {
  authentication_args = record {
    server = "host:8765";
    cert_hash = "00";
    cert_subject_alt_name = "a";
  };
  egress_args = record { id = none; ingress_id = web; auth_key = key };
  target = "localhost:53";
})

abbrev reader : Reader
reader = record {
  read_to_string = λ path. ok "text";
  parse_server = λ text. ok (file_of_args args key tcp_command);
  parse_client = λ text. ok (file_of_egress udp_command);
}

abbrev keys : Keys
keys size n = n ∷ size ∷ []

server_args_as_file_example :
    plan_server_args reader keys args tcp_command 0 ≡ plan_server_file reader keys "path" 0
server_args_as_file_example =
    server_args_as_file reader keys args tcp_command key "path" "text" 0 refl refl refl
