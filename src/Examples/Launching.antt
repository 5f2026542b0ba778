-- ===== src/Examples/Launching.antt =====
-- Certificates, servers and clients that are launched, at concrete inputs.
use Prim.Native.String
use mathlib.Core.List.Memᴰ.{head}
use siffleux.Frames.{decode}
use siffleux.Frames.Partial.{decode-short_header}
use siffleux.System.Fatal.{yielded, bad_frame_ends}
use siffleux.System.{live_run, step, World}
use siffleux.Server.Connection.{Meeting}
use siffleux.Prelude.{
  inl, ap, sym, none, true, ap, ℕ, ◌≡◌, ◌≢◌, refl, String, Option, none, some, List, [], ◌∷◌, ◌==◌,
  if◌then◌else◌, arith,
}
use siffleux.Error.{panic, ok}
use siffleux.Ids.Names.{IngressId}
use siffleux.Frames.{auth}
use siffleux.Protocol.{AuthEvent}
use siffleux.Certificates.{SelfSigned, Crypto, Disk, load_or_generate_self_signed_certificate}
use siffleux.Certificates.Restart.{
  IsDisk, IsPrinted, CanWrite, certificate_of, restart_keeps_certificate,
}
use siffleux.Config.Types.{
  TlsConfig, ServerConfig, IngressConfig, EgressConfig, AuthenticationConfig,
}
use siffleux.System.{Happening, connected, tunnel_ended}
use siffleux.Launch.Servers.{Host}
use siffleux.Launch.Servers.Started.{Allows, Started, launch_server_total}
use siffleux.Launch.Servers.Guarded.{Guarded, launched-Guarded}
use siffleux.Launch.Clients.{Resolver}
use siffleux.Launch.Clients.Registered.{Resolves}
use siffleux.Launch.Clients.Launched
use siffleux.Examples.Data.{key, other_key, web, home, first_id, second_id, loopback, first}

abbrev tls : TlsConfig
tls = record { cert_pem_path = "cert.pem"; key_pem_path = "key.pem"; cert_subject_alt_name = "a" }

abbrev Files : Type 0
Files = ℕ → Option String

abbrev parsed : (String → Option (List ℕ)) → Option String → Option (List ℕ)
parsed f none = none
parsed f (some text) = f text

abbrev cert_of : String → Option (List ℕ)
cert_of text = if String.len text == 4 then some (1 ∷ []) else none

abbrev key_of : String → Option (List ℕ)
key_of text = if String.len text == 3 then some (2 ∷ []) else none

-- A disk that knows paths by their lengths.
abbrev disk : Disk Files
disk = record {
  cert_from_pem = λ path files. parsed cert_of (files (String.len path));
  key_from_pem = λ path files. parsed key_of (files (String.len path));
  write = λ path text files. (ok tt, λ n. if n == String.len path then some text else files n);
}

disk-IsDisk : IsDisk disk tls cert_of key_of
disk-IsDisk = record {
  cert-write = λ text files h. refl;
  key-write = λ text files h. refl;
  cert-write_key = λ text files h. refl;
}

abbrev self_signed : SelfSigned
self_signed = record { cert_der = 1 ∷ []; key_der = 2 ∷ []; cert_pem = "cert"; key_pem = "key" }

abbrev crypto : Crypto
crypto = record { sha256 = λ bytes. 0 ∷ bytes; generate = λ name. ok self_signed }

self_signed-IsPrinted : IsPrinted cert_of key_of self_signed
self_signed-IsPrinted = record { cert = refl; key = refl }

abbrev blank : Files
blank n = none

blank-CanWrite : CanWrite disk tls self_signed blank
blank-CanWrite = record { cert = refl; key = refl }

paths_apart : tls.cert_pem_path ≢ tls.key_pem_path
paths_apart h = let e : 8 ≡ 7 = ap String.len h in absurd (omega (arith, e))

restart_keeps_certificate_example :
    let first = load_or_generate_self_signed_certificate disk crypto tls blank in
    (first.0 ≡ ok (certificate_of crypto self_signed))
    × (load_or_generate_self_signed_certificate disk crypto tls first.1
        ≡ (ok (certificate_of crypto self_signed), first.1))
restart_keeps_certificate_example =
    restart_keeps_certificate disk tls cert_of key_of disk-IsDisk crypto crypto self_signed blank
      refl refl paths_apart refl self_signed-IsPrinted blank-CanWrite

abbrev host : Host Files
host = record {
  crypto = crypto;
  disk = disk;
  with_single_cert = λ cert key. ok tt;
  quic_config = ok tt;
  endpoint = λ addr. ok 100;
  bind = λ n addr. ok (n, ok addr);
}

abbrev server_config : ServerConfig
server_config = record { id = home; client_addr = loopback; tls = tls }

abbrev web_config : IngressConfig
web_config = IngressConfig.tcp (record { addr = loopback; id = web; auth_key = key })

abbrev dns : IngressId
dns = record { value = 100 ∷ [] }

abbrev dns_config : IngressConfig
dns_config = IngressConfig.udp (record { addr = loopback; id = dns; auth_key = other_key })

abbrev ingress_configs : List IngressConfig
ingress_configs = web_config ∷ dns_config ∷ []

ids_apart : dns ≢ web
ids_apart h = cc h

blank-loads :
    (load_or_generate_self_signed_certificate disk crypto tls blank).0
    ≡ ok (certificate_of crypto self_signed)
unfolding load_or_generate_self_signed_certificate
blank-loads = refl

abbrev allows : Allows host server_config ingress_configs blank
allows = record {
  certificate = certificate_of crypto self_signed;
  loaded = blank-loads;
  single_cert = refl;
  quic_config = refl;
  endpoint = 100;
  bound = refl;
  ingresses_bound = (
    record { socket = 0; local_addr = loopback; bound = refl },
    (record { socket = 1; local_addr = loopback; bound = refl }, tt),
  );
}

-- A client with the key, one with another, and the end of the first one's tunnel.
abbrev past : List Happening
past =
    tunnel_ended web first
    ∷ connected (record {
      incoming = ok 1;
      accepted = ok tt;
      tunnel_id = second_id;
      written = ok tt;
      event = AuthEvent.frame (ok (auth other_key web));
      events = [];
    })
    ∷ connected (record {
      incoming = ok 0;
      accepted = ok tt;
      tunnel_id = first_id;
      written = ok tt;
      event = AuthEvent.frame (ok (auth key web));
      events = [];
    })
    ∷ []

launch_server_total_example :
    Started host server_config ingress_configs blank [] (certificate_of crypto self_signed)
launch_server_total_example =
    launch_server_total host server_config ingress_configs blank [] allows
      ((ids_apart, tt), (tt, tt))

launched-Guarded_example : Guarded host true server_config ingress_configs blank [] past web_config
launched-Guarded_example =
    launched-Guarded host true server_config ingress_configs blank [] past web_config allows
      ((ids_apart, tt), (tt, tt)) (head refl)

-- A client that sends one byte and stops.
abbrev silent_client : Meeting
silent_client = record {
  incoming = ok 2;
  accepted = ok tt;
  tunnel_id = first_id;
  written = ok tt;
  event = AuthEvent.frame panic;
  events = [];
}

abbrev empty_world : World
empty_world = (
  record {
    id = home;
    certificate_hash = [];
    byte_counter = 0;
    ingress_by_id = [];
    endpoint = none;
  },
  [],
)

one_byte : some silent_client.event ≡ yielded (decode (0 ∷ [])).0
one_byte = ap yielded (sym (decode-short_header 0 [] (inl refl) (omega arith)))

bad_frame_ends_example :
    (live_run true (connected silent_client ∷ []) empty_world ≡ none)
    × ((step (connected silent_client) empty_world).0 ≡ empty_world.0)
bad_frame_ends_example =
    bad_frame_ends true [] empty_world empty_world silent_client 2 0 [] (inl refl) (omega arith)
      refl refl one_byte (unfold live_run in refl)

abbrev resolver : Resolver
resolver = record {
  lookup_host = λ name. if String.len name == 1 then none else some (loopback ∷ []);
  decode = λ text. some (1 ∷ 2 ∷ []);
}

abbrev to_server : AuthenticationConfig
to_server = record { server = "host"; cert_hash = "hash"; cert_subject_alt_name = "a" }

abbrev egress_a : EgressConfig
egress_a = EgressConfig.tcp (record {
  authentication_config = to_server;
  id = record { value = 97 ∷ [] };
  ingress_id = web;
  auth_key = key;
  target = "target";
})

abbrev egress_b : EgressConfig
egress_b = EgressConfig.udp (record {
  authentication_config = to_server;
  id = record { value = 98 ∷ [] };
  ingress_id = dns;
  auth_key = other_key;
  target = "x";
})

abbrev resolved : Resolves resolver egress_a
resolved = record {
  target = loopback;
  server = loopback;
  hash = 1 ∷ 2 ∷ [];
  target_found = refl;
  server_found = refl;
  hash_decoded = refl;
}

launch_client_total_example : Launched.Started resolver (egress_a ∷ []) (resolved, tt) []
launch_client_total_example =
    Launched.launch_client_total resolver (egress_a ∷ []) (resolved, tt) [] (tt, tt)
