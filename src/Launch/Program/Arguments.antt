-- ===== src/Launch/Program/Arguments.antt =====
-- siffleux-cli/src/main.rs: the arguments of one ingress or one egress, against a file that says the same.
use siffleux.Prelude.{sym, ◌∙◌, ℕ, String, ◌≡◌, Option, none, some, List, [], ◌∷◌}
use siffleux.Error.{ok}
use siffleux.Ids.Names.{AuthKey}
use siffleux.Ids.ServerId
use siffleux.Ids.EgressId
use siffleux.Config.Draw.{Keys, collect, or_generated}
use siffleux.Config.Toml.{
  ServerToml, ClientToml, TcpIngressToml, UdpIngressToml, AuthenticationToml, server_config,
  egress_configs, tcp_ingress_config, udp_ingress_config, tcp_egress_config, udp_egress_config,
  tls_config, server_or, require_server, authentication_config,
}
use siffleux.Config.Cli.{
  ServerArgs, AuthenticationArgs, server_of_args, tcp_ingress_of_args, udp_ingress_of_args,
  tcp_egress_of_args, udp_egress_of_args, authentication_of_args,
}
use siffleux.Launch.Program.Chains.{
  continue-cong, bind_assoc, one_tcp, one_udp, one_tcp_egress, one_udp_egress, made_of-Unrefused,
}
use siffleux.Launch.Program.{
  IngressCommand, EgressCommand, Reader, ingress_of_command, egress_of_command, plan_server_file,
  plan_server_args, plan_client_file, plan_client_args,
}

-- The key of an ingress's arguments.
abbrev pub key_of : IngressCommand → Option AuthKey
key_of (IngressCommand.tcp args) = args.auth_key
key_of (IngressCommand.udp args) = args.auth_key

abbrev tcp_tables : AuthKey → IngressCommand → List TcpIngressToml
tcp_tables key (IngressCommand.tcp args) =
    record { ip = some args.ip; port = args.port; id = args.id; auth_key = key } ∷ []
tcp_tables key (IngressCommand.udp args) = []

abbrev udp_tables : AuthKey → IngressCommand → List UdpIngressToml
udp_tables key (IngressCommand.tcp args) = []
udp_tables key (IngressCommand.udp args) =
    record { ip = some args.ip; port = args.port; id = args.id; auth_key = key } ∷ []

-- The file that says what the arguments of a server say, with a key for its ingress.
abbrev pub file_of_args : ServerArgs → AuthKey → IngressCommand → ServerToml
file_of_args args key command = record {
  id = args.id;
  ip = some args.ip;
  port = some args.port;
  tls = some (record {
    cert_pem_path = args.tls.cert_pem_path;
    key_pem_path = args.tls.key_pem_path;
    cert_subject_alt_name = some args.tls.cert_subject_alt_name;
  });
  tcp_ingress = tcp_tables key command;
  udp_ingress = udp_tables key command;
}

abbrev server_table : AuthenticationArgs → AuthenticationToml
server_table args = record {
  address = args.server;
  cert_hash = args.cert_hash;
  cert_subject_alt_name = some args.cert_subject_alt_name;
}

-- The file that says what the arguments of a client say.
abbrev pub file_of_egress : EgressCommand → ClientToml
file_of_egress (EgressCommand.tcp args) = record {
  server = none;
  tcp_egress =
      record {
        server = some (server_table args.authentication_args);
        id = args.egress_args.id;
        ingress_id = args.egress_args.ingress_id;
        auth_key = args.egress_args.auth_key;
        target = args.target;
      }
      ∷ [];
  udp_egress = [];
}
file_of_egress (EgressCommand.udp args) = record {
  server = some (server_table args.authentication_args);
  tcp_egress = [];
  udp_egress =
      record {
        server = none;
        id = args.egress_args.id;
        ingress_id = args.egress_args.ingress_id;
        auth_key = args.egress_args.auth_key;
        target = args.target;
      }
      ∷ [];
}

module _ (reader : Reader) (keys : Keys) where
  -- A server that is started with the arguments of one ingress, its key among them, is planned as from a file
  -- that says the same, whatever keys are generated: the same ids, addresses, key and certificate paths.
  pub server_args_as_file :
      (args : ServerArgs) (command : IngressCommand) (key : AuthKey) (path text : String) (n : ℕ)
      → key_of command ≡ some key
      → reader.read_to_string path ≡ ok text
      → reader.parse_server text ≡ ok (file_of_args args key command)
      → plan_server_args reader keys args command n ≡ plan_server_file reader keys path n
  unfolding plan_server_args plan_server_file ingress_of_command server_config server_of_args
      tcp_ingress_of_args udp_ingress_of_args tcp_ingress_config udp_ingress_config collect
      or_generated tls_config
  server_args_as_file args (IngressCommand.tcp ingress) key path text n has read parsed =
      rw (has, read, parsed)
        (bind_assoc (or_generated keys 16 ServerId.try_from args.id) _ _ n
          ∙ continue-cong (or_generated keys 16 ServerId.try_from args.id n) _ _ (λ id k.
            one_tcp
              (tcp_ingress_config keys (record {
                ip = some ingress.ip;
                port = ingress.port;
                id = ingress.id;
                auth_key = key;
              }))
              _ k)
          ∙ sym (bind_assoc (or_generated keys 16 ServerId.try_from args.id) _ _ n))
  server_args_as_file args (IngressCommand.udp ingress) key path text n has read parsed =
      rw (has, read, parsed)
        (bind_assoc (or_generated keys 16 ServerId.try_from args.id) _ _ n
          ∙ continue-cong (or_generated keys 16 ServerId.try_from args.id n) _ _ (λ id k.
            one_udp
              (udp_ingress_config keys (record {
                ip = some ingress.ip;
                port = ingress.port;
                id = ingress.id;
                auth_key = key;
              }))
              _ k)
          ∙ sym (bind_assoc (or_generated keys 16 ServerId.try_from args.id) _ _ n))

  -- A client that is started with the arguments of one egress is planned as from a file that says the same, be
  -- the server that of the egress or that of the file.
  pub client_args_as_file :
      (command : EgressCommand) (path text : String) (n : ℕ)
      → reader.read_to_string path ≡ ok text
      → reader.parse_client text ≡ ok (file_of_egress command)
      → plan_client_args reader keys command n ≡ plan_client_file reader keys path n
  unfolding plan_client_args plan_client_file egress_of_command egress_configs tcp_egress_of_args
      udp_egress_of_args tcp_egress_config udp_egress_config collect server_or require_server
      authentication_config authentication_of_args
  client_args_as_file (EgressCommand.tcp args) path text n read parsed =
      rw (read, parsed)
        (one_tcp_egress (tcp_egress_of_args keys args) n
          (made_of-Unrefused keys 16 EgressId.try_from args.egress_args.id _ n))
  client_args_as_file (EgressCommand.udp args) path text n read parsed =
      rw (read, parsed)
        (one_udp_egress (udp_egress_of_args keys args) n
          (made_of-Unrefused keys 16 EgressId.try_from args.egress_args.id _ n))
