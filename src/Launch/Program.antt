-- ===== src/Launch/Program.antt =====
-- siffleux-cli/src/main.rs, over the commands of siffleux-cli/src/cli.rs: the choice of what to launch.
-- Reading a file and parsing TOML are given, with their errors; the arguments are already parsed.
pub mod Arguments
pub mod Chains
use siffleux.Prelude.{ℕ, String, Option, none, some, List, [], ◌∷◌}
use siffleux.Error.{Result, ok, err, panic}
use siffleux.ByteCounter.{Counters}
use siffleux.Config.Draw.{Draw, Outcome, made, refused, panicked, pure, unwrap, ◌>>=◌, Keys}
use siffleux.Config.Types.{ServerConfig, IngressConfig, EgressConfig}
use siffleux.Config.Toml.{ServerToml, ClientToml, server_config, egress_configs}
use siffleux.Config.Cli.{
  ServerArgs, TcpIngressArgs, UdpIngressArgs, TcpEgressArgs, UdpEgressArgs, server_of_args,
  tcp_ingress_of_args, udp_ingress_of_args, tcp_egress_of_args, udp_egress_of_args,
}
use siffleux.Ingress.Boxed.{BoxedIngress}
use siffleux.Egress.Boxed.{BoxedEgress}
use siffleux.Server.{Server}
use siffleux.Client.Registry.{Client}
use siffleux.Launch.Servers.{Host, launch_server_with_ingresses}
use siffleux.Launch.Clients
use siffleux.Launch.Clients.{Launch, Resolver, launch_client_with_egresses}

pub data IngressCommand : Type 0 where
  tcp : TcpIngressArgs → IngressCommand
  udp : UdpIngressArgs → IngressCommand

pub record ServerCommand : Type 0 where
  pub config : Option String
  pub server_args : ServerArgs
  pub ingress : Option IngressCommand

pub data EgressCommand : Type 0 where
  tcp : TcpEgressArgs → EgressCommand
  udp : UdpEgressArgs → EgressCommand

pub record ClientCommand : Type 0 where
  pub config : Option String
  pub egress : Option EgressCommand

pub data Commands : Type 0 where
  server : ServerCommand → Commands
  client : ClientCommand → Commands

-- `read_to_string`, and `toml::from_str` for the two types.
pub record Reader : Type 0 where
  pub read_to_string : String → Result String
  pub parse_server : String → Result ServerToml
  pub parse_client : String → Result ClientToml

-- What is launched, and with what.
pub data Plan : Type 0 where
  launch_server : ServerConfig → List IngressConfig → Plan
  launch_client : List EgressConfig → Plan
  nothing : Plan

-- `Vec::try_from(client_toml).unwrap()`
abbrev pub unwrap_refused : {A : Type 0} → Outcome A → Outcome A
unwrap_refused (made a) = made a
unwrap_refused (refused e) = panicked
unwrap_refused panicked = panicked

abbrev pub unwrapped : {A : Type 0} → Draw A → Draw A
unwrapped m n = (unwrap_refused (m n).0, (m n).1)

module _ (reader : Reader) (keys : Keys) where
  unfoldable pub ingress_of_command : IngressCommand → Draw IngressConfig
  unfolding tcp_ingress_of_args udp_ingress_of_args
  ingress_of_command (IngressCommand.tcp args) = tcp_ingress_of_args keys args
  ingress_of_command (IngressCommand.udp args) = udp_ingress_of_args keys args

  unfoldable pub egress_of_command : EgressCommand → Draw EgressConfig
  unfolding tcp_egress_of_args udp_egress_of_args
  egress_of_command (EgressCommand.tcp args) = tcp_egress_of_args keys args
  egress_of_command (EgressCommand.udp args) = udp_egress_of_args keys args

  unfoldable pub plan_server_file : String → Draw Plan
  unfolding server_config
  plan_server_file config_path = do
    contents ← unwrap (reader.read_to_string config_path)
    server_toml ← unwrap (reader.parse_server contents)
    (config, ingresses) ← server_config keys server_toml
    pure (launch_server config ingresses)

  unfoldable pub plan_server_args : ServerArgs → IngressCommand → Draw Plan
  unfolding server_of_args ingress_of_command
  plan_server_args server_args ingress_command = do
    config ← server_of_args keys server_args
    ingress ← ingress_of_command ingress_command
    pure (launch_server config (ingress ∷ []))

  unfoldable pub plan_client_file : String → Draw Plan
  unfolding egress_configs
  plan_client_file config_path = do
    contents ← unwrap (reader.read_to_string config_path)
    client_toml ← unwrap (reader.parse_client contents)
    egresses ← unwrapped (egress_configs keys client_toml)
    pure (launch_client egresses)

  unfoldable pub plan_client_args : EgressCommand → Draw Plan
  unfolding egress_of_command
  plan_client_args egress_command = do
    egress ← egress_of_command egress_command
    pure (launch_client (egress ∷ []))

  -- The file before the subcommand; with neither, nothing.
  unfoldable pub plan : Commands → Draw Plan
  unfolding plan_server_file plan_server_args plan_client_file plan_client_args
  plan (server command) = elim command.config [
    | some config_path ↦ plan_server_file config_path
    | none ↦ elim command.ingress [
      | some ingress_command ↦ plan_server_args command.server_args ingress_command
      | none ↦ pure nothing
    ]
  ]
  plan (client command) = elim command.config [
    | some config_path ↦ plan_client_file config_path
    | none ↦ elim command.egress [
      | some egress_command ↦ plan_client_args egress_command
      | none ↦ pure nothing
    ]
  ]

-- What runs until the signal; `aborted` is a panic of the main task, which ends the program.
pub data Running : Type 0 where
  server_runs : Server BoxedIngress → Counters → Running
  client_runs : Client BoxedEgress → Counters → Running
  nothing_runs : Running
  aborted : Running

abbrev pub server_running : Result (Server BoxedIngress × Counters) → Running
server_running (ok (launched, counters)) = server_runs launched counters
server_running (err e) = aborted
server_running panic = aborted

abbrev pub client_running : Launch (Client BoxedEgress × Counters) → Running
client_running (Clients.done (launched, counters)) = client_runs launched counters
client_running (Clients.failed e) = aborted
client_running Clients.panicked = aborted

module _ {Files : Type 0} (host : Host Files) (resolver : Resolver) where
  unfoldable pub launch : Outcome Plan → Files → Running
  unfolding launch_server_with_ingresses launch_client_with_egresses
  launch (made (launch_server config ingresses)) files =
      server_running (launch_server_with_ingresses host config ingresses files []).0
  launch (made (launch_client egresses)) files =
      client_running (launch_client_with_egresses resolver egresses [])
  launch (made nothing) files = nothing_runs
  launch (refused e) files = aborted
  launch panicked files = aborted

  unfoldable pub main : Reader → Keys → Commands → Files → Running
  unfolding plan launch
  main reader keys command files = launch (plan reader keys command 0).0 files
