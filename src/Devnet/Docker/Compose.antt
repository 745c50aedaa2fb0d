-- ===== src/Devnet/Docker/Compose.antt =====
-- `generate_docker_compose` of tempo/devnet/supervisor.py: the file docker-compose.yaml as a whole.
use tempo_py.Prelude.{
  Bool, false, not, if◌then◌else◌, List, [], ◌∷◌, ◌++◌, Option, none, some, Result, ok,
  not_implemented_error, ◌>>=◌, ◌>>◌, require,
}
use tempo_py.Python.Bytes.{Str, codes, eqb}
use tempo_py.Devnet.DevnetConfig.{DevnetConfig, single, two_network}
use tempo_py.Devnet.DevnetConfig.ToDict.{
  validator_network_name, public_network_name, public_subnet_cidr,
}
use tempo_py.Devnet.DevnetConfig.Genesis.{Ipaddress}
use tempo_py.Devnet.Docker.Commands.{Enodes}
use tempo_py.Devnet.Docker.{Service, Output, two_networks, generate_services}

-- The networks have their subnets.
pub record Compose : Type 0 where
  pub services : List (Str × Service)
  pub networks : List (Str × Str)

-- docker-compose.yaml, and the scripts that were written, by their directories.
pub record DockerFiles : Type 0 where
  pub compose : Option Compose
  pub scripts : List (Str × Str)

-- The dictionary `networks`.
unfoldable pub compose_networks : DevnetConfig → List (Str × Str)
compose_networks c = elim (c.docker.topology) [
  | two_network ↦
      two_networks (validator_network_name c.docker) c.docker.subnet (public_network_name c.docker)
        (public_subnet_cidr c.docker)
  | single ↦ (c.docker.network, c.docker.subnet) ∷ []
]

-- `dst.exists() and not force`
abbrev pub keeps_compose : Option Compose → Bool → Bool
keeps_compose none force = false
keeps_compose (some old) force = not force

-- The old files with the services added.
abbrev pub with_compose : DevnetConfig → DockerFiles → Output → DockerFiles
with_compose c files out = record {
  compose = some (record { services = out.services; networks = compose_networks c });
  scripts = files.scripts ++ out.scripts;
}

-- `generate_docker_compose`
unfoldable pub generate_docker_compose :
    Ipaddress → DevnetConfig → Enodes → Bool → DockerFiles → Result DockerFiles
generate_docker_compose ip c enodes force files =
    let written = generate_services ip c enodes >>= λ out. ok (with_compose c files out) in
    require (eqb c.backend (codes "tempo")) not_implemented_error
    >> (if keeps_compose files.compose force then ok files else written)
