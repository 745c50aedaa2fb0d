-- ===== src/Samples/Docker.antt =====
-- The Compose file of two validators, a follow node and a public node.
use tempo_py.Prelude.{
  ℕ, some, [], inl, inr, ◌≡◌, ◌≢◌, ◌⊎◌, refl, ok, err, duplicate_section_error, true, ok-injective,
  none,
}
use tempo_py.Python.Bytes.{eqb-ne, codes, eqb}
use tempo_py.Devnet.DevnetConfig.ToDict.{validator_network_name, public_network_name}
use tempo_py.Devnet.DevnetConfig.Genesis.{docker_ip, docker_public_ip}
use tempo_py.Devnet.Docker.Commands.{Enodes}
use tempo_py.Devnet.Docker.{Output, generate_services}
use tempo_py.Devnet.Docker.Loop.{IsIpaddress, AllPairs, NoClash}
use tempo_py.Devnet.Docker.Addresses.{generate_services-NoClash}
use tempo_py.Devnet.Docker.Plans.{IsTotal}
use tempo_py.Devnet.Docker.Total.{generate_services-total}
use tempo_py.Samples.Localnet.{ip, config}
use tempo_py.Devnet.Backends.{tempo, get_backend}
use tempo_py.Devnet.Supervisor.{Files, generate_supervisor_config}
use tempo_py.Devnet.Supervisor.Programs.{AllNew}
use tempo_py.Devnet.Supervisor.Configured.{IsConfigured, generate_supervisor_config-IsConfigured}
use tempo_py.Devnet.Docker.Compose.{DockerFiles}

abbrev enodes : Enodes
enodes = record { identity = λ name. none; ensured = λ name. none }

ip-IsIpaddress : IsIpaddress ip
ip-IsIpaddress = record {
  address-injective = λ subnet a m n e f. cc (ok-injective e, ok-injective f);
}

ip-IsTotal : IsTotal ip config
unfolding docker_ip docker_public_ip
ip-IsTotal = record { ip_at = λ i h. (_, refl); public_ip_at = λ i low h two. (_, refl) }

abbrev no_files : DockerFiles
no_files = record { compose = none; scripts = [] }

produced : (out : Output) × (generate_services ip config enodes ≡ ok out)
produced = elim (generate_services-total ip config enodes ip-IsTotal refl) [
  | inl done ↦ (done.1, done.2)
  | inr failed ↦ absurd (cc (failed.0.2))
]

apart : validator_network_name config.docker ≢ public_network_name config.docker
unfolding validator_network_name public_network_name
apart = eqb-ne _ _ (unfold eqb in refl)

generate_services-NoClash_example : AllPairs NoClash produced.0.services
generate_services-NoClash_example =
    generate_services-NoClash ip config enodes produced.0 ip-IsIpaddress apart produced.1

abbrev files : Files ℕ
files = record {
  genesis = some 1;
  copies = [];
  ini = some [];
  scripts = [];
  secrets = [];
  reth = [];
}

known : get_backend config.backend ≡ ok tempo
unfolding get_backend eqb
known = refl

generate_supervisor_config-IsConfigured_example :
    (AllNew config.validators
      × (out : Files ℕ) × (generate_supervisor_config
            (λ g p. g)
            config
            enodes
            (codes "/data")
            true
            files
          ≡ ok out)
      × IsConfigured (λ g p. g) config enodes (codes "/data") tempo files out)
    ⊎ ((¬ AllNew config.validators)
        × (generate_supervisor_config (λ g p. g) config enodes (codes "/data") true files
            ≡ err duplicate_section_error))
generate_supervisor_config-IsConfigured_example =
    generate_supervisor_config-IsConfigured (λ g p. g) config enodes (codes "/data") true files
      tempo known refl
