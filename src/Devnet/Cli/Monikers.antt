-- ===== src/Devnet/Cli/Monikers.antt =====
-- Layout pairs without a shared name belong to validators whose monikers differ.
use tempo_py.Prelude.{
  ℕ, suc, sym, subst, ok-injective, >>=-eq-ok, All, if◌then◌else◌, ◌≡◌, Bool, List, [], ◌∷◌, ok,
}
use tempo_py.Python.Bytes.{Str}
use tempo_py.Devnet.DevnetConfig.{DevnetConfig}
use tempo_py.Devnet.DevnetConfig.Genesis.{Ipaddress, docker_validator_addr}
use tempo_py.Devnet.Config.{ValidatorConfig, validator_arg}
use tempo_py.Devnet.Backends.Localnet.{layout_pairs}
use tempo_py.Devnet.Layout.Moves.{Apart, AllApart}
use tempo_py.Devnet.Supervisor.Programs.{AllNew, IsNew}

-- The destinations are the monikers, so that these differ where no two pairs share a name.
layout_pairs-IsNew :
    (ip : Ipaddress) (c : DevnetConfig) (docker : Bool) (index : ℕ) (vals : List ValidatorConfig)
    (pair : Str × Str) (pairs : List (Str × Str))
    → layout_pairs ip c docker index vals ≡ ok pairs
    → All (Apart pair) pairs
    → IsNew pair.1 vals
unfolding layout_pairs
layout_pairs-IsNew ip c docker index [] pair pairs e h = tt
layout_pairs-IsNew ip c docker index (val ∷ vals) pair pairs e h =
    let (src, _, e1) =
      >>=-eq-ok (if docker then docker_validator_addr ip c index else ok (validator_arg val)) _ e in
    let (rest, paired, e2) = >>=-eq-ok (layout_pairs ip c docker (suc index) vals) _ e1 in
    let apart = subst (All (Apart pair)) (sym (ok-injective e2)) h in
    (
      λ same. apart.0.1 (sym same),
      layout_pairs-IsNew ip c docker (suc index) vals pair rest paired apart.1,
    )

pub layout_pairs-AllNew :
    (ip : Ipaddress) (c : DevnetConfig) (docker : Bool) (index : ℕ) (vals : List ValidatorConfig)
    (pairs : List (Str × Str))
    → layout_pairs ip c docker index vals ≡ ok pairs
    → AllApart pairs
    → AllNew vals
unfolding layout_pairs
layout_pairs-AllNew ip c docker index [] pairs e h = tt
layout_pairs-AllNew ip c docker index (val ∷ vals) pairs e h =
    let (src, _, e1) =
      >>=-eq-ok (if docker then docker_validator_addr ip c index else ok (validator_arg val)) _ e in
    let (rest, paired, e2) = >>=-eq-ok (layout_pairs ip c docker (suc index) vals) _ e1 in
    let apart = subst AllApart (sym (ok-injective e2)) h in
    (
      layout_pairs-IsNew ip c docker (suc index) vals (src, val.moniker) rest paired apart.0,
      layout_pairs-AllNew ip c docker (suc index) vals rest paired apart.1,
    )
