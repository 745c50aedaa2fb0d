-- ===== src/Devnet/Cluster/Supervised.antt =====
-- What supervisord documents of the calls of tempo/devnet/cluster.py, and the states of its processes.
use tempo_py.Prelude.{
  ◌≡◌, ◌≢◌, ◌⊎◌, refl, sym, ◌∙◌, true, List, [], ◌∷◌, map, ok, err, fault, All, if◌then◌else◌,
}
use tempo_py.Python.Bytes.{eqb-ne, Str, codes, eqb}
use tempo_py.Devnet.Cluster.{ProcessInfo, Supervisor}

abbrev pub stopped : Str
stopped = codes "STOPPED"

abbrev pub running : Str
running = codes "RUNNING"

-- `startProcess` on a stopped process starts it, or raises a fault (as SPAWN_ERROR,
-- ABNORMAL_TERMINATION or NO_FILE); `stopProcess` stops a running process, and raises the fault
-- NOT_RUNNING on a stopped one. They leave all other processes as they were.
pub record IsSupervisor {ℓ} {S : Type ℓ} (supervisor : Supervisor S) : Type ℓ where
  pub names : List Str
  pub state : S → Str → Str
  pub listed :
      (s : S)
      → supervisor.get_all_process_info s
        ≡ (ok (map (λ n. record { name = n; statename = state s n }) names), s)
  pub starts :
      (s : S) (n : Str)
      → state s n ≡ stopped
      → ((s' : S) × (supervisor.start_process n s ≡ (ok true, s'))
          × (state s' n ≡ running)
          × ((m : Str) → m ≢ n → state s' m ≡ state s m))
        ⊎ ((s' : S) × (supervisor.start_process n s ≡ (err fault, s'))
            × ((m : Str) → m ≢ n → state s' m ≡ state s m))
  pub stops :
      (s : S) (n : Str)
      → state s n ≡ running
      → (s' : S) × (supervisor.stop_process n s ≡ (ok true, s'))
        × (state s' n ≡ stopped)
        × ((m : Str) → m ≢ n → state s' m ≡ state s m)
  pub refuses :
      (s : S) (n : Str) → state s n ≡ stopped → supervisor.stop_process n s ≡ (err fault, s)

-- The names differ.
abbrev pub AllDiffer : List Str → Type 0
AllDiffer [] = Unit
AllDiffer (n ∷ ns) = All (λ m. m ≢ n) ns × AllDiffer ns

-- The state of a process after `start_all`, from the one before.
unfoldable pub after_start : Str → Str
after_start before = if eqb before stopped then running else before

pub flip : (n : Str) (ns : List Str) → All (λ m. m ≢ n) ns → All (λ m. n ≢ m) ns
flip n [] h = tt
flip n (m ∷ ns) h = ((λ e. h.0 (sym e)), flip n ns h.1)

pub differ : running ≢ stopped
unfolding eqb
differ = eqb-ne running stopped refl

module _ {ℓ} {S : Type ℓ} (supervisor : Supervisor S) (laws : IsSupervisor supervisor) where
  abbrev pub infos : S → List Str → List ProcessInfo
  infos s ns = map (λ n. record { name = n; statename = laws.state s n }) ns

  -- The processes outside `ns` are as they were.
  abbrev pub Keeps : List Str → S → S → Type 0
  Keeps ns s s' = (m : Str) → All (λ n. m ≢ n) ns → laws.state s' m ≡ laws.state s m

  -- The names other than `n` have the states that they had.
  pub carry :
      (n : Str) (s t t' : S) (ns : List Str)
      → All (λ m. m ≢ n) ns
      → ((m : Str) → m ≢ n → laws.state t' m ≡ laws.state t m)
      → All (λ m. laws.state t m ≡ laws.state s m) ns
      → All (λ m. laws.state t' m ≡ laws.state s m) ns
  carry n s t t' [] d keep same = tt
  carry n s t t' (m ∷ ns) d keep same = (keep m d.0 ∙ same.0, carry n s t t' ns d.1 keep same.1)

  pub same_states : (s : S) (ns : List Str) → All (λ n. laws.state s n ≡ laws.state s n) ns
  same_states s [] = tt
  same_states s (n ∷ ns) = (refl, same_states s ns)
