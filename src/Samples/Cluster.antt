-- ===== src/Samples/Cluster.antt =====
-- A supervisord with three processes, of which one is running and one cannot be started, and the nodes of a
-- configuration.
use tempo_py.Prelude.{
  ◌≡◌, ◌≢◌, ◌⊎◌, inl, inr, refl, Bool, true, false, if◌then◌else◌, List, [], ◌∷◌, map, ok, err,
  fault, key_error, All, Bool-cases, ◌||◌,
}
use tempo_py.Python.Bytes.{Str, codes, eqb, eqb-ne, eqb_refl, eqb→eq}
use tempo_py.Devnet.Cluster.{Supervisor, Cluster, start_all, stop_all, find_rpc_endpoint}
use tempo_py.Devnet.Cluster.Supervised.{IsSupervisor, stopped, running, AllDiffer}
use tempo_py.Devnet.Cluster.Starting.{Completed, Faulted}
use tempo_py.Devnet.Cluster.Processes.{AllRunning, IsSettled, start_all-starts, stop_all-stops}
use tempo_py.Devnet.Cluster.Endpoints.{Known, Endpoint, endpoints, AllNamed, find_rpc_endpoint-own}
use tempo_py.Samples.Localnet.{config}

-- The states of the processes.
abbrev States : Type 0
States = Str → Str

abbrev names : List Str
names = codes "node0" ∷ codes "node1" ∷ codes "broken" ∷ []

abbrev updated : States → Str → Str → States
updated s n state m = if eqb m n then state else s m

abbrev supervisor : Supervisor States
supervisor = record {
  get_all_process_info = λ s. (ok (map (λ n. record { name = n; statename = s n }) names), s);
  start_process = λ n s.
      if eqb (s n) running || eqb n (codes "broken")
      then (err fault, s)
      else (ok true, updated s n running);
  stop_process =
      λ n s. if eqb (s n) stopped then (err fault, s) else (ok true, updated s n stopped);
}

updated-own : (s : States) (n state : Str) → updated s n state n ≡ state
updated-own s n state = rw (eqb_refl n) refl

updated-other : (s : States) (n state m : Str) → m ≢ n → updated s n state m ≡ s m
updated-other s n state m h = elim (Bool-cases (eqb m n)) [
  | inl e ↦ absurd (h (eqb→eq m n e))
  | inr e ↦ rw e refl
]

apart : (eqb stopped running ≡ false) × (eqb running stopped ≡ false)
unfolding eqb
apart = (refl, refl)

laws : IsSupervisor supervisor
laws = record {
  names = names;
  state = λ s n. s n;
  listed = λ s. refl;
  starts = λ s n h. elim (Bool-cases (eqb n (codes "broken"))) [
    | inl e ↦ inr (s, rw (h, e, apart.0) refl, λ m k. refl)
    | inr e ↦ inl (
      updated s n running,
      rw (h, e, apart.0) refl,
      updated-own s n running,
      updated-other s n running,
    )
  ];
  stops = λ s n h. (
    updated s n stopped,
    rw (h, apart.1) refl,
    updated-own s n stopped,
    updated-other s n stopped,
  );
  refuses = λ s n h. rw (h, eqb_refl stopped) refl;
}

names-AllDiffer : AllDiffer names
unfolding eqb
names-AllDiffer = ((eqb-ne _ _ refl, (eqb-ne _ _ refl, tt)), ((eqb-ne _ _ refl, tt), (tt, tt)))

-- node0 is running, the others are not.
abbrev half : Cluster States
half = record {
  has_proxy = false;
  system = λ n. if eqb n (codes "node0") then running else stopped;
}

start_all-starts_example :
    Completed supervisor laws half.system half.system names (start_all supervisor half)
    ⊎ Faulted supervisor laws half.system half.system names (start_all supervisor half)
unfolding laws
start_all-starts_example = start_all-starts supervisor laws half names-AllDiffer

half-IsSettled : IsSettled supervisor laws half.system names
unfolding eqb laws
half-IsSettled = (inl refl, (inr refl, (inr refl, tt)))

stop_all-stops_example :
    (AllRunning supervisor laws half.system names
      × (s' : States) × (proxy : Bool) × (stop_all supervisor half
          ≡ (ok true, record { has_proxy = proxy; system = s' }))
      × All (λ n. s' n ≡ stopped) names)
    ⊎ ((¬ AllRunning supervisor laws half.system names)
        × (after : Cluster States) × (stop_all supervisor half ≡ (err fault, after)))
unfolding laws
stop_all-stops_example = stop_all-stops supervisor laws half names-AllDiffer half-IsSettled

config-AllNamed : AllNamed (endpoints config)
unfolding eqb
config-AllNamed = (
  (eqb-ne _ _ refl, (eqb-ne _ _ refl, (eqb-ne _ _ refl, tt))),
  ((eqb-ne _ _ refl, (eqb-ne _ _ refl, tt)), ((eqb-ne _ _ refl, tt), (tt, tt))),
)

find_rpc_endpoint-own_example :
    All (λ (e : Endpoint). find_rpc_endpoint config e.0 ≡ ok e.1) (endpoints config)
    × (Known (codes "node7") (endpoints config)
        ⊎ (find_rpc_endpoint config (codes "node7") ≡ err key_error))
find_rpc_endpoint-own_example = find_rpc_endpoint-own config (codes "node7") config-AllNamed
