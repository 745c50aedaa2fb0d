-- ===== src/Devnet/Cluster/Starting.antt =====
-- The loop of `start_all`: it starts every stopped process, or ends with the fault of one.
use tempo_py.Prelude.{
  ◌≡◌, ◌≢◌, ◌⊎◌, inl, inr, refl, sym, ap, ◌∙◌, ◌++◌, Result, Bool, true, false, List, [], ◌∷◌, ok,
  err, fault, All, Bool-cases,
}
use tempo_py.Python.Bytes.{Str, eqb, eqb→eq}
use tempo_py.Devnet.Cluster.{Supervisor, Cluster, start_node, start_each}
use tempo_py.Devnet.Cluster.Supervised.{
  stopped, running, IsSupervisor, AllDiffer, after_start, flip, infos, Keeps, carry,
}

module _ {ℓ} {S : Type ℓ} (supervisor : Supervisor S) (laws : IsSupervisor supervisor) where
  start_step :
      (n : Str) (s t t' : S) (ns : List Str) (p : Bool)
      → eqb (laws.state s n) stopped ≡ true
      → supervisor.start_process n t ≡ (ok true, t')
      → start_each supervisor
          (infos supervisor laws s (n ∷ ns))
          (record { has_proxy = p; system = t })
        ≡ start_each supervisor
            (infos supervisor laws s ns)
            (record { has_proxy = true; system = t' })
  unfolding start_each start_node
  start_step n s t t' ns p e f = rw (e, f) refl

  skip_step :
      (n : Str) (s t : S) (ns : List Str) (p : Bool)
      → eqb (laws.state s n) stopped ≡ false
      → start_each supervisor
          (infos supervisor laws s (n ∷ ns))
          (record { has_proxy = p; system = t })
        ≡ start_each supervisor (infos supervisor laws s ns) (record { has_proxy = p; system = t })
  unfolding start_each start_node
  skip_step n s t ns p e = rw e

  started : (x : Str) → eqb x stopped ≡ true → after_start x ≡ running
  unfolding after_start
  started x e = rw e

  left_alone : (x : Str) → eqb x stopped ≡ false → after_start x ≡ x
  unfolding after_start
  left_alone x e = rw e

  start_fails :
      (n : Str) (s t t' : S) (ns : List Str) (p : Bool)
      → eqb (laws.state s n) stopped ≡ true
      → supervisor.start_process n t ≡ (err fault, t')
      → start_each supervisor
          (infos supervisor laws s (n ∷ ns))
          (record { has_proxy = p; system = t })
        ≡ (err fault, record { has_proxy = true; system = t' })
  unfolding start_each start_node
  start_fails n s t t' ns p e f = rw (e, f) refl

  -- The names have the states in `s'` that they had in `s`, with the stopped ones running.
  abbrev pub AllStarted : S → S → List Str → Type 0
  AllStarted s s' ns = All (λ n. laws.state s' n ≡ after_start (laws.state s n)) ns

  -- Every stopped process of `ns` was started.
  pub record Completed (s t : S) (ns : List Str) (outcome : Result Bool × Cluster S) : Type ℓ where
    pub system : S
    pub proxy : Bool
    pub returned : outcome ≡ (ok true, record { has_proxy = proxy; system = system })
    pub started : AllStarted s system ns
    pub kept : Keeps supervisor laws ns t system

  -- The supervisor raised a fault for a stopped process of `ns`: those before it are started, and
  -- those after it are as they were.
  pub record Faulted (s t : S) (ns : List Str) (outcome : Result Bool × Cluster S) : Type ℓ where
    pub before : List Str
    pub failed : Str
    pub after : List Str
    pub split : ns ≡ before ++ (failed ∷ after)
    pub was_stopped : laws.state s failed ≡ stopped
    pub seen : S
    pub system : S
    pub raised : supervisor.start_process failed seen ≡ (err fault, system)
    pub returned : outcome ≡ (err fault, record { has_proxy = true; system = system })
    pub started : AllStarted s system before
    pub untouched : All (λ n. laws.state system n ≡ laws.state s n) after
    pub kept : Keeps supervisor laws ns t system

  -- The state of the first name, which the rest of the loop keeps.
  cons-Faulted :
      (n : Str) (s t t' : S) (ns : List Str) (first rest : Result Bool × Cluster S)
      → first ≡ rest
      → All (λ m. m ≢ n) ns
      → laws.state t' n ≡ after_start (laws.state s n)
      → ((m : Str) → m ≢ n → laws.state t' m ≡ laws.state t m)
      → Faulted s t' ns rest
      → Faulted s t (n ∷ ns) first
  cons-Faulted n s t t' ns first rest e d now keep f = record {
    before = n ∷ f.before;
    failed = f.failed;
    after = f.after;
    split = ap (λ (xs : List Str). n ∷ xs) f.split;
    was_stopped = f.was_stopped;
    seen = f.seen;
    system = f.system;
    raised = f.raised;
    returned = e ∙ f.returned;
    started = (f.kept n (flip n ns d) ∙ now, f.started);
    untouched = f.untouched;
    kept = λ m h. f.kept m h.1 ∙ keep m h.0;
  }

  cons-Completed :
      (n : Str) (s t t' : S) (ns : List Str) (first rest : Result Bool × Cluster S)
      → first ≡ rest
      → All (λ m. m ≢ n) ns
      → laws.state t' n ≡ after_start (laws.state s n)
      → ((m : Str) → m ≢ n → laws.state t' m ≡ laws.state t m)
      → Completed s t' ns rest
      → Completed s t (n ∷ ns) first
  cons-Completed n s t t' ns first rest e d now keep f = record {
    system = f.system;
    proxy = f.proxy;
    returned = e ∙ f.returned;
    started = (f.kept n (flip n ns d) ∙ now, f.started);
    kept = λ m h. f.kept m h.1 ∙ keep m h.0;
  }

  abbrev pub each_of : S → S → List Str → Bool → Result Bool × Cluster S
  each_of s t ns p =
      start_each supervisor (infos supervisor laws s ns) (record { has_proxy = p; system = t })

  pub start_each-starts :
      (ns : List Str) (s t : S) (p : Bool)
      → AllDiffer ns
      → All (λ n. laws.state t n ≡ laws.state s n) ns
      → Completed s t ns (each_of s t ns p) ⊎ Faulted s t ns (each_of s t ns p)
  start_each-starts [] s t p d same = inl (record {
    system = t;
    proxy = p;
    returned = unfold start_each in refl;
    started = tt;
    kept = λ m h. refl;
  })
  start_each-starts (n ∷ ns) s t p d same = elim (Bool-cases (eqb (laws.state s n) stopped)) [
    | inl e ↦
        let off = eqb→eq (laws.state s n) stopped e in
        elim (laws.starts t n (same.0 ∙ off)) [
          | inl (t', f, run, keep) ↦
              let now = run ∙ sym (started (laws.state s n) e) in
              let step = start_step n s t t' ns p e f in
              elim (start_each-starts ns s t' true d.1
                (carry supervisor laws n s t t' ns d.0 keep same.1)) [
                  | inl all ↦ inl (cons-Completed n s t t' ns _ _ step d.0 now keep all)
                  | inr some_fail ↦ inr (cons-Faulted n s t t' ns _ _ step d.0 now keep some_fail)
                ]
          | inr (t', f, keep) ↦ inr (record {
            before = [];
            failed = n;
            after = ns;
            split = refl;
            was_stopped = off;
            seen = t;
            system = t';
            raised = f;
            returned = start_fails n s t t' ns p e f;
            started = tt;
            untouched = carry supervisor laws n s t t' ns d.0 keep same.1;
            kept = λ m h. keep m h.0;
          })
        ]
    | inr e ↦
        let now = same.0 ∙ sym (left_alone (laws.state s n) e) in
        let step = skip_step n s t ns p e in
        elim (start_each-starts ns s t p d.1 same.1) [
          | inl all ↦ inl (cons-Completed n s t t ns _ _ step d.0 now (λ m h. refl) all)
          | inr some_fail ↦ inr (cons-Faulted n s t t ns _ _ step d.0 now (λ m h. refl) some_fail)
        ]
  ]
