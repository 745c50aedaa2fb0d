-- ===== src/Devnet/Cluster/Processes.antt =====
-- What `start_all` and `stop_all` do to the processes, over what supervisord documents of its calls.
use tempo_py.Prelude.{
  ◌≡◌, ◌⊎◌, inl, inr, refl, sym, subst, ◌∙◌, Bool, true, List, [], ◌∷◌, ok, err, fault, All,
}
use tempo_py.Python.Bytes.{Str}
use tempo_py.Devnet.Cluster.{
  Supervisor, Cluster, status, stop_node, start_each, start_all, stop_each, stop_all,
}
use tempo_py.Devnet.Cluster.Supervised.{
  stopped, running, IsSupervisor, AllDiffer, flip, differ, infos, Keeps, carry, same_states,
}
use tempo_py.Devnet.Cluster.Starting.{Completed, Faulted, start_each-starts}

module _ {ℓ} {S : Type ℓ} (supervisor : Supervisor S) (laws : IsSupervisor supervisor) where
  stop_step :
      (n : Str) (s t t' : S) (ns : List Str) (p : Bool)
      → supervisor.stop_process n t ≡ (ok true, t')
      → stop_each supervisor
          (infos supervisor laws s (n ∷ ns))
          (record { has_proxy = p; system = t })
        ≡ stop_each supervisor
            (infos supervisor laws s ns)
            (record { has_proxy = true; system = t' })
  unfolding stop_each stop_node
  stop_step n s t t' ns p f = rw f refl

  stop_fails :
      (n : Str) (s t : S) (ns : List Str) (p : Bool)
      → supervisor.stop_process n t ≡ (err fault, t)
      → stop_each supervisor
          (infos supervisor laws s (n ∷ ns))
          (record { has_proxy = p; system = t })
        ≡ (err fault, record { has_proxy = true; system = t })
  unfolding stop_each stop_node
  stop_fails n s t ns p f = rw f refl

  abbrev pub AllRunning : S → List Str → Type 0
  AllRunning s ns = All (λ n. laws.state s n ≡ running) ns

  -- Supervised processes that are not changing their states.
  abbrev pub IsSettled : S → List Str → Type 0
  IsSettled s ns = All (λ n. (laws.state s n ≡ running) ⊎ (laws.state s n ≡ stopped)) ns

  stop_each-stops :
      (ns : List Str) (s t : S) (p : Bool)
      → AllDiffer ns
      → All (λ n. laws.state t n ≡ laws.state s n) ns
      → IsSettled s ns
      → (AllRunning s ns
          × (s' : S) × (proxy : Bool) × (stop_each supervisor
                (infos supervisor laws s ns)
                (record { has_proxy = p; system = t })
              ≡ (ok true, record { has_proxy = proxy; system = s' }))
          × All (λ n. laws.state s' n ≡ stopped) ns
          × Keeps supervisor laws ns t s')
        ⊎ ((¬ AllRunning s ns)
            × (s' : Cluster S) × (stop_each supervisor
                  (infos supervisor laws s ns)
                  (record { has_proxy = p; system = t })
                ≡ (err fault, s')))
  stop_each-stops [] s t p d same h = inl (tt, t, p, unfold stop_each in refl, tt, λ m h. refl)
  stop_each-stops (n ∷ ns) s t p d same h = elim (h.0) [
    | inl run ↦
        let (t', f, off, keep) = laws.stops t n (same.0 ∙ run) in
        elim (stop_each-stops ns s t' true d.1 (carry supervisor laws n s t t' ns d.0 keep same.1)
          h.1) [
            | inl (all_run, s', q, done, all, kept) ↦ inl (
              (run, all_run),
              s',
              q,
              stop_step n s t t' ns p f ∙ done,
              (kept n (flip n ns d.0) ∙ off, all),
              λ m h. kept m h.1 ∙ keep m h.0,
            )
            | inr (not_all, s', failed) ↦
                inr ((λ r. not_all r.1), s', stop_step n s t t' ns p f ∙ failed)
          ]
    | inr off ↦
        inr (
          (λ r. differ (sym r.0 ∙ off)),
          _,
          stop_fails n s t ns p (laws.refuses t n (same.0 ∙ off)),
        )
  ]

  start_all-each :
      (cluster : Cluster S)
      → start_all supervisor cluster
        ≡ start_each supervisor
            (infos supervisor laws cluster.system laws.names)
            (record { has_proxy = true; system = cluster.system })
  unfolding start_all status
  start_all-each cluster = rw (laws.listed cluster.system) refl

  stop_all-each :
      (cluster : Cluster S)
      → stop_all supervisor cluster
        ≡ stop_each supervisor
            (infos supervisor laws cluster.system laws.names)
            (record { has_proxy = true; system = cluster.system })
  unfolding stop_all status
  stop_all-each cluster = rw (laws.listed cluster.system) refl

  -- Where the names of the processes differ: `start_all` returns, every process that was stopped is
  -- running, and every other process is as it was; or the supervisor raises a fault for a stopped
  -- process, `start_all` ends with it, the stopped processes listed before that one are running, and
  -- those listed after it are as they were.
  pub start_all-starts :
      (cluster : Cluster S)
      → AllDiffer laws.names
      → Completed supervisor laws cluster.system cluster.system laws.names
          (start_all supervisor cluster)
        ⊎ Faulted supervisor laws cluster.system cluster.system laws.names
            (start_all supervisor cluster)
  start_all-starts cluster d =
      let s = cluster.system in
      subst
        (λ r. Completed supervisor laws s s laws.names r ⊎ Faulted supervisor laws s s laws.names r)
        (sym (start_all-each cluster))
        (start_each-starts supervisor laws laws.names s s true d
          (same_states supervisor laws s laws.names))

  -- Where the names of the processes differ and each is running or stopped: if all are running,
  -- `stop_all` returns and all are stopped; if not, it raises the fault NOT_RUNNING.
  pub stop_all-stops :
      (cluster : Cluster S)
      → AllDiffer laws.names
      → IsSettled cluster.system laws.names
      → (AllRunning cluster.system laws.names
          × (s' : S) × (proxy : Bool) × (stop_all supervisor cluster
              ≡ (ok true, record { has_proxy = proxy; system = s' }))
          × All (λ n. laws.state s' n ≡ stopped) laws.names)
        ⊎ ((¬ AllRunning cluster.system laws.names)
            × (after : Cluster S) × (stop_all supervisor cluster ≡ (err fault, after)))
  stop_all-stops cluster d h =
      let s = cluster.system in
      elim (stop_each-stops laws.names s s true d (same_states supervisor laws s laws.names) h) [
        | inl (all_run, s', q, done, all, kept) ↦
            inl (all_run, s', q, stop_all-each cluster ∙ done, all)
        | inr (not_all, s', failed) ↦ inr (not_all, s', stop_all-each cluster ∙ failed)
      ]
