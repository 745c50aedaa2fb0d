-- ===== src/Devnet/Docker/Total.antt =====
-- When a Compose file is generated, and the exception where it is not.
use tempo_py.Prelude.{
  ◌≡◌, ◌≢◌, ◌⊎◌, inl, inr, refl, ap, ◌∙◌, List, [], ◌∷◌, Result, ok, err, index_error,
  not_implemented_error, ◌>>◌, require,
}
use tempo_py.Python.Bytes.{codes, eqb, eqb_refl}
use tempo_py.Devnet.DevnetConfig.{DevnetConfig, Topology, single, two_network}
use tempo_py.Devnet.DevnetConfig.Genesis.{Ipaddress}
use tempo_py.Devnet.Docker.Commands.{Enodes}
use tempo_py.Devnet.Docker.{Output, single_network_compose, two_network_compose, generate_services}
use tempo_py.Devnet.Docker.Plans.{
  IsTotal, public_total, two_network_total, two_network_closed, two_network_fails,
  single_network_total,
}

topology-cases : (t : Topology) → (t ≡ two_network) ⊎ (t ≡ single)
topology-cases two_network = inl refl
topology-cases single = inr refl

list-cases {ℓ} : {A : Type ℓ} (xs : List A) → (xs ≡ []) ⊎ ((x : A) × (ys : List A) × (xs ≡ x ∷ ys))
list-cases [] = inl refl
list-cases (x ∷ xs) = inr (x, xs, refl)

not_empty {ℓ} : {A : Type ℓ} {xs : List A} (x : A) (ys : List A) → xs ≡ x ∷ ys → xs ≢ []
not_empty x ys e e' = cc

one_network : {t : Topology} → t ≡ single → ¬ (t ≡ two_network)
one_network e e' = cc

-- A public node has no follow node to depend on.
abbrev pub LacksFollow : DevnetConfig → Type 0
LacksFollow c =
    (c.docker.topology ≡ two_network) × (c.docker.public_nodes ≢ []) × (c.docker.follow_nodes ≡ [])

module _ (ip : Ipaddress) (c : DevnetConfig) (enodes : Enodes) (total : IsTotal ip c) where
  by_topology : Topology → Result Output
  by_topology t = elim t [
    | two_network ↦ two_network_compose ip c enodes
    | single ↦ single_network_compose ip c enodes
  ]

  by_topology-two : by_topology two_network ≡ two_network_compose ip c enodes
  unfolding by_topology
  by_topology-two = refl

  by_topology-single : by_topology single ≡ single_network_compose ip c enodes
  unfolding by_topology
  by_topology-single = refl

  generate_services-chosen :
      c.backend ≡ codes "tempo" → generate_services ip c enodes ≡ by_topology c.docker.topology
  unfolding generate_services by_topology
  generate_services-chosen b =
      ap (λ t. require t not_implemented_error >> by_topology c.docker.topology)
        (ap (λ s. eqb s (codes "tempo")) b ∙ eqb_refl (codes "tempo"))

  -- With the backend tempo and an address for every service: services are generated, but for two
  -- networks with public nodes and without follow nodes, where IndexError is raised.
  pub generate_services-total :
      c.backend ≡ codes "tempo"
      → ((¬ LacksFollow c) × (out : Output) × (generate_services ip c enodes ≡ ok out))
        ⊎ (LacksFollow c × (generate_services ip c enodes ≡ err index_error))
  unfolding generate_services
  generate_services-total b =
      let chosen = generate_services-chosen b in
      elim (topology-cases c.docker.topology) [
        | inr one ↦
            let (out, e) = single_network_total ip c enodes total in
            inl (
              (λ (l : LacksFollow c). one_network one l.0),
              out,
              chosen ∙ ap by_topology one ∙ by_topology-single ∙ e,
            )
        | inl two ↦
            let made = chosen ∙ ap by_topology two ∙ by_topology-two in
            elim (list-cases c.docker.public_nodes) [
              | inl closed ↦
                  let (out, e) = two_network_closed ip c enodes total two closed in
                  inl ((λ (l : LacksFollow c). l.1 closed), out, made ∙ e)
              | inr (n, ns, has) ↦ elim (list-cases c.docker.follow_nodes) [
                | inl lone ↦ inr (
                  (two, (λ (closed : c.docker.public_nodes ≡ []). not_empty n ns has closed), lone),
                  made ∙ two_network_fails ip c enodes total two n ns has lone,
                )
                | inr (f, fs, e) ↦
                    let (out, done) =
                      two_network_total ip c enodes total two
                        (public_total ip c enodes total two f fs e) in
                    inl ((λ (l : LacksFollow c). not_empty f fs e l.2), out, made ∙ done)
              ]
            ]
      ]
