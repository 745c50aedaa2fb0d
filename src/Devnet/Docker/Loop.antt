-- ===== src/Devnet/Docker/Loop.antt =====
-- The loops that number the services: services with different numbers share no address.
use tempo_py.Prelude.{
  ℕ, suc, ◌+◌, ◌≡◌, ◌≢◌, ◌<◌, sym, List, [], ◌∷◌, Result, ok, >>=-eq-ok, ok-injective, All,
  Bool-cases, inl, inr, subst, length, arith,
}
use tempo_py.Python.Bytes.{Str, eqb}
use tempo_py.Devnet.DevnetConfig.Genesis.{Ipaddress}
use tempo_py.Devnet.Docker.{Service, Output, Plan, insert, add_services}

-- Different offsets in a subnet are different addresses.
pub record IsIpaddress (ip : Ipaddress) : Type 0 where
  pub address-injective :
      (subnet a : Str) (m n : ℕ) → ip.address subnet m ≡ ok a → ip.address subnet n ≡ ok a → m ≡ n

-- No address of one service on a network is also the other's on that network.
abbrev pub NoClash : Str × Service → Str × Service → Type 0
NoClash e f = All (λ (p : Str × Str). All (λ (q : Str × Str). p ≢ q) f.1.networks) e.1.networks

abbrev pub AllPairs {ℓ κ} : {A : Type ℓ} → (A → A → Type κ) → List A → Type κ
AllPairs R [] = Unit
AllPairs R (x ∷ xs) = All (R x) xs × AllPairs R xs

All-imp {ℓ κ λ'} :
    {A : Type ℓ} (P : A → Type κ) (Q : A → Type λ')
    → ((a : A) → P a → Q a)
    → (xs : List A) → All P xs
    → All Q xs
All-imp P Q f [] h = tt
All-imp P Q f (x ∷ xs) h = (f x h.0, All-imp P Q f xs h.1)

All-insert {κ} :
    (P : Str × Service → Type κ) (name : Str) (s : Service) (services : List (Str × Service))
    → P (name, s)
    → All P services
    → All P (insert name s services)
unfolding insert
All-insert P name s [] new h = (new, tt)
All-insert P name s ((other, t) ∷ services) new h = elim (Bool-cases (eqb name other)) [
  | inl e ↦ rw e (new, h.1)
  | inr e ↦ rw e (h.0, All-insert P name s services new h.1)
]

module _ (ip : Ipaddress) (subnet_of : Str → Str) where
  -- The addresses of service number `i`.
  abbrev pub Uses : ℕ → Service → Type 0
  Uses i s = All (λ (n : Str × Str). ip.address (subnet_of n.0) (10 + i) ≡ ok n.1) s.networks

  abbrev pub IsNumbered : ℕ → Str × Service → Type 0
  IsNumbered k e = (i : ℕ) × (i < k) × Uses i e.1

  abbrev Differ : Str × Service → Str × Service → Type 0
  Differ e f = (i j : ℕ) × (i ≢ j) × Uses i e.1 × Uses j f.1

  -- After `k` services.
  pub record IsAllocated (k : ℕ) (services : List (Str × Service)) : Type 0 where
    pub numbered : All (IsNumbered k) services
    pub differ : AllPairs Differ services

  AllPairs-insert :
      (k : ℕ) (name : Str) (s : Service) (services : List (Str × Service))
      → Uses k s
      → All (IsNumbered k) services
      → AllPairs Differ services
      → AllPairs Differ (insert name s services)
  unfolding insert
  AllPairs-insert k name s [] used h d = (tt, tt)
  AllPairs-insert k name s ((other, t) ∷ services) used h d =
      let new : (e : Str × Service) → IsNumbered k e → Differ (name, s) e =
        λ e n. (k, n.0, (λ (q : k ≡ n.0). omega (arith, n.1, q)), used, n.2) in
      let old : Differ (other, t) (name, s) =
        (h.0.0, k, (λ (q : h.0.0 ≡ k). omega (arith, h.0.1, q)), h.0.2, used) in
      elim (Bool-cases (eqb name other)) [
        | inl e ↦ rw e (All-imp (IsNumbered k) (Differ (name, s)) new services h.1, d.1)
        | inr e ↦ rw e (
          All-insert (Differ (other, t)) name s services old d.0,
          AllPairs-insert k name s services used h.1 d.1,
        )
      ]

  insert-IsAllocated :
      (k : ℕ) (name : Str) (s : Service) (services : List (Str × Service))
      → Uses k s
      → IsAllocated k services
      → IsAllocated (suc k) (insert name s services)
  insert-IsAllocated k name s services used h = record {
    numbered =
        All-insert (IsNumbered (suc k)) name s services (k, omega arith, used)
          (All-imp (IsNumbered k) (IsNumbered (suc k)) (λ e n. (n.0, omega (arith, n.1), n.2))
            services h.numbered);
    differ = AllPairs-insert k name s services used h.numbered h.differ;
  }

  pub add_services-IsAllocated {ℓ} :
      {A : Type ℓ} (plan : ℕ → A → Result Plan)
      → ((i : ℕ) (x : A) (p : Plan) → plan i x ≡ ok p → Uses i p.service)
      → (k : ℕ) (xs : List A) (out out' : Output) → IsAllocated k out.services
      → add_services plan k xs out ≡ ok out'
      → IsAllocated (k + length xs) out'.services
  unfolding add_services
  add_services-IsAllocated plan sound k [] out out' h e =
      let end : k ≡ k + 0 = omega arith in
      subst (λ n. IsAllocated n out'.services) end
        (subst (λ (o : Output). IsAllocated k o.services) (ok-injective e) h)
  add_services-IsAllocated plan sound k (x ∷ xs) out out' h e =
      let (p, planned, e') = >>=-eq-ok (plan k x) _ e in
      let step = insert-IsAllocated k p.name p.service out.services (sound k x p planned) h in
      let moved : suc k + length xs ≡ k + suc (length xs) = omega arith in
      subst (λ n. IsAllocated n out'.services) moved
        (add_services-IsAllocated plan sound (suc k) xs _ out' step e')

  no_clash :
      (i j : ℕ) (s t : Service)
      → IsIpaddress ip
      → i ≢ j
      → Uses i s
      → Uses j t
      → (name other : Str) → NoClash (name, s) (other, t)
  no_clash i j s t laws ne us ut name other = rows s.networks us
    where
      cells :
          (p : Str × Str)
          → ip.address (subnet_of p.0) (10 + i) ≡ ok p.1
          → (qs : List (Str × Str))
          → All (λ (n : Str × Str). ip.address (subnet_of n.0) (10 + j) ≡ ok n.1) qs
          → All (λ (q : Str × Str). p ≢ q) qs
      cells p h [] hq = tt
      cells p h (q ∷ qs) hq = (
        (λ e. ne (
            omega (
              arith,
              laws.address-injective (subnet_of p.0) p.1 (10 + i) (10 + j) h (
                  subst (λ (r : Str × Str). ip.address (subnet_of r.0) (10 + j) ≡ ok r.1) (sym e)
                    hq.0),
            ))),
        cells p h qs hq.1,
      )

      rows :
          (ps : List (Str × Str))
          → All (λ (n : Str × Str). ip.address (subnet_of n.0) (10 + i) ≡ ok n.1) ps
          → All (λ (p : Str × Str). All (λ (q : Str × Str). p ≢ q) t.networks) ps
      rows [] h = tt
      rows (p ∷ ps) h = (cells p h.0 t.networks ut, rows ps h.1)

  pub IsAllocated-NoClash :
      (k : ℕ) (services : List (Str × Service))
      → IsIpaddress ip
      → IsAllocated k services
      → AllPairs NoClash services
  IsAllocated-NoClash k services laws h = go services h.differ
    where
      go : (es : List (Str × Service)) → AllPairs Differ es → AllPairs NoClash es
      go [] d = tt
      go (e ∷ es) d = (
        All-imp (Differ e) (NoClash e) (λ f x. no_clash x.0 x.1 e.1 f.1 laws x.2 x.3 x.4 e.0 f.0) es
            d.0,
        go es d.1,
      )
