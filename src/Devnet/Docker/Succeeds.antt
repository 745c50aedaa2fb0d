-- ===== src/Devnet/Docker/Succeeds.antt =====
-- Calls that return, and calls that raise, in a chain.
use tempo_py.Prelude.{
  ℕ, suc, ◌+◌, ◌<◌, ◌≤◌, length, arith, ◌≡◌, refl, ap, ◌∙◌, List, [], ◌∷◌, Result, ok, err,
  Exception, ◌>>=◌,
}
use tempo_py.Python.Bytes.{Str}
use tempo_py.Devnet.Shell.{run_script_content}
use tempo_py.Devnet.Docker.{Output, Plan, add_services, docker_run_script}

-- The call returns.
abbrev pub Succeeds {ℓ} : {A : Type ℓ} → Result A → Type ℓ
Succeeds {A} m = (a : A) × (m ≡ ok a)

pub >>=-Succeeds {ℓ κ} :
    {A : Type ℓ} {B : Type κ} (m : Result A) (f : A → Result B)
    → Succeeds m
    → ((a : A) → Succeeds (f a))
    → Succeeds (m >>= f)
>>=-Succeeds m f (a, e) h = let (b, e') = h a in (b, ap (λ r. r >>= f) e ∙ e')

pub add_services-Succeeds {ℓ} :
    {A : Type ℓ} (plan : ℕ → A → Result Plan) (lo n : ℕ)
    → ((i : ℕ) (x : A) → lo ≤ i → i < n → Succeeds (plan i x))
    → (k : ℕ) (xs : List A) (out : Output) → lo ≤ k
    → k + length xs ≤ n
    → Succeeds (add_services plan k xs out)
unfolding add_services
add_services-Succeeds plan lo n total k [] out low h = (out, refl)
add_services-Succeeds plan lo n total k (x ∷ xs) out low h =
    >>=-Succeeds (plan k x) _ (total k x low (omega (arith, h))) (λ p.
      add_services-Succeeds plan lo n total (suc k) xs _ (omega (arith, low)) (omega (arith, h)))

pub script-Succeeds :
    (binary : Str) (args : List Str) → Succeeds (docker_run_script (binary ∷ args))
unfolding docker_run_script run_script_content
script-Succeeds binary args = (_, refl)

pub raised {ℓ κ} :
    {A : Type ℓ} {B : Type κ} (m : Result A) (f : A → Result B) {x : Exception}
    → m ≡ err x
    → (m >>= f) ≡ err x
raised m f e = ap (λ r. r >>= f) e

pub add_services-none {ℓ} :
    {A : Type ℓ} (plan : ℕ → A → Result Plan) (k : ℕ) (xs : List A) (out : Output)
    → xs ≡ []
    → Succeeds (add_services plan k xs out)
unfolding add_services
add_services-none plan k xs out e = (out, ap (λ ys. add_services plan k ys out) e)

pub add_services-raised {ℓ} :
    {A : Type ℓ} (plan : ℕ → A → Result Plan) (k : ℕ) (x : A) (xs ys : List A) (out : Output)
    {failure : Exception}
    → ys ≡ x ∷ xs
    → plan k x ≡ err failure
    → add_services plan k ys out ≡ err failure
unfolding add_services
add_services-raised plan k x xs ys out e h =
    ap (λ zs. add_services plan k zs out) e ∙ raised (plan k x) _ h

-- The exception of a later step.
pub >>=-err {ℓ κ} :
    {A : Type ℓ} {B : Type κ} (m : Result A) (f : A → Result B) {x : Exception}
    → Succeeds m
    → ((a : A) → f a ≡ err x)
    → (m >>= f) ≡ err x
>>=-err m f (a, e) h = ap (λ r. r >>= f) e ∙ h a

-- The call returns a command line that is not empty.
abbrev pub IsCommand : Result (List Str) → Type 0
IsCommand m = (binary : Str) × (args : List Str) × (m ≡ ok (binary ∷ args))

pub >>=-IsCommand {ℓ} :
    {A : Type ℓ} (m : Result A) (binary : A → Str) (args : A → List Str)
    → Succeeds m
    → IsCommand (m >>= λ a. ok (binary a ∷ args a))
>>=-IsCommand m binary args (a, e) =
    (binary a, args a, ap (λ r. r >>= λ a'. ok (binary a' ∷ args a')) e)

pub command-Succeeds {ℓ} :
    {A : Type ℓ} (m : Result (List Str)) (f : Str → Result A)
    → IsCommand m
    → ((script : Str) → Succeeds (f script))
    → Succeeds (m >>= λ args. docker_run_script args >>= f)
command-Succeeds m f (binary, args, e) h =
    let (out, done) = >>=-Succeeds _ f (script-Succeeds binary args) h in
    (out, ap (λ r. r >>= λ args'. docker_run_script args' >>= f) e ∙ done)
