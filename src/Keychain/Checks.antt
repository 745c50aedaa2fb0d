-- ===== src/Keychain/Checks.antt =====
-- Which authorizations are accepted.
use tempo_py.Prelude.{
  ◌≡◌, ◌⊎◌, ◌↔◌, inl, inr, refl, Bool, true, false, not, ◌&&◌, ◌||◌, ◌==◌, [], ◌∷◌, Option, none,
  some, ok, err, value_error, length, Bool-cases, arith,
}
use tempo_py.Prelude.Int.{ℤ, pos, eqb_ℤ}
use tempo_py.Python.Bytes.{Bytes, eqb}
use tempo_py.Keychain.Authorization.{KeyAuthorization, check_authorization, is_set}

-- A witness has 32 bytes or none, and an admin key carries no restriction.
pub record IsAuthorization (a : KeyAuthorization) : Type 0 where
  pub witness : (a.witness ≡ []) ⊎ (length a.witness ≡ 32)
  pub admin : a.is_admin ≡ true → (a.expiry ≡ pos 0) × (a.limits ≡ none) × (a.allowed_calls ≡ none)

eqb_ℤ_lem : (a b : ℤ) → eqb_ℤ a b ≡ true → a ≡ b
eqb_ℤ_lem a b h = ground arith

unset {ℓ} : {A : Type ℓ} (o : Option A) → is_set o ≡ false → o ≡ none
unset none h = refl
unset (some a) h = cc

witness_lem : (w : Bytes) → ((eqb w [] || length w == 32) ≡ true) ↔ ((w ≡ []) ⊎ (length w ≡ 32))
unfolding eqb
witness_lem [] = ground arith
witness_lem (x ∷ w) = ground arith

-- The test of `__attrs_post_init__` on admin keys.
abbrev unrestricted_admin : KeyAuthorization → Bool
unrestricted_admin a =
    not
      (a.is_admin && (not (eqb_ℤ a.expiry (pos 0)) || (is_set a.limits || is_set a.allowed_calls)))

admin_lem :
    (a : KeyAuthorization)
    → (unrestricted_admin a ≡ true)
      ↔ (a.is_admin ≡ true → (a.expiry ≡ pos 0) × (a.limits ≡ none) × (a.allowed_calls ≡ none))
admin_lem a = (
  λ h admin. (
    eqb_ℤ_lem a.expiry (pos 0) (ground (arith, h, admin)),
    unset a.limits (ground (arith, h, admin)),
    unset a.allowed_calls (ground (arith, h, admin)),
  ),
  λ h. elim (Bool-cases a.is_admin) [ inl e ↦ let p = h e in ground (arith, e, p) | inr e ↦ rw e ],
)

-- An authorization is accepted exactly when its witness has 32 bytes or none and, for an admin key,
-- it has no expiry, no limits and no call scopes; any other raises ValueError.
pub check_authorization_lem :
    (a : KeyAuthorization)
    → (IsAuthorization a × (check_authorization a ≡ ok tt))
      ⊎ ((¬ IsAuthorization a) × (check_authorization a ≡ err value_error))
unfolding check_authorization
check_authorization_lem a = elim (Bool-cases (eqb a.witness [] || length a.witness == 32)) [
  | inr e ↦ inr (λ h. cc (e, (witness_lem a.witness).1 h.witness), rw e)
  | inl ew ↦ elim (Bool-cases (unrestricted_admin a)) [
    | inr e ↦ inr (λ h. cc (e, (admin_lem a).1 h.admin), rw (ew, e))
    | inl ea ↦
        inl (
          record { witness = (witness_lem a.witness).0 ew; admin = (admin_lem a).0 ea },
          rw (ew, ea),
        )
  ]
]
