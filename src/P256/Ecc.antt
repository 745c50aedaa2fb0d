-- ===== src/P256/Ecc.antt =====
-- The cryptographic libraries that tempo/p256.py calls: pycryptodome's ECC and DSS, and SHA-256.
use tempo_py.Prelude.{ℕ, Bool, Result}
use tempo_py.Prelude.Int.{ℤ}
use tempo_py.Python.Bytes.{Bytes}

-- A private key: its public point, and `DSS.new(key, "fips-186-3").sign` on a digest.
pub record EccKey : Type 0 where
  pub point_x : ℤ
  pub point_y : ℤ
  pub dss_sign : Bytes → Bytes

pub record Curve : Type 0 where
  -- `hashlib.sha256(…).digest()`
  pub sha256 : Bytes → Bytes
  -- `ECC.construct(curve="P-256", point_x=…, point_y=…)`, which raises off the curve; the key that
  -- it returns verifies a digest and a signature, and a ValueError of `verify` reads as `false`.
  pub construct_point : ℕ → ℕ → Result (Bytes → Bytes → Bool)
