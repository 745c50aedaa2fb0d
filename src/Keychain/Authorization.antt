-- ===== src/Keychain/Authorization.antt =====
-- `SignatureType` and `KeyAuthorization` of tempo/keychain.py.
use tempo_py.Prelude.{
  ℕ, suc, ◌==◌, Bool, true, false, not, ◌&&◌, ◌||◌, if◌then◌else◌, List, [], ◌∷◌, map, take, length,
  Option, none, some, Result, ok, value_error, ◌>>=◌, ◌>>◌, require,
}
use tempo_py.Prelude.Int.{ℤ, pos, eqb_ℤ}
use tempo_py.Python.Bytes.{Bytes, eqb}
use tempo_py.External.{External, Rlp, bytes, int, seq}
use tempo_py.Types.{
  Address, BytesLike, as_bytes, as_address, as_optional_address, validate_nonempty_address,
}
use tempo_py.Keychain.Scopes.{TokenLimit, CallScope, token_limit_to_rlp, call_scope_to_rlp}
use mathlib.Core.Option

pub data SignatureType : Type 0 where
  secp256k1 p256 webauthn : SignatureType

-- `int(key_type)`
abbrev pub type_number : SignatureType → ℤ
type_number secp256k1 = pos 0
type_number p256 = pos 1
type_number webauthn = pos 2

pub record KeyAuthorization : Type 0 where
  pub key_id : Address
  pub chain_id : ℤ
  pub account : Option Address
  pub key_type : ℤ
  pub expiry : ℤ
  pub limits : Option (List TokenLimit)
  pub allowed_calls : Option (List CallScope)
  pub witness : Bytes
  pub is_admin : Bool

abbrev pub is_set {ℓ} : {A : Type ℓ} → Option A → Bool
is_set none = false
is_set (some a) = true

-- `__attrs_post_init__`
unfoldable pub check_authorization : KeyAuthorization → Result (Unit {0})
check_authorization a = do
  require (eqb a.witness [] || length a.witness == 32) value_error
  require
      (not (
        a.is_admin
        && (not (eqb_ℤ a.expiry (pos 0)) || (is_set a.limits || is_set a.allowed_calls))))
      value_error

-- The object, once `__attrs_post_init__` has accepted it.
unfoldable pub checked : KeyAuthorization → Result KeyAuthorization
unfolding check_authorization
checked a = check_authorization a >> ok a

-- `KeyAuthorization(…)` with limits and scopes that are objects of their classes: the converters
-- of `key_id`, `account` and `witness`, the validator of `key_id`, then `__attrs_post_init__`.
unfoldable pub new_authorization :
    External
    → BytesLike
    → ℤ
    → Option BytesLike
    → ℤ
    → ℤ
    → Option (List TokenLimit)
    → Option (List CallScope)
    → BytesLike
    → Bool
    → Result KeyAuthorization
unfolding checked validate_nonempty_address
new_authorization ext key_id chain_id account key_type expiry limits allowed_calls witness
      is_admin =
    do
      id ← as_address ext key_id
      acc ← as_optional_address ext account
      w ← as_bytes ext witness
      validate_nonempty_address id
      checked (record {
        key_id = id;
        chain_id = chain_id;
        account = acc;
        key_type = key_type;
        expiry = expiry;
        limits = limits;
        allowed_calls = allowed_calls;
        witness = w;
        is_admin = is_admin;
      })

-- `max((i for i, v in enumerate(xs) if v is not None), default=-1) + 1`
unfoldable pub present_length {ℓ} : {A : Type ℓ} → List (Option A) → ℕ
present_length [] = 0
present_length (o ∷ os) =
    let n = present_length os in if n == 0 then (if is_set o then 1 else 0) else suc n

-- `v if v is not None else b""`
abbrev pub placeholder : Option Rlp → Rlp
placeholder none = bytes []
placeholder (some v) = v

-- The list `optionals` of `to_rlp`.
unfoldable pub optionals : KeyAuthorization → List (Option Rlp)
optionals a =
    (if eqb_ℤ a.expiry (pos 0) then none else some (int a.expiry))
    ∷ Option.map (λ ts. seq (map token_limit_to_rlp ts)) a.limits
    ∷ Option.map (λ cs. seq (map call_scope_to_rlp cs)) a.allowed_calls
    ∷ (if eqb a.witness [] then none else some (bytes a.witness))
    ∷ (if a.is_admin then some (int (pos 1)) else none)
    ∷ Option.map bytes a.account
    ∷ []

-- What `head.extend` appends.
unfoldable pub trailing : List (Option Rlp) → List Rlp
trailing os = map placeholder (take (present_length os) os)

-- `KeyAuthorization.to_rlp`
unfoldable pub to_rlp : KeyAuthorization → List Rlp
to_rlp a = int a.chain_id ∷ int a.key_type ∷ bytes a.key_id ∷ trailing (optionals a)

-- `KeyAuthorization.signature_hash`
unfoldable pub signature_hash : External → KeyAuthorization → Result Bytes
signature_hash ext a = do encoded ← ext.rlp_encode (seq (to_rlp a)); ok (ext.keccak encoded)
