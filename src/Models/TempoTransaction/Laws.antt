-- ===== src/Models/TempoTransaction/Laws.antt =====
-- The addresses of a transaction are well formed, and stay so.
use tempo_py.Prelude.{
  ◌≡◌, refl, Option, none, some, ok, >>=-eq-ok, ok-injective, length, subst, traverse,
}
use tempo_py.External.{External}
use tempo_py.Types.{Address, BytesLike, buffer, as_bytes, as_optional_address}
use tempo_py.Types.Laws.{as_optional_address-length, as_optional_address_lem}
use tempo_py.Models.TempoTransaction.{TempoTransaction, CreateArgs, init, evolve, create}
use mathlib.Core.Option

abbrev pub Is20 : Option Address → Type 0
Is20 none = Unit {0}
Is20 (some a) = length a ≡ 20

-- An address that is set has 20 bytes.
pub record IsValid (tx : TempoTransaction) : Type 0 where
  pub token : Is20 tx.fee_token
  pub sender : Is20 tx.sender_address

converted-Is20 :
    (ext : External) (value : Option BytesLike) (o : Option Address)
    → as_optional_address ext value ≡ ok o
    → Is20 o
converted-Is20 ext value none h = tt
converted-Is20 ext value (some a) h = as_optional_address-length ext value a h

pub reconverted :
    (ext : External) (o : Option Address)
    → Is20 o
    → as_optional_address ext (Option.map buffer o) ≡ ok o
reconverted ext none h = unfold as_optional_address in refl
reconverted ext (some a) h = as_optional_address_lem ext a h

pub init-IsValid :
    (ext : External) (tx tx' : TempoTransaction) (token sender : Option BytesLike)
    → init ext tx token sender ≡ ok tx'
    → IsValid tx'
unfolding init
init-IsValid ext tx tx' token sender h =
    let (t, et, h') = >>=-eq-ok (as_optional_address ext token) _ h in
    let (s, es, e) = >>=-eq-ok (as_optional_address ext sender) _ h' in
    subst IsValid (ok-injective e)
      (record { token = converted-Is20 ext token t et; sender = converted-Is20 ext sender s es })

-- Copying a transaction whose addresses are well formed changes no field and raises nothing.
pub evolve_lem : (ext : External) (tx : TempoTransaction) → IsValid tx → evolve ext tx ≡ ok tx
unfolding evolve init
evolve_lem ext tx h =
    rw (reconverted ext tx.fee_token h.token, reconverted ext tx.sender_address h.sender)

-- Whatever `create` accepts has well-formed addresses.
pub create-IsValid :
    (ext : External) (args : CreateArgs) (tx : TempoTransaction)
    → create ext args ≡ ok tx
    → IsValid tx
unfolding create
create-IsValid ext args tx h =
    let (auth, _, e) = >>=-eq-ok (traverse (as_bytes ext) args.tempo_authorization_list) _ h in
    init-IsValid ext _ tx args.fee_token none e
