-- ===== src/Object/Material.antt =====
-- crates/virtual-yubihsm-core/src/object.rs: the key material of an object and its length, and the
-- parsing of private keys.
use virtual_yubihsm.Prelude.{
  ℕ, ◌-◌, ◌/◌, ◌%◌, not, ◌||◌, Option, none, some, List, ◌∷◌, [], ◌++◌, length, take, drop,
  replicate, ltb, ◌==◌, if◌then◌else◌,
}
use virtual_yubihsm.Error.{Result, ok, err, ok_or, ◌>>=◌, invalid_data}
use virtual_yubihsm.Keys.{
  Keys, EcCurve, EdwardsCurve, MontgomeryCurve, KeyKind, MlDsaParameterSet, MlKemParameterSet,
  HybridKemConstruction,
}
use virtual_yubihsm.Algorithm.{
  Algorithm, is_rsa_key, asymmetric_key_length, ml_dsa_parameters, ml_kem_parameters,
  hybrid_kem_construction,
}
use virtual_yubihsm.Algorithm
use virtual_yubihsm.Object.{ObjectInfo}

pub data AuthenticationKeyMaterial : Type 0 where
  symmetric : List ℕ → AuthenticationKeyMaterial
  asymmetric : List ℕ → AuthenticationKeyMaterial

unfoldable pub ec_private_length : EcCurve → ℕ
ec_private_length EcCurve.p224 = 28
ec_private_length EcCurve.p256 = 32
ec_private_length EcCurve.secp256k1 = 32
ec_private_length EcCurve.brainpool_p256 = 32
ec_private_length EcCurve.p384 = 48
ec_private_length EcCurve.brainpool_p384 = 48
ec_private_length EcCurve.p521 = 66
ec_private_length EcCurve.brainpool_p512 = 64

-- `EdwardsCurve::private_key_length` of software-key-core is an argument.
abbrev kind_length : (EdwardsCurve → ℕ) → KeyKind → ℕ
kind_length edwards_length (KeyKind.ec curve) = ec_private_length curve
kind_length edwards_length (KeyKind.edwards curve) = edwards_length curve
kind_length edwards_length (KeyKind.rsa bits) = bits / 8
kind_length edwards_length (KeyKind.ml_dsa parameters) = 32

unfoldable pub key_kind : Algorithm → Result KeyKind
unfolding ml_dsa_parameters
key_kind Algorithm.ml_dsa44 = ok (KeyKind.ml_dsa MlDsaParameterSet.ml_dsa44)
key_kind Algorithm.ml_dsa65 = ok (KeyKind.ml_dsa MlDsaParameterSet.ml_dsa65)
key_kind Algorithm.ml_dsa87 = ok (KeyKind.ml_dsa MlDsaParameterSet.ml_dsa87)
key_kind Algorithm.ec_p224 = ok (KeyKind.ec EcCurve.p224)
key_kind Algorithm.ec_p256 = ok (KeyKind.ec EcCurve.p256)
key_kind Algorithm.ec_p384 = ok (KeyKind.ec EcCurve.p384)
key_kind Algorithm.ec_p521 = ok (KeyKind.ec EcCurve.p521)
key_kind Algorithm.ec_k256 = ok (KeyKind.ec EcCurve.secp256k1)
key_kind Algorithm.ec_brainpool_p256 = ok (KeyKind.ec EcCurve.brainpool_p256)
key_kind Algorithm.ec_brainpool_p384 = ok (KeyKind.ec EcCurve.brainpool_p384)
key_kind Algorithm.ec_brainpool_p512 = ok (KeyKind.ec EcCurve.brainpool_p512)
key_kind Algorithm.ed25519 = ok (KeyKind.edwards EdwardsCurve.ed25519)
key_kind Algorithm.ed448 = ok (KeyKind.edwards EdwardsCurve.ed448)
key_kind Algorithm.rsa2048 = ok (KeyKind.rsa 2048)
key_kind Algorithm.rsa3072 = ok (KeyKind.rsa 3072)
key_kind Algorithm.rsa4096 = ok (KeyKind.rsa 4096)
key_kind _ = err invalid_data

unfoldable pub left_pad : List ℕ → ℕ → Result (List ℕ)
left_pad value size =
    if ltb size (length value)
    then err invalid_data
    else ok (replicate (size - length value) 0 ++ value)

-- `matches!(algorithm, X25519 | X448)` with the curve
abbrev pub montgomery_of : Algorithm → Option MontgomeryCurve
montgomery_of Algorithm.x25519 = some MontgomeryCurve.x25519
montgomery_of Algorithm.x448 = some MontgomeryCurve.x448
montgomery_of _ = none

module _ ⦃keys : Keys⦄ where
  pub data ObjectMaterial : Type 0 where
    authentication : AuthenticationKeyMaterial → ObjectMaterial
    signing_key : keys.SigningKey → ObjectMaterial
    montgomery_key : keys.MontgomeryKey → ObjectMaterial
    ml_kem_key : keys.MlKemKey → ObjectMaterial
    hybrid_kem_key : keys.HybridKemKey → ObjectMaterial
    secret : List ℕ → ObjectMaterial
    opaque : List ℕ → ObjectMaterial
    public : List ℕ → ObjectMaterial
    otp_aead_key : List ℕ → List ℕ → ObjectMaterial

  unfoldable pub material_length : ObjectMaterial → ℕ
  unfolding ec_private_length
  material_length (authentication (symmetric value)) = length value
  material_length (authentication (asymmetric value)) = length value
  material_length (signing_key key) =
      kind_length keys.edwards_private_key_length (keys.key_kind key)
  material_length (montgomery_key key) = length (keys.montgomery_serialized key)
  material_length (ml_kem_key key) = 64
  material_length (hybrid_kem_key key) = 32
  material_length (secret value) = length value
  material_length (opaque value) = length value
  material_length (public value) = length value
  material_length (otp_aead_key nonce_id key) = length key

  -- `.map(constructor).map_err(|_| InvalidData)`
  abbrev pub parsed : {A : Type 0} → (A → ObjectMaterial) → Option A → Result ObjectMaterial
  parsed wrap none = err invalid_data
  parsed wrap (some key) = ok (wrap key)

  -- The branch of RSA keys: two primes of half the length each.
  unfoldable pub rsa_material : Algorithm → List ℕ → Result ObjectMaterial
  rsa_material algorithm encoded = do
    expected ← ok_or (asymmetric_key_length algorithm) invalid_data
    if not (length encoded == expected) || not (expected % 2 == 0)
        then err invalid_data
        else parsed signing_key (
            keys.restore_rsa_primes (take (expected / 2) encoded) (drop (expected / 2) encoded)
              (1 ∷ 0 ∷ 1 ∷ []))

  unfoldable pub signing_material : Algorithm → List ℕ → Result ObjectMaterial
  unfolding rsa_material
  signing_material algorithm encoded =
      if is_rsa_key algorithm then rsa_material algorithm encoded else (do
        kind ← key_kind algorithm
        parsed signing_key (keys.from_serialized_for_kind kind encoded))

  -- The chain of early returns of `typed_private_material`, past the decoding of the algorithm.
  abbrev by_kind :
      Option MlKemParameterSet
      → Option HybridKemConstruction
      → Option MontgomeryCurve
      → Result ObjectMaterial
      → List ℕ
      → Result ObjectMaterial
  by_kind (some parameters) _ _ rest encoded =
      parsed ml_kem_key (keys.ml_kem_from_serialized parameters encoded)
  by_kind none (some construction) _ rest encoded =
      parsed hybrid_kem_key (keys.hybrid_from_seed construction encoded)
  by_kind none none (some curve) rest encoded =
      parsed montgomery_key (keys.montgomery_from_serialized curve encoded)
  by_kind none none none rest encoded = rest

  unfoldable pub typed_private_material : ObjectInfo → List ℕ → Result ObjectMaterial
  unfolding signing_material
  typed_private_material info encoded = do
    algorithm ← ok_or (Algorithm.from_byte info.algorithm) invalid_data
    by_kind (ml_kem_parameters algorithm) (hybrid_kem_construction algorithm)
        (montgomery_of algorithm) (signing_material algorithm encoded) encoded
