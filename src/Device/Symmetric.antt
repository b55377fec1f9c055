-- ===== src/Device/Symmetric.antt =====
-- crates/virtual-yubihsm-core/src/device.rs: the commands that use a symmetric key: AES, HMAC and
-- Yubico OTP.
use virtual_yubihsm.Prelude.{
  ℕ, zero, suc, ◌/◌, ◌%◌, Bool, not, ◌&&◌, ◌||◌, List, [], ◌∷◌, ◌++◌, length, take, drop, replicate,
  bytes_eq, bit_xor, leb, ◌==◌, if◌then◌else◌, ◌⊎◌, inl, inr,
}
use virtual_yubihsm.Error.{
  Result, ok, err, ok_or, guard, ◌>>=◌, ◌>>◌, invalid_data, wrong_length, invalid_otp,
}
use virtual_yubihsm.Keys.{Keys, Platform, SoftwareSymmetricError}
use virtual_yubihsm.Algorithm
use virtual_yubihsm.Wire.{decode}
use virtual_yubihsm.Object.{ObjectType}
use virtual_yubihsm.Object.Record.{ObjectRecord}
use virtual_yubihsm.Request.{id_remainder_request, u16_request}
use virtual_yubihsm.Request.Keys.{
  aes_cbc_request, create_otp_aead_request, decrypt_otp_request, rewrap_otp_aead_request,
}
use virtual_yubihsm.Session.{block_size}
use virtual_yubihsm.Authorization.{SessionAuthorization}
use virtual_yubihsm.Device.State.{Device}
use virtual_yubihsm.Device.Tables.{hmac_length, holds_of, is_aes_key}
use virtual_yubihsm.Device.Material.{object_secret, otp_aead_material, calculate_hmac}
use virtual_yubihsm.Device.Put.{random_bytes}
use virtual_yubihsm.Device.Use.{enabled_object}

-- The sixteen-bit CRC, one bit at a time, low bit first.
crc_bits : ℕ → ℕ → ℕ
crc_bits zero crc = crc
crc_bits (suc n) crc = crc_bits n (if crc % 2 == 0 then crc / 2 else bit_xor (crc / 2) 0x8408)

crc_bytes : ℕ → List ℕ → ℕ
unfolding crc_bits
crc_bytes crc [] = crc
crc_bytes crc (byte ∷ rest) = crc_bytes (crc_bits 8 (bit_xor crc byte)) rest

unfoldable pub yubico_crc16 : List ℕ → ℕ
unfolding crc_bytes
yubico_crc16 bytes = crc_bytes 0xffff bytes

-- `.map_err(|_| InvalidData)` of a result with its own errors
abbrev symmetric_output : SoftwareSymmetricError ⊎ List ℕ → Result (List ℕ)
symmetric_output (inl error) = err invalid_data
symmetric_output (inr output) = ok output

-- Whole blocks, and at least one.
abbrev pub whole_blocks : List ℕ → Bool
whole_blocks input = leb block_size (length input) && (length input % block_size == 0)

abbrev pub as_byte : Bool → ℕ
as_byte b = if b then 1 else 0

module _ ⦃keys : Keys⦄ (platform : Platform) where
  unfoldable pub symmetric_object : Device → SessionAuthorization → ℕ → Result ObjectRecord
  symmetric_object device authorization id = do
    object ← enabled_object platform device authorization ObjectType.symmetric_key id
    guard (holds_of is_aes_key (Algorithm.from_byte object.info.algorithm)) invalid_data
    ok object

  unfoldable pub crypt_aes_ecb : Device → SessionAuthorization → List ℕ → Bool → Result (List ℕ)
  unfolding symmetric_object
  crypt_aes_ecb device authorization request_data encrypt = do
    request ← decode id_remainder_request request_data
    let input = request.remainder
    guard (whole_blocks input) wrong_length
    object ← symmetric_object device authorization request.id
    key ← object_secret object
    ok_or
        (if encrypt then platform.encrypt_aes_ecb key input else platform.decrypt_aes_ecb key input)
        invalid_data

  unfoldable pub crypt_aes_cbc : Device → SessionAuthorization → List ℕ → Bool → Result (List ℕ)
  unfolding symmetric_object
  crypt_aes_cbc device authorization request_data encrypt = do
    request ← decode aes_cbc_request request_data
    guard (whole_blocks request.input) wrong_length
    object ← symmetric_object device authorization request.id
    key ← object_secret object
    symmetric_output (
        if encrypt
        then platform.encrypt_aes_cbc key request.iv request.input
        else platform.decrypt_aes_cbc key request.iv request.input)

  unfoldable pub sign_hmac : Device → SessionAuthorization → List ℕ → Result (List ℕ)
  sign_hmac device authorization request_data = do
    request ← decode id_remainder_request request_data
    object ← enabled_object platform device authorization ObjectType.hmac_key request.id
    calculate_hmac platform object request.remainder

  unfoldable pub verify_hmac : Device → SessionAuthorization → List ℕ → Result (List ℕ)
  verify_hmac device authorization request_data = do
    request ← decode id_remainder_request request_data
    object ← enabled_object platform device authorization ObjectType.hmac_key request.id
    signature_length ← hmac_length object.info.algorithm
    guard (leb signature_length (length request.remainder)) wrong_length
    expected ← calculate_hmac platform object (drop signature_length request.remainder)
    ok (as_byte (bytes_eq expected (take signature_length request.remainder)) ∷ [])

  abbrev otp_aead_key : Device → SessionAuthorization → ℕ → Result ObjectRecord
  otp_aead_key device authorization =
      enabled_object platform device authorization ObjectType.otp_aead_key

  -- The nonce is the key's id, six random bytes and zeros.
  unfoldable pub otp_aead_encrypt : ObjectRecord → List ℕ → Result (List ℕ)
  otp_aead_encrypt object credential = do
    guard (length credential == 22) wrong_length
    (nonce_id, key) ← otp_aead_material object
    random ← random_bytes platform 6
    encrypted ←
        ok_or
          (platform.encrypt_yubico_otp_aead key (nonce_id ++ (random ++ replicate 3 0)) credential)
          invalid_data
    ok (random ++ encrypted)

  unfoldable pub otp_aead_decrypt : ObjectRecord → List ℕ → Result (List ℕ)
  otp_aead_decrypt object aead = do
    guard (length aead == 36) wrong_length
    (nonce_id, key) ← otp_aead_material object
    ok_or
        (platform.decrypt_yubico_otp_aead key (nonce_id ++ (take 6 aead ++ replicate 3 0))
          (drop 6 aead))
        invalid_otp

  unfoldable pub create_otp_aead : Device → SessionAuthorization → List ℕ → Result (List ℕ)
  unfolding otp_aead_encrypt
  create_otp_aead device authorization request_data = do
    request ← decode create_otp_aead_request request_data
    object ← otp_aead_key device authorization request.id
    otp_aead_encrypt object request.credential

  unfoldable pub randomize_otp_aead : Device → SessionAuthorization → List ℕ → Result (List ℕ)
  unfolding otp_aead_encrypt
  randomize_otp_aead device authorization request_data = do
    id ← decode u16_request request_data
    object ← otp_aead_key device authorization id
    credential ← random_bytes platform 22
    otp_aead_encrypt object credential

  unfoldable pub decrypt_otp : Device → SessionAuthorization → List ℕ → Result (List ℕ)
  unfolding otp_aead_decrypt yubico_crc16
  decrypt_otp device authorization request_data = do
    request ← decode decrypt_otp_request request_data
    object ← otp_aead_key device authorization request.id
    credential ← otp_aead_decrypt object request.aead
    token ← ok_or (platform.decrypt_aes_ecb (take 16 credential) request.otp) invalid_data
    if not (bytes_eq (take 6 token) (take 6 (drop 16 credential)))
          || not (yubico_crc16 token == 0xf0b8)
        then err invalid_otp
        else ok (
            take 2 (drop 6 token)
            ++ (take 1 (drop 11 token) ++ (take 1 (drop 10 token) ++ take 2 (drop 8 token))))

  unfoldable pub rewrap_otp_aead : Device → SessionAuthorization → List ℕ → Result (List ℕ)
  unfolding otp_aead_encrypt otp_aead_decrypt
  rewrap_otp_aead device authorization request_data = do
    request ← decode rewrap_otp_aead_request request_data
    from ← otp_aead_key device authorization request.from_id
    to ← otp_aead_key device authorization request.to_id
    credential ← otp_aead_decrypt from request.aead
    otp_aead_encrypt to credential
