-- ===== src/Session/Secure.antt =====
-- crates/virtual-yubihsm-core/src/session.rs and secure_channel_crypto.rs: the secure channel of a
-- session. The keys and the counter are byte strings; the ciphers are those of the platform.
use virtual_yubihsm.Prelude.{
  ℕ, ◌+◌, ◌-◌, ◌%◌, Bool, true, false, not, ◌&&◌, ◌||◌, List, [], ◌∷◌, ◌++◌, length, take, drop,
  replicate, get_or, bytes_eq, ltb, ◌==◌, if◌then◌else◌, ◌⊎◌, inl, inr, to_be_bytes, bit_or,
}
use virtual_yubihsm.Error.{
  Result, ok, err, ok_or, guard, ◌>>=◌, ◌>>◌, wrong_length, invalid_data, session_failed,
  authentication_failed, storage_failed,
}
use virtual_yubihsm.Frame.{Frame, new, parse, encode, response_bit}
use virtual_yubihsm.Protocol.{CommandCode, to_byte}
use virtual_yubihsm.Keys.{
  Keys, Platform, KeyKind, EcCurve, SoftwarePublicKey, SoftwareSymmetricError,
}
use virtual_yubihsm.Session.{mac_length, block_size, increment_counter}

abbrev pub challenge_length : ℕ
challenge_length = 8

abbrev pub p256_public_key_length : ℕ
p256_public_key_length = 65

abbrev pub authentication_algorithm_aes128_yubico : ℕ
authentication_algorithm_aes128_yubico = 38

abbrev pub authentication_algorithm_ec_p256 : ℕ
authentication_algorithm_ec_p256 = 49

abbrev scp11_shared_info : List ℕ
scp11_shared_info = 0x3c ∷ 0x88 ∷ 0x10 ∷ []

pub record SecureSession : Type 0 where
  pub sid : ℕ
  pub s_enc : List ℕ
  pub s_mac : List ℕ
  pub s_rmac : List ℕ
  pub counter : List ℕ
  pub mac_chaining_value : List ℕ

abbrev pub map_symmetric_error : SoftwareSymmetricError → Result (List ℕ)
map_symmetric_error SoftwareSymmetricError.invalid_data_length = err wrong_length
map_symmetric_error SoftwareSymmetricError.invalid_iv_length = err wrong_length
map_symmetric_error SoftwareSymmetricError.invalid_key_length = err invalid_data
map_symmetric_error SoftwareSymmetricError.authentication_failed = err invalid_data

abbrev pub symmetric_result : SoftwareSymmetricError ⊎ List ℕ → Result (List ℕ)
symmetric_result (inl error) = map_symmetric_error error
symmetric_result (inr output) = ok output

-- `.try_into()` an array of this length
abbrev pub sized : ℕ → List ℕ → Result (List ℕ)
sized n value = guard (length value == n) session_failed >> ok value

module _ ⦃keys : Keys⦄ (platform : Platform) where
  unfoldable pub cmac : List ℕ → List ℕ → Result (List ℕ)
  cmac key message = symmetric_result (platform.aes_cmac key message)

  unfoldable pub encrypt_block : List ℕ → List ℕ → Result (List ℕ)
  encrypt_block key input = symmetric_result (platform.encrypt_aes_block key input)

  unfoldable pub cbc_encrypt : List ℕ → List ℕ → List ℕ → Result (List ℕ)
  cbc_encrypt key iv input = symmetric_result (platform.encrypt_aes_cbc key iv input)

  unfoldable pub cbc_decrypt : List ℕ → List ℕ → List ℕ → Result (List ℕ)
  cbc_decrypt key iv input = symmetric_result (platform.decrypt_aes_cbc key iv input)

  unfoldable pub unpad : List ℕ → Result (List ℕ)
  unpad clear = ok_or (platform.unpad_iso7816 clear) invalid_data

  unfoldable pub random_secret_key : Result keys.SigningKey
  random_secret_key = ok_or (platform.generate_for_kind (KeyKind.ec EcCurve.p256)) storage_failed

  unfoldable pub derive_key : List ℕ → ℕ → List ℕ → Result (List ℕ)
  derive_key key constant context = ok_or (platform.scp03_key key constant context) session_failed

  unfoldable pub derive_cryptogram : List ℕ → ℕ → List ℕ → Result (List ℕ)
  derive_cryptogram key constant context =
      ok_or (platform.scp03_cryptogram key constant context) session_failed

  unfoldable pub x963_session_keys : List ℕ → List ℕ → Result (List ℕ)
  x963_session_keys ephemeral static_secret = do
    material ←
        ok_or (platform.x963_kdf_sha256 (ephemeral ++ static_secret) scp11_shared_info 64)
          session_failed
    sized 64 material

  -- The session, the card cryptogram and the cryptogram that the host has to show.
  unfoldable pub begin_symmetric :
      ℕ → List ℕ → List ℕ → List ℕ → Result (SecureSession × List ℕ × List ℕ)
  unfolding derive_key derive_cryptogram
  begin_symmetric sid static_keys host_challenge card_challenge =
      if not (length static_keys == 32) || not (length host_challenge == challenge_length)
      then err wrong_length
      else (do
        let context = host_challenge ++ card_challenge
        s_enc ← derive_key (take 16 static_keys) 0x04 context
        s_mac ← derive_key (drop 16 static_keys) 0x06 context
        s_rmac ← derive_key (drop 16 static_keys) 0x07 context
        card_cryptogram ← derive_cryptogram s_mac 0x00 context
        host_cryptogram ← derive_cryptogram s_mac 0x01 context
        ok (
          record {
            sid = sid;
            s_enc = s_enc;
            s_mac = s_mac;
            s_rmac = s_rmac;
            counter = replicate block_size 0;
            mac_chaining_value = replicate block_size 0;
          },
          card_cryptogram,
          host_cryptogram,
        ))

  abbrev is_p256_kind : KeyKind → Bool
  is_p256_kind (KeyKind.ec EcCurve.p256) = true
  is_p256_kind _ = false

  abbrev normalized_public : List ℕ → Result (List ℕ)
  normalized_public point =
      if length point == 64
      then ok (0x04 ∷ point)
      else if length point == 65
      then ok point
      else err wrong_length

  abbrev ec_point : SoftwarePublicKey → Result (List ℕ)
  ec_point (SoftwarePublicKey.ec point) = ok point
  ec_point _ = err session_failed

  -- The session, the device's ephemeral public key and the receipt.
  unfoldable pub begin_asymmetric :
      ℕ → keys.SigningKey → List ℕ → List ℕ → Result (SecureSession × List ℕ × List ℕ)
  unfolding random_secret_key x963_session_keys cmac
  begin_asymmetric sid device_static host_static_public host_ephemeral_public =
      if not (is_p256_kind (keys.key_kind device_static)) then err invalid_data else (do
        normalized_host_static ← normalized_public host_static_public
        device_ephemeral ← random_secret_key
        encoded_ephemeral ← ec_point (keys.public_key device_ephemeral)
        device_ephemeral_public ← sized p256_public_key_length encoded_ephemeral
        ephemeral ←
            ok_or (platform.derive_with_signing_key device_ephemeral host_ephemeral_public)
              invalid_data
        static_secret ←
            ok_or (platform.derive_with_signing_key device_static normalized_host_static)
              invalid_data
        session_keys ← x963_session_keys ephemeral static_secret
        receipt ← cmac (take 16 session_keys) (device_ephemeral_public ++ host_ephemeral_public)
        ok (
          record {
            sid = sid;
            s_enc = take 16 (drop 16 session_keys);
            s_mac = take 16 (drop 32 session_keys);
            s_rmac = take 16 (drop 48 session_keys);
            counter = increment_counter (replicate block_size 0);
            mac_chaining_value = receipt;
          },
          device_ephemeral_public,
          receipt,
        ))

  -- The session and the payload before the MAC.
  unfoldable pub verify_request_mac : SecureSession → Frame → Result (SecureSession × List ℕ)
  unfolding cmac
  verify_request_mac secure request =
      if ltb (length request.payload) mac_length then err authentication_failed else (do
        let payload_length = length request.payload - mac_length
        command_mac ←
            cmac secure.s_mac
              (secure.mac_chaining_value ++ take (3 + payload_length) (encode request))
        if not (bytes_eq (take mac_length command_mac) (drop payload_length request.payload))
            then err authentication_failed
            else ok (
              record secure { mac_chaining_value = command_mac },
              take payload_length request.payload,
            ))

  unfoldable pub authenticate_symmetric : SecureSession → Frame → List ℕ → Result SecureSession
  unfolding verify_request_mac
  authenticate_symmetric secure request expected_host_cryptogram = do
    (verified, payload) ← verify_request_mac secure request
    if (length payload == 1 + mac_length)
          && ((get_or payload 0 0 == secure.sid)
              && bytes_eq (drop 1 payload) expected_host_cryptogram)
        then ok (record verified { counter = increment_counter verified.counter })
        else err authentication_failed

  unfoldable pub decrypt_request : SecureSession → Frame → Result (SecureSession × Frame)
  unfolding verify_request_mac encrypt_block cbc_decrypt unpad
  decrypt_request secure request = do
    (verified, payload) ← verify_request_mac secure request
    if ltb (length payload) (1 + block_size)
          || (not (get_or payload 0 0 == secure.sid)
              || not ((length payload - 1) % block_size == 0))
        then err session_failed
        else (do
          iv ← encrypt_block verified.s_enc verified.counter
          clear ← cbc_decrypt verified.s_enc iv (drop 1 payload)
          unpadded ← unpad clear
          inner ← parse unpadded
          ok (verified, inner))

  unfoldable pub encrypt_response : SecureSession → Frame → Result (SecureSession × Frame)
  unfolding encrypt_block cbc_encrypt cmac
  encrypt_response secure response = do
    iv ← encrypt_block secure.s_enc secure.counter
    ciphertext ← cbc_encrypt secure.s_enc iv (platform.pad_iso7816 (encode response))
    let body = secure.sid ∷ ciphertext
    let command = bit_or (to_byte CommandCode.session_message) response_bit
    response_mac ← cmac secure.s_rmac (
        secure.mac_chaining_value
        ++ (command ∷ to_be_bytes 2 ((length body + mac_length) % 0x10000) ++ body))
    outer ← new command (body ++ take mac_length response_mac)
    ok (record secure { counter = increment_counter secure.counter }, outer)
