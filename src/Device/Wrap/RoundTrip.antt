-- ===== src/Device/Wrap/RoundTrip.antt =====
-- crates/virtual-yubihsm-core/src/device.rs: WRAP DATA and UNWRAP DATA undo each other.
use virtual_yubihsm.Prelude.{
  ℕ, ◌≤◌, ◌≡◌, refl, sym, ap, ◌∙◌, false, some, List, [], ◌∷◌, ◌++◌, length, length-append, take,
  drop, take-append, drop-append, from_be_bytes, suc, ltb, arith,
}
use virtual_yubihsm.Error.{Result, ok, ok_or, ◌>>=◌, >>=-eq-ok, invalid_data, storage_failed}
use virtual_yubihsm.Error.Ensures.{ok_or-eq_ok}
use virtual_yubihsm.Keys.{Keys, Platform}
use virtual_yubihsm.Wire.{decode, read_u16, read_array, read_slice, read_remainder, finish}
use virtual_yubihsm.Object.Record.{ObjectRecord}
use virtual_yubihsm.Request.{IdRemainder, id_remainder_request}
use virtual_yubihsm.Authorization.{SessionAuthorization}
use virtual_yubihsm.Device.State.{Device}
use virtual_yubihsm.Device.Material.{object_secret}
use virtual_yubihsm.Device.Put.{random_bytes}
use virtual_yubihsm.Device.Wrap.{
  ccm_nonce_size, ccm_tag_size, ccm_wrap_key, ccm_wrap, wrap_data, unwrap_data,
}

abbrev at_id : ℕ → ℕ → List ℕ → IdRemainder
at_id high low rest = record { id = from_be_bytes (high ∷ low ∷ []); remainder = rest }

decode-id_remainder :
    (high low : ℕ) (rest : List ℕ)
    → decode id_remainder_request (high ∷ low ∷ rest) ≡ ok (at_id high low rest)
unfolding decode id_remainder_request read_u16 read_array read_slice read_remainder finish
decode-id_remainder high low rest =
    let long : ltb (suc (suc (length rest))) 2 ≡ false = ground arith in rw long refl

module _ ⦃keys : Keys⦄ (platform : Platform) where
  ccm_wrap-eq_ok :
      (wrap_key : ObjectRecord) (plaintext wrapped : List ℕ)
      → ccm_wrap platform wrap_key plaintext ≡ ok wrapped
      → (nonce : List ℕ) × (key : List ℕ) × (encrypted : List ℕ) × (platform.fill ccm_nonce_size
          ≡ some nonce)
        × (object_secret wrap_key ≡ ok key)
        × (platform.encrypt_aes_ccm key nonce plaintext ≡ some encrypted)
        × (wrapped ≡ 1 ∷ nonce ++ encrypted)
  unfolding ccm_wrap
  ccm_wrap-eq_ok wrap_key plaintext wrapped e =
      let (nonce, drawn, keyed) = >>=-eq-ok (random_bytes platform ccm_nonce_size) _ e in
      let (key, read, sealed) = >>=-eq-ok (object_secret wrap_key) _ keyed in
      let (encrypted, made, answered) =
        >>=-eq-ok (ok_or (platform.encrypt_aes_ccm key nonce plaintext) invalid_data) _ sealed in
      (
        nonce,
        key,
        encrypted,
        ok_or-eq_ok _ storage_failed drawn,
        read,
        ok_or-eq_ok _ invalid_data made,
        cc,
      )

module _ ⦃keys : Keys⦄ (platform : Platform)
    (fill_length : (n : ℕ) (drawn : List ℕ) → platform.fill n ≡ some drawn → length drawn ≡ n)
    (ccm : (key nonce plaintext encrypted : List ℕ)
      → platform.encrypt_aes_ccm key nonce plaintext ≡ some encrypted
      → (ccm_tag_size ≤ length encrypted)
        × (platform.decrypt_aes_ccm key nonce encrypted ≡ some plaintext)) where
  unwrap_sealed :
      (device : Device) (authorization : SessionAuthorization) (high low : ℕ)
      (object : ObjectRecord) (key nonce encrypted plaintext : List ℕ)
      → ccm_wrap_key platform device authorization (from_be_bytes (high ∷ low ∷ [])) ≡ ok object
      → object_secret object ≡ ok key
      → length nonce ≡ ccm_nonce_size
      → ccm_tag_size ≤ length encrypted
      → platform.decrypt_aes_ccm key nonce encrypted ≡ some plaintext
      → unwrap_data platform device authorization (high ∷ low ∷ 1 ∷ nonce ++ encrypted)
        ≡ ok plaintext
  unfolding unwrap_data
  unwrap_sealed device authorization high low object key nonce encrypted plaintext found read size
        tag opened =
      let long : ltb (length (1 ∷ nonce ++ encrypted)) 30 ≡ false =
        ground (arith, length-append nonce encrypted) in
      let front : take 13 (nonce ++ encrypted) ≡ nonce =
        ap (λ n. take n (nonce ++ encrypted)) (sym size) ∙ take-append nonce encrypted in
      let back : drop 13 (nonce ++ encrypted) ≡ encrypted =
        ap (λ n. drop n (nonce ++ encrypted)) (sym size) ∙ drop-append nonce encrypted in
      rw (decode-id_remainder high low (1 ∷ nonce ++ encrypted))
        (rw long (rw found (rw read (rw front (rw back (ap (λ o. ok_or o invalid_data) opened))))))

  -- Data wrapped by WRAP DATA unwraps to itself under the same key and session, for every key id and
  -- every data, when the random source fills what it is asked to, and AES-CCM puts on a tag and
  -- decrypts what it has encrypted.
  pub unwrap_data-wrap_data :
      (device : Device) (authorization : SessionAuthorization) (high low : ℕ)
      (plaintext wrapped : List ℕ)
      → wrap_data platform device authorization (high ∷ low ∷ plaintext) ≡ ok wrapped
      → unwrap_data platform device authorization (high ∷ low ∷ wrapped) ≡ ok plaintext
  unfolding wrap_data
  unwrap_data-wrap_data device authorization high low plaintext wrapped e =
      let request = at_id high low plaintext in
      let wraps : IdRemainder → Result (List ℕ) = λ r.
        ccm_wrap_key platform device authorization r.id >>= λ object.
        ccm_wrap platform object r.remainder in
      let known : (ok request >>= wraps) ≡ ok wrapped =
        ap (λ r. r >>= wraps) (sym (decode-id_remainder high low plaintext)) ∙ e in
      let (object, found, sealed) =
        >>=-eq-ok (ccm_wrap_key platform device authorization request.id) _ known in
      let (nonce, key, encrypted, drawn, read, made, answer) =
        ccm_wrap-eq_ok platform object plaintext wrapped sealed in
      let tagged = ccm key nonce plaintext encrypted made in
      ap (λ w. unwrap_data platform device authorization (high ∷ low ∷ w)) answer
      ∙ unwrap_sealed device authorization high low object key nonce encrypted plaintext found read
          (fill_length ccm_nonce_size nonce drawn) tagged.0 tagged.1
