-- ===== src/Algorithm/Official.antt =====
-- crates/virtual-yubihsm-core/src/algorithm.rs: the algorithms of the device that is emulated.
use virtual_yubihsm.Prelude.{List, [], ◌∷◌}
use virtual_yubihsm.Algorithm.{Algorithm}

-- `Algorithm::OFFICIAL`
abbrev pub official : List Algorithm
official =
    Algorithm.rsa_pkcs1_sha1 ∷ Algorithm.rsa_pkcs1_sha256 ∷ Algorithm.rsa_pkcs1_sha384
    ∷ Algorithm.rsa_pkcs1_sha512 ∷ Algorithm.rsa_pss_sha1 ∷ Algorithm.rsa_pss_sha256
    ∷ Algorithm.rsa_pss_sha384 ∷ Algorithm.rsa_pss_sha512 ∷ Algorithm.rsa2048 ∷ Algorithm.rsa3072
    ∷ Algorithm.rsa4096 ∷ Algorithm.ec_p256 ∷ Algorithm.ec_p384 ∷ Algorithm.ec_p521
    ∷ Algorithm.ec_k256 ∷ Algorithm.ec_brainpool_p256 ∷ Algorithm.ec_brainpool_p384
    ∷ Algorithm.ec_brainpool_p512 ∷ Algorithm.hmac_sha1 ∷ Algorithm.hmac_sha256
    ∷ Algorithm.hmac_sha384 ∷ Algorithm.hmac_sha512 ∷ Algorithm.ecdsa_sha1 ∷ Algorithm.ecdh
    ∷ Algorithm.rsa_oaep_sha1 ∷ Algorithm.rsa_oaep_sha256 ∷ Algorithm.rsa_oaep_sha384
    ∷ Algorithm.rsa_oaep_sha512 ∷ Algorithm.aes128_ccm_wrap ∷ Algorithm.opaque_data
    ∷ Algorithm.opaque_x509_certificate ∷ Algorithm.mgf1_sha1 ∷ Algorithm.mgf1_sha256
    ∷ Algorithm.mgf1_sha384 ∷ Algorithm.mgf1_sha512 ∷ Algorithm.template_ssh
    ∷ Algorithm.aes128_yubico_otp ∷ Algorithm.aes128_yubico_authentication
    ∷ Algorithm.aes192_yubico_otp ∷ Algorithm.aes256_yubico_otp ∷ Algorithm.aes192_ccm_wrap
    ∷ Algorithm.aes256_ccm_wrap ∷ Algorithm.ecdsa_sha256 ∷ Algorithm.ecdsa_sha384
    ∷ Algorithm.ecdsa_sha512 ∷ Algorithm.ed25519 ∷ Algorithm.ec_p224 ∷ Algorithm.rsa_pkcs1_decrypt
    ∷ Algorithm.ec_p256_yubico_authentication ∷ Algorithm.aes128 ∷ Algorithm.aes192
    ∷ Algorithm.aes256 ∷ Algorithm.aes_ecb ∷ Algorithm.aes_cbc ∷ Algorithm.aes_kwp ∷ []
