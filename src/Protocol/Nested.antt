-- ===== src/Protocol/Nested.antt =====
-- crates/virtual-yubihsm-core/src/protocol.rs: the operations inside the session-object command.
use virtual_yubihsm.Prelude.{ℕ, Option, List, [], ◌∷◌, match_byte}

pub data SessionObjectCommand : Type 0 where
  read verify_cmac concatenate_key : SessionObjectCommand
  concatenate_data extract sha256 : SessionObjectCommand
  counter_kdf generate_asymmetric_key derive_ecdh : SessionObjectCommand
  delete_object : SessionObjectCommand

-- `operation as u8`
unfoldable pub to_byte : SessionObjectCommand → ℕ
to_byte read = 0x01
to_byte verify_cmac = 0x02
to_byte concatenate_key = 0x03
to_byte concatenate_data = 0x04
to_byte extract = 0x05
to_byte sha256 = 0x06
to_byte counter_kdf = 0x07
to_byte generate_asymmetric_key = 0x46
to_byte derive_ecdh = 0x57
to_byte delete_object = 0x58

abbrev operation_arms : List (ℕ × SessionObjectCommand)
operation_arms =
    (0x01, read)
    ∷ (0x02, verify_cmac)
    ∷ (0x03, concatenate_key)
    ∷ (0x04, concatenate_data)
    ∷ (0x05, extract)
    ∷ (0x06, sha256)
    ∷ (0x07, counter_kdf)
    ∷ (0x46, generate_asymmetric_key)
    ∷ (0x57, derive_ecdh)
    ∷ (0x58, delete_object)
    ∷ []

unfoldable pub from_byte : ℕ → Option SessionObjectCommand
from_byte = match_byte operation_arms
