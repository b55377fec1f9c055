-- ===== src/Tests/State.antt =====
-- The results on options and the audit log, applied to a concrete device.
use virtual_yubihsm.Prelude.{
  ℕ, ◌%◌, ◌≡◌, refl, false, List, [], ◌∷◌, ◌++◌, length, replicate, arith, true,
}
use virtual_yubihsm.Prelude.OrderedMap.{nat_order, get}
use virtual_yubihsm.Error.{ok}
use virtual_yubihsm.Wire.{decode, read_u16}
use virtual_yubihsm.Firmware.{FirmwareProfile}
use virtual_yubihsm.Protocol.{CommandCode, to_byte}
use virtual_yubihsm.Object.{key_order}
use virtual_yubihsm.Request.{empty_request, u16_request}
use virtual_yubihsm.Device.Options.{DeviceOptions, set_option, options_after, is_fixed}
use virtual_yubihsm.Device.Options.Fixed.{StaysFixed, set_option-StaysFixed}
use virtual_yubihsm.Device.Audit.{
  AuditEntry, AuditState, fresh_audit, append_audit_entry, get_log_entries, set_log_index,
}
use virtual_yubihsm.Device.Audit.Chain.{IsLog, append_audit_entry-IsLog}
use virtual_yubihsm.Device.Audit.Acknowledge.{
  IsAscending, set_log_index-splits, AreUpTo, set_log_index-IsLog,
}
use virtual_yubihsm.Algorithm
use virtual_yubihsm.Device.Options.Read.{
  command_can_be_audited, should_audit, fips_disallowed_algorithm, algorithm_enabled,
}
use virtual_yubihsm.Device.Options.Effects.{audited_stays, fips_disallowed_stays}
use virtual_yubihsm.Device.Audit.Numbers.{IsNumbered, append_audit_entry-IsNumbered}
use virtual_yubihsm.Tests.{session, sign_request}

abbrev fixed_options : DeviceOptions
fixed_options = record {
  force_audit = 2;
  command_audit = (0x55, 2) ∷ [];
  algorithm_toggle = [];
  fips_mode = 0;
}

abbrev unfix_request : List ℕ
unfix_request = 0x03 ∷ 0x00 ∷ 0x04 ∷ 0x56 ∷ 0x01 ∷ 0x55 ∷ 0x00 ∷ []

set_option-StaysFixed_example : StaysFixed fixed_options (
    options_after fixed_options
      (set_option FirmwareProfile.full (12 ∷ []) false fixed_options unfix_request))
set_option-StaysFixed_example =
    set_option-StaysFixed FirmwareProfile.full (12 ∷ []) false fixed_options unfix_request

-- A function that stands for SHA-256, with digests of 32 bytes
abbrev some_digest : List ℕ → List ℕ
some_digest input = replicate 32 (length input % 256)

abbrev no_digest : List ℕ
no_digest = replicate 16 0

fresh-IsLog : IsLog some_digest 62 no_digest fresh_audit
fresh-IsLog = record {
  bounded = omega arith;
  chained = refl;
  numbered = omega arith;
  ticking = omega arith;
}

append_audit_entry-IsLog_example :
    IsLog some_digest 62 no_digest
      (append_audit_entry some_digest 62 fresh_audit session CommandCode.sign_ecdsa sign_request
        0).0
append_audit_entry-IsLog_example =
    append_audit_entry-IsLog some_digest 62 no_digest fresh_audit session CommandCode.sign_ecdsa
      sign_request 0 fresh-IsLog

abbrev one_entry : AuditState
one_entry = record fresh_audit {
  entries =
      record {
        number = 1;
        command = 0x56;
        length = 4;
        session_key = 1;
        target_key = 0x0102;
        second_key = 0;
        result = 0;
        systick = 0;
        digest = no_digest;
      }
      ∷ [];
}

abbrev one_entry_reply : List ℕ
one_entry_reply =
    (0 ∷ 0 ∷ 0 ∷ 0 ∷ 1 ∷ [])
    ++ ((0 ∷ 1 ∷ 0x56 ∷ 0 ∷ 4 ∷ 0 ∷ 1 ∷ 1 ∷ 2 ∷ 0 ∷ 0 ∷ 0 ∷ 0 ∷ 0 ∷ 0 ∷ 0 ∷ []) ++ no_digest)

one_entry-reply : get_log_entries one_entry [] ≡ ok one_entry_reply
unfolding get_log_entries decode empty_request
one_entry-reply = refl

abbrev logged : AuditState
logged =
    (append_audit_entry some_digest 62 fresh_audit session CommandCode.sign_ecdsa sign_request 0).0

logged-IsAscending : IsAscending 0 logged.entries
unfolding append_audit_entry
logged-IsAscending = (omega arith, tt)

acknowledge-logged : set_log_index logged (0 ∷ 1 ∷ []) ≡ ok (record logged { entries = [] })
unfolding set_log_index decode u16_request read_u16 append_audit_entry
acknowledge-logged = refl

set_log_index-IsLog_example :
    (start : List ℕ) × IsLog some_digest 62 start (record logged { entries = [] })
set_log_index-IsLog_example =
    set_log_index-IsLog some_digest 62 0 no_digest logged (record logged { entries = [] })
      (0 ∷ 1 ∷ []) logged-IsAscending append_audit_entry-IsLog_example acknowledge-logged

set_log_index-splits_example :
    (index : ℕ) × (decode u16_request (0 ∷ 1 ∷ []) ≡ ok index)
    × (record logged { entries = [] } ≡ record logged { entries = [] })
    × (dropped : List AuditEntry) × (logged.entries ≡ dropped ++ [])
    × AreUpTo index dropped
    × IsAscending index []
set_log_index-splits_example =
    set_log_index-splits 0 logged (record logged { entries = [] }) (0 ∷ 1 ∷ []) logged-IsAscending
      acknowledge-logged

sign_ecdsa_can_be_audited : command_can_be_audited CommandCode.sign_ecdsa ≡ true
unfolding command_can_be_audited
sign_ecdsa_can_be_audited = refl

abbrev audited_options : DeviceOptions
audited_options = record fixed_options { command_audit = (0x56, 2) ∷ []; fips_mode = 2 }

sign_ecdsa-is_fixed :
    is_fixed (get (to_byte CommandCode.sign_ecdsa) audited_options.command_audit) ≡ true
unfolding to_byte get
sign_ecdsa-is_fixed = refl

audited_stays_example :
    should_audit
      (options_after audited_options
        (set_option FirmwareProfile.full (12 ∷ []) false audited_options unfix_request))
      CommandCode.sign_ecdsa
    ≡ true
audited_stays_example =
    audited_stays FirmwareProfile.full (12 ∷ []) false audited_options unfix_request
      CommandCode.sign_ecdsa sign_ecdsa_can_be_audited sign_ecdsa-is_fixed

ec_k256_disallowed : fips_disallowed_algorithm 15 ≡ true
unfolding fips_disallowed_algorithm Algorithm.from_byte
ec_k256_disallowed = refl

fips_disallowed_stays_example :
    algorithm_enabled FirmwareProfile.full
      (15 ∷ [])
      (options_after audited_options
        (set_option FirmwareProfile.full (15 ∷ []) true audited_options unfix_request))
      15
    ≡ false
fips_disallowed_stays_example =
    fips_disallowed_stays FirmwareProfile.full (15 ∷ []) true audited_options unfix_request 15 refl
      ec_k256_disallowed

append_audit_entry-IsNumbered_example : IsNumbered 0 logged.entries logged.next_number
append_audit_entry-IsNumbered_example =
    append_audit_entry-IsNumbered some_digest 62 0 fresh_audit session CommandCode.sign_ecdsa
      sign_request 0 (omega arith) (omega arith)
