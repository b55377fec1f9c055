-- ===== src/Device/Audit.antt =====
-- crates/virtual-yubihsm-core/src/device.rs: the audit log, a bounded list of entries whose
-- digests form a chain. SHA-256 of software-key-core is the argument `sha256`.
pub mod Chain
pub mod Acknowledge
pub mod Numbers
use virtual_yubihsm.Prelude.{
  ℕ, ◌+◌, ◌-◌, ◌%◌, ◌^◌, ◌≤◌, max, min, Bool, true, false, not, ◌&&◌, ◌||◌, List, [], ◌∷◌, ◌++◌,
  length, take, replicate, to_be_bytes, ltb, leb, ◌==◌, if◌then◌else◌,
}
use virtual_yubihsm.Prelude.OrderedMap.{get, nat_order}
use virtual_yubihsm.Error.{Result, ok, err, ◌>>=◌}
use virtual_yubihsm.Protocol.{CommandCode, to_byte}
use virtual_yubihsm.Frame.{Frame}
use virtual_yubihsm.Wire.{decode, read_u16}
use virtual_yubihsm.Request.{u16_request, empty_request}
use virtual_yubihsm.Request.Keys.{
  sign_attestation_certificate_request, rewrap_otp_aead_request, export_wrapped_request,
  export_rsa_wrapped_fields,
}
use virtual_yubihsm.Authorization.{SessionAuthorization}

pub record AuditEntry : Type 0 where
  pub number : ℕ
  pub command : ℕ
  pub length : ℕ
  pub session_key : ℕ
  pub target_key : ℕ
  pub second_key : ℕ
  pub result : ℕ
  pub systick : ℕ
  pub digest : List ℕ

unfoldable pub encode : AuditEntry → List ℕ
encode entry =
    to_be_bytes 2 entry.number
    ++ (entry.command ∷ to_be_bytes 2 entry.length
        ++ (to_be_bytes 2 entry.session_key
            ++ (to_be_bytes 2 entry.target_key
                ++ (to_be_bytes 2 entry.second_key
                    ++ (entry.result ∷ to_be_bytes 4 entry.systick ++ entry.digest)))))

pub record AuditState : Type 0 where
  pub entries : List AuditEntry
  pub next_number : ℕ
  pub systick : ℕ
  pub previous_digest : List ℕ
  pub unlogged_boot : ℕ
  pub unlogged_authentication : ℕ

-- `AuditState { next_number: 1, ..AuditState::default() }`
abbrev pub fresh_audit : AuditState
fresh_audit = record {
  entries = [];
  next_number = 1;
  systick = 0;
  previous_digest = replicate 16 0;
  unlogged_boot = 0;
  unlogged_authentication = 0;
}

abbrev or_none : {A : Type 0} → Result A → (A → ℕ × ℕ) → ℕ × ℕ
or_none (ok a) f = f a
or_none (err e) f = (0, 0)

unfoldable pub audit_key_ids : CommandCode → List ℕ → ℕ × ℕ
audit_key_ids CommandCode.sign_attestation_certificate request_data =
    or_none (decode sign_attestation_certificate_request request_data)
      λ r. (r.target_id, r.attesting_id)
audit_key_ids CommandCode.rewrap_otp_aead request_data =
    or_none (decode rewrap_otp_aead_request request_data) λ r. (r.from_id, r.to_id)
audit_key_ids CommandCode.export_wrapped request_data =
    or_none (decode export_wrapped_request request_data) λ r. (r.target.id, r.wrap_id)
audit_key_ids CommandCode.export_rsa_wrapped request_data =
    or_none (decode export_rsa_wrapped_fields request_data) λ r. (r.target.id, r.wrap_id)
audit_key_ids _ request_data = or_none (read_u16 request_data) λ (id, rest). (id, 0)

abbrev entry_keys : SessionAuthorization → CommandCode → List ℕ → ℕ × ℕ
entry_keys session CommandCode.authenticate_session request_data =
    (session.authentication_key_id, 0)
entry_keys session command request_data = audit_key_ids command request_data

-- `request.data.len().try_into().unwrap_or(u16::MAX)`
abbrev saturated_u16 : ℕ → ℕ
saturated_u16 n = if ltb n (2 ^ 16) then n else 0xffff

module _ (sha256 : List ℕ → List ℕ) where
  -- The first sixteen bytes of the entry, then the digest before it.
  unfoldable pub chain_digest : AuditEntry → List ℕ → List ℕ
  unfolding encode
  chain_digest entry previous = take 16 (sha256 (take 16 (encode entry) ++ previous))

  -- The state and whether it changed (`persistent_change`).
  unfoldable pub append_audit_entry :
      ℕ → AuditState → SessionAuthorization → CommandCode → List ℕ → ℕ → AuditState × Bool
  append_audit_entry log_capacity audit session command request_data result =
      if leb log_capacity (length audit.entries)
      then (audit, false)
      else let (target_key, second_key) = entry_keys session command request_data in
        let entry : AuditEntry = record {
          number = audit.next_number;
          command = to_byte command;
          length = saturated_u16 (length request_data);
          session_key = session.authentication_key_id;
          target_key = target_key;
          second_key = second_key;
          result = result;
          systick = audit.systick;
          digest = replicate 16 0;
        } in
        let digest = chain_digest entry audit.previous_digest in
        (
          record audit {
            entries = audit.entries ++ (record entry { digest = digest } ∷ []);
            next_number = max ((audit.next_number + 1) % 2 ^ 16) 1;
            systick = (audit.systick + 1) % 2 ^ 32;
            previous_digest = digest;
          },
          true,
        )

unfoldable pub record_unlogged_authentication_if_full : ℕ → ℕ → AuditState → AuditState × Bool
record_unlogged_authentication_if_full force_audit log_capacity audit =
    if not (force_audit == 0) && leb log_capacity (length audit.entries)
    then (
      record audit { unlogged_authentication = min (audit.unlogged_authentication + 1) 0xffff },
      true,
    )
    else (audit, false)

abbrev pub after_index : ℕ → List AuditEntry → List AuditEntry
after_index index [] = []
after_index index (entry ∷ entries) =
    if ltb index entry.number then entry ∷ after_index index entries else after_index index entries

unfoldable pub set_log_index : AuditState → List ℕ → Result AuditState
set_log_index audit request_data = do
  index ← decode u16_request request_data
  ok (record audit { entries = after_index index audit.entries })

encode_entries : List AuditEntry → List ℕ
unfolding encode
encode_entries [] = []
encode_entries (entry ∷ entries) = encode entry ++ encode_entries entries

unfoldable pub get_log_entries : AuditState → List ℕ → Result (List ℕ)
unfolding encode_entries
get_log_entries audit request_data = do
  nothing ← decode empty_request request_data
  ok (
      to_be_bytes 2 audit.unlogged_boot
      ++ (to_be_bytes 2 audit.unlogged_authentication
          ++ (min (length audit.entries) 0xff ∷ encode_entries audit.entries)))
