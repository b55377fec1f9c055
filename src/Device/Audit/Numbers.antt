-- ===== src/Device/Audit/Numbers.antt =====
-- The numbers of the log ascend, up to the one that the next entry takes.
use virtual_yubihsm.Prelude.{
  ℕ, ◌+◌, ◌%◌, ◌^◌, ◌<◌, ◌≡◌, refl, max, List, [], ◌∷◌, ◌++◌, length, leb, Bool-cases, inl, inr,
  arith,
}
use virtual_yubihsm.Protocol.{CommandCode}
use virtual_yubihsm.Authorization.{SessionAuthorization}
use virtual_yubihsm.Device.Audit.{AuditEntry, AuditState, append_audit_entry}

-- The numbers ascend from above `floor` to below `next`.
abbrev pub IsNumbered : ℕ → List AuditEntry → ℕ → Type 0
IsNumbered floor [] next = floor < next
IsNumbered floor (entry ∷ entries) next =
    (floor < entry.number) × IsNumbered entry.number entries next

IsNumbered-append :
    (floor next later : ℕ) (entries : List AuditEntry) (entry : AuditEntry)
    → IsNumbered floor entries next
    → entry.number ≡ next
    → next < later
    → IsNumbered floor (entries ++ (entry ∷ [])) later
IsNumbered-append floor next later [] entry h e l = (omega (arith, h, e), omega (arith, e, l))
IsNumbered-append floor next later (x ∷ entries) entry h e l =
    (h.0, IsNumbered-append x.number next later entries entry h.1 e l)

-- Until the number 65535 is given out, appending keeps the numbers of the log ascending, up to the
-- number that the next entry takes.
pub append_audit_entry-IsNumbered :
    (sha256 : List ℕ → List ℕ) (log_capacity floor : ℕ) (audit : AuditState)
    (session : SessionAuthorization) (command : CommandCode) (request_data : List ℕ) (result : ℕ)
    → audit.next_number < 0xffff
    → IsNumbered floor audit.entries audit.next_number
    → let after =
        (append_audit_entry sha256 log_capacity audit session command request_data result).0 in
      IsNumbered floor after.entries after.next_number
unfolding append_audit_entry
append_audit_entry-IsNumbered sha256 log_capacity floor audit session command request_data result
      small h =
    elim (Bool-cases (leb log_capacity (length audit.entries))) [
      | inl full ↦ rw full h
      | inr room ↦ rw room (
          IsNumbered-append floor audit.next_number (max ((audit.next_number + 1) % 2 ^ 16) 1)
            audit.entries _ h refl (omega (arith, small)))
    ]
