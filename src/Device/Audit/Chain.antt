-- ===== src/Device/Audit/Chain.antt =====
-- The audit log stays within its capacity, its numbers run on, and its digests form a chain.
use virtual_yubihsm.Prelude.{
  ℕ, ◌+◌, ◌*◌, ◌^◌, ◌≤◌, ◌<◌, ◌≡◌, refl, ◌∙◌, sym, ap, false, List, [], ◌∷◌, ◌++◌, length,
  length-append, take, leb, Bool-cases, inl, inr, All, arith,
}
use virtual_yubihsm.Error.{ok}
use virtual_yubihsm.Protocol.{CommandCode}
use virtual_yubihsm.Authorization.{SessionAuthorization}
use virtual_yubihsm.Device.Audit.{
  AuditEntry, AuditState, encode, chain_digest, append_audit_entry, encode_entries, get_log_entries,
}

-- An entry's sixteen bytes before its digest do not depend on the digest.
header_of :
    (entry : AuditEntry) (digest : List ℕ)
    → take 16 (encode (record entry { digest = digest })) ≡ take 16 (encode entry)
unfolding encode
header_of entry digest = refl

one_more :
    (cap : ℕ) (xs : List AuditEntry) (x : AuditEntry)
    → leb cap (length xs) ≡ false
    → length (xs ++ (x ∷ [])) ≤ cap
one_more cap xs x h = ground (arith, length-append xs (x ∷ []))

module _ (sha256 : List ℕ → List ℕ) where
  -- From the digest `before` the first entry to the digest `last` of the whole list.
  abbrev pub IsChained : List ℕ → List AuditEntry → List ℕ → Type 0
  IsChained before [] last = before ≡ last
  IsChained before (entry ∷ entries) last =
      (entry.digest ≡ chain_digest sha256 entry before) × IsChained entry.digest entries last

  IsChained-append :
      (before last : List ℕ) (entries : List AuditEntry) (entry : AuditEntry)
      → IsChained before entries last
      → entry.digest ≡ chain_digest sha256 entry last
      → IsChained before (entries ++ (entry ∷ [])) entry.digest
  IsChained-append before last [] entry h e = (e ∙ ap (chain_digest sha256 entry) (sym h), refl)
  IsChained-append before last (x ∷ entries) entry h e =
      (h.0, IsChained-append x.digest last entries entry h.1 e)

  pub record IsLog (log_capacity : ℕ) (before : List ℕ) (audit : AuditState) : Type 0 where
    pub bounded : length audit.entries ≤ log_capacity
    pub chained : IsChained before audit.entries audit.previous_digest
    pub numbered : (1 ≤ audit.next_number) × (audit.next_number < 2 ^ 16)
    pub ticking : audit.systick < 2 ^ 32

  -- Appending keeps a log a log: within its capacity, its digests a chain from `before` to the
  -- digest that the next entry takes up, its next number a nonzero 16-bit number, its tick 32 bits.
  pub append_audit_entry-IsLog :
      (log_capacity : ℕ) (before : List ℕ) (audit : AuditState) (session : SessionAuthorization)
      (command : CommandCode) (request_data : List ℕ) (result : ℕ)
      → IsLog log_capacity before audit
      → IsLog log_capacity before
          (append_audit_entry sha256 log_capacity audit session command request_data result).0
  unfolding append_audit_entry chain_digest
  append_audit_entry-IsLog log_capacity before audit session command request_data result w =
      elim (Bool-cases (leb log_capacity (length audit.entries))) [
        | inl full ↦ rw full w
        | inr room ↦ rw room (record {
          bounded = one_more log_capacity audit.entries _ room;
          chained = IsChained-append before audit.previous_digest audit.entries _ w.chained refl;
          numbered = omega (arith, w.numbered.0);
          ticking = omega arith;
        })
      ]

length-encode : (entry : AuditEntry) → length (encode entry) ≡ 16 + length entry.digest
unfolding encode
length-encode entry = omega arith

length-encode_entries :
    (entries : List AuditEntry)
    → All (λ (entry : AuditEntry). length entry.digest ≡ 16) entries
    → length (encode_entries entries) ≡ 32 * length entries
unfolding encode_entries
length-encode_entries [] h = refl
length-encode_entries (entry ∷ entries) h = omega (
  arith,
  length-append (encode entry) (encode_entries entries),
  length-encode entry,
  length-encode_entries entries h.1,
)

-- Every entry takes 32 bytes of the reply, where its digest has sixteen.
pub length-get_log_entries :
    (audit : AuditState) (request_data output : List ℕ)
    → All (λ (entry : AuditEntry). length entry.digest ≡ 16) audit.entries
    → get_log_entries audit request_data ≡ ok output
    → length output ≡ 5 + 32 * length audit.entries
unfolding get_log_entries
length-get_log_entries audit request_data output h e =
    ground (arith, length-encode_entries audit.entries h)
