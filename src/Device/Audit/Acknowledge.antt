-- ===== src/Device/Audit/Acknowledge.antt =====
-- SET LOG INDEX drops the front of a log whose numbers ascend, so what is left is a log again.
use virtual_yubihsm.Prelude.{
  ℕ, ◌≤◌, ◌<◌, ◌≡◌, subst, refl, ap, List, [], ◌∷◌, ◌++◌, length, ltb, Bool-cases, inl, inr, arith,
}
use virtual_yubihsm.Error.{ok, >>=-eq-ok}
use virtual_yubihsm.Wire.{decode}
use virtual_yubihsm.Request.{u16_request}
use virtual_yubihsm.Device.Audit.{AuditEntry, AuditState, after_index, set_log_index}
use virtual_yubihsm.Device.Audit.Chain.{IsChained, IsLog}

-- The numbers ascend from above `floor`.
abbrev pub IsAscending : ℕ → List AuditEntry → Type 0
IsAscending floor [] = Unit {0}
IsAscending floor (entry ∷ entries) = (floor < entry.number) × IsAscending entry.number entries

after_index-above :
    (index floor : ℕ) (entries : List AuditEntry)
    → index ≤ floor
    → IsAscending floor entries
    → after_index index entries ≡ entries
after_index-above index floor [] h a = refl
after_index-above index floor (entry ∷ entries) h a =
    let rest = after_index-above index entry.number entries (omega (arith, a.0)) a.1 in
    ground (arith, a.0, rest)

-- No number is above `index`.
abbrev pub AreUpTo : ℕ → List AuditEntry → Type 0
AreUpTo index [] = Unit {0}
AreUpTo index (entry ∷ entries) = (entry.number ≤ index) × AreUpTo index entries

after_index-splits :
    (index floor : ℕ) (entries : List AuditEntry)
    → IsAscending floor entries
    → (dropped : List AuditEntry) × (entries ≡ dropped ++ after_index index entries)
      × AreUpTo index dropped
      × IsAscending index (after_index index entries)
after_index-splits index floor [] a = ([], refl, tt, tt)
after_index-splits index floor (entry ∷ entries) a = elim (Bool-cases (ltb index entry.number)) [
  | inl above ↦
      let kept = after_index-above index entry.number entries (ground arith) a.1 in
      rw (above, kept) ([], refl, tt, (ground arith, a.1))
  | inr below ↦
      let (dropped, parts, small, large) = after_index-splits index entry.number entries a.1 in
      rw below (entry ∷ dropped, ap (λ rest. entry ∷ rest) parts, (ground arith, small), large)
]

-- A successful SET LOG INDEX changes nothing but the entries of the log, and of a log whose numbers
-- ascend it drops just the front up to the index in the request: every number in that front is at
-- most the index, and the numbers of what is left are above the index and ascend.
pub set_log_index-splits :
    (floor : ℕ) (audit updated : AuditState) (request_data : List ℕ)
    → IsAscending floor audit.entries
    → set_log_index audit request_data ≡ ok updated
    → (index : ℕ) × (decode u16_request request_data ≡ ok index)
      × (updated ≡ record audit { entries = updated.entries })
      × (dropped : List AuditEntry) × (audit.entries ≡ dropped ++ updated.entries)
      × AreUpTo index dropped
      × IsAscending index updated.entries
unfolding set_log_index
set_log_index-splits floor audit updated request_data a e =
    let (index, decoded, left) =
      >>=-eq-ok (decode u16_request request_data)
        (λ index. ok (record audit { entries = after_index index audit.entries })) e in
    let (dropped, parts, small, large) = after_index-splits index floor audit.entries a in
    let same : record audit { entries = after_index index audit.entries } ≡ updated = cc in
    subst
      (λ (u : AuditState).
        (index : ℕ) × (decode u16_request request_data ≡ ok index)
        × (u ≡ record audit { entries = u.entries })
        × (dropped : List AuditEntry) × (audit.entries ≡ dropped ++ u.entries)
        × AreUpTo index dropped
        × IsAscending index u.entries)
      same (index, decoded, refl, dropped, parts, small, large)

length-after_index :
    (index : ℕ) (entries : List AuditEntry) → length (after_index index entries) ≤ length entries
length-after_index index [] = omega arith
length-after_index index (entry ∷ entries) = ground (arith, length-after_index index entries)

module _ (sha256 : List ℕ → List ℕ) where
  after_index-IsChained :
      (index floor : ℕ) (before last : List ℕ) (entries : List AuditEntry)
      → IsAscending floor entries
      → IsChained sha256 before entries last
      → (start : List ℕ) × IsChained sha256 start (after_index index entries) last
  after_index-IsChained index floor before last [] a h = (before, h)
  after_index-IsChained index floor before last (entry ∷ entries) a h =
      elim (Bool-cases (ltb index entry.number)) [
        | inl above ↦
            let kept = after_index-above index entry.number entries (ground arith) a.1 in
            (before, rw (above, kept) h)
        | inr below ↦
            rw below (after_index-IsChained index entry.number entry.digest last entries a.1 h.1)
      ]

  -- What a successful SET LOG INDEX leaves of a log whose numbers ascend is a log, whose chain
  -- starts at some digest.
  pub set_log_index-IsLog :
      (log_capacity floor : ℕ) (before : List ℕ) (audit updated : AuditState)
      (request_data : List ℕ)
      → IsAscending floor audit.entries
      → IsLog sha256 log_capacity before audit
      → set_log_index audit request_data ≡ ok updated
      → (start : List ℕ) × IsLog sha256 log_capacity start updated
  unfolding set_log_index
  set_log_index-IsLog log_capacity floor before audit updated request_data a w e =
      let (index, decoded, left) =
        >>=-eq-ok (decode u16_request request_data)
          (λ index. ok (record audit { entries = after_index index audit.entries })) e in
      let (start, chained) =
        after_index-IsChained index floor before audit.previous_digest audit.entries a w.chained in
      let same : record audit { entries = after_index index audit.entries } ≡ updated = cc in
      (
        start,
        subst (λ (a : AuditState). IsLog sha256 log_capacity start a) same
            (record {
              bounded = omega (arith, length-after_index index audit.entries, w.bounded);
              chained = chained;
              numbered = w.numbered;
              ticking = w.ticking;
            }),
      )
