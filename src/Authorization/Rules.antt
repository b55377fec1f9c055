-- ===== src/Authorization/Rules.antt =====
-- The authorization checks against what they promise, in terms of bits of the domain word and
-- members of the capability sets.
use virtual_yubihsm.Prelude.{ℕ, ◌<◌, ◌^◌, ◌-◌, ◌≡◌, ◌↔◌, true, ◌==◌, bit_and, arith, IsU16}
use virtual_yubihsm.Prelude.Bits.{test_bit, within_bits_iff}
use virtual_yubihsm.Error.{ok}
use virtual_yubihsm.Capability.{Capability, IsCapabilitySet, contains, is_subset_of}
use virtual_yubihsm.Capability.Sets.{IsSubset, is_subset_of_iff}
use virtual_yubihsm.Object.{ObjectInfo, validate}
use virtual_yubihsm.Authorization.{
  SessionAuthorization, can_see, authorize_use, authorize_create, authorize_wrapped_export,
  authorize_wrapped_creation,
}

-- An object may be used exactly when the session sees it and both the session and the object hold
-- the capability that is asked of them.
pub authorize_use_iff :
    (session : SessionAuthorization) (object : ObjectInfo) (c d : Capability)
    → (authorize_use session object c d ≡ ok tt) ↔ (
        (can_see session object ≡ true)
        × (contains session.capabilities c ≡ true)
        × (contains object.capabilities d ≡ true))
unfolding authorize_use
authorize_use_iff session object c d = ground arith

-- The bits of one domain word are among those of another.
abbrev pub IsWithinDomains : ℕ → ℕ → Type 0
IsWithinDomains requested domains =
    (k : ℕ) → k < 16 → test_bit requested k ≡ true → test_bit domains k ≡ true

create_parts :
    (session : SessionAuthorization) (requested : ObjectInfo) (c : Capability)
    → (authorize_create session requested c ≡ ok tt) ↔ (
        (contains session.capabilities c ≡ true)
        × (validate requested ≡ ok tt)
        × ((bit_and requested.domains (2 ^ 16 - 1 - session.domains) == 0) ≡ true)
        × (is_subset_of requested.capabilities session.delegated_capabilities ≡ true)
        × (is_subset_of requested.delegated_capabilities session.delegated_capabilities ≡ true))
unfolding authorize_create
create_parts session requested c = ground arith

-- An object may be created exactly when the session holds the command's capability, the metadata
-- is valid, and every domain, capability and delegated capability that is asked for is one of the
-- session's domains or delegated capabilities; on 16-bit domains and bitmaps of eight bytes.
pub authorize_create_iff :
    (session : SessionAuthorization) (requested : ObjectInfo) (c : Capability)
    → IsU16 session.domains
    → IsU16 requested.domains
    → IsCapabilitySet session.delegated_capabilities
    → IsCapabilitySet requested.capabilities
    → IsCapabilitySet requested.delegated_capabilities
    → (authorize_create session requested c ≡ ok tt) ↔ (
        (contains session.capabilities c ≡ true)
        × (validate requested ≡ ok tt)
        × IsWithinDomains requested.domains session.domains
        × IsSubset requested.capabilities session.delegated_capabilities
        × IsSubset requested.delegated_capabilities session.delegated_capabilities)
authorize_create_iff session requested c hd hr wd wc wr =
    let parts = create_parts session requested c in
    let domains = within_bits_iff 16 requested.domains session.domains hr hd in
    let own = is_subset_of_iff requested.capabilities session.delegated_capabilities wc wd in
    let delegated =
      is_subset_of_iff requested.delegated_capabilities session.delegated_capabilities wr wd in
    (
      λ h. let p = parts.0 h in (p.0, p.1, domains.0 p.2, own.0 p.3, delegated.0 p.4),
      λ (held, valid, d, o, r). parts.1 (held, valid, domains.1 d, own.1 o, delegated.1 r),
    )

export_parts :
    (session : SessionAuthorization) (object wrap_key : ObjectInfo)
    → (authorize_wrapped_export session object wrap_key ≡ ok tt) ↔ (
        (authorize_use session wrap_key Capability.export_wrapped Capability.export_wrapped ≡ ok tt)
        × (can_see session object ≡ true)
        × (contains object.capabilities Capability.exportable_under_wrap ≡ true)
        × (is_subset_of object.capabilities wrap_key.delegated_capabilities ≡ true))
unfolding authorize_wrapped_export
export_parts session object wrap_key = ground arith

-- An object may leave the device under a wrap key exactly when the session may use the wrap key
-- for export, sees the object, and the object is marked exportable and has no capability beyond
-- the wrap key's delegated ones; on bitmaps of eight bytes.
pub authorize_wrapped_export_iff :
    (session : SessionAuthorization) (object wrap_key : ObjectInfo)
    → IsCapabilitySet object.capabilities
    → IsCapabilitySet wrap_key.delegated_capabilities
    → (authorize_wrapped_export session object wrap_key ≡ ok tt) ↔ (
        (authorize_use session wrap_key Capability.export_wrapped Capability.export_wrapped ≡ ok tt)
        × (can_see session object ≡ true)
        × (contains object.capabilities Capability.exportable_under_wrap ≡ true)
        × IsSubset object.capabilities wrap_key.delegated_capabilities)
authorize_wrapped_export_iff session object wrap_key wo ww =
    let parts = export_parts session object wrap_key in
    let below = is_subset_of_iff object.capabilities wrap_key.delegated_capabilities wo ww in
    (
      λ h. let p = parts.0 h in (p.0, p.1, p.2, below.0 p.3),
      λ (used, seen, marked, b). parts.1 (used, seen, marked, below.1 b),
    )

creation_parts :
    (session : SessionAuthorization) (requested wrap_key : ObjectInfo)
    → (authorize_wrapped_creation session requested wrap_key ≡ ok tt) ↔ (
        (authorize_create session requested Capability.import_wrapped ≡ ok tt)
        × (is_subset_of requested.capabilities wrap_key.delegated_capabilities ≡ true))
unfolding authorize_wrapped_creation
creation_parts session requested wrap_key = ground arith

-- An object may be created from a wrapped one only below two ceilings: the session's delegated
-- capabilities and the wrap key's, with 16-bit domains and bitmaps of eight bytes.
pub authorize_wrapped_creation_ceiling :
    (session : SessionAuthorization) (requested wrap_key : ObjectInfo)
    → IsU16 session.domains
    → IsU16 requested.domains
    → IsCapabilitySet session.delegated_capabilities
    → IsCapabilitySet requested.capabilities
    → IsCapabilitySet requested.delegated_capabilities
    → IsCapabilitySet wrap_key.delegated_capabilities
    → authorize_wrapped_creation session requested wrap_key ≡ ok tt
    → IsWithinDomains requested.domains session.domains
      × IsSubset requested.capabilities session.delegated_capabilities
      × IsSubset requested.delegated_capabilities session.delegated_capabilities
      × IsSubset requested.capabilities wrap_key.delegated_capabilities
authorize_wrapped_creation_ceiling session requested wrap_key hd hr wd wc wr ww h =
    let parts = (creation_parts session requested wrap_key).0 h in
    let (held, valid, domains, own, delegated) =
      (authorize_create_iff session requested Capability.import_wrapped hd hr wd wc wr).0 parts.0 in
    (
      domains,
      own,
      delegated,
      (is_subset_of_iff requested.capabilities wrap_key.delegated_capabilities wc ww).0 parts.1,
    )
