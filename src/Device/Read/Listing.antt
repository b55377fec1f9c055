-- ===== src/Device/Read/Listing.antt =====
-- crates/virtual-yubihsm-core/src/device.rs, `list_objects`: the request and the answer of LIST OBJECTS
-- as a client writes the one and reads the other.
use virtual_yubihsm.Prelude.{
  ℕ, ◌≡◌, refl, ap, ◌∙◌, Bool, ◌&&◌, List, [], ◌∷◌, ◌++◌, to_be_bytes, from_be_bytes, All, IsU16,
  Bool-cases, inl, inr, arith,
}
use virtual_yubihsm.Prelude.OrderedMap.{retain}
use virtual_yubihsm.Error.{ok}
use virtual_yubihsm.Keys.{Keys}
use virtual_yubihsm.Object.{ObjectKey, key_order, type_byte}
use virtual_yubihsm.Object.Record.{ObjectRecord}
use virtual_yubihsm.Authorization.{SessionAuthorization, can_see}
use virtual_yubihsm.Request.Filters.{ObjectFilters, no_filters, matches}
use virtual_yubihsm.Request.Filters.RoundTrip.{
  Field, IsField, encode_fields, with_fields, object_filters-encode_fields,
}
use virtual_yubihsm.Device.State.{Device, Objects}
use virtual_yubihsm.Device.Read.{list_objects, list_matching}

-- The id, the byte of the type and the sequence number of an object
abbrev pub Summary : Type 0
Summary = ℕ × ℕ × ℕ

-- Four bytes for each object
abbrev pub read_listing : List ℕ → List Summary
read_listing [] = []
read_listing (a ∷ []) = []
read_listing (a ∷ b ∷ []) = []
read_listing (a ∷ b ∷ t ∷ []) = []
read_listing (a ∷ b ∷ t ∷ s ∷ rest) = (from_be_bytes (a ∷ b ∷ []), t, s) ∷ read_listing rest

read_listing_cons :
    (id t s : ℕ) (rest : List ℕ)
    → IsU16 id
    → read_listing (to_be_bytes 2 id ++ (t ∷ s ∷ rest)) ≡ (id, t, s) ∷ read_listing rest
read_listing_cons id t s rest h =
    let same : from_be_bytes (to_be_bytes 2 id) ≡ id = omega (arith, h) in
    ap (λ i. (i, t, s) ∷ read_listing rest) same

module _ ⦃keys : Keys⦄ where
  abbrev pub summaries : Objects → List Summary
  summaries [] = []
  summaries ((key, object) ∷ objects) =
      (object.info.id, type_byte object.info.object_type, object.info.sequence) ∷ summaries objects

  -- What a session is to see of the store
  abbrev pub is_listed : SessionAuthorization → ObjectFilters → ObjectKey → ObjectRecord → Bool
  is_listed authorization filters key object =
      can_see authorization object.info && matches filters object.info

  abbrev pub HaveIds : Objects → Type 0
  HaveIds = All (λ (entry : ObjectKey × ObjectRecord). IsU16 entry.1.info.id)

  read_listing-list_matching :
      (authorization : SessionAuthorization) (filters : ObjectFilters) (objects : Objects)
      → HaveIds objects
      → read_listing (list_matching authorization filters objects)
        ≡ summaries (retain (is_listed authorization filters) objects)
  unfolding list_matching retain
  read_listing-list_matching authorization filters [] h = refl
  read_listing-list_matching authorization filters ((key, object) ∷ objects) h =
      let rest = read_listing-list_matching authorization filters objects h.1 in
      elim (Bool-cases (is_listed authorization filters key object)) [
        | inl listed ↦ rw listed (
            read_listing_cons object.info.id (type_byte object.info.object_type)
              object.info.sequence (list_matching authorization filters objects) h.0
            ∙ ap
                (λ l. (object.info.id, type_byte object.info.object_type, object.info.sequence) ∷ l)
                rest)
        | inr hidden ↦ rw hidden rest
      ]

  -- Whatever filters a client asks for, LIST OBJECTS answers, and what the client reads in groups of
  -- four bytes is the id, the type and the sequence number of just those objects of the store that
  -- the session sees and the filters match, in the order of the store; for filters in their bounds
  -- and objects with 16-bit ids.
  pub list_objects-encode_fields :
      (device : Device) (authorization : SessionAuthorization) (fields : List Field)
      → All IsField fields
      → HaveIds device.objects
      → (answer : List ℕ) × (list_objects device authorization (encode_fields fields) ≡ ok answer)
        × (read_listing answer
            ≡ summaries
                (retain (is_listed authorization (with_fields no_filters fields)) device.objects))
  unfolding list_objects
  list_objects-encode_fields device authorization fields h ids =
      let filters = with_fields no_filters fields in
      (
        list_matching authorization filters device.objects,
        rw (object_filters-encode_fields fields h) refl,
        read_listing-list_matching authorization filters device.objects ids,
      )
