-- ===== src/Device/Store/Ids.antt =====
-- crates/virtual-yubihsm-core/src/device.rs: the id of a new object is never taken and never
-- reserved, and the search for a random one ends as soon as a free id is drawn.
use virtual_yubihsm.Prelude.{
  ℕ, ◌≡◌, ◌≢◌, refl, true, false, none, List, [], ◌∷◌, ◌++◌, ◌==◌, inl, inr, Bool-cases, arith,
}
use virtual_yubihsm.Prelude.OrderedMap.{get, contains_key}
use virtual_yubihsm.Error.{ok}
use virtual_yubihsm.Keys.{Keys}
use virtual_yubihsm.Object.{ObjectType, key_order}
use virtual_yubihsm.Device.Authorize.{key_of}
use virtual_yubihsm.Device.State.{Objects}
use virtual_yubihsm.Device.Store.{id_in_use, available_id, random_available_id_with, resolve_id}

module _ ⦃keys : Keys⦄ where
  unused-get :
      (object_type : ObjectType) (id : ℕ) (objects : Objects)
      → id_in_use id objects ≡ false
      → get (key_of object_type id) objects ≡ none
  unfolding id_in_use get
  unused-get object_type id [] free = refl
  unused-get object_type id ((k, object) ∷ objects) free =
      ground (arith, unused-get object_type id objects)

  random-available :
      (objects : Objects) (draws : List ℕ) (id : ℕ)
      → random_available_id_with objects draws ≡ ok id
      → available_id objects id ≡ true
  unfolding random_available_id_with
  random-available objects [] id e = cc
  random-available objects (draw ∷ draws) id e = ground (arith, random-available objects draws id)

  available-free :
      (objects : Objects) (object_type : ObjectType) (id : ℕ)
      → available_id objects id ≡ true
      → (id ≢ 0) × (id ≢ 0xffff) × (get (key_of object_type id) objects ≡ none)
  available-free objects object_type id free =
      (ground arith, ground arith, unused-get object_type id objects (ground arith))

  -- The id that a new object gets is neither 0 nor 0xffff, and no object of its type has it, whether
  -- the request names the id or leaves it to the device; a request that names it gets just that id.
  pub resolve_id_lem :
      (objects : Objects) (draws : List ℕ) (object_type : ObjectType) (requested id : ℕ)
      → resolve_id objects draws object_type requested ≡ ok id
      → (id ≢ 0)
        × (id ≢ 0xffff)
        × (get (key_of object_type id) objects ≡ none)
        × (requested ≢ 0 → id ≡ requested)
  unfolding resolve_id contains_key
  resolve_id_lem objects draws object_type requested id e = elim (Bool-cases (requested == 0)) [
    | inl drawn ↦
        let free =
          available-free objects object_type id
            (random-available objects draws id (ground arith)) in
        (free.0, free.1, free.2, ground arith)
    | inr named ↦ (ground arith, ground arith, ground arith, ground arith)
  ]

  -- As soon as one of the draws is an available id, the search answers an available id, and does
  -- not fail.
  pub random_available_id_with-finds :
      (objects : Objects) (before after : List ℕ) (id : ℕ)
      → available_id objects id ≡ true
      → (found : ℕ) × (random_available_id_with objects (before ++ id ∷ after) ≡ ok found)
        × (available_id objects found ≡ true)
  unfolding random_available_id_with
  random_available_id_with-finds objects [] after id free = (id, ground arith, free)
  random_available_id_with-finds objects (draw ∷ before) after id free =
      elim (Bool-cases (available_id objects draw)) [
        | inl at_once ↦ rw at_once (draw, refl, at_once)
        | inr later ↦ rw later (random_available_id_with-finds objects before after id free)
      ]
