-- ===== src/SessionObject/Handles.antt =====
-- The handles of a session's objects: never 0, never given twice, and 64 at most.
use virtual_yubihsm.Prelude.{
  ℕ, ◌+◌, ◌≤◌, ◌≡◌, ◌≢◌, false, none, some, List, [], ◌∷◌, length, All, ◌==◌, ==_iff, ==_self,
  arith,
}
use virtual_yubihsm.Prelude.OrderedMap.{
  get, insert, remove, contains_key, nat_order, get-insert, length-insert-le, length-remove-le,
}
use virtual_yubihsm.Prelude.OrderedMap.All.{All-insert, All-remove}
use virtual_yubihsm.Keys.{Keys}
use virtual_yubihsm.SessionObject.{
  SessionObject, SessionObjects, max_session_objects, draw_handle, insert_object,
}

module _ ⦃keys : Keys⦄ where
  abbrev pub IsHandle : ℕ × SessionObject → Type 0
  IsHandle (handle, object) = (handle == 0) ≡ false

  abbrev pub AreObjects : SessionObjects → Type 0
  AreObjects objects = (length objects ≤ max_session_objects) × All IsHandle objects

  draw_handle-free :
      (objects : SessionObjects) (draws : List ℕ) (handle : ℕ)
      → draw_handle objects draws ≡ some handle
      → ((handle == 0) ≡ false) × (contains_key handle objects ≡ false)
  unfolding draw_handle
  draw_handle-free objects [] handle e = cc
  draw_handle-free objects (first ∷ draws) handle e =
      ground (arith, draw_handle-free objects draws handle)

  -- What the object is inserted into is below the limit.
  insert_object-eq_some :
      (draws : List ℕ) (object : SessionObject) (objects updated : SessionObjects) (handle : ℕ)
      → insert_object draws object objects ≡ some (handle, updated)
      → (length objects + 1 ≤ max_session_objects)
        × (draw_handle objects draws ≡ some handle)
        × (updated ≡ insert handle object objects)
  unfolding insert_object
  insert_object-eq_some draws object objects updated handle e = ground arith

  pub insert_object-AreObjects :
      (draws : List ℕ) (object : SessionObject) (objects updated : SessionObjects) (handle : ℕ)
      → insert_object draws object objects ≡ some (handle, updated)
      → AreObjects objects
      → AreObjects updated
  insert_object-AreObjects draws object objects updated handle e h =
      let facts = insert_object-eq_some draws object objects updated handle e in
      let free = draw_handle-free objects draws handle facts.1 in
      rw facts.2 (
        omega (arith, length-insert-le handle object objects, facts.0),
        All-insert IsHandle handle object objects free.0 h.1,
      )

  pub remove-AreObjects :
      (handle : ℕ) (objects : SessionObjects)
      → AreObjects objects
      → AreObjects (remove handle objects)
  remove-AreObjects handle objects h =
      (omega (arith, length-remove-le handle objects, h.0), All-remove IsHandle handle objects h.1)

  missing :
      (handle : ℕ) (objects : SessionObjects)
      → contains_key handle objects ≡ false
      → get handle objects ≡ none
  unfolding contains_key
  missing handle objects h = ground arith

  -- An object that a session gains gets a handle that is not 0 and was not in use; it is found under
  -- it, and every other handle keeps its object.
  pub insert_object_lem :
      (draws : List ℕ) (object : SessionObject) (objects updated : SessionObjects) (handle : ℕ)
      → insert_object draws object objects ≡ some (handle, updated)
      → (handle ≢ 0)
        × (get handle objects ≡ none)
        × (get handle updated ≡ some object)
        × ((other : ℕ) → other ≢ handle → get other updated ≡ get other objects)
  insert_object_lem draws object objects updated handle e =
      let facts = insert_object-eq_some draws object objects updated handle e in
      let free = draw_handle-free objects draws handle facts.1 in
      let not_in : contains_key handle objects ≡ false = free.1 in
      (
        ground (arith, free.0),
        missing handle objects not_in,
        rw facts.2 (ground (arith, get-insert handle handle object objects, ==_self handle)),
        λ other apart.
            rw facts.2
              (ground (arith, get-insert handle other object objects, ==_iff handle other)),
      )
