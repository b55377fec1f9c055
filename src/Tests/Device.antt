-- ===== src/Tests/Device.antt =====
-- The results on the device, applied to concrete keys and a device with its factory key.
use virtual_yubihsm.Prelude.{
  ℕ, zero, ◌+◌, ◌-◌, ◌≤◌, ◌<◌, ◌≡◌, ◌≢◌, ◌⊎◌, refl, sym, ap, subst, ◌∙◌, true, false, none, some,
  List, [], ◌∷◌, ◌++◌, length, replicate, take, take-append, length-append, length-replicate, inr,
  arith,
}
use virtual_yubihsm.Prelude.OrderedMap.{contains_key, get, insert, remove, retain, nat_order}
use virtual_yubihsm.Error.{ok, invalid_session}
use virtual_yubihsm.Frame.{Frame, encode, error}
use virtual_yubihsm.Firmware.{FirmwareProfile}
use virtual_yubihsm.Wire.{decode, read_u8, read_u16}
use virtual_yubihsm.Keys.{
  Keys, Platform, KeyKind, EcCurve, SoftwarePublicKey, MontgomeryCurve, MlKemParameterSet,
  HybridKemConstruction, valid,
}
use virtual_yubihsm.Protocol.{CommandCode, from_byte}
use virtual_yubihsm.Object.{ObjectType, ObjectInfo, key_order, key}
use virtual_yubihsm.Object.Material.{ObjectMaterial, symmetric}
use virtual_yubihsm.Object.Stored.{StoredObjectMaterial, to_stored}
use virtual_yubihsm.Object.Record.{ObjectRecord}
use virtual_yubihsm.Authorization.{require_visible}
use virtual_yubihsm.Request.{
  SessionEnvelopeRequest, session_envelope_request, id_remainder_request, object_key_request,
}
use virtual_yubihsm.Session.Secure.{SecureSession}
use virtual_yubihsm.Device.Authorize.{key_of, authorize_command_request}
use virtual_yubihsm.Device.Options.{valid_option_value}
use virtual_yubihsm.Device.Options.Read.{require_algorithm_enabled}
use virtual_yubihsm.Algorithm
use virtual_yubihsm.Device.Material.{object_secret}
use virtual_yubihsm.Device.Use.{enabled_object}
use virtual_yubihsm.Device.Audit.{fresh_audit}
use virtual_yubihsm.Device.State.{
  Device, DeviceConfig, SessionEntry, default_options, history_valid, factory_info, factory_record,
  install_factory_authentication_key,
}
use virtual_yubihsm.Device.Store.{resolve_id, id_in_use, available_id, random_available_id_with}
use virtual_yubihsm.Device.Store.Ids.{resolve_id_lem, random_available_id_with-finds}
use virtual_yubihsm.Device.Command.{execute_inner_with_session, execute_inner_result}
use virtual_yubihsm.Device.Execute.{
  run_command, supported_command_of, execute_plain_or_authenticated,
}
use virtual_yubihsm.SessionObject.{
  SessionObject, SessionObjectKind, SessionObjectMaterial, insert_object,
}
use virtual_yubihsm.SessionObject.Handles.{insert_object_lem}
use virtual_yubihsm.Device.Derivation.{extract_byte}
use virtual_yubihsm.Device.Derivation.Window.{window, extract_byte_lem}
use virtual_yubihsm.Request.Filters.{no_filters}
use virtual_yubihsm.Request.Filters.RoundTrip.{Field, of_type, encode_fields, with_fields}
use virtual_yubihsm.Device.Read.{list_objects}
use virtual_yubihsm.Device.Read.Listing.{
  HaveIds, list_objects-encode_fields, read_listing, summaries, is_listed,
}
use virtual_yubihsm.Device.Rights.Deleted.{MayDelete, execute_inner_with_session-MayDelete}
use virtual_yubihsm.Device.Rights.Kept.{KeepsRights, execute_inner_with_session-KeepsRights}
use virtual_yubihsm.Device.Sessions.{first_free, max_sessions, expire_inactive_sessions}
use virtual_yubihsm.Device.Messages.{session_message}
use virtual_yubihsm.Device.Entry.{handle_frame, handle_encoded}
use virtual_yubihsm.Device.Sessions.Closed.{session_message-ends, IsGone, Answered}
use virtual_yubihsm.Device.Sessions.Table.{first_free-finds, handle_frame-expired}
use virtual_yubihsm.Device.Sessions.Outside.{Untouched, handle_frame-Untouched}
use virtual_yubihsm.Device.Wrap.{wrap_data, unwrap_data, ccm_wrap_key, ccm_wrap}
use virtual_yubihsm.Device.Wrap.RoundTrip.{unwrap_data-wrap_data}
use virtual_yubihsm.Device.Persist.{
  persistent_state_schema, all_valid, PersistentState, persistent_state, from_persistent_state,
}
use virtual_yubihsm.Device.Persist.RoundTrip.{IsPersistable, from_persistent_state-persistent_state}
use virtual_yubihsm.Device.Invariant.{IsDevice, IsStore, install_factory_authentication_key-IsStore}
use virtual_yubihsm.Device.Invariant.Frames.{handle_encoded-IsDevice}
use virtual_yubihsm.Device.Rights.{Grows, execute_inner_with_session-Grows}
use virtual_yubihsm.Tests.{session, every_capability}

-- Every key is its bytes.
instance abbrev test_keys : Keys
test_keys = record {
  SigningKey = List ℕ;
  RsaKey = List ℕ;
  MlDsaKey = List ℕ;
  MontgomeryKey = List ℕ;
  MlKemKey = List ℕ;
  HybridKemKey = List ℕ;
  rsa_signing_key = λ k. k;
  as_rsa = λ k. none;
  ml_dsa_signing_key = λ k. k;
  as_ml_dsa = λ k. none;
  key_kind = λ k. KeyKind.ec EcCurve.p256;
  edwards_private_key_length = λ a. 0;
  serialized = λ k. some k;
  private_value = λ a. none;
  public_key = λ k. SoftwarePublicKey.ec k;
  to_pkcs8_der = λ a. none;
  from_pkcs8_der_for_kind = λ a b. none;
  from_serialized_for_kind = λ kind k. some k;
  rsa_crt_primes = λ a. none;
  restore_rsa_primes = λ a b c. none;
  from_rsa_primes = λ a b c. none;
  modulus_bits = λ a. 0;
  validate_for_import = λ k. valid k;
  validate_rsa_public_key = λ n e bits. valid tt;
  ml_dsa_from_serialized = λ a b. none;
  ml_dsa_expanded_length = λ a. 0;
  montgomery_curve = λ k. MontgomeryCurve.x25519;
  montgomery_serialized = λ a. [];
  montgomery_public_key = λ a. [];
  montgomery_from_serialized = λ a b. none;
  ml_kem_parameter_set = λ k. MlKemParameterSet.ml_kem512;
  ml_kem_serialized = λ a. [];
  ml_kem_public_key = λ a. [];
  ml_kem_from_serialized = λ a b. none;
  ml_kem_expanded_length = λ a. 0;
  ml_kem_ciphertext_length = λ a. 0;
  hybrid_construction = λ k. HybridKemConstruction.ml_kem768_p256;
  hybrid_seed = λ a. [];
  hybrid_public_key = λ a. none;
  hybrid_from_seed = λ a b. none;
  hybrid_ciphertext_length = λ a. 0;
}

abbrev platform : Platform
platform = record {
  profile = FirmwareProfile.full;
  now = 100;
  id_draws = 0 ∷ 1 ∷ 7 ∷ [];
  handle_draws = 9 ∷ [];
  fill = λ n. some (replicate n 5);
  generate_for_kind = λ kind. some (replicate 32 4);
  generate_ml_dsa = λ a. none;
  generate_montgomery = λ a. none;
  generate_ml_kem = λ a. none;
  generate_hybrid_kem = λ a. none;
  digest = λ hash m. replicate 32 0;
  hmac = λ a b c. none;
  x963_kdf = λ a b c d. none;
  cmac_counter_kdf = λ a b c. none;
  prehash_length = λ a. none;
  rsa_hash_output_length = λ a. 0;
  sign_rsa_pkcs1v15_digest = λ a b c. none;
  sign_rsa_pkcs1v15_payload = λ a b. none;
  sign_rsa_pss_digest = λ a b c d e. none;
  ec_curve = λ a. none;
  sign_ecdsa_der = λ a b c d. none;
  sign_message = λ a b c. none;
  sign_ml_dsa = λ a b c d e. none;
  ml_kem_encapsulate = λ a b. none;
  ml_kem_decapsulate = λ a b. none;
  hybrid_kem_encapsulate = λ a b. none;
  hybrid_kem_decapsulate = λ a b. none;
  montgomery_derive = λ a b. none;
  derive_with_signing_key = λ a b. none;
  decrypt_rsa_pkcs1v15 = λ a b. none;
  decrypt_rsa_oaep_digest = λ a b c d. none;
  encrypt_rsa_pkcs1v15 = λ a b. none;
  encrypt_rsa_oaep_digest = λ a b c d. none;
  validate_ec_public_key = λ k. true;
  wrap_aes_kwp = λ a b. none;
  unwrap_aes_kwp = λ a b. none;
  encrypt_aes_ccm = λ key nonce plaintext. some (plaintext ++ replicate 16 0);
  decrypt_aes_ccm = λ key nonce sealed. some (take (length sealed - 16) sealed);
  encrypt_aes_ecb = λ a b. none;
  decrypt_aes_ecb = λ a b. none;
  encrypt_aes_cbc = λ a b c. inr [];
  decrypt_aes_cbc = λ a b c. inr [];
  encrypt_aes_block = λ a b. inr [];
  aes_cmac = λ a b. inr [];
  encrypt_yubico_otp_aead = λ a b c. none;
  decrypt_yubico_otp_aead = λ a b c. none;
  pad_iso7816 = λ m. m;
  unpad_iso7816 = λ a. none;
  scp03_key = λ a b c. some (replicate 16 1);
  scp03_cryptogram = λ a b c. some (replicate 8 2);
  x963_kdf_sha256 = λ a b c. none;
  yubico_password_kdf = λ password. replicate 32 0;
  private_key_info_to_der = λ a. none;
  private_key_info_from_der = λ a. none;
  octet_string_to_der = λ a. none;
  octet_string_from_der = λ a. none;
  cbor_into_writer = λ a. none;
  cbor_from_reader = λ a. none;
  certificate_signer = λ k. ok tt;
  build_certificate = λ parts. ok [];
}

abbrev config : DeviceConfig
config = record {
  version = 2 ∷ 5 ∷ 0 ∷ [];
  serial = 12345678;
  log_capacity = 62;
  algorithms = 29 ∷ 30 ∷ 38 ∷ [];
  part_number = [];
}

abbrev wrap_info : ObjectInfo
wrap_info = record {
  capabilities = every_capability;
  id = 0x0102;
  length = 24;
  domains = 0x0002;
  object_type = ObjectType.wrap_key;
  algorithm = 29;
  sequence = 0;
  origin = 1;
  label = [];
  delegated_capabilities = every_capability;
}

abbrev blank : Device
blank = record {
  config = config;
  objects = [];
  sessions = [];
  device_static_private = replicate 32 3;
  state_epoch = 0;
  sequence_history = [];
  options = default_options;
  audit = fresh_audit;
  persistent_change = false;
}

abbrev factory : Device
factory = install_factory_authentication_key platform blank

abbrev secure : SecureSession
secure = record {
  sid = 2;
  s_enc = replicate 16 1;
  s_mac = replicate 16 1;
  s_rmac = replicate 16 1;
  counter = replicate 16 0;
  mac_chaining_value = replicate 16 0;
}

abbrev opened : SessionEntry
opened = record {
  authorization = session;
  secure = secure;
  expected_host_cryptogram = some (replicate 8 0);
  authenticated = false;
  last_activity = 60;
  objects = [];
}

abbrev in_session : Device
in_session = record factory { sessions = (2, opened) ∷ [] }

abbrev create_session_frame : Frame
create_session_frame = record { command = 3; payload = 0 ∷ 1 ∷ replicate 8 7 }

abbrev message_frame : Frame
message_frame = record { command = 5; payload = 2 ∷ replicate 24 0 }

abbrev envelope : SessionEnvelopeRequest
envelope = record { session_id = 2; body = replicate 24 0 }

factory-IsStore : IsStore factory.objects factory.sequence_history
factory-IsStore =
    install_factory_authentication_key-IsStore platform (λ password. refl) blank (tt, tt)

handle_encoded-IsDevice_example :
    IsDevice (handle_encoded platform factory (encode create_session_frame)).0
unfolding install_factory_authentication_key
handle_encoded-IsDevice_example =
    handle_encoded-IsDevice platform (λ password. refl) factory (encode create_session_frame)
      (factory-IsStore, (tt, tt))

-- PUT OPAQUE of three bytes
abbrev put_opaque_frame : Frame
put_opaque_frame = record {
  command = 0x42;
  payload = 0 ∷ 0 ∷ replicate 40 0 ++ 0 ∷ 1 ∷ replicate 8 0 ++ 30 ∷ 1 ∷ 2 ∷ 3 ∷ [];
}

not_reset : from_byte put_opaque_frame.command ≢ some CommandCode.reset_device
unfolding from_byte
not_reset e = cc

execute_inner_with_session-Grows_example :
    Grows session factory
      (execute_inner_with_session platform
        (record { device = factory; objects = some [] })
        session
        put_opaque_frame).0.device
execute_inner_with_session-Grows_example =
    execute_inner_with_session-Grows platform (record { device = factory; objects = some [] })
      session put_opaque_frame not_reset factory-IsStore

execute_inner_with_session-KeepsRights_example :
    KeepsRights factory
      (execute_inner_with_session platform
        (record { device = factory; objects = some [] })
        session
        put_opaque_frame).0.device
execute_inner_with_session-KeepsRights_example =
    execute_inner_with_session-KeepsRights platform (record { device = factory; objects = some [] })
      session put_opaque_frame not_reset factory-IsStore

-- Delete Object of the factory's authentication key
abbrev delete_frame : Frame
delete_frame = record { command = 0x58; payload = 0 ∷ 1 ∷ 2 ∷ [] }

delete_not_reset : from_byte delete_frame.command ≢ some CommandCode.reset_device
unfolding from_byte
delete_not_reset e = cc

holds_factory_key :
    get (key_of ObjectType.authentication_key 1) factory.objects ≡ some (factory_record platform)
unfolding get install_factory_authentication_key insert key
holds_factory_key = refl

deletes_factory_key :
    get
      (key_of ObjectType.authentication_key 1)
      (execute_inner_with_session platform
        (record { device = factory; objects = some [] })
        session
        delete_frame).0.device.objects
    ≡ none
unfolding execute_inner_with_session execute_inner_result authorize_command_request run_command
    supported_command_of execute_plain_or_authenticated install_factory_authentication_key
    object_key_request decode read_u8 read_u16 get insert remove from_byte
    virtual_yubihsm.Protocol.supported_by_firmware
    virtual_yubihsm.Device.Options.Read.command_is_meta
    virtual_yubihsm.Protocol.required_session_capability
    virtual_yubihsm.Device.Authorize.authorize_target virtual_yubihsm.Object.from_byte key
    virtual_yubihsm.Authorization.authorize_delete virtual_yubihsm.Capability.contains
    virtual_yubihsm.Object.deletion_capability virtual_yubihsm.Session.secure_response_data_fits
    virtual_yubihsm.Device.Options.Read.should_audit
deletes_factory_key = refl

execute_inner_with_session-MayDelete_example :
    MayDelete platform session delete_frame (key_of ObjectType.authentication_key 1) factory_info
execute_inner_with_session-MayDelete_example =
    execute_inner_with_session-MayDelete platform (record { device = factory; objects = some [] })
      session delete_frame (key_of ObjectType.authentication_key 1) (factory_record platform)
      delete_not_reset holds_factory_key deletes_factory_key

abbrev authentication_keys : List Field
authentication_keys = of_type ObjectType.authentication_key ∷ []

factory-HaveIds : HaveIds factory.objects
unfolding install_factory_authentication_key insert
factory-HaveIds = (omega arith, tt)

list_objects-encode_fields_example :
    (answer : List ℕ) × (list_objects factory session (encode_fields authentication_keys)
      ≡ ok answer)
    × (read_listing answer
        ≡ summaries (
            retain
              (is_listed session (with_fields no_filters authentication_keys))
              factory.objects))
list_objects-encode_fields_example =
    list_objects-encode_fields factory session authentication_keys (tt, tt) factory-HaveIds

not_message : from_byte create_session_frame.command ≢ some CommandCode.session_message
unfolding from_byte
not_message e = cc

handle_frame-Untouched_example :
    Untouched factory (handle_frame platform factory create_session_frame).0
handle_frame-Untouched_example =
    handle_frame-Untouched platform factory create_session_frame not_message

is_message : from_byte message_frame.command ≡ some CommandCode.session_message
unfolding from_byte
is_message = refl

reads_envelope : decode session_envelope_request message_frame.payload ≡ ok envelope
unfolding decode session_envelope_request read_u8
reads_envelope = refl

finds_session : get 2 in_session.sessions ≡ some opened
unfolding get
finds_session = refl

handle_frame-expired_example :
    handle_frame platform in_session message_frame
    ≡ (expire_inactive_sessions platform.now in_session, error invalid_session)
handle_frame-expired_example =
    handle_frame-expired platform in_session message_frame envelope opened (tt, tt) is_message
      reads_envelope finds_session (omega arith)

session_message-ends_example :
    IsGone platform 2 (session_message platform in_session message_frame)
    ⊎ Answered platform 2 opened message_frame (session_message platform in_session message_frame)
session_message-ends_example =
    session_message-ends platform in_session message_frame envelope opened reads_envelope
      finds_session

first_free-finds_example :
    (sid : ℕ) × (first_free in_session.sessions 0 max_sessions ≡ some sid)
    × (sid < 16)
    × (get sid in_session.sessions ≡ none)
first_free-finds_example = first_free-finds in_session.sessions (omega arith)

abbrev seven : ℕ
seven = 7

draws_seven : resolve_id factory.objects (0 ∷ 1 ∷ 7 ∷ []) ObjectType.opaque 0 ≡ ok 7
unfolding resolve_id install_factory_authentication_key insert key
draws_seven = refl

resolve_id_lem_example :
    (seven ≢ 0)
    × (seven ≢ 0xffff)
    × (get (key_of ObjectType.opaque 7) factory.objects ≡ none)
    × (zero ≢ 0 → seven ≡ 0)
resolve_id_lem_example =
    resolve_id_lem factory.objects (0 ∷ 1 ∷ 7 ∷ []) ObjectType.opaque 0 7 draws_seven

seven_free : available_id factory.objects 7 ≡ true
unfolding install_factory_authentication_key id_in_use insert key
seven_free = refl

random_available_id_with-finds_example :
    (found : ℕ) × (random_available_id_with factory.objects (0 ∷ 1 ∷ 7 ∷ 8 ∷ []) ≡ ok found)
    × (available_id factory.objects found ≡ true)
random_available_id_with-finds_example =
    random_available_id_with-finds factory.objects (0 ∷ 1 ∷ []) (8 ∷ []) 7 seven_free

abbrev wrap_record : ObjectRecord
wrap_record = record { info = wrap_info; material = ObjectMaterial.secret (replicate 16 1) }

abbrev with_wrap_key : Device
with_wrap_key = record blank {
  objects = (key_of ObjectType.wrap_key 0x0102, wrap_record) ∷ [];
  sequence_history = (0x0102, 0) ∷ [];
}

fill_length : (n : ℕ) (drawn : List ℕ) → platform.fill n ≡ some drawn → length drawn ≡ n
fill_length n drawn e =
    let equal : replicate n 5 ≡ drawn = cc in subst (λ d. length d ≡ n) equal (length-replicate n 5)

ccm_opens :
    (key nonce plaintext encrypted : List ℕ)
    → platform.encrypt_aes_ccm key nonce plaintext ≡ some encrypted
    → (16 ≤ length encrypted) × (platform.decrypt_aes_ccm key nonce encrypted ≡ some plaintext)
ccm_opens key nonce plaintext encrypted e =
    let sealed = plaintext ++ replicate 16 0 in
    let equal : sealed ≡ encrypted = cc in
    let size : length sealed ≡ length plaintext + 16 = length-append plaintext (replicate 16 0) in
    let inner : length sealed - 16 ≡ length plaintext = omega (arith, size) in
    subst (λ c. (16 ≤ length c) × (some (take (length c - 16) c) ≡ some plaintext)) equal
      (
        omega (arith, size),
        ap some (ap (λ n. take n sealed) inner ∙ take-append plaintext (replicate 16 0)),
      )

abbrev wrapped : List ℕ
wrapped = 1 ∷ replicate 13 5 ++ 8 ∷ 9 ∷ [] ++ replicate 16 0

wraps : wrap_data platform with_wrap_key session (1 ∷ 2 ∷ 8 ∷ 9 ∷ []) ≡ ok wrapped
unfolding wrap_data ccm_wrap_key ccm_wrap decode id_remainder_request read_u16 enabled_object get
    require_visible require_algorithm_enabled Algorithm.from_byte Algorithm.supported_by_firmware
    object_secret
wraps = refl

unwrap_data-wrap_data_example :
    unwrap_data platform with_wrap_key session (1 ∷ 2 ∷ wrapped) ≡ ok (8 ∷ 9 ∷ [])
unwrap_data-wrap_data_example =
    unwrap_data-wrap_data platform fill_length ccm_opens with_wrap_key session 1 2 (8 ∷ 9 ∷ [])
      wrapped wraps

abbrev saved : PersistentState
saved = record {
  schema = persistent_state_schema;
  version = 3;
  config = config;
  objects =
      record {
        info = factory_info;
        material = StoredObjectMaterial.authentication (symmetric (replicate 32 0));
      }
      ∷ [];
  device_static_private = replicate 32 3;
  state_epoch = 0;
  sequence_history = (1, 0) ∷ [];
  options = default_options;
  audit = fresh_audit;
}

saves : persistent_state factory ≡ ok saved
unfolding persistent_state install_factory_authentication_key insert to_stored
saves = refl

factory-IsPersistable : IsPersistable factory
unfolding install_factory_authentication_key all_valid history_valid valid_option_value insert
factory-IsPersistable = record {
  log_fits = refl;
  force_audit_valid = refl;
  fips_mode_valid = refl;
  command_audit_valid = refl;
  algorithm_toggle_valid = refl;
  ids_valid = refl;
}

from_persistent_state-persistent_state_example :
    from_persistent_state config saved
    ≡ ok (record factory { sessions = []; persistent_change = false })
unfolding install_factory_authentication_key insert
from_persistent_state-persistent_state_example =
    from_persistent_state-persistent_state factory saved factory-IsStore factory-IsPersistable
      (tt, tt) (λ encoded read. sym read) saves

extract_byte_lem_example : extract_byte (0xab ∷ 0xcd ∷ []) 12 ≡ window 0xcd 0xab 4
extract_byte_lem_example = extract_byte_lem (0xab ∷ 0xcd ∷ []) 12 (omega arith)

abbrev derived_secret : SessionObject
derived_secret = record {
  kind = SessionObjectKind.generic_secret;
  flags = 2;
  material = SessionObjectMaterial.secret_bytes (1 ∷ 2 ∷ []);
}

gets_nine : insert_object (0 ∷ 9 ∷ []) derived_secret [] ≡ some (9, (9, derived_secret) ∷ [])
unfolding insert_object insert contains_key
gets_nine = refl

abbrev nine : ℕ
nine = 9

insert_object_lem_example :
    (nine ≢ 0)
    × (get {V = SessionObject} nine [] ≡ none)
    × (get nine ((nine, derived_secret) ∷ []) ≡ some derived_secret)
    × ((other : ℕ)
        → other ≢ nine
        → get other ((nine, derived_secret) ∷ []) ≡ get {V = SessionObject} other [])
insert_object_lem_example =
    insert_object_lem (0 ∷ 9 ∷ []) derived_secret [] ((9, derived_secret) ∷ []) 9 gets_nine
