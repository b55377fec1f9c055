-- ===== src/Lib.antt =====
-- The virtual YubiHSM: the core of a device that speaks the YubiHSM 2 protocol.
--
-- A request is a frame (a command byte, a two-byte length and a payload). The device parses it, drops
-- the sessions that were idle, and opens, authenticates or uses a session. A secure message is
-- decrypted to an inner frame; its payload is decoded into the request of the command, what the
-- session may do with the objects that the request names is checked, the handler runs, and the
-- command is recorded in the audit log. The parts and their files, each named after the source file
-- under crates/virtual-yubihsm-core/src:
--   Error.antt           error.rs: the error codes and the result of a fallible operation
--   Wire.antt            wire.rs: `Reader` (here the bytes that are left) and `decode`
--   Frame.antt           frame.rs: `Frame::parse`, `encode` and the replies
--   Firmware.antt        firmware.rs: the profiles of a build
--   Capability.antt      capability.rs: `CapabilitySet`, a bitmap of eight bytes
--   Algorithm.antt       algorithm.rs: the registry and the lengths of keys;
--                        Algorithm/Official.antt: the list `OFFICIAL`
--   Protocol.antt        protocol.rs: `CommandCode`; Protocol/Nested.antt: `SessionObjectCommand`
--   Object.antt          object.rs: `ObjectType`, `ObjectKey` and `ObjectInfo`; its children Material,
--                        Record and Stored: the key material, the record and its stored form
--   Authorization.antt   authorization.rs: what a session may do with an object
--   Request.antt         request.rs: the shapes of requests; Request/Keys.antt: the requests that
--                        use keys; Request/Filters.antt: the filters of LIST OBJECTS;
--                        Request/Nested.antt: the requests of session objects
--   Session.antt         session.rs: size tests and the message counter; Session/Secure.antt: the
--                        handshakes and the messages, with secure_channel_crypto.rs
--   SessionObject.antt   session_object.rs: the objects of a session and their handles
-- and of device.rs, under Device/:
--   Authorize, Options, Options/Read, Audit    `authorize_command_request`, the options, the audit log
--   State, Default, Store, Tables, Material    the state, ids and generations, tables and key material
--   Put, Put/Wrap, Use, Symmetric, Read        the handlers that make, use and show objects
--   Derivation                                 the nested commands on session objects
--   Wrapped, Wrap, Wrap/Rsa, Attestation       wrapped objects and certificates
--   Execute, Command                           `execute_inner_result`, `execute_inner_with_session`
--   Sessions, Messages, Entry                  the table of sessions, secure messages, entry points
--   Persist                                    what is saved
-- Prelude.antt and its children hold what the parts share: tests, lists, bytes, bits and
-- `OrderedMap`, which stands for BTreeMap. Device/Effects.antt is a relation between the device before
-- and after a command, and Device/Invariant.antt an invariant of the device. Tests.antt and its children are concrete runs.
--
-- A byte is a number below 256 and a slice a list of bytes; the widths are hypotheses (`IsByte`,
-- `IsU16`, `IsCapabilitySet`). Arithmetic that wraps in the source is written with its modulus, and
-- arithmetic that is checked or saturates with its test. `usize` has 64 bits. State is passed
-- explicitly: an operation that may change a part takes and returns that part's record, and a
-- handler that fails returns none, since no handler fails after its first change. The loop over
-- filters runs on fuel, the number of bytes of the request, and every filter takes at least one byte.
-- The loops that draw until they find a free id or handle take their draws from a list and fail where
-- it ends, as they do where the random source fails. Times are in seconds.
--
-- What the source takes from outside is an argument: Keys.antt has the keys of software-key-core and
-- what is read from them (`Keys`), and the build, the clock, the random source, the cryptography, CBOR,
-- DER and X.509 of one command (`Platform`). Not modelled: the bytes of the CBOR that serde makes of the
-- durable state, the hooks of a transport, persistent_runtime.rs, the USB and I2C transports, the
-- panel, and the qualification tool, most of which is I/O.
pub mod Prelude
pub mod Error
pub mod Wire
pub mod Frame
pub mod Firmware
pub mod Keys
pub mod Capability
pub mod Algorithm
pub mod Protocol
pub mod Object
pub mod Authorization
pub mod Request
pub mod Session
pub mod SessionObject
pub mod Device
pub mod Tests
