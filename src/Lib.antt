-- ===== src/Lib.antt =====
-- omemo-go, an OMEMO library for XMPP in Go: the state machine of its Manager, its storage
-- contract with the in-memory store, and its seam to the cryptographic library.
--
-- The Manager (manager.go) keeps no message state of its own. It reads and writes a Store
-- (store.go), asks a Transport (transport.go) for bundles and device lists, a TrustResolver
-- (errors.go) for trust decisions, and internal/signal/signal.go for X3DH, ratchets and payload
-- ciphers; memstore/memstore.go is the Store of the repository. Every call runs in a world of
-- any type `W`: a call that may fail is an `Exec W A`, which returns a `Result A` and the world
-- after it, so that what was changed before an error stays changed.
--
-- - Base, with Base/Equality, Base/Lists and Base/GoMap: names that all modules share, Go's `==`
--   on keys, Go's maps as association lists.
-- - Types and Errors: types.go, envelope.go, the records of store.go, and errors.go, with the
--   text of a DeviceError in Errors/Text. A nil slice and an empty slice differ, so a Go slice
--   of bytes is an `Option` of a list. A text in front of `%w` is a constructor of `Context`.
-- - Exec: calls, their sequence, and the wrapping of errors; Exec/Steps reads a run backwards.
-- - Store: the interfaces Store, Transport and TrustResolver as records of calls. Store/View is
--   the abstract content of a store, with the abstract method for each method; Store/Contract
--   says when a store implements them, any method being allowed to fail without an effect;
--   Store/Keeps says what a call may change, and Store/Reliable which methods do not fail in a
--   store that a receiver can rely on.
-- - Memstore: the struct of memstore.go and each of its methods, as functions on the struct,
--   since each holds the mutex for its whole body. Memstore/Interface is the value of the
--   interface, Memstore/Validity the invariant of the maps, Memstore/Refines the implementation
--   of the contract but for `PreKeyCount`, `PreKeys`, `NextPreKeyID` and `PutPreKeys`,
--   Memstore/Pool the one-time prekeys, Memstore/Listing the listing and the count of the pool,
--   Memstore/Ids the ids that `NextPreKeyID` hands out, Memstore/Reliable that its methods do
--   not fail where a receiver relies on them.
-- - Signal: signal.go. Signal/Library is the parameter for the code outside of the repository,
--   crypto/ecdh, crypto/ed25519 and the packages x3dh, doubleratchet, legacysignal and
--   xochimilco; what its serialisation has to promise is a hypothesis where a theorem needs it.
--   Signal/Session, Signal/Keys and Signal/Payload have the functions, Signal/Roundtrip the
--   serialised session; Signal/Agreement is what the two ends of the library promise each other
--   under ProtocolV2, for identity keys whose public half is that of their seed.
-- - Manager: manager.go. Manager/Locks has `deviceLock` and the mutexes, with the table of
--   mutexes in Manager/Locks/Unique, code that leaves the table alone in Manager/Locks/Apart,
--   and the release of every mutex in Manager/Locks/Balanced; Manager/Concurrent has the
--   goroutines on one Manager, as a step relation in which they interleave where
--   `encryptForDevice`, `ResetSession` and `DecryptMessage` ask for a mutex, lock it, write what
--   the store has for its device, and unlock it (Manager/Concurrent/Guarded takes the bracket of
--   a lock to such steps, and Manager/Concurrent/Refines each of the three calls); Manager/State
--   the struct and the bracket of a lock, Manager/Setup `NewManager` and `InitIdentity` with its
--   effect on a new store in Manager/Setup/Fresh, Manager/Prekeys `Bundle`, `PublishBundle`,
--   `RotateSignedPreKey`, `GenerateOneTimePreKeys` and `NeedsMorePreKeys`, with what a store can
--   answer for in Manager/Prekeys/Published and Manager/Prekeys/Grace, Manager/Devices
--   `SyncDevices`, `devicesFor` and `recipientDevices`, Manager/Trust `checkTrust`,
--   Manager/Outgoing the session for one recipient device with `encryptForDevice` and
--   `ResetSession`, Manager/Encrypt the loop over the recipients, Manager/Incoming
--   `DecryptMessage`. Manager/Delivery puts a sender and a receiver together, from
--   `EncryptMessage` to `DecryptMessage`. Manager/Sound gathers what the theorems assume of a
--   manager: its store is lawful, and the library, the transport, the resolver and the table of
--   locks leave the content of the store alone.
-- - Tests: a small world with toy cryptography and the in-memory store, in which each theorem is
--   applied to a run.
--
-- Loops run over a list, or over the number of rounds that is left, so no fuel is needed. An id
-- of prekeys is reduced modulo 2 ^ 32 where the code adds to it. A context.Context is not
-- modelled: cancellation is one of the errors that an external call returns. Not modelled
-- either: the texts of errors other than DeviceError, the tests, and the interoperation bridge
-- under devtest.
pub mod Base
pub mod Types
pub mod Errors
pub mod Exec
pub mod Store
pub mod Memstore
pub mod Signal
pub mod Manager
pub mod Tests
