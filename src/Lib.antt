-- ===== src/Lib.antt =====
-- BIND-19, the transport binding of the CI-144 protocol family: a frame of 8 bytes of header, an
-- optional PFP of 4 bytes (what is physically the case), an optional SAP of 28 bytes (sequence
-- counter, PAH hash, truncated signature) and a payload.
--
-- The parts and their models. Paths are from the root of the repository.
--   src/pfp.rs           Pfp: enums (Pfp/Enums), codec, rules 1 and 6 on a header; Pfp/Codec.
--   src/sap.rs           Sap: codec, version and protocol tests, sequence counter; Sap/Codec.
--   src/config.rs        Config: the debug mode, the global configuration; Config/Rules.
--   src/frame.rs         Frame/Header: frame types and header. Frame: `new`, `encode`, `decode`, risk
--                        level, replay bit; Frame/Display: the texts of the errors. Frame/WellFormed,
--                        Frame/RoundTrip, Frame/Steps, Frame/Decode, Frame/Reject, Frame/Bytes and
--                        Frame/Wire (frames as a receiver can tell them apart, as a
--                        quotient) hold the proofs.
--   src/rotation.rs      Rotation: payload and state machine; Rotation/Display: the texts of the
--                        errors. Rotation/Payload, Rotation/Invariant, Rotation/Graph,
--                        Rotation/Timeouts and Rotation/Resolve hold the proofs.
--   src/replay_cache.rs  ReplayCache; ReplayCache/Map is the interface of the map that it stands on,
--                        ReplayCache/AssocMap an instance. ReplayCache/Check, ReplayCache/Trace,
--                        ReplayCache/Honest, ReplayCache/Isolation and ReplayCache/Expiry hold the
--                        proofs; ReplayCache/Refine has the table that the cache refines,
--                        ReplayCache/Race is two calls at once for one source, and
--                        ReplayCache/Crowd any calls at once at the capacity; in
--                        ReplayCache/Threads each thread makes any number of calls.
--   src/processor.rs     Processor, over Frame and ReplayCache; Processor/Sources, Processor/Replay,
--                        Processor/Renew and Processor/Levels hold the proofs.
--   src/catastrophic.rs  Catastrophic: events, hash-chained audit log, event bus, manager; proofs in
--                        Catastrophic/Chain, Rotate, Tamper, Hash, Manager, Bus and Iter. The
--                        channel of the event bus is Catastrophic/Channel; Catastrophic/Clones is two
--                        clones of a manager in two threads, with the proof in Clones/Agree.
--   src/crypto.rs        Crypto, over the interface Crypto/Dalek; Crypto/Layers.
--   examples/tuck_integration.rs
--                        Tuck: the gate that puts the manager of Catastrophic before a Processor;
--                        proofs in Tuck/Decide, Tuck/Override, Tuck/Replay and Tuck/Wire;
--                        Tuck/Scenarios is its `main`.
--   examples/generate_test_vectors.rs
--                        Vectors/Encoded and Vectors/Answers: the vectors as records; Vectors/Hex;
--                        proofs in Vectors/Codecs and Vectors/Frames.
--   tests/vector_manifest.rs
--                        Manifest/Waivers: the waiver file, with its form in Waivers/File and the
--                        proofs in Waivers/Block, Waivers/Reads and Waivers/Dated. Manifest/Ids: the check that
--                        every declared vector is exercised; Ids/Tokens, Ids/Sources,
--                        Ids/Found, Ids/Category and Ids/Cover.
--                        Manifest/Goldens: the other checks; Goldens/Sound. Manifest/Walk:
--                        the walk over the sources; Walk/Finds. Manifest/Text has the
--                        calls of the standard library on texts.
--   tests/vector_pfp_codec.rs, tests/vector_sap_codec.rs
--                        Manifest/Loaders, Loaders/Pfp and Loaders/Sap; proofs in
--                        Loaders/Loads, Names, PfpVectors, SapVectors, Golden and Distinct; Loaders/Generated
--                        puts the generator before the loaders (PfpGenerated, SapGenerated), and
--                        Loaders/Recorded compares with the golden file.
--   examples/basic_frame.rs, examples/replay_protection.rs
--                        Demo/BasicFrame and Demo/ReplayProtection.
-- Common and its modules hold what the parts share: tests on numbers, lists measured by native
-- numbers, results, bytes and bit masks. Each part's UnitTests module, where the source has unit
-- tests, has them as types, which are inhabited if the test passes; its Examples module has further
-- runs and applies the results at concrete inputs.
--
-- How code becomes definitions. A method that changes its receiver is a function that returns the
-- changed state along with its answer; `Result` is a type with a third outcome, `panic`, for a slice
-- out of range and for the `unwrap` of a missing value. Bytes and machine words are natural numbers;
-- casts and `wrapping_add` are remainders by a power of 2, and a fixed array is a list whose length
-- is a hypothesis where a result needs it. The counters of 64 bits in the audit log are not cut: they
-- count events. Recursion is on lists, but for `iter` of the event receiver, which takes a bound on
-- the number of its steps: one more than there are events in the channel is enough, and for the walk
-- over the directory of the tests: as many rounds as there are directories are enough.
--
-- What the models take as arguments: the concurrent map of the crate `dashmap` (ReplayCache/Map), the
-- hash of the crate `sha2`, the signatures of the crate `ed25519_dalek` (Crypto/Dalek) and the key
-- that its generator makes, the time of a call, what happens first while `recv_timeout` waits, and
-- the environment variable of the debug mode. The clock of the replay cache is any number per call;
-- an entry's age stops at 0, as `Instant::elapsed` does. The files that the checks of the test
-- vectors read are arguments, and so is what the crate `serde_json` makes of them. A text is the list
-- of its code points. A set of texts is a list in the order of insertion, where the source has the
-- alphabetical order: the checks ask only what is in it and whether it is empty.
--
-- Calls on the replay cache are modelled one after another, except in ReplayCache/Race, where the
-- steps of two calls of `check_and_update` for one source come in any order, below the capacity, and
-- in ReplayCache/Crowd and ReplayCache/Threads, where those of any calls do, with the step of a known source undivided. Calls
-- on the manager come one after another, except in Catastrophic/Clones. A call of `recv` that blocks
-- has no result.
--
-- Not modelled: getters that are fields of the records, the warning banner of the debug mode, the
-- derived `Debug` output but for the names in the PFP vectors, the JSON texts and the file of the
-- test vectors, the text that the examples print, the messages of failed checks, the benchmark, the
-- integration tests, and five unit tests: those of threads, those with a payload of 64 MB, and that
-- of the name of the environment variable.
pub mod Common
pub mod Pfp
pub mod Sap
pub mod Config
pub mod Frame
pub mod Rotation
pub mod ReplayCache
pub mod Processor
pub mod Catastrophic
pub mod Crypto
pub mod Tuck
pub mod Vectors
pub mod Manifest
pub mod Demo
