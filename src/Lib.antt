-- ===== src/Lib.antt =====
-- One-time passwords in Go: codes by counter (HOTP, RFC 4226) and by time (TOTP, RFC 6238), bound to
-- a context where the caller wants it, their verification, and a verifier that limits attempts and
-- refuses replays. Paths are those of the repository.
--
-- The parts, and the files that model them:
--   error.go: Errors, with Go's (value, error) results and run-time panics.
--   constant_time.go, and constTimeEqBytes of wasm/main.go: ConstantTime.
--   base32.go: Base32. `kept` is the first loop of DecodeBase32, `decode_loop` the second one, with
--     the destination as it stands when the loop ends.
--   algorithm.go, hashFuncFor of hotp.go, expectedHMACSize of secret_runtime.go: Algorithm.
--   secret_runtime.go, provider.go: Secret. A provider acts on a world that the caller chooses;
--     `wiped` is what overwriting the slice it returned does to that world.
--     `clear_static_secret` returns the array of the secret as the zeroing leaves it.
--   hotp.go: Otp (the message, dynamicTruncate, formatOTP) and Hotp (constructors and methods). The
--     message as the RFC has it is in Otp/Message.
--   totp.go: Totp. The clock's time is an argument.
--   context.go: Context. A context is built from a map of fields, written in the order of their keys.
--   migration.go: Wire (varints and fields of protocol buffers) and Migration (accounts, payloads). A
--     position in a slice is the rest behind it, and a slice beyond the end panics (`slice_at`); `field_loop` is the loop over the fields of both
--     kinds of message, `payload_field` and `account_field` their switches. Migration/Uri puts the
--     payload into a URI.
--   provisioning.go: Provisioning.
--   batch.go, helpers.go, key.go, metrics.go: Batch, Helpers, Key, Metrics.
--   builder.go, config.go: Builder.
--   wasm/main.go: Wasm, the exported functions from a decoded request to the reply.
--   Text: what these use of Go's strings, that is runes, TrimSpace, ToLower, Index and others.
--   skew.go: Skew, the detector that VerifyTracking consults. `add_sample` is the part of Record that
--     changes the ring buffer.
--   replay_store.go: Replay. Times are int64 nanoseconds as integers, the addition of the time to
--     live wraps, and the map is an association list.
--   verifier.go: Verifier, over any store of the interface ReplayStore. Its functions run a call as a
--     whole; Verifier/Sections cuts `verifyInner` at its locks, and Verifier/Interleaved lets
--     goroutines take these steps in any order. Verifier/Resumed follows one of them through whatever
--     the others do between its steps.
--   Base holds what the parts share, Tests the theorems at concrete inputs.
-- HOTP and TOTP compute a message, have the secret runtime or a provider compute its HMAC, truncate
-- it and print it; their verification compares with ConstantTime. The verifier compares a code with
-- an expected one and records it in a store.
--
-- Conventions: functions have the source's names in snake_case. A call that acts on a world returns
-- the result with the new world; a method that changes its receiver returns it. Integers are
-- natural numbers with the wrap-around of uint64 or uint32 written out where the source may wrap;
-- signed ones are ℤ. Loops are structural: VerifyWithResync runs `look_ahead + 1` rounds, Verify,
-- VerifyBound and VerifyTracking of TOTP `2 * window + 1`, the loop of formatOTP one for each digit,
-- and those over slices one for each element, so no fuel can run out. The loop over the fields of a
-- message has the length of the message as fuel, of which each field takes a byte or more. A varint
-- is written in at most ten rounds.
--
-- Parameters: crypto/hmac with its hashes (the record Hmac: a digest has the documented size and
-- consists of bytes), the providers, the store behind the verifier, the clock, the random source
-- (Key), the lower case of runes (Context), net/url and encoding/base64 (Migration/Uri, Wasm), and float64
-- (the record Float64 of Skew). VerifyTracking takes any detector; that of skew.go is
-- `Skew.skew_detector`.
--
-- Not modelled: running times, so of constant time only the answers; sync.Pool and the pooled hash
-- states, which are reset before each use, and thus what such a state keeps of a key after ClearSecret;
-- the failure of an allocation, as for a huge number of bits in GenerateSecret; interleavings inside the calls of the store and of the
-- skew detector, which hold one lock throughout; JSON and the buffers that wasm/main.go shares with
-- its host; and genotp-serverless/.
pub mod Base
pub mod Errors
pub mod ConstantTime
pub mod Base32
pub mod Algorithm
pub mod Secret
pub mod Otp
pub mod Text
pub mod Context
pub mod Hotp
pub mod Totp
pub mod Replay
pub mod Verifier
pub mod Skew
pub mod Provisioning
pub mod Wire
pub mod Migration
pub mod Batch
pub mod Metrics
pub mod Builder
pub mod Key
pub mod Helpers
pub mod Wasm
pub mod Tests
