-- ===== src/Lib.antt =====
-- A verification library for go-svc-extn, a Go library of building blocks for services: page tokens,
-- encryption and signatures, password hashes, caches, JSON schemas, transactions, messaging, clients and
-- servers, and middlewares that log, validate and secure requests.
--
-- The program's parts, and the files that model them:
--   * Pagination: pkg/util/db/pagination_util.go (`ToPageToken`, `ParsePageToken`) and `Paginate` of
--     pkg/data/gorm.go. The query that gorm builds is the pair of its offset and its limit.
--   * Crypto/Symmetric: `GenerateAesKey`, `EncryptWithKey` and `DecryptWithKey` of
--     pkg/crypto/crypto_util.go; Crypto/Service: `CryptoUtil` of the same file, which makes aliases by a
--     hasher of Hash and encrypts by a handler of Crypto/Kms; Crypto/Kms: the two KMS clients and the
--     Tink handler of pkg/crypto/encdec, with a process that fills the registry in Kms/Registry; Crypto/Signature: pkg/crypto/api_signature_util.go, where
--     `VerifySignature` reads its headers, asks a caching provider for the secret, and compares.
--   * Hash: pkg/crypto/hash. Hash/Formats has the tests for the formats, Hash/Scan and Hash/Decode the
--     decoders (those of SHA, SSHA, Firebase and MD5 in Hash/Decode/Legacy), Hash/Salting the salting
--     formats, Hash/Compare the comparisons and `Compare`, Hash/Generate the five hashers.
--   * Cache: pkg/cache, the local and the remote cache behind the interface `Cache`. Cache/Spec is the map
--     that a cache stands for, Cache/Refine the refinement, Cache/Shared the constructors and the client
--     that a process makes once.
--   * Data: `InTx`, `DB` and `NewGorm` of pkg/data/gorm.go. Data/Database is what gorm and a database
--     promise, Data/Atomic is about one transaction, Data/Nested about one inside another.
--   * Messaging: pkg/messaging. Messaging/LogAdapter is watermill_log_adapter.go, Messaging/Consumer
--     nats/jetstream_consumer.go, with a process that makes, runs and closes consumers in
--     Consumer/Lifecycle; which connections are closed with a subscriber or a router is a parameter. And Messaging/Publisher nats/jetstream_publisher.go.
--   * HttpClient: pkg/util/http/http_client.go, which chains the injector of Security and the logger of
--     Logging; Service: pkg/extn/service.go; Chain: how Kratos chains middlewares.
--   * Logging: pkg/extn/middleware/logging.go with the options of gen/go/options/log_options.pb.go; a
--     protocol message is a tree of fields, lists and maps. Logging/Middleware is `logMiddleware`, which
--     redacts requests and replies by the former.
--   * Security: pkg/extn/middleware/security.go, the check of the headers and the correlation ids.
--   * Validation: pkg/extn/middleware/validate.go.
--   * JsonSchema: pkg/util/jsonschema, the loader, the validation of values and maps, and unique keys.
--   * IdGen: the base58 forms of numbers and UUIDs of pkg/util/idgen/id_generator.go.
--   * Base64, Strconv, Strings, Sscanf: what the parts above use of Go's standard library, with the round
--     trips that they rest on. Prelude: the names, the tests, lists, maps and results that all share.
--
-- Conventions. Functions keep the source's names, in snake case; methods carry their receiver's where
-- two would clash (`remote_get`, `generate_scrypt`). Strings and byte slices are lists of numbers, and
-- a theorem that needs bytes below 256 says so. An error is a value of the part's type `Error`; a panic is
-- a result of its own (Prelude/Outcome). State is passed: a handler, a store, a random source or a clock
-- takes a world and returns it. `int` is Prelude/Int, 64 bits with its wrap-around written out, and
-- conversions to narrower types are remainders. A Go map is an association list (Prelude/Maps).
--
-- Parameters. Packages that the repository only calls are records of functions, each with the
-- promises of its documentation that a theorem uses: the primitives of AES-GCM, SHA-256 and HMAC,
-- the key derivation functions, bcrypt and the crypt decoder, Tink, Valkey and Ristretto, the JSON
-- parser and the schema compiler, protovalidate, base58, gorm, NATS, Watermill and Kratos. The
-- tests fill them with small functions that keep the promises.
--
-- Loops are recursion on the list or the text. The one with fuel is `Strconv.digits`, which divides by
-- ten: fuel above the number is enough, as the round trip of `parse_uint` and `format_uint` shows.
--
-- Not modelled: generated registration code and the setters of generated messages. Time does not
-- pass in the stores, and connections to a database do not disturb one another. The message loop of
-- Watermill, the entries that the consumer and the publisher log, and the mutex around the keys of
-- a KMS client are left out. `strconv.Quote` is a parameter, since it needs the tables of Unicode.
pub mod Prelude
pub mod Base64
pub mod Strconv
pub mod Strings
pub mod Pagination
pub mod Crypto
pub mod Logging
pub mod Security
pub mod Sscanf
pub mod Hash
pub mod Cache
pub mod JsonSchema
pub mod Validation
pub mod IdGen
pub mod Data
pub mod Messaging
pub mod Chain
pub mod HttpClient
pub mod Service
