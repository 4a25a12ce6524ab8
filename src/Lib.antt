-- ===== src/Lib.antt =====
-- AttesTAM: a Trusted Application Manager for the TEEP Protocol, which attests devices, keeps the
-- SUIT manifests of the trusted components and sends agents the updates that they ask for.
--
-- The program's parts. An agent posts a TEEP message; internal/tam/tam.go authenticates it by the
-- key of its sender (internal/tam/keyring.go), finds the message that it answers by its token, asks
-- a verifier for the result of an attestation (internal/infra/rats), chooses manifests, and signs
-- the answer. A developer registers a manifest, which internal/server/handler.go verifies
-- (internal/suit/manifest.go) and internal/tam/manifest_repository_flow.go stores. All state is in
-- SQLite, behind the repositories of internal/infra/sqlite.
--
-- The files. A definition has the name of its Go function in the spelling used here.
--   Base, Text       what the modules share; package strings on ASCII text.
--   Model            the rows and errors of internal/domain and internal/tam/errors.go, and `Db`, the
--                    tables of createSchema in internal/infra/sqlite/database.go.
--   Exec             how Go code runs here: an action takes a `World` (database, clock, the bytes that
--                    crypto/rand will deliver, the faults that the driver will show) to a result and a
--                    world. Exec/Keeps is for invariants, Exec/Gives for what a success means,
--                    Exec/Atomic for calls that do all or nothing, Exec/Tells for calls that read.
--   Sqlite           a module for each repository of internal/infra/sqlite; Sqlite/Stable and
--                    Sqlite/Frames say which predicates the writes of a session keep.
--   Teep             internal/tam/teep_message.go and the report of internal/suit/report.go.
--   Rats             internal/infra/rats: Backend (the choice of a verifier), Claims, Quote, Qvl (Intel's
--                    results), Client and Response (verifier_client.go, attest_response.go), and
--                    Results, the chains of calls that return a value or an error.
--   Rats/Intel       the Intel QVL verifier: Chain and Certificates (the certificates of a quote), Pcs
--                    (Intel's service), NextUpdate and Cache (intel_qvl_collateral.go), Verifier.
--   Tam              internal/tam: Library (what is imported), Bundle (sgx_quote_bundle.go), Keyring,
--                    Sent, Authenticate, Attest, Update and Resolve (the parts of tam.go), Repository
--                    (manifest_repository_flow.go), Status (agent_status.go), Resolver (the verifiers
--                    that newVerifierResolver of tam.go makes), Construct (the constructors).
--   Suit             internal/suit/manifest.go: envelopes and their verification.
--   Server           internal/server/handler.go: the handlers, registration and the routes.
--                    Server/Start is internal/server/server.go and cmd/attestam/main.go.
--   Config           internal/config, and the flags and the environment of cmd/attestam/main.go.
--   Demo             internal/demo: the fixed data and the seeding, which Tam/Seed calls as tam.go does.
--   Console          cmd/admin-console: the requests to the TAM, the cache of devices, the handlers.
--   Tam/System       the requests as steps on databases, and what is reachable by them.
--   Tests            a small library of functions, databases, and the theorems applied to them.
--
-- Assumptions. One SQL statement runs whole or fails and changes nothing; which ones fail is
-- arbitrary, and BeginTx and Commit may fail as well. Requests run one after another. Row ids grow by one and rows are never deleted. UNIQUE
-- constraints are checked, foreign keys are not. Times are nanoseconds since year 1. The texts that
-- are compared without case are ASCII. CBOR, COSE, EAT, SHA-384, the verifiers and the keys are the
-- records `Library` and `SuitLibrary`, and net/http, encoding/json, encoding/pem, crypto/x509 and
-- Intel's C library are the records `ClientLibrary`, `ResponseLibrary` and `IntelLibrary`, about which
-- nothing is assumed but what a theorem names. A server's answer depends on the request alone.
--
-- Loops. Loops over lists are recursions on them; the loops of GenerateUniqueToken and
-- GenerateUniqueChallenge use up one output of crypto/rand in each round and fail when there is none
-- left, which is how rand.Read fails. The loops over the PEM blocks of a certificate chain have its
-- length and one more as fuel, which is enough if pem.Decode leaves less than it was given.
--
-- Not modelled: the listener, the C code behind the Intel QVL verifier, the logs, the rendering of
-- values for people, and the HTML and JSON of the admin console.
pub mod Base
pub mod Text
pub mod Model
pub mod Exec
pub mod Sqlite
pub mod Teep
pub mod Rats
pub mod Tam
pub mod Suit
pub mod Config
pub mod Demo
pub mod Server
pub mod Console
pub mod Tests
