-- ===== src/Lib.antt =====
-- Svalin: a trust store that is kept as a signed chain of blocks, the certificates in it, the remote
-- calls that are permitted by a peer's certificate, and the groups in which members send messages.
--
-- A device or user is known by a certificate, whose name is the hash of its key (Certificate,
-- svalin_pki/src/certificate.rs). A certificate names its issuer, and a chain of certificates leads
-- from a leaf to the root (CertificateChain, svalin_pki/src/certificate_chain.rs). All parties keep
-- the same set of certificates (TrustStore, svalin_pki/src/trust_store.rs): a change is a
-- transaction in a block, which names the block before it and the digest of the state that results,
-- and is signed (SecureChain, svalin_pki/src/secure_chain.rs). A certificate that is shown is checked
-- by a verifier (Verifier, svalin_pki/src/verifier.rs and svalin_pki/src/verifier/), also that of the
-- signer of an object (SignedObject, svalin_pki/src/signed_object.rs and
-- svalin_pki/src/signed_message.rs). Calls are sessions on a transport of chunks (Rpc.Chunk,
-- svalin_rpc/src/transport/chunked_transport.rs). One side asks for a command (Rpc.Dispatch,
-- svalin_rpc/src/rpc/session.rs and svalin_rpc/src/rpc/command/dispatcher.rs); the other runs it after
-- a permission check (Rpc.Handler, svalin_rpc/src/rpc/command/handler.rs and
-- svalin_rpc/src/rpc/session.rs; Rpc.Permission, svalin/src/permissions and
-- svalin_rpc/src/permissions).
--
-- TransactionStore has the log of blocks of a client (svalin_store/src/trust_store_transaction_store.rs)
-- and of the server (svalin_store/src/server_store/trust_store_transaction_store.rs): the table is a
-- list of rows in the order of their keys, a sequence is stored as a signed number, and what a channel
-- holds is a list. A Party of Sync is a trust store with its log. Its operations are the functions that
-- change both: `apply_block` and the client's side of catching up
-- (svalin/src/shared/commands/update_trust_store.rs), opening (svalin/src/util/trust_store.rs), the
-- server's handler of blocks (svalin/src/message_streaming/with_client.rs) and the admission of a
-- certificate (svalin/src/client/add_agent.rs). Each returns its result and the party after it, also
-- when it fails. InStep relates the two halves of a party.
--
-- ClientStore is the state of the devices that a client keeps, in memory
-- (svalin_store/src/client_store/persistent.rs) and in its tables (svalin_store/src/client_store.rs).
-- ServerStore has the tables of the server (svalin_store/src/server_store): KeyPackages, Messages with
-- the subscribers that are handed new ones (Subscriptions), Users, and Sessions with the loader of chains
-- (svalin/src/server/chain_loader.rs). A database answers every statement or none: `answers`. An
-- error rolls a transaction back. The coding of values in the tables (postcard, DER) is a parameter
-- whose round trip is a hypothesis where a theorem needs it.
--
-- Devices and users send each other encrypted messages in groups (Mls, svalin_pki/src/mls), which the
-- library OpenMLS keeps: Mls.OpenMls has what the program calls of it, as a parameter over unknown
-- types. GroupId has the groups of the program and their names, KeyPackage the packages with which a
-- member can be added, Harness what each party checks of a change to a group, Transport the messages,
-- and Unpack how a member reads them.
-- The server keeps groups that it cannot read (PublicProcessor, Server); an agent and a client are
-- members (Processor, Creation, Agent, Client). A request to the task that owns a processor is a call
-- of it, and a Call returns a result and the processor after it, also when it fails. Errors are
-- merged into the one type MlsError. Retriever has the members that are required of a group, as the
-- server knows them (svalin/src/server/local_key_retriever.rs) and as a client asks for them
-- (svalin/src/remote_key_retriever.rs), with the checks of the server's answers
-- (svalin/src/shared/commands/load_certificate_chain.rs and
-- svalin/src/shared/commands/get_key_packages.rs).
-- Messaging takes a message of a member through Mls.Server into the message store and to the
-- subscribers (svalin/src/message_streaming/server.rs); the ids of stored messages, which the code
-- draws at random, are an argument. Messaging.Stream hands the stored and the new messages to one that
-- is connected (svalin/src/message_streaming/with_client.rs); what other tasks do between its loading
-- and its subscription is an argument, a function on the state of the server.
--
-- How the code is written here: a struct is a record and an enum a data type; a method that changes
-- its object returns the object after it. `Result` has a third constructor for a panic; where a
-- function cannot return an error, `none` is the panic. An SPKI hash and a digest are the number that
-- their bytes spell, which keeps equality and order. A `HashMap` is an association list of which only
-- the lookups are observed (HashMap). The clock is an argument. x509-parser, ring and sha2 are the
-- record Platform, a parameter: nothing is assumed of it but, where a theorem says so, that a
-- signature made with a key verifies under its public key. A hash is never assumed injective:
-- theorems on digests give a collision as the other outcome.
--
-- SecureChain.Interface is the contract between a chain and its state: the operations of the trait
-- `ChainState`, and the laws that a chain relies on, which TrustStore.Same and TrustStore.Laws
-- fill. TrustStore.Replica has the stores that parties reach from one root, by steps that check a
-- block and apply it.
--
-- Fuel: `complete_certificate_chain` loops until a root is reached. TrustStore.Store gives its loop one
-- round more than the store has entries, which is enough because each round adds a hash of the store
-- that was not met before. All other loops are structural.
--
-- Integers: block sequences wrap at 2^64; a chunk's length is a `u32` whose top bit marks the long
-- form. Timestamps of certificates are signed, and a conversion of a negative one panics.
--
-- Not modelled: the generation of certificates and keys, encryption and TLS (third-party calls),
-- the storage of message groups (sqlx_storage, a copy of a crate of OpenMLS, and
-- svalin_pki/src/mls/provider.rs, which passes calls on to it), the tasks and sockets of the agent,
-- client and server, the user interface, and svalin_pki/src/tbrhl, which the
-- crate does not include. The texts of error messages are left out. Two handlers of the server that
-- work on blocks at once can interleave between the check of a block, its storing and its applying; a
-- step of Sync is one whole handler.
pub mod Prelude
pub mod ClientStore
pub mod HashMap
pub mod Bytes
pub mod Mls
pub mod Retriever
pub mod Messaging
pub mod SignedObject
pub mod Platform
pub mod Certificate
pub mod CertificateChain
pub mod SecureChain
pub mod ServerStore
pub mod Sync
pub mod TransactionStore
pub mod TrustStore
pub mod Verifier
pub mod Rpc
pub mod Tests
