-- ===== src/Lib.antt =====
-- Trino-core: the protocol and cryptography core of a chat program, in Rust under src/.
--
-- A peer publishes a bundle of public keys (src/identity.rs), another peer makes a handshake from
-- it (src/x3dh.rs), and the master secret and the signed prekey of the handshake seed a double
-- ratchet (src/ratchet.rs), which encrypts and decrypts messages in whatever order they arrive. What a
-- message holds is an envelope (src/envelope.rs), of a call among others (src/call_signal.rs). Groups
-- (src/group.rs) are rosters that an admin signs and members check. An identity is kept in a vault
-- (src/vault.rs) that a passphrase and a one-time code (src/totp.rs) open. All of it stands on
-- wrappers around third-party ciphers (src/crypto.rs).
--
-- Prelude      Boolean tests, lists over native numbers, byte strings, association lists for maps
--              keyed by strings, Rust's Result, state passing (Action), i64 addition and subtraction
--              with their wrap-around, decimal and big-endian numbers.
-- Primitives   The third-party crates, as a record of functions; what their documentation promises
--              is a record of laws for each. The random generator is the sequence of bytes that it
--              will hand out, and is passed through every function that draws from it.
-- Crypto       src/crypto.rs: the wrappers, with their length checks and errors.
-- Identity     src/identity.rs. Keys: key pairs, signatures, x25519_derive_shared with its random
--              fallback, decode_array_32 and decode_array_64. Prekeys: signed_prekey_by_id,
--              rotate_signed_prekey_if_due as rotate (the outgoing key is retired) and expire (the
--              retain call), consume_one_time_prekey. Bundle: public_bundle_for, verify_bundle,
--              verify_bundle_binding. Creation and Lifetime are about create_identity and
--              what becomes of an identity.
-- X3dh         src/x3dh.rs: initiate and respond. respond is a function on the identity and the
--              random bytes, since it consumes a one-time prekey. Agreement is about the handshake,
--              OneTime about one with a one-time prekey, Exchange about the handshake and the first
--              messages of the ratchet after it, Opening about the conversation that it opens.
-- Ratchet      src/ratchet.rs. State: the records, kdf_rk and kdf_ck, the header encoding, the two
--              ways to begin. Store: the skipped keys, a map with an order list beside it, and its
--              eviction. Cipher: sealing and opening one message. Session: ratchet_encrypt,
--              ratchet_decrypt with its rollback, skip_message_keys, dh_ratchet_step. The blocks of
--              ratchet_decrypt_inner are enter_chain, receive_next and receive_step. Chain, Delivery,
--              Burst, AnyOrder and Once are about one chain, Turn and Begin about the step to a new one,
--              Outcome, Missing and Refusal about errors, Invariant and Reachable about all states.
--              Conversation is a step
--              relation (Reaches) of two sessions and of what is on its way between them: they send,
--              receive in any order, and refuse what others hand them. Lead is the invariant, by
--              which one side is ahead with a key the other has not seen. Frame, View, Deliver and
--              Skip are about a receiver on one chain, Enter and NewChain about its step to the
--              next; Flight is about what is on its way. SendFrame, SendParts and Send keep the
--              invariant in sending, ReceiveFrame, ReceiveHeld, ReceiveNew and Receive in
--              receiving; Begin establishes it, Invariant puts these together, and Arrival is
--              what follows.
-- Group        src/group.rs. Roster: the records, roster_signing_bytes over JSON values, and
--              validate_roster with its checks in order. Group itself: sign_unsigned and the changes
--              that the admin makes, accept_roster_update and evaluate_incoming_roster. Changes,
--              Honest and Permitted are about the admin's changes, Incoming and Convergence about rosters
--              that arrive. Group/Serde is how serde writes and reads the records inside envelopes.
--              serde_json's printer is a parameter.
-- Vault        src/vault.rs. File: encode_vault and decode_vault, the bytes of a vault file. Serial:
--              the serialized records, serialize_identity, deserialize_identity and
--              legacy_retired_at. Seal: seal_vault and unseal_vault. The text of the JSON between
--              records and bytes is a parameter (PayloadCodec).
-- Totp         src/totp.rs: codes, their check against the clock, base32 and the URI. HMAC-SHA1 and
--              the present time are parameters. Inputs are lists of characters where the code goes
--              through characters, and bytes where it goes through bytes.
-- Serde        JSON values, and fields read and written by their serde attributes. A struct in
--              an array is read by a parameter.
-- Envelope     src/envelope.rs: what is inside a ratchet message. The text layer of serde_json is a
--              parameter.
-- CallSignal   src/call_signal.rs: the check of the payload of a call envelope.
-- Tests        A toy instance of the third-party functions that meets all laws, and runs of the
--              theorems on it.
--
-- Numbers of u32 keep their wrap-around where the code adds to them. The loop of skip_message_keys
-- is recursion on the rounds that are left, at most 1000, so it needs no fuel; the loop of
-- evict_oldest_skipped_keys is recursion on the order list, from which every round takes one. The
-- loop of generate_nostr_keypair draws until a key is accepted, and runs on fuel, of which one more
-- than the draws that are not accepted is enough. A conversation has at most 1000 messages on their way
-- in either direction, lost ones included, since a receiver skips at most 1000 (MAX_SKIP).
--
-- Not modelled: the serde forms of the records, Drop and Debug, and src/lib.rs, which
-- only names the modules.
pub mod Prelude
pub mod Primitives
pub mod Serde
pub mod Crypto
pub mod Identity
pub mod Ratchet
pub mod X3dh
pub mod Group
pub mod Vault
pub mod Totp
pub mod CallSignal
pub mod Envelope
pub mod Tests
