-- ===== src/Lib.antt =====
-- Night Drop is a messenger without accounts: an app whose core (core/) talks to peers over onion
-- services, and relays (relay/) that keep sealed blobs for peers who are offline. This library models
-- the parts of the Rust code that hold its own logic.
--
-- Relay: core/src/relay_client/mod.rs, the relay's store and the requests on it.
--   Relay.Types has the data (`Request`, `Response`, `Stored`, `StoreInner`, `RelayLimits`),
--   Relay.Budget the byte budget of one response and the loop that fills it (`TakeBudget`), Relay.Store
--   `drain_handle_bounded`, Relay.Post the `Post` branch of `process`, Relay.Process its other branches
--   and `process` itself, Relay.Reaper the sweep of `spawn_reaper`, Relay.Persist `serialize_store` and
--   `load_store`, Relay.Flush the two critical sections of `do_flush`, and Relay.Core `handle_line` and
--   the interleavings of request threads, the reaper and the flusher as a step relation on the store,
--   the file and the snapshot being written. A mutex makes each critical section one step, and the
--   writer's mutex lets one write run at a time. Relay.Taken says what a draining request takes, seen
--   on queues alone, and Relay.Refined states the service that the relay offers without its limits,
--   counters and maps.
-- Wire: core/src/wire/mod.rs, the frames between peers, their padding and their encoding.
-- Limits: core/src/node/limits.rs, what one contact may send in a day, and the cut of a long text.
-- Lock: core/src/storage/lock.rs, the passphrase and the duress secret over the store key, and the wait
--   after wrong attempts; with `seal` and `open` of core/src/storage/mod.rs.
-- Mailbox: core/src/node/mailbox.rs, the mailboxes that two contacts agree on and poll on the relays.
--   Mailbox has the pair (`MailboxPair`), its persisted form, its secret and its handles, Mailbox.Payload
--   the plaintext of a `MailboxKey` frame, Mailbox.Epochs the days polled and retired, Mailbox.State a
--   chat and a node as far as these operations read and change them, Mailbox.Agree `send_mailbox_key`
--   and `on_mailbox_key` on one chat, Mailbox.Polling `poll_fragments_at` and `post_handle`, and
--   Mailbox.Nodes the operations of a whole node. Mailbox.Agree.Steps has the two sides of a chat as a
--   step relation in which frames arrive late, twice or never and backups come back, Mailbox.Agree.Talk
--   and Mailbox.Agree.Exchange an announcement with its replies, Mailbox.Agree.Announce rounds of
--   announcements, and Mailbox.Delivered joins the sender's handle to the reader's polling.
-- Watchdog: relay/src/main.rs, the loop that decides when an unreachable relay restarts.
-- Streams: relay/src/main.rs, `read_line_paced` and the budget that all streams share (`LineBudget`).
-- Keyroll: core/src/keyroll.rs, rotating the key that signs the update manifest or the relay list:
--   Keyroll has the whole file, Keyroll.Message reads the signed message back, and `learned_after` of
--   Keyroll.Rotations is what an install stores over its fetches.
-- Directory: core/src/directory.rs, the signed relay list, with its fetch (core/src/node.rs,
--   `fetch_directory`) and its adoption (core/src/node/messaging.rs, `adopt_directory` and
--   `finish_directory_fetch`), on the fields of a node that it touches (`Listing`). Directory.Relays
--   has the relays that a device polls (core/src/storage/mod.rs, `RelaySet::of`).
-- Prelude: what the others share: Boolean tests on numbers, lists, byte strings, maps, results.
-- Tests: concrete runs.
--
-- How the code is read:
-- * A byte string or text is a list of bytes, or where it is trimmed a list of code points; bytes that
--   are not UTF-8 are replaced as the standard library does it (`from_utf8_lossy` of Prelude.Utf8). A `HashMap` is an association list; nothing here depends
--   on its order. Numbers are unbounded, and where the code saturates, wraps or stops on an overflow, this is
--   written out.
--   The relay's sums are taken without wrapping; the largest is `total_after` of Relay.Post.Admission.
-- * Durations and monotonic instants are in nanoseconds, wall-clock times in seconds, as the code has
--   them. Each operation takes the instants that it reads as arguments, and the random bytes too.
-- * Other crates are parameters: base64, the hasher and the printing of numbers (`Relay.Types.Platform`),
--   serde_json (`Wire.Codec.Json`, `Lock.Files.Platform`), argon2 and chacha20poly1305
--   (`Lock.Slots.Crypto`), HKDF, SHA-256 and base64 (`Mailbox.Digests`), vodozemac's sessions
--   (`Mailbox.State.Olm`), ed25519 (`Keyroll.Signatures`, and with serde_json `Directory.Formats`). What they document is
--   a hypothesis of the theorems that need it
--   (`DecodesEncoded`, `RoundTrips`, `KeepsAttempts`, `IsCollisionFree`, `IsSealing`,
--   `IsUnforgeable`, `IsFaithful`, `IsRead`), or is taken at one
--   value. Whether two contacts have relays in common, `relays_meet`, is an argument.
-- * The outcome of a file write is an argument, so that both outcomes are covered.
-- * Every loop is a structural recursion on the list that it walks. Only `decimal` of Keyroll, which
--   prints a sequence number, has fuel: 19 gives the twenty digits that the largest u64 has.
--
-- Not modelled: the parsing and printing of JSON, sockets and threads, the relay's rate limit,
-- statistics and command line, the relay client, the rest of the node (messages, pairing, backups, the
-- outbox),
-- the media parsers, the transports, the cryptographic protocols of other crates, generated bindings and the app in Dart.
pub mod Prelude
pub mod Relay
pub mod Wire
pub mod Limits
pub mod Lock
pub mod Streams
pub mod Watchdog
pub mod Mailbox
pub mod Keyroll
pub mod Directory
mod Tests
