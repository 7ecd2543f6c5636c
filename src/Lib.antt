-- ===== src/Lib.antt =====
-- Parler Protocol: a verification library for the hub and the wire contract.
--
-- Agents talk through a hub. A client sends frames; the hub checks who the agent is and which rooms
-- it is in, and each frame becomes one or two calls of the durable store, a SQLite database. This
-- library models that store call by call, the handlers in front of it, and the part of the wire
-- contract that they read and write.
--
-- crates/parler-protocol/src, in Protocol:
--   RoomKind, Visibility, Attention, TaskStatus   the enums of hub.rs, as_str or label, and parse
--   Parts       Part (types.rs), HandoffRef and DispatchRef with to_part, from_part and is_for
--   Tokens      estimate_message_tokens
--   Cards, Mentions   AgentCard and the entries of the directory; normalize_mentions
--   Spelling    what parse gives on those spellings
--   Subjects    subjects.rs: token, channel_path, the builders of subjects, parse_subject,
--               subject_matches, collapse_filter_subjects; with Layout and Matching
-- crates/parler-hub/src/store.rs, in Store, each module with the modules of its theorems:
--   Tables      MIGRATION: a row type per table, the record of all tables, the keys
--   Presence    upsert_agent, touch_presence, refresh_presence, set_attention; with Liveness
--   Rooms       ensure_room … delete_room, find_dm_room, rooms_of, roster; with Deletion and
--               Direct
--   Messages    append_message, pull, room_messages; with Order, Delivery, Idempotence, Sending
--               and Acknowledge
--   Service     serve_role, claim_service_message, queued_service_messages,
--               complete_service_message; with Leases, Calls, Exclusion and Completion
--   Invites     create_invite, redeem_invite, resolve_join, pending_join_requests; with Capacity,
--               Approval and Denial
--   Tokens      directory and watch tokens, the waitlist; with Scopes
--   Blobs       blob metadata, with Access; Facts: keyed memory, with Keyed; Retention: what the
--               janitor removes, with Pruning
--   Stats       room_stats, the counters of a room; with Growth
--   Directory   register_card, discover, lookup_card and the search of LIKE; with Privacy
-- crates/parler-hub/src/server.rs, in Server:
--   Frames      ClientFrame, ServerFrame, Target and error_code of hub.rs
--   State       the settings and the state of HubState, a connection, and what a request draws
--   Windows     charge_window, rate_allows and its kin, prune_rate_windows; with Bounds and Pruning
--   Bytes, Hello   the handshake: issue_challenge, challenge_valid, secret_matches, handle_hello;
--               with Challenges and Secrets
--   FrameBounds validate_frame_bounds
--   RoomRequests, WorkRequests, RecordRequests   the arms of handle_authed, and resolve_target
--   Sending     Send with fanout, Pull, waited_pull, subscribe; with Pushing, Delivery, Retries,
--               Waiting and Files
--   Uploads     PutBlob, GetBlob and the bytes of an upload; with Files
--   Dispatch    handle_authed and dispatch; with Authentication, Cases and Files
--   Socket      the messages of handle_socket; with Integrity
--   Gate        how an agent gets into a room; with Connections, Members, Outside and Sending
--   Waitlist    api_waitlist, valid_email, client_ip, bearer_token, hub_scope_authorized; with Listing
--   Janitor     Retention and janitor_pass; with Floor
-- crates/parler-connector/src/attention.rs, in Connector:
--   Attention   AttentionPolicy, set_room, decide; with Modes
-- Prelude has what they share: Boolean tests, text, the SQL statements as operations on lists of rows
-- and their laws, and results. Examples has concrete inputs.
--
-- A table is the list of its rows, in the order of its key `seq` or `id`, else of insertion. An
-- operation takes the store and returns its result with the store after it; where the code bails out,
-- the result is `err` and the store is the one at that point. SQLite runs one writer at a time, so a
-- sequence of calls is a list. A text is the list of its code points. ORDER BY seq is the order of the
-- table. LIMIT 1 without an order takes the first row.
--
-- Times, seqs and cursors are natural numbers: the hub's clock and AUTOINCREMENT give no negative
-- ones, and a client's negative cursor is outside the model. Where the code subtracts times, the
-- difference is only compared with a number that is not negative, so a difference that stops at 0
-- compares alike. `claim_service_message` saturates at 2^63 - 1, as written; its lease stays below
-- 2^63 seconds, since the server clamps it. No function of the model needs fuel: each recurs on a list
-- or a number of reads.
--
-- A handler of the server takes the settings, what the request draws and the hub's state, and returns
-- the reply or a refusal with the state after it. Requests run on many threads in the source; here
-- each runs whole, and one reading of the clock serves all of it. A table in memory is a function
-- from its keys. A reader that waits is given the rounds in which it looks again, each with what
-- others did to the store before, in place of the deadline and the wake-ups.
--
-- Signatures, SHA-256, the length of serialised frames and full-text search are parameters of
-- the server, `Library`; random codes and names are drawn by the request, `Draw`. A message of an
-- error, meant for people, is left out; its code is kept.
--
-- serde_json is a parameter, `Codec`: theorems about what a reader sees assume of it only that what it
-- writes for one message is read back. A new UUID is an argument.
--
-- Not modelled: failures of the database and of the disk, the pool of connections and migrations;
-- the full-text and vector search, which run in SQLite extensions; the server's sockets, timeouts,
-- janitor's timer, HTTP views and pages; the rest of the connector, the names
-- of buckets and streams in subjects.rs, the command line and the desktop app.
pub mod Prelude
pub mod Protocol
pub mod Store
pub mod Server
pub mod Examples
pub mod Connector
