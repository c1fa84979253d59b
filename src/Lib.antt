-- ===== src/Lib.antt =====
-- The verification library of nanotalk, a distributed voice client. A node takes part in a
-- distributed hash table over UDP (src/dht-client.c): it keeps a routing table of other nodes, looks
-- up identifiers among them, and when it has found one it runs a handshake that gives both sides two
-- keys and a socket. A call then sends RTP packets through that socket, which src/rtp-sink.c encrypts
-- and src/rtp-src.c authenticates and decrypts; src/rtp-session.c holds the two pipelines of a call, and
-- src/application.c the window that starts, answers and stops calls.
--
-- The parts and their files:
--   Base      names, Boolean tests, lists and binary digits that the other files share.
--   Common    src/dht-common.h and src/dht-common.c: `dht_key_*`, `dht_id_*`, `dht_address_*` and
--             `dht_stream_*` without their prefix `dht_`. libsodium is a parameter, the record
--             `Sodium`, with what is documented of it in `IsSodium`.
--             Common.Order reads an identifier as a number, Common.Hash has the hash functions.
--   Bucket    the routing table and `dht_client_update` of src/dht-client.c: `update`. A list of
--             links is a list; a pointer to a node is its position. Bucket.Place says where a node
--             belongs, Bucket.Splitting and Bucket.Grow are about the split of the last bucket.
--   Search    `dht_client_search`: `search_nodes`. The way back over the buckets is the return of the
--             recursion.
--   Message   the packed messages as bytes, and the tests of their length.
--   Client    `DhtClientPrivate` as the record `Client`. A handler is a function from the client to
--             the client and a list of `Effect`s: datagrams to send, timers to add or remove,
--             results to complete, sockets to connect or close, signals to emit, in the order of the
--             code. Client.Lookup holds `dht_lookup_update`, `dht_lookup_dispatch`,
--             `dht_client_bootstrap`, `dht_client_lookup_async`, `dht_client_refresh_cb` and
--             `dht_query_timeout_cb`; Client.Connection the handshake and
--             `dht_connection_timeout_cb`; Client.Receive `dht_client_receive_cb`; Client.Run the life
--             of a client as a list of events, and `dht_client_finalize`. Client.Tables has the laws of
--             the hash tables, Client.Tally says what a table holds by any measure, Client.Results
--             counts with it the asynchronous calls that a client holds and ends, Client.Timers its
--             timers, and Client.Pending has the requests of its lookups that wait; Client.Sound
--             has what stays true of its routing table and of the order of its lookups' queries.
--   Rtp       Rtp.Sink is `rtp_sink_render`, Rtp.Source is `rtp_src_create`; Rtp.Channel joins the
--             two by a network that may lose packets; Rtp.Control has what stops and releases the
--             elements.
--   Session   `RtpSessionPrivate`, its pipelines and their timers as the record `Session`;
--             `rtp_session_launch`, `_accept` and `_destroy` are functions on it, and so are its
--             callbacks, in Session.Callbacks. Session.Steps says what may happen to a session,
--             with the receiver of Rtp.Source, and what the life of a call is.
--   App       `Application` as the record `App`, with the client of Client and the sessions of Session
--             in it. App.Call has `call_start`, `call_stop`, `call_toggle`, `lookup_finished_cb`,
--             `new_connection` and `dialog_run`, which is two functions, before and after
--             `gtk_dialog_run`; App.Aliases `completion_update` and `editor_save`; App.Config
--             `config_apply`; App.Windows the windows made on demand. App.Steps joins them into a step
--             relation; App.Orderly and App.Reach are about its situations.
--   Start     `startup` of src/main.c.
--   Conversation  two clients, two windows and their sessions in one call.
--   Tests     concrete inputs.
--
-- Numbers are natural numbers with the wrap-around of their C type written out: `guint` counters
-- modulo 2 ^ 32, `size_t` lengths modulo 2 ^ 64, `guint16` ports and sequence numbers modulo
-- 2 ^ 16. An integer of the configuration is the number of its 32 bits. The clock, the
-- random bytes, the sockets, the source numbers, and the answers of allocations and of
-- `g_socket_new` are arguments. Hash tables are association lists whose operations by key are those
-- that the code calls. One loop runs on fuel, that of a bucket split, with two rounds: after a split
-- the count is at most two once more, as one result says.
--
-- Not modelled: how the widgets of src/application.c look, and its box about the program; the
-- pads, caps and elements of GStreamer beyond their names and states; `main` of src/main.c, which calls
-- `startup` and the main loop; class glue of GObject; debug output and property notifications; src/glib-compat.h. A
-- datagram that the operating system does not send is not reported back to the model, since the code
-- only logs it. In the window, later changes of the volume are left out, and the client changes
-- otherwise than by calls only in ways that leave its property `listen` alone.
pub mod Base
pub mod Common
pub mod Bucket
pub mod Search
pub mod Message
pub mod Client
pub mod Rtp
pub mod Session
pub mod App
pub mod Start
pub mod Conversation
pub mod Tests
