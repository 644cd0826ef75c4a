-- ===== src/Lib.antt =====
-- Verification of irssi-robustirc, the irssi plugin for RobustIRC networks.
--
-- The plugin keeps, for each network, a queue of servers and the backoff state of each server
-- (src/core/robustsession/robustsession-network.c), and runs the requests of a session over libcurl:
-- CreateSession, PostMessage, and the endless GetMessages, whose stream of JSON messages it hands to
-- irssi line by line (src/core/robustsession/robustsession.c).
--
-- Base and its children: shared names, C strings, signed integers, tables, lists of numbers. Glib: the string functions
-- of GLib that the code relies on, as a parameter with their documented laws.
--
-- Network: robustsession-network.c. Networks is the static table; network_server, network_failed,
-- network_succeeded, update_servers (robustsession_network_*), network_resolve and srv_resolved
-- return the new table, and the outcome of a call in place of the callback. Time and rand are
-- arguments: the k-th reading of the clock in a call of network_server is `clock k`, and the theorems
-- about it let the clock stand during the call. Children: Selection, Served and Waiting (which server), Backoff,
-- Membership (announced servers), Bounded (the invariant of all calls), Retry, Resolving.
--
-- Messages: the callbacks gm_json_* over the tokens of yajl, and what retry_request leaves of their
-- state. Format gives the messages of the comment above gm_write_func, Delivery what they are meant
-- to do, Stalls what happens after a retry inside a message.
--
-- Body: write_func with the wrap of size_t and a realloc whose new bytes are unknown.
--
-- Session, Completion, Teardown: one session, the rest of robustsession.c. Session is the state: the
-- requests by CURL handle (a number), the session's list of handles, which multi handle each is on,
-- the timers of GetMessages, the requests that wait for a server; start_get_messages, start_connect
-- and start_send are get_messages, robustsession_connect_target and robustsession_send_target.
-- Completion is check_multi_info: check_message is the body of its loop, finish the part behind the
-- test of the address, retry and resend the retry with retry_request, cleanup the label of that name.
-- request_server joins robustsession_network_server of Network with the callback that it is given.
-- Teardown is robustsession_connect, robustsession_send, get_messages_timeout,
-- robustsession_write_only and robustsession_destroy. Reading a freed request sets `crashed`.
--
-- Sources: socket_callback, start_timeout and timeout_cb, by which libcurl asks for watches on its
-- sockets and for a timer, for one multi handle. Its child Wired has the watches, Armed the timer,
-- and Follows both over any events.
--
-- Channel: robustio.c, the GIOChannel through which irssi writes lines (io_write is robust_io_write), with
-- Writes and Order.
-- Plugin: robustirc.c and src/fe-common/fe-robustirc.c, the records of irssi's servers
-- (server_init_connect, server_connect_copy and server_disconnected are the functions robustirc_server_*
-- of these names).
--
-- Yajl: the incremental parser of yajl, as a parameter with what the code relies on. Receiving: the bytes
-- that libcurl hands to gm_write_func and write_func (receive_body) at a request of a session; gm_step is
-- a callback of Messages with its effect on the session. Its children: Keeps (timers and handles), Moves
-- and Chunks (how the bytes are split), Errors, Streams and Resume (lines, and the request after a
-- broken connection), Reconnect (lines over two connections). Creation, with Answers: from the body of a
-- CreateSession to the GetMessages. Policy: rules on the requests of a session that every place where one
-- starts follows, and the events keep (Events, Receives, Ends, joined by Reach). Configured and
-- Authorised are two of them: the options of curl_set_common_options, and the session id with the
-- X-Session-Auth header of a GetMessages.
--
-- Pending: struct query and struct server_retry_ctx on a heap with the handlers of the GCancellable, the
-- lookups of the resolver and the timers: start_lookup and start_retry are the ends of
-- robustsession_network_resolve and robustsession_network_server, cancel is g_cancellable_cancel. Its
-- children: Held (what holds before and after), Events, Cancelled, Reach. Startup: robustirc_core_init,
-- robustsession_init, fe_robustirc_init and what ends them, as the calls that they make. Formats:
-- src/fe-common/module-formats.c and the arguments of printformat_module (Formats/Fits).
--
-- Runs: the events of a session, in any order, and the sessions that they lead to. Timers and
-- Ownership: which requests the timers, libcurl, the list and the waiting requests refer to; their
-- children Starts, Events, Ends and Loops go through the operations, Ownership/Reach joins them, and
-- Ownership/Leaving, Ownership/Quiet and Ownership/Polls are about the teardown. Retries: requests that fail for now.
-- Verdicts: the decision of check_multi_info. Tests: values for the parameters, and the theorems at
-- concrete inputs.
--
-- Loops are recursions on lists, so there is no fuel. Sums of time_t and double are taken as exact,
-- which they are below 2^53, and a time is a natural number. An `int` that counts maps (depth) does
-- not overflow.
--
-- Not modelled: the frees of memory that no longer matters, the records that are only zeroed, and irssi's
-- own reaction to the signals.
pub mod Base
pub mod Glib
pub mod Network
pub mod Messages
pub mod Body
pub mod Session
pub mod Completion
pub mod Teardown
pub mod Timers
pub mod Yajl
pub mod Receiving
pub mod Creation
pub mod Runs
pub mod Configured
pub mod Authorised
pub mod Retries
pub mod Verdicts
pub mod Channel
pub mod Pending
pub mod Plugin
pub mod Policy
pub mod Formats
pub mod Startup
pub mod Sources
pub mod Ownership
mod Tests
