-- ===== src/Lib.antt =====
-- mcabber-jingle: Jingle (XEP-0166) for the mcabber XMPP client, as a module that loads application
-- modules (file transfer) and transport modules (in-band bytestreams, SOCKS5 bytestreams).
--
-- An IQ comes in through `jingle_handle_iq`, which checks its <jingle> element and runs the handler
-- of its action. The handlers keep the list of sessions, ask the registered modules to read and
-- answer contents, and reply. What is sent with an answer to come has a handle in a list, with a
-- callback and a timeout.
--
-- Which file models what:
--
-- - Registry.antt models jingle/register.c and register.h, the tables of modules
--   (`jingle_register_app`, `jingle_transport_for_app`, …). A pointer to functions is a number,
--   NULL is `none`.
-- - Stanza.antt models the structs of jingle/jingle.h for a stanza that is read, and `Host`, the
--   services of loudmouth, GLib and mcabber that are called, as a parameter.
-- - Actions.antt models the table `jingle_action_list` of jingle/jingle.c and
--   `jingle_action_from_str`.
-- - Check.antt models jingle/check.c (`check_jingle`, `check_content`, `check_contents`).
-- - Session.antt models jingle/sessions.c and sessions.h. A session and a content carry the address
--   at which they were allocated; the list of live sessions is the store, read by `get_session` and
--   written by `put_session`.
-- - Jingle.antt models the state of the whole module, the interface `Modules` to application and
--   transport modules (jingle/register.h), and the replies of jingle/jingle.c.
-- - Ack.antt models the handles that wait for an answer, in jingle/jingle.c
--   (`jingle_new_ack_handler`, `jingle_handle_ack_iq`, `jingle_ack_timeout_checker`).
-- - Send.antt models jingle/send.c, with `lm_message_from_jinglesession` of jingle/sessions.c.
-- - Handlers.antt models jingle/action-handlers.c, with the contents that jingle/sessions.c reads
--   from a stanza; Handlers.Dispatch is `jingle_handle_iq` of jingle/jingle.c.
-- - Calls.antt models what transports, applications and the user call: `handle_trans_data`,
--   `handle_trans_next` and `evscallback_jingle` of jingle/jingle.c, `handle_app_data`,
--   `new_session_with_apps` and `jingle_handle_app` of jingle/sessions.c.
-- - Memory.antt models reads and writes of a buffer with its bounds.
-- - Ibb.antt models jingle-ibb/ibb.c, the transport by in-band bytestreams, on its own struct and
--   buffer; Ibb.Receive has its table of streams and the IQs with data. `handle_trans_next` and
--   `handle_trans_data`, which call the application through jingle/jingle.c, are arguments of it.
-- - Ft.antt models jingle-ft/filetransfer.c, the application for file transfers: an offer that is
--   read or written, the chunks that come in, and the end of a transfer. Ft.Sender has `start`,
--   `send` and `send_hash`: a JingleFT is read and written through `FtStore`, and the transport is
--   an argument, as in Calls.antt. Ft.Files has the list of files and `_jft_flush`; Ft.Commands has
--   `_new`, `_jft_send`, `_jft_retry` and `do_sendfile`.
-- - Socks5.antt models the messages of jingle-s5b/socks5-proto.c, and Socks5.Nego its callbacks: a
--   run is a list of completions of reads and writes, each of which moves some bytes or fails, over
--   the bytes that the other end has sent.
-- - S5b.antt models jingle-s5b/s5b.c: candidates and ports. S5b.Transport has its elements;
--   S5b.Connect has `init` and the attempts to connect, with the references of their GPtrArray;
--   S5b.Interfaces has `get_all_local_ips`.
-- - Delivery.antt puts the sender, jingle-ibb/ibb.c, and the receiver, jingle-ibb/ibb.c with
--   jingle-ft/filetransfer.c, together: a stanza that is sent lands as an IQ at the other client.
-- - Start.antt models how the four modules start and end (`jingle_init`, `jingle_ibb_init`,
--   `jingle_ft_init`, `jingle_socks5_init`, …) and the hooks on the connection. What loudmouth, GLib
--   and mcabber are asked is a list of calls; Start.Resources says what is held by such a list.
-- - Ids.antt models the identifiers that are drawn (`jingle_generate_sid`, `gen_ibb_sid`,
--   `random_str`), with their buffers.
-- - Roster.antt models `jingle_find_compatible_res` of jingle/jingle.c; the roster is an argument.
--
-- State is passed explicitly: an operation takes a `Jingle W` and returns one, where `W` is the
-- state of the modules behind `Modules W`. An Option result that is `none` is a fault: a read
-- through a NULL or dangling pointer or of freed memory. What is sent is appended to the field
-- `sent`.
--
-- Loops are structural recursions, but for `jingle_ack_timeout_checker`, which walks over links
-- that it takes out, and for `_jft_flush`, which does the same. `check_links` has a fuel of the
-- length of the list and two. Each round moves to the next link or takes one out and moves on from
-- the link before it, so this is enough. `flush_links` moves on or takes a link out and comes back
-- to the one before it, so two rounds for each link but the first are enough.
--
-- Not modelled: log lines and lines that show an invitation; strings are values, so their copies
-- and frees do not show; the splitting of the user's command lines, and the lines that list files in
-- jingle-ft; in jingle-ibb/ibb.c the line of `info`, and `jingle_ibb_check_session`, which is not
-- called; in jingle-s5b/s5b.c what does nothing or is not called. A send that fails and sets no
-- error, whose message would be read, is not modelled for `jingle_send_session_initiate`; what
-- `free_ibb` and the unloading of jingle-ft leave dangling (a replaced entry of the table of streams,
-- the list of files) is not either. The jingle module reaches
-- applications and transports through `Modules` only. Integers of jingle-ibb and the sizes of
-- jingle-ft keep their widths, but for the sign of the lengths of a buffer, which is below 2^31; times and addresses of jingle are numbers without a bound, and the
-- lengths of jingle-s5b/socks5-proto.c stay far below the width of theirs.
pub mod Base
pub mod Memory
pub mod Registry
pub mod Stanza
pub mod Actions
pub mod Check
pub mod Session
pub mod Jingle
pub mod Ack
pub mod Send
pub mod Handlers
pub mod Ibb
pub mod Calls
pub mod Ft
pub mod Delivery
pub mod S5b
pub mod Socks5
pub mod Start
pub mod Ids
pub mod Roster
pub mod Tests
