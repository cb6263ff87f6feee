-- ===== src/Socks5/Nego.antt =====
-- jingle-s5b/socks5-proto.c: the negotiation, as the callbacks that GIO runs when a read or a write ends.
--
-- `input` holds the bytes that the other end has sent and that are not read yet, `output` those that were
-- written. A completion that moves `n` bytes moves at most what was asked for and, for a read, what is
-- there; no bytes are the end of the stream. `none` is a fault: memory out of bounds, or a pointer that
-- is NULL or was never set.
mod Io
mod Method
mod Connect
unfoldable pub use Io.*
unfoldable pub use Method.*
unfoldable pub use Connect.*
use mcabber_jingle.Base.{
  smaller, ℕ, ◌+◌, ◌-◌, Bool, true, false, ◌||◌, ◌&&◌, Option, none, some, List, [], ◌∷◌, ◌++◌,
  ◌==◌, ltb, leb, if◌then◌else◌, length, take, drop, get_elem?,
}
use mcabber_jingle.Memory.{write_at, read_first, zeros}
use mcabber_jingle.Jingle.{◌>>=◌}
use mcabber_jingle.Socks5.{
  NegoError, protocol, stream, ErrorVar, unset, null_error, set_to, s5b_socks5_error, failed,
  auth_failed, not_allowed, set_error_literal, socks5_auth_none, socks5_auth_no_accept,
  socks5_atyp_ipv4, socks5_atyp_ipv6, socks5_atyp_domainname, socks5_rep_succeeded,
  client_set_nego_msg, server_set_nego_reply_msg, client_parse_nego_reply, server_parse_nego_init,
  set_auth_msg, check_auth_status, client_set_connect_msg, server_parse_connect_msg,
  client_parse_connect_reply, server_set_connect_reply,
}

unfoldable pub call : Callback → Completion → ConnectAsyncData → Option Nego
unfolding nego_msg_write_cb nego_msg_read_cb no_supported_method_cb nego_reply_read_cb
    nego_reply_write_cb auth_msg_write_cb auth_reply_read_cb connect_msg_write_cb
    connect_msg_read_cb connect_addr_len_read_cb connect_addr_read_cb connect_reply_write_cb
    connect_reply_read_cb connect_reply_addr_len_read_cb connect_reply_addr_read_cb
call on_nego_msg_write c d = nego_msg_write_cb c d
call on_nego_msg_read c d = nego_msg_read_cb c d
call on_no_supported_method c d = no_supported_method_cb c d
call on_nego_reply_read c d = nego_reply_read_cb c d
call on_nego_reply_write c d = nego_reply_write_cb c d
call on_auth_msg_write c d = auth_msg_write_cb c d
call on_auth_reply_read c d = auth_reply_read_cb c d
call on_connect_msg_write c d = connect_msg_write_cb c d
call on_connect_msg_read c d = connect_msg_read_cb c d
call on_connect_addr_len_read c d = connect_addr_len_read_cb c d
call on_connect_addr_read c d = connect_addr_read_cb c d
call on_connect_reply_write c d = connect_reply_write_cb c d
call on_connect_reply_read c d = connect_reply_read_cb c d
call on_connect_reply_addr_len_read c d = connect_reply_addr_len_read_cb c d
call on_connect_reply_addr_read c d = connect_reply_addr_read_cb c d

-- The main loop: each read or write ends in some way, and its callback runs.
unfoldable pub run : List Completion → Nego → Option Nego
unfolding call
run [] m = some m
run (c ∷ cs) (finished r d) = some (finished r d)
run (c ∷ cs) (waiting cb d) = call cb c d >>= run cs

abbrev pub new_data : List ℕ → List ℕ → ConnectAsyncData
new_data hostname input = record {
  external_address = none;
  hostname = hostname;
  username = none;
  password = none;
  buffer = [];
  length = 0;
  offset = 0;
  input = input;
  output = [];
}

-- `socks5_client_nego`, before a stream on which `input` will come.
unfoldable pub socks5_client_nego : List ℕ → List ℕ → Option Nego
unfolding client_set_nego_msg
socks5_client_nego hostname input = do
  let d = new_data hostname input
  (msg, len) ← client_set_nego_msg (zeros 4) (has_auth d)
  some (waiting on_nego_msg_write (with_message msg len d))

unfoldable pub socks5_server_nego : List ℕ → SocketAddress → List ℕ → Nego
socks5_server_nego allowed_hostname external input =
    waiting on_nego_msg_read (record (new_data allowed_hostname input) {
      external_address = some external;
      buffer = zeros 4;
      length = 257;
    })
