-- ===== src/Socks5/Nego/Method.antt =====
-- jingle-s5b/socks5-proto.c: the callbacks up to the choice of a method and the authentication.
use mcabber_jingle.Base.{
  ℕ, ◌-◌, Bool, true, false, ◌||◌, Option, none, some, List, ◌==◌, ltb, leb, if◌then◌else◌,
  get_elem?,
}
use mcabber_jingle.Memory.{zeros}
use mcabber_jingle.Jingle.{◌>>=◌}
use mcabber_jingle.Socks5.{
  protocol, ErrorVar, unset, null_error, set_to, s5b_socks5_error, auth_failed, socks5_auth_none,
  socks5_auth_no_accept, server_set_nego_reply_msg, client_parse_nego_reply, server_parse_nego_init,
  set_auth_msg, check_auth_status, client_set_connect_msg,
}
use mcabber_jingle.Socks5.Nego.Io.{
  ConnectAsyncData, Callback, Nego, Completion, complete_async_from_error, with_buffer,
  with_message, after_write, after_read, when_done, on_nego_msg_write, on_nego_msg_read,
  on_no_supported_method, on_nego_reply_read, on_nego_reply_write, on_auth_msg_write,
  on_auth_reply_read, on_connect_msg_write, on_connect_msg_read, waiting, finished,
}

unfoldable pub send_connect_msg : ConnectAsyncData → Option Nego
unfolding client_set_connect_msg
send_connect_msg d = do
  (msg, len, error) ← client_set_connect_msg (zeros 262) d.hostname 0 null_error
  elim len [
    | none ↦ complete_async_from_error error d
    | some n ↦ some (waiting on_connect_msg_write (with_message msg n d))
  ]

unfoldable pub nego_msg_write_cb : Completion → ConnectAsyncData → Option Nego
unfolding after_write
nego_msg_write_cb c d =
    after_write c d
      (when_done on_nego_msg_write (λ d. some (waiting on_nego_reply_read (with_buffer 2 2 d))))

-- `if (data->offset >= 2 && data->offset-2 > data->buffer[2]) || data->offset == data->length`.
unfoldable pub has_methods : ConnectAsyncData → Option Bool
has_methods d =
    if leb 2 d.offset
    then (get_elem? d.buffer 2 >>= λ b. some (ltb b (d.offset - 2) || (d.offset == d.length)))
    else some (d.offset == d.length)

unfoldable pub answer_method : Callback → ℕ → ConnectAsyncData → Option Nego
unfolding server_set_nego_reply_msg
answer_method cb method d = do
  (msg, len) ← server_set_nego_reply_msg (zeros 2) method
  some (waiting cb (with_message msg len d))

-- Where the methods of the client could not be taken.
abbrev pub refuse_methods : ErrorVar → ConnectAsyncData → Option Nego
refuse_methods (set_to (protocol s5b_socks5_error auth_failed)) d =
    answer_method on_no_supported_method socks5_auth_no_accept d
refuse_methods error d = complete_async_from_error error d

-- The error is a variable of the inner block, which is never set before it is passed on.
unfoldable pub got_nego_msg : ConnectAsyncData → Option Nego
unfolding has_methods server_parse_nego_init answer_method
got_nego_msg d = do
  enough ← has_methods d
  if enough
      then (do
        (accepted, error) ← server_parse_nego_init d.buffer d.offset unset
        if accepted
            then answer_method on_nego_reply_write socks5_auth_none d
            else refuse_methods error d)
      else some (waiting on_nego_msg_read d)

unfoldable pub nego_msg_read_cb : Completion → ConnectAsyncData → Option Nego
unfolding after_read got_nego_msg
nego_msg_read_cb c d = after_read c d got_nego_msg

unfoldable pub no_supported_method_cb : Completion → ConnectAsyncData → Option Nego
unfolding after_write
no_supported_method_cb c d = after_write c d (
    when_done on_no_supported_method
      (λ d. some (finished (some (protocol s5b_socks5_error auth_failed)) d)))

abbrev pub is_some : Option (List ℕ) → Bool
is_some none = false
is_some (some s) = true

abbrev pub has_auth : ConnectAsyncData → Bool
has_auth d = is_some d.username || is_some d.password

-- What runs when the whole answer to the greeting has come.
unfoldable pub got_nego_reply : ConnectAsyncData → Option Nego
unfolding client_parse_nego_reply set_auth_msg send_connect_msg
got_nego_reply d = do
  (must_auth, error) ← client_parse_nego_reply d.buffer (has_auth d) unset
  elim must_auth [
    | none ↦ complete_async_from_error error d
    | some true ↦ (do
      (msg, len, error) ← set_auth_msg (zeros 515) d.username d.password error
      some (waiting on_auth_msg_write (with_message msg len d)))
    | some false ↦ send_connect_msg d
  ]

unfoldable pub nego_reply_read_cb : Completion → ConnectAsyncData → Option Nego
unfolding after_read got_nego_reply
nego_reply_read_cb c d = after_read c d (when_done on_nego_reply_read got_nego_reply)

unfoldable pub nego_reply_write_cb : Completion → ConnectAsyncData → Option Nego
unfolding after_write
nego_reply_write_cb c d =
    after_write c d (
      when_done on_nego_reply_write (λ d. some (waiting on_connect_msg_read (with_buffer 262 4 d))))

unfoldable pub auth_msg_write_cb : Completion → ConnectAsyncData → Option Nego
unfolding after_write
auth_msg_write_cb c d =
    after_write c d
      (when_done on_auth_msg_write (λ d. some (waiting on_auth_reply_read (with_buffer 2 2 d))))

unfoldable pub got_auth_reply : ConnectAsyncData → Option Nego
unfolding check_auth_status send_connect_msg
got_auth_reply d = do
  (succeeded, error) ← check_auth_status d.buffer null_error
  if succeeded then send_connect_msg d else complete_async_from_error error d

unfoldable pub auth_reply_read_cb : Completion → ConnectAsyncData → Option Nego
unfolding after_read got_auth_reply
auth_reply_read_cb c d = after_read c d (when_done on_auth_reply_read got_auth_reply)
