-- ===== src/Socks5/Nego/Connect.antt =====
-- jingle-s5b/socks5-proto.c: the callbacks of the request and of its reply.
use mcabber_jingle.Base.{
  ℕ, ◌+◌, ◌-◌, Bool, true, false, ◌&&◌, Option, none, some, List, [], ◌∷◌, ◌==◌, if◌then◌else◌,
  get_elem?,
}
use mcabber_jingle.Memory.{read_first, zeros}
use mcabber_jingle.Jingle.{◌>>=◌}
use mcabber_jingle.Socks5.{
  protocol, null_error, s5b_socks5_error, failed, not_allowed, set_error_literal, socks5_atyp_ipv4,
  socks5_atyp_ipv6, socks5_atyp_domainname, socks5_rep_succeeded, server_parse_connect_msg,
  client_parse_connect_reply, server_set_connect_reply,
}
use mcabber_jingle.Socks5.Nego.Io.{
  ConnectAsyncData, Callback, Nego, Completion, complete_async_from_error, with_buffer,
  with_message, after_write, after_read, when_done, on_connect_msg_write, on_connect_msg_read,
  on_connect_addr_len_read, on_connect_addr_read, on_connect_reply_write, on_connect_reply_read,
  on_connect_reply_addr_len_read, on_connect_reply_addr_read, waiting, finished,
}

unfoldable pub connect_msg_write_cb : Completion → ConnectAsyncData → Option Nego
unfolding after_write
connect_msg_write_cb c d = after_write c d (
    when_done on_connect_msg_write
      (λ d. some (waiting on_connect_reply_read (with_buffer 255 4 d))))

-- More is read into the start of the same buffer.
abbrev pub read_on : Callback → ℕ → ConnectAsyncData → Option Nego
read_on cb n d = some (waiting cb (record d { length = n; offset = 0 }))

unfoldable pub got_connect_msg : ConnectAsyncData → Option Nego
unfolding server_parse_connect_msg
got_connect_msg d = do
  (atype, error) ← server_parse_connect_msg d.buffer null_error
  elim atype [
    | none ↦ complete_async_from_error error d
    | some t ↦
        if t == socks5_atyp_domainname
        then read_on on_connect_addr_len_read 1 d
        else (set_error_literal failed error >>= λ e. complete_async_from_error e d)
  ]

unfoldable pub connect_msg_read_cb : Completion → ConnectAsyncData → Option Nego
unfolding after_read got_connect_msg
connect_msg_read_cb c d = after_read c d (when_done on_connect_msg_read got_connect_msg)

unfoldable pub connect_addr_len_read_cb : Completion → ConnectAsyncData → Option Nego
unfolding after_read
connect_addr_len_read_cb c d =
    after_read c d λ d. do len ← get_elem? d.buffer 0; read_on on_connect_addr_read (len + 2) d

-- `g_strndup`: the bytes before the first NUL.
abbrev pub strndup : List ℕ → List ℕ
strndup [] = []
strndup (b ∷ bs) = let rest = strndup bs in if b == 0 then [] else b ∷ rest

-- `!g_strcmp0 (a, b)` on C strings.
unfoldable pub bytes_eq : List ℕ → List ℕ → Bool
bytes_eq [] [] = true
bytes_eq [] (b ∷ bs) = false
bytes_eq (a ∷ as') [] = false
bytes_eq (a ∷ as') (b ∷ bs) = (a == b) && bytes_eq as' bs

unfoldable pub answer_connect : ConnectAsyncData → Option Nego
unfolding server_set_connect_reply
answer_connect d = do
  external ← d.external_address
  (msg, len) ←
      server_set_connect_reply (zeros 255) socks5_rep_succeeded
        (if external.is_ipv4 then socks5_atyp_ipv4 else socks5_atyp_ipv6) external.address
        external.port
  some (waiting on_connect_reply_write (with_message msg len d))

unfoldable pub got_address : ConnectAsyncData → Option Nego
unfolding answer_connect bytes_eq read_first
got_address d = do
  host ← read_first (d.length - 2) d.buffer
  if bytes_eq d.hostname (strndup host)
      then answer_connect d
      else some (finished (some (protocol s5b_socks5_error not_allowed)) d)

-- A read that is not whole goes on in the callback of the client's reply.
unfoldable pub connect_addr_read_cb : Completion → ConnectAsyncData → Option Nego
unfolding after_read got_address
connect_addr_read_cb c d = after_read c d (when_done on_connect_reply_read got_address)

unfoldable pub connect_reply_write_cb : Completion → ConnectAsyncData → Option Nego
unfolding after_write
connect_reply_write_cb c d =
    after_write c d (when_done on_connect_reply_write (λ d. some (finished none d)))

unfoldable pub got_connect_reply : ConnectAsyncData → Option Nego
unfolding client_parse_connect_reply
got_connect_reply d = do
  (atype, error) ← client_parse_connect_reply d.buffer null_error
  elim atype [
    | none ↦ complete_async_from_error error d
    | some t ↦
        if t == socks5_atyp_ipv4
        then read_on on_connect_reply_addr_read 6 d
        else if t == socks5_atyp_ipv6
        then read_on on_connect_reply_addr_read 18 d
        else read_on on_connect_reply_addr_len_read 1 d
  ]

unfoldable pub connect_reply_read_cb : Completion → ConnectAsyncData → Option Nego
unfolding after_read got_connect_reply
connect_reply_read_cb c d = after_read c d (when_done on_connect_reply_read got_connect_reply)

-- The address goes to the callback of the server.
unfoldable pub connect_reply_addr_len_read_cb : Completion → ConnectAsyncData → Option Nego
unfolding after_read
connect_reply_addr_len_read_cb c d =
    after_read c d λ d. do len ← get_elem? d.buffer 0; read_on on_connect_addr_read (len + 2) d

-- A read that is not whole goes on in the callback before.
unfoldable pub connect_reply_addr_read_cb : Completion → ConnectAsyncData → Option Nego
unfolding after_read
connect_reply_addr_read_cb c d =
    after_read c d (when_done on_connect_reply_read (λ d. some (finished none d)))
