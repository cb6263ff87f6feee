-- ===== src/Socks5/Nego/Io.antt =====
-- jingle-s5b/socks5-proto.c: the data of a negotiation, and how its reads and writes end (`do_read`,
-- `do_write`).
use mcabber_jingle.Base.{
  smaller, ℕ, ◌+◌, ◌-◌, Bool, Option, none, some, List, ◌++◌, ◌==◌, if◌then◌else◌, length, take,
  drop,
}
use mcabber_jingle.Memory.{write_at, read_first, zeros}
use mcabber_jingle.Jingle.{◌>>=◌}
use mcabber_jingle.Socks5.{NegoError, stream, ErrorVar, unset, null_error, set_to}

-- A GInetSocketAddress: its family, the bytes of the address, and the port.
pub record SocketAddress : Type 0 where
  pub is_ipv4 : Bool
  pub address : List ℕ
  pub port : ℕ

-- `length` and `offset` are never negative here: where the code stores -1, it ends the negotiation.
pub record ConnectAsyncData : Type 0 where
  pub external_address : Option SocketAddress
  pub hostname : List ℕ
  pub username : Option (List ℕ)
  pub password : Option (List ℕ)
  pub buffer : List ℕ
  pub length : ℕ
  pub offset : ℕ
  pub input : List ℕ
  pub output : List ℕ

pub data Callback : Type 0 where
  on_nego_msg_write on_nego_msg_read on_no_supported_method on_nego_reply_read on_nego_reply_write
        on_auth_msg_write on_auth_reply_read on_connect_msg_write on_connect_msg_read
        on_connect_addr_len_read on_connect_addr_read on_connect_reply_write on_connect_reply_read
        on_connect_reply_addr_len_read on_connect_reply_addr_read :
      Callback

-- A read or write is under way, or the result was given, `none` for success; the data show what the stream
-- was left with.
pub data Nego : Type 0 where
  waiting : Callback → ConnectAsyncData → Nego
  finished : Option NegoError → ConnectAsyncData → Nego

-- How a read or write ends.
pub data Completion : Type 0 where
  broken : ℕ → Completion
  moved : ℕ → Completion

-- `complete_async_from_error`: a variable that holds no error is a fault.
abbrev pub complete_async_from_error : ErrorVar → ConnectAsyncData → Option Nego
complete_async_from_error unset d = none
complete_async_from_error null_error d = none
complete_async_from_error (set_to e) d = some (finished (some e) d)

-- `g_malloc0 (size)`, of which `length` bytes are to be read or written.
abbrev pub with_buffer : ℕ → ℕ → ConnectAsyncData → ConnectAsyncData
with_buffer size length d = record d { buffer = zeros size; length = length; offset = 0 }

abbrev pub with_message : List ℕ → ℕ → ConnectAsyncData → ConnectAsyncData
with_message msg length d = record d { buffer = msg; length = length; offset = 0 }

-- What is left of the read or write.
abbrev pub asked : ConnectAsyncData → ℕ
asked d = d.length - d.offset

-- The end of `do_write`: `n` bytes of the buffer go out, and `data->offset += written`.
unfoldable pub written : ℕ → ConnectAsyncData → Option ConnectAsyncData
unfolding read_first
written n d = do
  let k = smaller n (asked d)
  bytes ← read_first k (drop d.offset d.buffer)
  some (record d { output = d.output ++ bytes; offset = d.offset + k })

-- The end of `do_read`: `n` bytes come into the buffer, and `data->offset += read`.
unfoldable pub received : ℕ → ConnectAsyncData → Option ConnectAsyncData
unfolding write_at
received n d = do
  let k = smaller (smaller n (asked d)) (length d.input)
  buffer ← write_at d.offset (take k d.input) d.buffer
  some (record d { buffer = buffer; input = drop k d.input; offset = d.offset + k })

unfoldable pub after_write :
    Completion → ConnectAsyncData → (ConnectAsyncData → Option Nego) → Option Nego
unfolding written
after_write (broken e) d next = some (finished (some (stream e)) d)
after_write (moved n) d next = written n d >>= next

unfoldable pub after_read :
    Completion → ConnectAsyncData → (ConnectAsyncData → Option Nego) → Option Nego
unfolding received
after_read (broken e) d next = some (finished (some (stream e)) d)
after_read (moved n) d next = received n d >>= next

-- `if (data->offset == data->length) … else do_write (again, data)`, or `do_read`.
abbrev pub when_done : Callback → (ConnectAsyncData → Option Nego) → ConnectAsyncData → Option Nego
when_done again next d = if d.offset == d.length then next d else some (waiting again d)
