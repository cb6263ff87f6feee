-- ===== src/Socks5.antt =====
-- jingle-s5b/socks5-proto.c and socks5-proto.h: the messages of SOCKS5, as the client and the server of the
-- negotiation write and read them.
--
-- A byte is a number below 256, a buffer and a C string are lists of bytes (the string without its NUL).
-- `none` is an access out of the bounds of a buffer, or a read of a pointer that was never set.
pub mod Nego
pub mod Transfer
pub mod Writes
pub mod Reads
pub mod Messages
pub mod Parsers
pub mod Client
pub mod Address
pub mod Server
pub mod Serve
use mcabber_jingle.Base.{
  smaller, ℕ, suc, ◌+◌, ◌-◌, ◌/◌, ◌%◌, String, Bool, true, false, Option, none, some, List, [], ◌∷◌,
  ◌==◌, ltb, if◌then◌else◌, length, take, get_elem?,
}
use mcabber_jingle.Memory.{write_at, read_first}
use mcabber_jingle.Jingle.{◌>>=◌}

abbrev pub socks5_version : ℕ
socks5_version = 5

abbrev pub socks5_cmd_connect : ℕ
socks5_cmd_connect = 1

abbrev pub socks5_atyp_ipv4 : ℕ
socks5_atyp_ipv4 = 1

abbrev pub socks5_atyp_domainname : ℕ
socks5_atyp_domainname = 3

abbrev pub socks5_atyp_ipv6 : ℕ
socks5_atyp_ipv6 = 4

abbrev pub socks5_auth_version : ℕ
socks5_auth_version = 1

abbrev pub socks5_auth_none : ℕ
socks5_auth_none = 0

abbrev pub socks5_auth_usr_pass : ℕ
socks5_auth_usr_pass = 2

abbrev pub socks5_auth_no_accept : ℕ
socks5_auth_no_accept = 255

abbrev pub socks5_max_len : ℕ
socks5_max_len = 255

abbrev pub socks5_reserved : ℕ
socks5_reserved = 0

abbrev pub socks5_rep_succeeded : ℕ
socks5_rep_succeeded = 0

pub data S5bSocks5Error : Type 0 where
  host_unreachable network_unreachable connection_refused failed auth_failed need_auth not_allowed :
      S5bSocks5Error

-- The domain of an error: S5B_SOCKS5_ERROR, or G_IO_ERROR, under which two codes are reported.
pub data Domain : Type 0 where
  s5b_socks5_error g_io_error : Domain

-- A GError that the negotiation makes, or one that GIO gave for a read or a write.
pub data NegoError : Type 0 where
  protocol : Domain → S5bSocks5Error → NegoError
  stream : ℕ → NegoError

-- A variable of type `GError *`: never set, NULL, or an error.
pub data ErrorVar : Type 0 where
  unset null_error : ErrorVar
  set_to : NegoError → ErrorVar

-- `g_set_error_literal (error, …)`: it reads the variable, and an error that is set stays.
abbrev pub set_error_in : Domain → S5bSocks5Error → ErrorVar → Option ErrorVar
set_error_in d c unset = none
set_error_in d c null_error = some (set_to (protocol d c))
set_error_in d c (set_to e) = some (set_to e)

abbrev pub set_error_literal : S5bSocks5Error → ErrorVar → Option ErrorVar
set_error_literal c e = set_error_in s5b_socks5_error c e

abbrev pub set_byte : ℕ → ℕ → List ℕ → Option (List ℕ)
set_byte i b msg = write_at i (b ∷ []) msg

-- The message, and its length.
unfoldable pub client_set_nego_msg : List ℕ → Bool → Option (List ℕ × ℕ)
unfolding write_at
client_set_nego_msg msg has_auth = do
  msg ← set_byte 0 socks5_version msg
  msg ← set_byte 1 1 msg
  msg ← set_byte 2 socks5_auth_none msg
  if has_auth
      then (do msg ← set_byte 1 2 msg; msg ← set_byte 3 socks5_auth_usr_pass msg; some (msg, 4))
      else some (msg, 3)

unfoldable pub server_set_nego_reply_msg : List ℕ → ℕ → Option (List ℕ × ℕ)
unfolding write_at
server_set_nego_reply_msg msg method = do
  msg ← set_byte 0 socks5_version msg
  msg ← set_byte 1 method msg
  some (msg, 2)

-- The result is `*must_auth`, or `none` where FALSE is returned.
unfoldable pub client_parse_nego_reply : List ℕ → Bool → ErrorVar → Option (Option Bool × ErrorVar)
client_parse_nego_reply bytes has_auth error = do
  version ← get_elem? bytes 0
  method ← get_elem? bytes 1
  if version == socks5_version
      then (if method == socks5_auth_none
          then some (some false, error)
          else if method == socks5_auth_usr_pass
          then (if has_auth
              then some (some true, error)
              else (do error ← set_error_literal need_auth error; some (none, error)))
          else (do error ← set_error_literal auth_failed error; some (none, error)))
      else (do error ← set_error_literal failed error; some (none, error))

-- The loop over the methods: `rounds` are left, and the next is at `i`.
unfoldable pub offers_none : ℕ → ℕ → List ℕ → Option Bool
offers_none ℕ.zero i bytes = some false
offers_none (suc rounds) i bytes =
    let rest = offers_none rounds (suc i) bytes in
    (get_elem? bytes i >>= λ method. if method == 0 then some true else rest)

unfoldable pub server_parse_nego_init : List ℕ → ℕ → ErrorVar → Option (Bool × ErrorVar)
unfolding offers_none
server_parse_nego_init bytes datalen error = do
  version ← get_elem? bytes 0
  if version == socks5_version
      then (do
        nmethods ← get_elem? bytes 1
        found ← offers_none (smaller datalen nmethods - 2) 2 bytes
        if found
            then some (true, error)
            else (do error ← set_error_literal auth_failed error; some (false, error)))
      else (do error ← set_error_literal failed error; some (false, error))

-- `strlen` of a pointer that may be NULL, where NULL counts 0.
abbrev pub length_or_zero : Option (List ℕ) → ℕ
length_or_zero none = 0
length_or_zero (some s) = length s

abbrev pub bytes_or_none : Option (List ℕ) → List ℕ
bytes_or_none none = []
bytes_or_none (some s) = s

-- A name or password that is too long gives FALSE, which is a length of 0.
unfoldable pub set_auth_msg :
    List ℕ → Option (List ℕ) → Option (List ℕ) → ErrorVar → Option (List ℕ × ℕ × ErrorVar)
unfolding write_at
set_auth_msg msg username password error =
    let ulen = length_or_zero username in
    let plen = length_or_zero password in
    if (if ltb socks5_max_len ulen then true else ltb socks5_max_len plen)
    then (do error ← set_error_literal failed error; some (msg, 0, error))
    else (do
      msg ← set_byte 0 socks5_auth_version msg
      msg ← set_byte 1 ulen msg
      msg ← write_at 2 (bytes_or_none username) msg
      msg ← set_byte (2 + ulen) plen msg
      msg ← write_at (3 + ulen) (bytes_or_none password) msg
      some (msg, 3 + ulen + plen, error))

unfoldable pub check_auth_status : List ℕ → ErrorVar → Option (Bool × ErrorVar)
check_auth_status bytes error = do
  version ← get_elem? bytes 0
  status ← get_elem? bytes 1
  if (if version == socks5_version then status == socks5_rep_succeeded else false)
      then some (true, error)
      else (do error ← set_error_literal auth_failed error; some (false, error))

-- `g_htons (port)`, as it lies in memory.
abbrev pub port_bytes : ℕ → List ℕ
port_bytes port = port / 256 ∷ port % 256 ∷ []

-- The length is `none` where -1 is returned.
unfoldable pub client_set_connect_msg :
    List ℕ → List ℕ → ℕ → ErrorVar → Option (List ℕ × Option ℕ × ErrorVar)
unfolding write_at
client_set_connect_msg msg hostname port error = do
  msg ← set_byte 0 socks5_version msg
  msg ← set_byte 1 socks5_cmd_connect msg
  msg ← set_byte 2 socks5_reserved msg
  if ltb socks5_max_len (length hostname)
      then (do error ← set_error_literal failed error; some (msg, none, error))
      else (do
        msg ← set_byte 3 socks5_atyp_domainname msg
        msg ← set_byte 4 (length hostname) msg
        msg ← write_at 5 hostname msg
        msg ← write_at (5 + length hostname) (port_bytes port) msg
        some (msg, some (7 + length hostname), error))

-- The result is `*atype`, or `none` where FALSE is returned. The error of a command that is not CONNECT
-- is set, and the reading goes on.
abbrev pub command_error : ℕ → ErrorVar → Option ErrorVar
command_error command error =
    if command == socks5_cmd_connect then some error else set_error_literal failed error

unfoldable pub server_parse_connect_msg : List ℕ → ErrorVar → Option (Option ℕ × ErrorVar)
server_parse_connect_msg bytes error = do
  version ← get_elem? bytes 0
  if version == socks5_version
      then (do
        command ← get_elem? bytes 1
        error ← command_error command error
        atype ← get_elem? bytes 3
        if atype == socks5_atyp_ipv4
            then some (some socks5_atyp_ipv4, error)
            else if atype == socks5_atyp_domainname
            then some (some socks5_atyp_domainname, error)
            else if atype == socks5_atyp_ipv6
            then some (some socks5_atyp_ipv6, error)
            else (do error ← set_error_literal failed error; some (none, error)))
      else (do error ← set_error_literal failed error; some (none, error))

-- The error of a reply that is not `socks5_rep_succeeded`.
abbrev pub reply_error : ℕ → ErrorVar → Option ErrorVar
reply_error rep error =
    if rep == 1
    then set_error_literal failed error
    else if rep == 2
    then set_error_literal not_allowed error
    else if rep == 6
    then set_error_literal host_unreachable error
    else if rep == 4
    then set_error_literal host_unreachable error
    else if rep == 3
    then set_error_literal network_unreachable error
    else if rep == 5
    then set_error_literal connection_refused error
    else if rep == 7
    then set_error_literal failed error
    else set_error_in g_io_error failed error

abbrev pub is_atype : ℕ → Bool
is_atype atype =
    if atype == socks5_atyp_ipv4
    then true
    else if atype == socks5_atyp_ipv6
    then true
    else atype == socks5_atyp_domainname

unfoldable pub client_parse_connect_reply : List ℕ → ErrorVar → Option (Option ℕ × ErrorVar)
client_parse_connect_reply bytes error = do
  version ← get_elem? bytes 0
  if version == socks5_version
      then (do
        rep ← get_elem? bytes 1
        if rep == socks5_rep_succeeded
            then (do
              reserved ← get_elem? bytes 2
              if reserved == socks5_reserved
                  then (do
                    atype ← get_elem? bytes 3
                    if is_atype atype
                        then some (some atype, error)
                        else (do error ← set_error_literal failed error; some (none, error)))
                  else (do error ← set_error_literal failed error; some (none, error)))
            else (do error ← reply_error rep error; some (none, error)))
      else (do error ← set_error_literal failed error; some (none, error))

-- The bytes of a memory before its first NUL; `none` if it has none.
unfoldable pub c_string : List ℕ → Option (List ℕ)
c_string [] = none
c_string (b ∷ bs) =
    let rest = c_string bs in if b == 0 then some [] else (rest >>= λ s. some (b ∷ s))

-- Two bytes are left as they are where the result is 2; an address type that is unknown gives 0.
unfoldable pub server_set_connect_reply : List ℕ → ℕ → ℕ → List ℕ → ℕ → Option (List ℕ × ℕ)
unfolding write_at read_first c_string
server_set_connect_reply msg rep atype bndaddr bndport = do
  msg ← set_byte 0 socks5_version msg
  msg ← set_byte 1 rep msg
  if rep == 0
      then (do
        msg ← set_byte 3 atype msg
        if atype == socks5_atyp_ipv4
            then (do
              msg ← set_byte 4 socks5_atyp_ipv4 msg
              addr ← read_first 4 bndaddr
              msg ← write_at 5 addr msg
              msg ← write_at 9 (port_bytes bndport) msg
              some (msg, 11))
            else if atype == socks5_atyp_domainname
            then (do
              host ← c_string bndaddr
              msg ← set_byte 4 socks5_atyp_domainname msg
              msg ← set_byte 5 (length host % 256) msg
              msg ← write_at 6 host msg
              msg ← write_at (6 + length host) (port_bytes bndport) msg
              some (msg, 8 + length host))
            else if atype == socks5_atyp_ipv6
            then (do
              msg ← set_byte 4 socks5_atyp_ipv6 msg
              addr ← read_first 16 bndaddr
              msg ← write_at 5 addr msg
              msg ← write_at 21 (port_bytes bndport) msg
              some (msg, 23))
            else some (msg, 0))
      else some (msg, 2)
