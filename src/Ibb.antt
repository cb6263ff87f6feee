-- ===== src/Ibb.antt =====
-- jingle-ibb/ibb.c and ibb.h: the transport by in-band bytestreams.
--
-- `none` is a read or write through a NULL pointer or out of the bounds of the buffer. Integers are
-- residues of their width: `guint` and `gint` of 2 ^ 32, `gint64`, `guint64` and `gsize` of 2 ^ 64. The
-- buffer is the list of its bytes.
pub mod Buffer
pub mod Steps
pub mod Ended
pub mod Stream
pub mod Attributes
pub mod Receive
use mcabber_jingle.Base.{
  smaller, ℕ, suc, ◌+◌, ◌-◌, ◌%◌, ◌^◌, String, Bool, true, false, not, Option, none, some, List, [],
  ◌∷◌, ◌++◌, ◌||◌, leb, ltb, if◌then◌else◌, length, take, drop, str_eq,
}
use mcabber_jingle.Stanza.{
  Node, element, nil, Message, Host, JingleAction, session_accept, JingleContent, GError,
  error_missing, error_badvalue, set_error,
}
use mcabber_jingle.Session.{
  JingleSession, SessionContent, session_find_by_sid, session_find_sessioncontent,
}
use mcabber_jingle.Jingle.{
  Jingle, ContentRef, Sent, request, send, JingleHandleStatus, status_handled, status_not_handled,
  on_ibb_ack, ◌>>=◌,
}
use mcabber_jingle.Memory.{write_at, read_first, grow_to}
use mcabber_jingle.Ack.{jingle_new_ack_handler}
use mcabber_jingle.Send.{attribute, add_child}
use mcabber_jingle.Handlers.{attribute_of, is_null}

-- `strtoll` is `g_ascii_strtoll (s, NULL, 10)` as a residue of 2 ^ 64, `base64_encode` is of GLib, and
-- `show_uint`, `show_int64` print a number as `"%i"` and `"%lli"` do.
pub record Glib : Type 0 where
  pub strtoll : String → ℕ
  pub base64_encode : List ℕ → String
  pub show_uint : ℕ → String
  pub show_int64 : ℕ → String

abbrev pub two_31 : ℕ
two_31 = 2147483648

abbrev pub two_32 : ℕ
two_32 = 4294967296

abbrev pub two_64 : ℕ
two_64 = 18446744073709551616

abbrev pub ibb_block_size_max : ℕ
ibb_block_size_max = 4096

abbrev pub ns_jingle_transport_ibb : String
ns_jingle_transport_ibb = "urn:xmpp:jingle:transports:ibb:0"

abbrev pub ns_transport_ibb : String
ns_transport_ibb = "http://jabber.org/protocol/ibb"

pub record JingleIbb : Type 0 where
  pub blocksize : ℕ
  pub sid : Option String
  pub buf : List ℕ
  pub size_buf : ℕ
  pub dataleft : ℕ
  pub seq : ℕ

-- A `gint` where a `gsize` is wanted: its sign is extended.
abbrev pub as_gsize : ℕ → ℕ
as_gsize n = if ltb n two_31 then n else n + (two_64 - two_32)

-- `new`, with the identifier that `gen_ibb_sid` drew.
unfoldable pub new_ibb : String → JingleIbb
new_ibb sid = record {
  blocksize = ibb_block_size_max;
  sid = some sid;
  buf = [];
  size_buf = 0;
  dataleft = 0;
  seq = 0;
}

-- The struct for a transport element: the size is clamped, and a `guint` is never below 0.
abbrev pub clamp : ℕ → ℕ
clamp n = if ltb ibb_block_size_max n then ibb_block_size_max else n

unfoldable pub newfrommessage :
    Host → Glib → JingleContent → Option GError → Option JingleIbb × Option GError
unfolding new_ibb
newfrommessage h g cn err = elim (attribute_of h cn.transport "sid") [
  | none ↦ (none, set_error error_missing "an attribute of the transport element is missing" err)
  | some sid ↦ elim (attribute_of h cn.transport "block-size") [
    | none ↦ (none, set_error error_missing "an attribute of the transport element is missing" err)
    | some blocksize ↦
        let size = clamp (g.strtoll blocksize % two_32) in
        if ltb size 0
        then (none, set_error error_badvalue "block-size is negative" err)
        else (some (record (new_ibb sid) { blocksize = size }), err)
  ]
]

-- `handle`; a <transport> with no block size is read through NULL.
unfoldable pub handle :
    Host → Glib → JingleAction → JingleIbb → Option Node → Option (JingleHandleStatus × JingleIbb)
handle h g session_accept ibb child =
    if str_eq (attribute_of h child "xmlns") (some ns_jingle_transport_ibb)
    then (do
      size ← attribute_of h child "block-size"
      some (
        status_handled,
        record ibb { blocksize = smaller (g.strtoll size % two_64) ibb.blocksize },
      ))
    else some (status_not_handled, ibb)
handle h g _ ibb child = some (status_not_handled, ibb)

-- `tomessage`: a <content> that has a <transport> already is left alone.
unfoldable pub tomessage : Host → Glib → JingleIbb → Node → Node
tomessage h g ibb node = elim (Host.get_child h node "transport") [
  | some t ↦ node
  | none ↦ elim ibb.sid [
    | none ↦ add_child node (element "transport" none (("xmlns", ns_jingle_transport_ibb) ∷ []) nil)
    | some sid ↦ add_child node (
        element "transport" none
          (("xmlns", ns_jingle_transport_ibb)
            ∷ ("sid", sid)
            ∷ ("block-size", g.show_uint ibb.blocksize)
            ∷ [])
          nil)
  ]
]

-- The first part of `send`: the bytes are put after those that wait.
unfoldable pub store_data : JingleIbb → List ℕ → Option JingleIbb
unfolding write_at grow_to
store_data ibb bytes =
    let total = (length bytes + as_gsize ibb.dataleft) % two_64 in
    if leb total (as_gsize ibb.size_buf)
    then (do
      buf ← write_at ibb.dataleft bytes ibb.buf
      some (record ibb { buf = buf; dataleft = (ibb.dataleft + length bytes) % two_32 }))
    else (do
      buf ← write_at ibb.dataleft bytes (grow_to (total % two_32) ibb.buf)
      some (record ibb { buf = buf; size_buf = total % two_32; dataleft = total % two_32 }))

-- The block that is sent next is taken out of the buffer, and the rest moves to its start.
unfoldable pub take_block : JingleIbb → Option (List ℕ × JingleIbb)
unfolding read_first write_at
take_block ibb = do
  block ← read_first ibb.blocksize ibb.buf
  let left = (ibb.dataleft + (two_32 - ibb.blocksize)) % two_32
  rest ← read_first left (drop ibb.blocksize ibb.buf)
  buf ← write_at 0 rest ibb.buf
  some (block, record ibb { buf = buf; dataleft = left })

-- The <data> stanza of `_send_internal`.
unfoldable pub data_stanza : Glib → Option String → List ℕ → Option String → ℕ → Sent
data_stanza g to bytes sid seq = request to (
    element "data" (some (g.base64_encode bytes)) (("xmlns", ns_transport_ibb) ∷ ibb_attributes sid)
      nil)
  where
    ibb_attributes : Option String → List (String × String)
    ibb_attributes none = []
    ibb_attributes (some s) = ("sid", s) ∷ ("seq", g.show_int64 seq) ∷ []

-- `handle_trans_next` asks the application for more, which may call back: it is an argument.
abbrev pub Next : Type 0 → Type 0
Next W = ContentRef → JingleIbb → Jingle W → Option (JingleIbb × Jingle W)

module _ (h : Host) (g : Glib) {W : Type 0} where
  -- `_send_internal`: the packet has a handle that never times out, and is counted.
  unfoldable pub send_internal :
      ContentRef → Option String → List ℕ → JingleIbb → Jingle W → JingleIbb × Jingle W
  unfolding data_stanza jingle_new_ack_handler
  send_internal sc to bytes ibb j = (
    record ibb { seq = (ibb.seq + 1) % two_64 },
    send (data_stanza g to bytes ibb.sid ibb.seq)
        (jingle_new_ack_handler (some (on_ibb_ack sc)) 0 j),
  )

  -- A block goes to `sess->to`.
  unfoldable pub send_block : ContentRef → JingleIbb → Jingle W → Option (JingleIbb × Jingle W)
  unfolding take_block send_internal session_find_by_sid
  send_block sc ibb j = do
    sess ← session_find_by_sid h sc.sid sc.from j.sessions
    taken ← take_block ibb
    some (send_internal sc sess.to taken.0 taken.1 j)

  unfoldable pub send_data :
      Next W → ContentRef → JingleIbb → List ℕ → Jingle W → Option (JingleIbb × Jingle W)
  unfolding store_data send_block
  send_data next sc ibb bytes j = do
    stored ← store_data ibb bytes
    if ltb stored.dataleft stored.blocksize then next sc stored j else send_block sc stored j

  -- `jingle_ibb_handle_ack_iq_send`, for the struct that `sc2->transport` points to; the session may be
  -- gone.
  unfoldable pub jingle_ibb_handle_ack_iq_send :
      Next W → ContentRef → JingleIbb → Jingle W → Option (JingleIbb × Jingle W)
  unfolding send_block session_find_by_sid session_find_sessioncontent
  jingle_ibb_handle_ack_iq_send next sc ibb j =
      elim (session_find_by_sid h sc.sid sc.from j.sessions) [
        | none ↦ some (ibb, j)
        | some sess ↦ elim (session_find_sessioncontent sess sc.name) [
          | none ↦ none
          | some sc2 ↦ if ltb ibb.blocksize ibb.dataleft then send_block sc ibb j else next sc ibb j
        ]
      ]

  -- `end`: what waits is sent, and the buffer freed.
  unfoldable pub end_stream : ContentRef → JingleIbb → Jingle W → Option (Jingle W)
  unfolding read_first send_internal session_find_by_sid
  end_stream sc ibb j =
      if ltb 0 ibb.dataleft
      then (do
        sess ← session_find_by_sid h sc.sid sc.from j.sessions
        bytes ← read_first ibb.dataleft ibb.buf
        some (send_internal sc sess.to bytes ibb j).1)
      else some j
