-- ===== src/Ft.antt =====
-- jingle-ft/filetransfer.c and filetransfer.h: the application for file transfers.
--
-- A JingleFT is a record; what GLib, the C library and mcabber answer are arguments. `none` is a fault: a
-- read through NULL, or a use of what was freed. Lines that are logged are left out.
pub mod Offer
pub mod Incoming
pub mod Sender
pub mod Files
pub mod Flush
pub mod Commands
pub mod Offering
pub mod Ending
pub mod Outgoing
use mcabber_jingle.Base.{
  ℕ, zero, suc, ◌+◌, ◌%◌, String, Bool, true, false, not, ◌||◌, Option, none, some, List, [], ◌∷◌,
  ◌++◌, ◌==◌, ltb, if◌then◌else◌, length, take, str_eq,
}
use mcabber_jingle.Stanza.{
  Node, Nodes, element, nil, cons, node_name, Host, JingleAction, session_info, JingleContent,
  GError, error_missing, error_badvalue, set_error,
}
use mcabber_jingle.Jingle.{JingleHandleStatus, status_handled, status_not_handled, nodes_of, ◌>>=◌}
use mcabber_jingle.Send.{attribute, add_child}
use mcabber_jingle.Handlers.{attribute_of}
use mcabber_jingle.Ibb.{two_64}

-- `bytes_of` are the bytes of a C string; `strtoll` is `g_ascii_strtoll (s, NULL, 10)` as a residue of
-- 2 ^ 64; `strncasecmp` is `!g_ascii_strncasecmp (a, b, 32)`; `get_string` is what `g_checksum_get_string` gives for
-- the bytes that a checksum has been fed; `get_value` is of loudmouth; `to_iso8601` answers `none` where it fails.
pub record FtHost : Type 0 where
  pub bytes_of : String → List ℕ
  pub isxdigit : ℕ → Bool
  pub strtoll : String → ℕ
  pub show_uint64 : ℕ → String
  pub from_iso8601 : Option String → ℕ
  pub to_iso8601 : ℕ → Option String
  pub path_get_basename : String → String
  pub build_filename : String → String → String
  pub jingle_ft_dir : Option String
  pub strncasecmp : String → String → Bool
  pub get_string : List ℕ → String
  pub get_value : Node → Option String

abbrev pub two_63 : ℕ
two_63 = 9223372036854775808

abbrev pub ns_jingle_app_ft : String
ns_jingle_app_ft = "urn:xmpp:jingle:apps:file-transfer:1"

abbrev pub ns_jingle_app_ft_info : String
ns_jingle_app_ft_info = "urn:xmpp:jingle:apps:file-transfer:info:1"

abbrev pub ns_si_ft : String
ns_si_ft = "http://jabber.org/protocol/si/profile/file-transfer"

pub data JingleFtType : Type 0 where
  ft_offer ft_request : JingleFtType

pub data JingleFtDirection : Type 0 where
  ft_incoming ft_outgoing : JingleFtDirection

pub data JingleFtState : Type 0 where
  ft_pending ft_starting ft_ending ft_reject ft_error : JingleFtState

-- A GIOChannel: the bytes that were written to its file.
pub record GioChannel : Type 0 where
  pub contents : List ℕ

-- `md5` holds the bytes that the checksum has been fed.
pub record JingleFt : Type 0 where
  pub date : ℕ
  pub hash : Option String
  pub name : Option String
  pub size : ℕ
  pub transmit : ℕ
  pub outfile : Option GioChannel
  pub type : JingleFtType
  pub dir : JingleFtDirection
  pub state : JingleFtState
  pub desc : Option String
  pub md5 : Option (List ℕ)

-- `g_new0 (JingleFT, 1)`.
abbrev pub new_jingle_ft : JingleFt
new_jingle_ft = record {
  date = 0;
  hash = none;
  name = none;
  size = 0;
  transmit = 0;
  outfile = none;
  type = ft_offer;
  dir = ft_incoming;
  state = ft_pending;
  desc = none;
  md5 = none;
}

-- The loop of `_is_md5_hash`: `rounds` are left of 32. A string that ends before has no more digits.
unfoldable pub all_xdigits : FtHost → ℕ → List ℕ → Bool
all_xdigits f zero bytes = true
all_xdigits f (suc rounds) [] = false
all_xdigits f (suc rounds) (b ∷ bytes) =
    let rest = all_xdigits f rounds bytes in if f.isxdigit b then rest else false

unfoldable pub is_md5_hash : FtHost → String → Bool
unfolding all_xdigits
is_md5_hash f hash = all_xdigits f 32 (f.bytes_of hash)

abbrev pub has_valid_hash : FtHost → Option String → Bool
has_valid_hash f none = true
has_valid_hash f (some hash) =
    if not (length (f.bytes_of hash) == 32) then false else is_md5_hash f hash

abbrev pub child_of : Host → Option Node → String → Option Node
child_of h none name = none
child_of h (some n) name = Host.get_child h n name

-- Where the file is stored.
abbrev pub stored_name : FtHost → String → String
stored_name f name = elim f.jingle_ft_dir [
  | none ↦ f.build_filename "/tmp" (f.path_get_basename name)
  | some dir ↦ f.build_filename dir (f.path_get_basename name)
]

-- The checks on the size, the name and the hash.
unfoldable pub read_file :
    FtHost
    → Option String
    → Option String
    → String
    → String
    → Option GError
    → Option JingleFt × Option GError
unfolding is_md5_hash
read_file f datestr hash name sizestr err =
    let tmpsize = f.strtoll sizestr % two_64 in
    if not (ltb tmpsize two_63)
    then (none, set_error error_badvalue "the offered file has a negative size" err)
    else if str_eq (some (stored_name f name)) (some ".")
    then (none, set_error error_badvalue "the offered file has an invalid filename" err)
    else if not (has_valid_hash f hash)
    then (none, set_error error_badvalue "the offered file has an invalid hash" err)
    else (
      some (record new_jingle_ft {
        date = f.from_iso8601 datestr;
        hash = hash;
        name = some (stored_name f name);
        size = tmpsize;
      }),
      err,
    )

-- `newfrommessage`, but for the list of files, to which Ft.Commands adds what is read.
unfoldable pub newfrommessage :
    Host → FtHost → JingleContent → Option GError → Option JingleFt × Option GError
unfolding read_file
newfrommessage h f cn err = elim (child_of h cn.description "offer") [
  | none ↦ (none, set_error error_missing "the offer element is missing" err)
  | some offer ↦ elim (Host.get_child h offer "file") [
    | none ↦ (none, set_error error_missing "the file element is missing" err)
    | some file ↦
        if not (str_eq (Host.get_attribute h file "xmlns") (some ns_si_ft))
        then (
          none,
          set_error error_missing "the file transfer offer has an invalid/unsupported namespace"
              err,
        )
        else elim (Host.get_attribute h file "name") [
          | none ↦ (none, set_error error_missing "an attribute of the file element is missing" err)
          | some name ↦ elim (Host.get_attribute h file "size") [
            | none ↦
                (none, set_error error_missing "an attribute of the file element is missing" err)
            | some sizestr ↦
                read_file f (Host.get_attribute h file "date") (Host.get_attribute h file "hash")
                  name sizestr err
          ]
        ]
  ]
]

-- `handle`: the hash that the sender computed.
unfoldable pub handle :
    Host → FtHost → JingleAction → JingleFt → Node → JingleHandleStatus × JingleFt
handle h f session_info jft node =
    if str_eq (Host.get_attribute h node "xmlns") (some ns_jingle_app_ft_info)
    then (if str_eq (some (node_name node)) (some "hash")
        then (status_handled, record jft { hash = f.get_value node })
        else (status_not_handled, jft))
    else (status_not_handled, jft)
handle h f _ jft node = (status_not_handled, jft)

-- The <file> element.
abbrev pub file_node : FtHost → JingleFt → Node
file_node f jft =
    element "file" none
      (("xmlns", ns_si_ft) ∷ attribute "name" jft.name
        ++ ("size", f.show_uint64 jft.size) ∷ attribute "hash" jft.hash
        ++ (if jft.date == 0 then [] else attribute "date" (f.to_iso8601 jft.date)))
      (elim jft.desc [ none ↦ nil | some desc ↦ cons (element "desc" (some desc) [] nil) nil ])

abbrev pub offer_name : JingleFtType → String
offer_name ft_offer = "offer"
offer_name ft_request = "request"

-- `tomessage`: a <content> that has a <description> already is left alone. Its attributes end at a name
-- that is NULL, which no file has that is offered.
unfoldable pub tomessage : Host → FtHost → JingleFt → Node → Node
tomessage h f jft node = elim (Host.get_child h node "description") [
  | some d ↦ node
  | none ↦ add_child node (
      element "description" none (("xmlns", ns_jingle_app_ft) ∷ [])
        (cons (element (offer_name jft.type) none [] (cons (file_node f jft) nil)) nil))
]

-- What a call of GIO answers: G_IO_STATUS_NORMAL or not, and whether it sets the error.
pub record IoAnswer : Type 0 where
  pub is_normal : Bool
  pub sets_error : Bool

abbrev pub is_good : IoAnswer → Bool
is_good a = if a.is_normal then not a.sets_error else false

-- The error branch: it reads `err->message`.
abbrev pub log_error : {A : Type 0} → IoAnswer → A → Option A
log_error a x = if a.sets_error then some x else none

-- What the calls answer: whether the file was opened, and for the writing how many bytes it took.
pub record WriteAnswers : Type 0 where
  pub opened : Bool
  pub encoded : IoAnswer
  pub wrote : IoAnswer
  pub bytes_written : ℕ
  pub flushed : IoAnswer

abbrev pub fed : Option (List ℕ) → List ℕ → List ℕ
fed none bytes = bytes
fed (some old) bytes = old ++ bytes

-- The writing to the open file: the result is FALSE or TRUE, and `transmit` is a guint64.
unfoldable pub write_data : List ℕ → WriteAnswers → JingleFt → GioChannel → Option (Bool × JingleFt)
write_data bytes a jft file =
    let file' : GioChannel = record { contents = file.contents ++ take a.bytes_written bytes } in
    let jft' = record jft { state = ft_starting; outfile = some file' } in
    if is_good a.wrote
    then (if is_good a.flushed
        then (if a.bytes_written == length bytes
            then some (true, record jft' { transmit = (jft.transmit + length bytes) % two_64 })
            else some (false, jft'))
        else log_error a.flushed (false, jft'))
    else log_error a.wrote (false, jft')

-- `handle_data`: a chunk of the file is fed to the checksum and written.
unfoldable pub handle_data : List ℕ → WriteAnswers → JingleFt → Option (Bool × JingleFt)
unfolding write_data
handle_data bytes a jft = elim jft.dir [
  | ft_outgoing ↦ some (false, jft)
  | ft_incoming ↦
      let jft1 = record jft { md5 = some (fed jft.md5 bytes) } in
      elim jft.outfile [
        | some file ↦ write_data bytes a jft1 file
        | none ↦
            if a.opened
            then (let file : GioChannel = record { contents = [] } in
                let jft2 = record jft1 { outfile = some file; state = ft_starting } in
                if is_good a.encoded
                then write_data bytes a jft2 file
                else log_error a.encoded (false, jft2))
            else some (false, jft1)
      ]
]

-- `_check_hash`, on what the checksum has been fed.
unfoldable pub check_hash : FtHost → Option String → Option (List ℕ) → Bool
check_hash f none md5 = false
check_hash f (some hash1) none = false
check_hash f (some hash1) (some bytes) = f.strncasecmp hash1 (f.get_string bytes)

-- What `stop` says of a transfer that was not cut short.
pub data Verdict : Type 0 where
  cut_short corrupt verified not_verified : Verdict

-- The end of `stop`: the hash is checked if both sides have one.
unfoldable pub judge : FtHost → Option String → Option (List ℕ) → Verdict
unfolding check_hash
judge f none md5 = not_verified
judge f (some hash) none = not_verified
judge f (some hash) (some bytes) =
    if check_hash f (some hash) (some bytes) then verified else corrupt

-- `stop`, with what closing the file answers; a close that fails is logged only.
unfoldable pub stop_transfer : FtHost → IoAnswer → JingleFt → Option (Verdict × JingleFt)
unfolding judge
stop_transfer f closed jft = do
  jft ← elim jft.outfile as (λ o. Option JingleFt) [
    | none ↦ some jft
    | some file ↦ if is_good closed then some jft else log_error closed jft
  ]
  if ltb jft.transmit jft.size
      then some (cut_short, record jft { state = ft_error })
      else some (judge f jft.hash jft.md5, record jft { state = ft_ending })
