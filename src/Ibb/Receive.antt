-- ===== src/Ibb/Receive.antt =====
-- jingle-ibb/ibb.c: the table of streams, and the IQs that carry their data.
--
-- The table `JingleIBBs` lists the address of each stream under its identifier. `decode` is
-- `g_base64_decode` of the value of a node, `none` if the node has no text: then the length is not set, and
-- reading it is a fault. `deliver` is `handle_trans_data` of jingle/jingle.c, which
-- calls the application.
use mcabber_jingle.Base.{
  ℕ, String, ◌≡◌, refl, sym, ap, ◌∙◌, ◌≢◌, inl, inr, Bool, not, Option, none, some, List, [], ◌∷◌,
  if◌then◌else◌, find?, str_eq, str_eq_iff, str_eq_self, arith, Bool-cases, remove_first,
}
use mcabber_jingle.Stanza.{Node, Message, sub_set, Host, JingleContent, GError}
use mcabber_jingle.Jingle.{Jingle, jingle_ack_iq, ◌>>=◌}
use mcabber_jingle.Handlers.Dispatch.{
  LmHandlerResult, allow_more_handlers, remove_message, is_set_iq,
}
use mcabber_jingle.Ibb.{Glib, JingleIbb, newfrommessage, ns_transport_ibb}

abbrev pub Table : Type 0
Table = List (String × ℕ)

abbrev pub is_entry : Option String → String × ℕ → Bool
is_entry sid e = str_eq (some e.0) sid

abbrev address_of : Option (String × ℕ) → Option ℕ
address_of none = none
address_of (some e) = some e.1

-- `g_hash_table_lookup` and `g_hash_table_insert`, which replaces.
unfoldable pub lookup_stream : String → Table → Option ℕ
lookup_stream sid table = address_of (find? (is_entry (some sid)) table)

unfoldable pub insert_stream : String → ℕ → Table → Table
insert_stream sid a table = (sid, a) ∷ remove_first (is_entry (some sid)) table

abbrev insert_made : Option JingleIbb → ℕ → Table → Table
insert_made none a table = table
insert_made (some ibb) a table = elim ibb.sid [
  | none ↦ table
  | some sid ↦ (sid, a) ∷ remove_first (is_entry (some sid)) table
]

-- `newfrommessage` with the table; `a` is the address of the struct.
unfoldable pub newfrommessage_in :
    Host
    → Glib
    → JingleContent
    → Option GError
    → ℕ
    → Table
    → Option JingleIbb × Option GError × Table
unfolding insert_stream newfrommessage
newfrommessage_in h g cn err a table =
    let r = newfrommessage h g cn err in (r.0, r.1, insert_made r.0 a table)

-- `jingle_ibb_handle_iq`; a <data> with no `sid` is looked up by a NULL key. Its `seq` is read, and not
-- looked at.
unfoldable pub jingle_ibb_handle_iq :
    Host
    → (Node → Option (List ℕ))
    → {W : Type 0} → (ℕ → List ℕ → Jingle W → Option (Jingle W))
    → Table
    → Message
    → Jingle W
    → Option (LmHandlerResult × Jingle W)
unfolding lookup_stream jingle_ack_iq
jingle_ibb_handle_iq h decode deliver table msg j =
    if not (is_set_iq msg.sub_type)
    then some (allow_more_handlers, j)
    else elim (Host.get_child h msg.node "data") [
      | none ↦ some (allow_more_handlers, j)
      | some dnode ↦
          if not (str_eq (Host.get_attribute h dnode "xmlns") (some ns_transport_ibb))
          then some (allow_more_handlers, j)
          else (do
            sid ← Host.get_attribute h dnode "sid"
            elim (lookup_stream sid table) [
              | none ↦ some (allow_more_handlers, j)
              | some a ↦ do
                bytes ← decode dnode
                j' ← deliver a bytes (jingle_ack_iq msg j)
                some (remove_message, j')
            ])
    ]

find_after_remove :
    (sid other : String) (table : Table)
    → sid ≢ other
    → find? (is_entry (some other)) (remove_first (is_entry (some sid)) table)
      ≡ find? (is_entry (some other)) table
find_after_remove sid other [] ne = refl
find_after_remove sid other (e ∷ es) ne = ground (
  arith,
  find_after_remove sid other es ne,
  str_eq_iff (some e.0) (some sid),
  str_eq_iff (some e.0) (some other),
)

-- A stream that is entered is found under its identifier, in place of one that was there, and what is
-- found under another identifier stays as it was.
pub lookup_stream-insert_stream :
    (sid other : String) (a : ℕ) (table : Table)
    → lookup_stream other (insert_stream sid a table)
      ≡ (if str_eq (some sid) (some other) then some a else lookup_stream other table)
unfolding lookup_stream insert_stream
lookup_stream-insert_stream sid other a table = elim (Bool-cases (str_eq (some sid) (some other))) [
  | inl same ↦ rw same
  | inr differ ↦
      let ne : sid ≢ other = λ e. ground (arith, str_eq_iff (some sid) (some other)) in
      rw differ (ap address_of (find_after_remove sid other table ne))
]

-- An IQ that carries data of the stream `sid`.
pub record IsData (h : Host) (msg : Message) (dnode : Node) (sid : String) : Type 0 where
  pub set : msg.sub_type ≡ sub_set
  pub child : Host.get_child h msg.node "data" ≡ some dnode
  pub namespace : Host.get_attribute h dnode "xmlns" ≡ some ns_transport_ibb
  pub for_stream : Host.get_attribute h dnode "sid" ≡ some sid

-- An IQ with data of a known stream is acknowledged, and then what it carries is given to that stream's
-- content; one of an unknown stream is left to other handlers.
pub handle_iq_lem :
    (h : Host) (decode : Node → Option (List ℕ)) {W : Type 0}
    (deliver : ℕ → List ℕ → Jingle W → Option (Jingle W)) (table : Table) (msg : Message)
    (dnode : Node) (sid : String) (j : Jingle W)
    → IsData h msg dnode sid
    → jingle_ibb_handle_iq h decode deliver table msg j
      ≡ elim (lookup_stream sid table) as (λ x. Option (LmHandlerResult × Jingle W)) [
        | none ↦ some (allow_more_handlers, j)
        | some a ↦ decode dnode >>= λ bytes.
            deliver a bytes (jingle_ack_iq msg j) >>= λ j'. some (remove_message, j')
      ]
unfolding jingle_ibb_handle_iq
handle_iq_lem h decode deliver table msg dnode sid j d =
    rw (d.set, d.child, d.namespace, d.for_stream, str_eq_self (some ns_transport_ibb))

-- A stream that is made from a <transport> element receives: an IQ with data of its identifier is
-- acknowledged, and then what it carries is given to the stream at the address where it was made.
pub handle_iq-newfrommessage :
    (h : Host) (g : Glib) (decode : Node → Option (List ℕ)) {W : Type 0}
    (deliver : ℕ → List ℕ → Jingle W → Option (Jingle W)) (cn : JingleContent)
    (err err' : Option GError) (a : ℕ) (table table' : Table) (ibb : JingleIbb) (msg : Message)
    (dnode : Node) (sid : String) (j : Jingle W)
    → newfrommessage_in h g cn err a table ≡ (some ibb, err', table')
    → ibb.sid ≡ some sid
    → IsData h msg dnode sid
    → jingle_ibb_handle_iq h decode deliver table' msg j ≡ (
        decode dnode >>= λ bytes.
        deliver a bytes (jingle_ack_iq msg j) >>= λ j'. some (remove_message, j'))
unfolding newfrommessage_in
handle_iq-newfrommessage h g decode deliver cn err err' a table table' ibb msg dnode sid j e has_sid
      d =
    let made : (newfrommessage h g cn err).0 ≡ some ibb = ap (λ r. r.0) e in
    let same : insert_made (newfrommessage h g cn err).0 a table ≡ table' = ap (λ r. r.2) e in
    let entered : table' ≡ insert_stream sid a table =
      sym same ∙ ap (λ o. insert_made o a table) made ∙ rw (has_sid, insert_stream) in
    let found : lookup_stream sid table' ≡ some a =
      ap (lookup_stream sid) entered
      ∙ lookup_stream-insert_stream sid sid a table
      ∙ rw (str_eq_self (some sid)) in
    handle_iq_lem h decode deliver table' msg dnode sid j d ∙ rw found
