-- ===== src/Ibb/Ended.antt =====
-- jingle-ibb/ibb.c: what the end of a stream leaves as it was.
use mcabber_jingle.Base.{◌≡◌, refl, inl, inr, Option, none, some, ltb, Bool-cases, Option-cases}
use mcabber_jingle.Stanza.{Host}
use mcabber_jingle.Session.{session_find_by_sid}
use mcabber_jingle.Jingle.{Jingle, ContentRef}
use mcabber_jingle.Ack.{jingle_new_ack_handler}
use mcabber_jingle.Memory.{read_first}
use mcabber_jingle.Ibb.{Glib, JingleIbb, send_internal, end_stream}

-- What is left of `j`, where there is a result: its sessions and the state of the modules.
abbrev pub Kept : {W : Type 0} → Jingle W → Option (Jingle W) → Type 0
Kept j none = Unit
Kept j (some k) = (k.sessions ≡ j.sessions) × (k.world ≡ j.world)

pub end_stream-Kept :
    (h : Host) (g : Glib) {W : Type 0} (sc : ContentRef) (ibb : JingleIbb) (j : Jingle W)
    → Kept j (end_stream h g sc ibb j)
unfolding end_stream send_internal jingle_new_ack_handler read_first
end_stream-Kept h g sc ibb j = elim (Bool-cases (ltb 0 ibb.dataleft)) [
  | inr empty ↦ rw empty (refl, refl)
  | inl waits ↦ elim (Option-cases (session_find_by_sid h sc.sid sc.from j.sessions)) [
    | inl gone ↦ rw (waits, gone) tt
    | inr (sess, found) ↦ elim (Option-cases (read_first ibb.dataleft ibb.buf)) [
      | inl beyond ↦ rw (waits, found, beyond) tt
      | inr (bytes, read) ↦ rw (waits, found, read) (refl, refl)
    ]
  ]
]
