-- ===== src/Ft/Offering.antt =====
-- jingle-ft/filetransfer.c: the command that sends a file, down to the stanza that offers it.
use mcabber_jingle.Base.{
  ℕ, suc, String, ◌≡◌, refl, ap, ◌∙◌, true, Option, none, some, [], ◌∷◌, ◌++◌, arith,
}
use mcabber_jingle.Stanza.{Host, Node, session_initiate}
use mcabber_jingle.Registry.{
  jingle_get_appfuncs, jingle_get_transportfuncs, jingle_transport_for_app, chosen,
}
use mcabber_jingle.Session.{session_find_by_app}
use mcabber_jingle.Session.Keys.{KeysBelow, keys}
use mcabber_jingle.Handlers.Step.{KeysBelow-mono}
use mcabber_jingle.Jingle.{Jingle, Modules, request, ◌>>=◌}
use mcabber_jingle.Send.{set_attribute, lm_message_from_jinglesession}
use mcabber_jingle.Calls.{App, new_session_with_apps, jingle_handle_app}
use mcabber_jingle.Calls.Offered.{with_transport, offered_app-Sent}
use mcabber_jingle.Roster.{jingle_find_compatible_res}
use mcabber_jingle.Ft.{FtHost, JingleFt, ns_jingle_app_ft}
use mcabber_jingle.Ft.Sender.{FtStore}
use mcabber_jingle.Ft.Commands.{
  FileAnswers, FtList, new_file, Recipient, jft_new, file_namespaces, offer_to, offer_file,
  after_new, jft_send,
}

-- The list with a file more.
abbrev pub listed : FtList → ℕ → FtList
listed files p = record {
  info_list =
      files.info_list ++ record { addr = suc p; index = suc files.last_index; jft = p } ∷ [];
  last_index = suc files.last_index;
}

abbrev pub file_app : ℕ → App
file_app p = record { name = "file"; ns = ns_jingle_app_ft; app_data = some p }

module _ (h : Host) (f : FtHost) {W : Type 0} (fs : FtStore W) (m : Modules W)
    (new_trans : ℕ → W → Option ℕ × W) (myjid : Option String) (sid : String) (r : Recipient) where
  -- The state after `_new`.
  abbrev pub with_file : JingleFt → Jingle W → Jingle W
  with_file x j = record j { fresh = suc (suc j.fresh); world = FtStore.save fs j.fresh x j.world }

  made_lem :
      (name filename : String) (a : FileAnswers) (x : JingleFt) (files : FtList) (j : Jingle W)
      → new_file f name filename a ≡ (true, x)
      → jft_new h f fs name filename a files j ≡ (some j.fresh, listed files j.fresh, with_file x j)
  unfolding jft_new
  made_lem name filename a x files j makes = rw (makes, jft_new) refl

  offer_lem :
      (jid ressource : String) (p : ℕ) (j : Jingle W)
      → r.current_jid ≡ some jid
      → jingle_find_compatible_res r.buddies jid file_namespaces ≡ some (some ressource)
      → offer_file h f fs m true new_trans myjid sid r p j ≡ (
          new_session_with_apps myjid sid (r.full_jid jid ressource) (file_app p ∷ []) j
          >>= jingle_handle_app h m true new_trans "file" ns_jingle_app_ft p)
  unfolding offer_file offer_to
  offer_lem jid ressource p j has_jid has_res = rw (has_jid, has_res, offer_file) refl

  send_lem :
      (name filename : String) (a : FileAnswers) (x : JingleFt) (files : FtList) (j j' : Jingle W)
      → new_file f name filename a ≡ (true, x)
      → offer_file h f fs m true new_trans myjid sid r j.fresh (with_file x j) ≡ some j'
      → jft_send h f fs m true new_trans myjid sid r (some name) filename a files j
        ≡ some (listed files j.fresh, j')
  unfolding jft_send after_new
  send_lem name filename a x files j j' makes offers =
      ap (after_new h f fs m true new_trans myjid sid r) (made_lem name filename a x files j makes)
      ∙ rw (offers, after_new) refl

  -- A file that can be opened, sent to a contact with a compatible resource, with the application and a transport for it
  -- registered: the file is put last in the list, its session is live with the transport, and one
  -- stanza is sent, the session-initiate about that session, to the full JID of that resource.
  pub jft_send-Sent :
      (name filename : String) (a : FileAnswers) (x : JingleFt) (files : FtList)
      (jid ressource xmlns : String) (af tf : ℕ) (j : Jingle W)
      → new_file f name filename a ≡ (true, x)
      → r.current_jid ≡ some jid
      → jingle_find_compatible_res r.buddies jid file_namespaces ≡ some (some ressource)
      → jingle_get_appfuncs (some ns_jingle_app_ft) j.registry ≡ some af
      → jingle_transport_for_app (some ns_jingle_app_ft) none j.registry ≡ chosen (some xmlns) none
      → jingle_get_transportfuncs (some xmlns) j.registry ≡ some tf
      → session_find_by_app j.fresh j.sessions ≡ none
      → KeysBelow j.fresh (keys j.sessions)
      → let j1 = with_file x j in
        let made = new_trans tf j1.world in
        let t =
          with_transport j.registry j1.fresh myjid sid
            (r.full_jid jid ressource)
            (file_app j.fresh)
            xmlns
            tf
            made.0 in
        (node : Node) × (j' : Jingle W) × (lm_message_from_jinglesession m made.1 t session_initiate
          ≡ some (some (some (r.full_jid jid ressource), node)))
        × (jft_send h f fs m true new_trans myjid sid r (some name) filename a files j
            ≡ some (listed files j.fresh, j'))
        × (j'.sent
            ≡ j.sent
              ++ request (some (r.full_jid jid ressource)) (set_attribute "initiator" myjid node)
                ∷ [])
        × (j'.sessions ≡ j.sessions ++ t ∷ [])
  jft_send-Sent name filename a x files jid ressource xmlns af tf j makes has_jid has_res has_af
        choice has_tf unheld below =
      let (node, j', built, offers, sent, kept) =
        offered_app-Sent h m new_trans myjid sid (r.full_jid jid ressource) (file_app j.fresh)
          j.fresh af tf xmlns (with_file x j) refl has_af choice has_tf unheld
          (KeysBelow-mono j.fresh (suc (suc j.fresh)) (keys j.sessions) (omega arith) below) in
      let offered = offer_lem jid ressource j.fresh (with_file x j) has_jid has_res ∙ offers in
      (node, j', built, send_lem name filename a x files j j' makes offered, sent, kept)
