-- ===== src/Delivery.antt =====
-- jingle-ibb/ibb.c and jingle-ft/filetransfer.c together: a file that one client sends in in-band packets, and
-- that another one receives and writes.
--
-- The two clients have a state each. `carry` is what loudmouth makes, at the receiver, of a stanza that
-- the sender sent.
pub mod Copy
use mcabber_jingle.Base.{ℕ, String, ◌≡◌, Option, none, some, List, [], ◌∷◌, ◌++◌}
use mcabber_jingle.Stanza.{Node, Message, Host}
use mcabber_jingle.Jingle.{Jingle, Sent, ◌>>=◌}
use mcabber_jingle.Calls.{handle_trans_data}
use mcabber_jingle.Ibb.{Glib, data_stanza}
use mcabber_jingle.Ibb.Receive.{Table, jingle_ibb_handle_iq, IsData}
use mcabber_jingle.Ft.{WriteAnswers, handle_data}
use mcabber_jingle.Ft.Sender.{FtStore}

module _ {W : Type 0} (fs : FtStore W) (answers : List ℕ → WriteAnswers) where
  open fs use {load, save}

  -- `handle_data` as the functions of the application register it; its result is not looked at.
  unfoldable pub app_handle_data : ℕ → Option ℕ → List ℕ → Jingle W → Option (Jingle W)
  unfolding handle_data
  app_handle_data af description bytes j = do
    p ← description
    jft ← load p j.world
    r ← handle_data bytes (answers bytes) jft
    some (record j { world = save p r.1 j.world })

  -- The IQs that come in, one after the other.
  unfoldable pub receive_iqs :
      Host → (Node → Option (List ℕ)) → Table → List Message → Jingle W → Option (Jingle W)
  unfolding jingle_ibb_handle_iq handle_trans_data app_handle_data
  receive_iqs h decode table [] j = some j
  receive_iqs h decode table (m ∷ ms) j = do
    r ← jingle_ibb_handle_iq h decode (handle_trans_data h app_handle_data) table m j
    receive_iqs h decode table ms r.1

-- A packet comes in as an IQ with data of the stream, and its bytes are decoded as they were encoded.
pub record Lands (h : Host) (g : Glib) (decode : Node → Option (List ℕ)) (carry : Sent → Message)
    (to : Option String) (sid : String) (bytes : List ℕ) (seq : ℕ) : Type 0 where
  pub dnode : Node
  pub is_data : IsData h (carry (data_stanza g to bytes (some sid) seq)) dnode sid
  pub decoded : decode dnode ≡ some bytes
