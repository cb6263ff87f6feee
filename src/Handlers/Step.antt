-- ===== src/Handlers/Step.antt =====
-- jingle/action-handlers.c: what every handler keeps and what it answers.
use mcabber_jingle.Base.{
  ℕ, ◌≤◌, String, ◌≡◌, refl, sym, subst, ◌∙◌, Option, some, List, [], ◌∷◌, ◌++◌, arith, All,
  append_assoc, append-nil,
}
use mcabber_jingle.Stanza.{Host, Node, Message, LmMessageSubType, sub_result, sub_error, JingleNode}
use mcabber_jingle.Session.Addresses.{ContentsBelow}
use mcabber_jingle.Session.Keys.{Key, keys, DistinctKeys, KeysBelow}
use mcabber_jingle.Jingle.{
  Jingle, Sent, reply, request, jingle_ack_iq, jingle_send_iq_error, jingle_new_iq_error,
}
use mcabber_jingle.Handlers.{refuse}
use mcabber_jingle.Handlers.Keeps.{Keeps}

-- Sessions stand at distinct addresses and none hides another from a search; so do the contents of
-- each session; and all addresses were given out.
pub record IsConsistent (h : Host) {W : Type 0} (j : Jingle W) : Type 0 where
  pub keys_distinct : DistinctKeys h (keys j.sessions)
  pub keys_below : KeysBelow j.fresh (keys j.sessions)
  pub contents_below : All (ContentsBelow j.fresh) j.sessions

abbrev pub IsRequest : Sent → Type 0
IsRequest (reply m type nodes) = ⊥
IsRequest (request to node) = Unit {0}

-- No reply was sent between two states of the outbox.
pub record Requests (before after : List Sent) : Type 0 where
  pub rest : List Sent
  pub place : after ≡ before ++ rest
  pub no_reply : All IsRequest rest

-- Exactly one reply was sent, first of all, and it answers `msg`.
pub record Answered (msg : Message) (before after : List Sent) : Type 0 where
  pub type : LmMessageSubType
  pub nodes : List Node
  pub rest : List Sent
  pub place : after ≡ before ++ reply msg type nodes ∷ rest
  pub no_more : All IsRequest rest

pub Requests-same : (before after : List Sent) → after ≡ before → Requests before after
Requests-same before after e = record {
  rest = [];
  place = e ∙ sym (append-nil before);
  no_reply = tt;
}

pub KeysBelow-mono : (m n : ℕ) (ks : List Key) → m ≤ n → KeysBelow m ks → KeysBelow n ks
KeysBelow-mono m n [] h b = tt
KeysBelow-mono m n (k ∷ ks) h b = (omega (arith, b.0), KeysBelow-mono m n ks h b.1)

module _ (h : Host) {W : Type 0} where
  pub Keeps-IsConsistent : (j j' : Jingle W) → Keeps j j' → IsConsistent h j → IsConsistent h j'
  Keeps-IsConsistent j j' k c = record {
    keys_distinct = subst (DistinctKeys h) (sym k.keys_same) c.keys_distinct;
    keys_below =
        subst (KeysBelow j'.fresh) (sym k.keys_same)
          (KeysBelow-mono j.fresh j'.fresh _ k.fresh_grows c.keys_below);
    contents_below = k.contents_below c.contents_below;
  }

  -- What a handler does with the stanza `msg`.
  pub record Step (msg : Message) (j j' : Jingle W) : Type 0 where
    pub consistent : IsConsistent h j → IsConsistent h j'
    pub answered : Answered msg j.sent j'.sent

  -- A state that differs by what was sent only.
  same_store :
      (j : Jingle W) (s : List Sent) → IsConsistent h j → IsConsistent h (record j { sent = s })
  same_store j s c = record {
    keys_distinct = c.keys_distinct;
    keys_below = c.keys_below;
    contents_below = c.contents_below;
  }

  pub error-Step :
      (msg : Message) (type : String) (cond jcond : Option String) (j : Jingle W)
      → Step msg j (jingle_send_iq_error h msg type cond jcond j)
  unfolding jingle_send_iq_error jingle_new_iq_error
  error-Step msg type cond jcond j = record {
    consistent = same_store j _;
    answered = record { type = sub_error; nodes = _; rest = []; place = refl; no_more = tt };
  }

  pub refuse-Step :
      (msg : Message) (type : String) (cond jcond : Option String) (jn jn' : JingleNode)
      (j j' : Jingle W)
      → refuse h msg type cond jcond jn j ≡ some (jn', j')
      → Step msg j j'
  refuse-Step msg type cond jcond jn jn' j j' e =
      subst (Step msg j) (ground arith) (error-Step msg type cond jcond j)

  -- An acknowledgement, and then no more replies.
  pub ack-Step :
      (msg : Message) (j j' : Jingle W)
      → (IsConsistent h (jingle_ack_iq msg j) → IsConsistent h j')
      → Requests (jingle_ack_iq msg j).sent j'.sent
      → Step msg j j'
  unfolding jingle_ack_iq
  ack-Step msg j j' c r = record {
    consistent = λ k. c (same_store j _ k);
    answered = record {
      type = sub_result;
      nodes = [];
      rest = r.rest;
      place = r.place ∙ append_assoc j.sent (reply msg sub_result [] ∷ []) r.rest;
      no_more = r.no_reply;
    };
  }
