-- ===== src/Send/Callbacks.antt =====
-- jingle/send.c: what is done with the answer to a session-accept or a session-initiate, or with the
-- lack of one.
use mcabber_jingle.Base.{
  ℕ, ◌≡◌, refl, ◌∙◌, ◌≢◌, ◌⊎◌, inl, inr, Option, none, some, [], arith, Option-cases,
}
use mcabber_jingle.Stanza.{
  Host, Message, LmMessageSubType, sub_result, sub_error, sub_set, sub_other,
}
use mcabber_jingle.Session.{JingleSession, get_session, session_remove}
use mcabber_jingle.Session.Addresses.{DistinctContents}
use mcabber_jingle.Session.Links.{session_delete_lem}
use mcabber_jingle.Jingle.{Jingle}
use mcabber_jingle.Ack.{JingleAckType, ack_response, ack_timeout}
use mcabber_jingle.Send.{jingle_handle_ack_iq_session}

module _ (h : Host) {W : Type 0} where
  -- What comes of an answer about the session `s`.
  pub data AnswerOutcome (s : JingleSession) (type : JingleAckType) (answer : Option Message)
      (j : Jingle W) (r : Option (Jingle W)) : Type 0 where
    goes_on :
        (mess : Message)
        → type ≡ ack_response
        → answer ≡ some mess
        → mess.sub_type ≡ sub_result
        → r ≡ some j
        → AnswerOutcome s type answer j r
    ends :
        ((type ≡ ack_timeout)
          ⊎ ((mess : Message) × (answer ≡ some mess) × (mess.sub_type ≢ sub_result)))
        → s.content ≡ []
        → r ≡ some (record j { sessions = session_remove s.addr j.sessions })
        → AnswerOutcome s type answer j r
    reads_freed :
        ((type ≡ ack_timeout)
          ⊎ ((mess : Message) × (answer ≡ some mess) × (mess.sub_type ≢ sub_result)))
        → s.content ≢ []
        → r ≡ none
        → AnswerOutcome s type answer j r
    no_message : type ≡ ack_response → answer ≡ none → r ≡ none → AnswerOutcome s type answer j r
    no_error_child :
        (mess : Message)
        → answer ≡ some mess
        → mess.sub_type ≡ sub_error
        → Host.get_child h mess.node "error" ≡ none
        → r ≡ none
        → AnswerOutcome s type answer j r

  ended :
      (s : JingleSession) (mess : Message) (j : Jingle W)
      → get_session s.addr j.sessions ≡ some s
      → DistinctContents s.content
      → mess.sub_type ≢ sub_result
      → jingle_handle_ack_iq_session h s.addr ack_response (some mess) j
        ≡ jingle_handle_ack_iq_session h s.addr ack_timeout (some mess) j
      → AnswerOutcome s ack_response
          (some mess)
          j
          (jingle_handle_ack_iq_session h s.addr ack_response (some mess) j)
  unfolding jingle_handle_ack_iq_session
  ended s mess j e d ne same = elim (session_delete_lem s s.addr j.sessions e d) [
    | inl (none_left, r) ↦ ends (inr (mess, refl, ne)) none_left (same ∙ (ground arith))
    | inr (some_left, r) ↦ reads_freed (inr (mess, refl, ne)) some_left (same ∙ (ground arith))
  ]

  answered :
      (s : JingleSession) (mess : Message) (t : LmMessageSubType) (j : Jingle W)
      → mess.sub_type ≡ t
      → get_session s.addr j.sessions ≡ some s
      → DistinctContents s.content
      → AnswerOutcome s ack_response
          (some mess)
          j
          (jingle_handle_ack_iq_session h s.addr ack_response (some mess) j)
  unfolding jingle_handle_ack_iq_session
  answered s mess sub_result j t e d = goes_on mess refl refl t (ground arith)
  answered s mess sub_error j t e d = elim (Option-cases (Host.get_child h mess.node "error")) [
    | inl missing ↦ no_error_child mess refl t missing (ground arith)
    | inr (child, found) ↦ ended s mess j e d (λ k. cc) (ground arith)
  ]
  answered s mess sub_set j t e d = ended s mess j e d (λ k. cc) (ground arith)
  answered s mess sub_other j t e d = ended s mess j e d (λ k. cc) (ground arith)

  -- A timeout leaves the handles alone, if the callback returns.
  pub ack_iq_session-handles :
      (a : ℕ) (answer : Option Message) (j j' : Jingle W)
      → jingle_handle_ack_iq_session h a ack_timeout answer j ≡ some j'
      → j'.ack_handlers ≡ j.ack_handlers
  unfolding jingle_handle_ack_iq_session
  ack_iq_session-handles a answer j j' e = ground arith

  -- The callback of a session-accept or session-initiate, with a session that is live and holds its
  -- contents at distinct addresses: an answer of type "result" changes nothing; any other answer, or a
  -- timeout, deletes a session with no content, and reads freed memory for one with contents; an
  -- error with no child <error>, like no answer at all, is read through NULL.
  pub ack_iq_session-AnswerOutcome :
      (s : JingleSession) (type : JingleAckType) (answer : Option Message) (j : Jingle W)
      → get_session s.addr j.sessions ≡ some s
      → DistinctContents s.content
      → AnswerOutcome s type answer j (jingle_handle_ack_iq_session h s.addr type answer j)
  unfolding jingle_handle_ack_iq_session
  ack_iq_session-AnswerOutcome s ack_timeout answer j e d =
      elim (session_delete_lem s s.addr j.sessions e d) [
        | inl (none_left, r) ↦ ends (inl refl) none_left (ground arith)
        | inr (some_left, r) ↦ reads_freed (inl refl) some_left (ground arith)
      ]
  ack_iq_session-AnswerOutcome s ack_response none j e d = no_message refl refl refl
  ack_iq_session-AnswerOutcome s ack_response (some mess) j e d =
      answered s mess mess.sub_type j refl e d
