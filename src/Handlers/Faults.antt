-- ===== src/Handlers/Faults.antt =====
-- jingle/action-handlers.c: session-terminate, session-info, transport-info, and a content of
-- session-initiate that fails.
use mcabber_jingle.Base.{
  ℕ, ◌≡◌, refl, ◌≢◌, ◌⊎◌, inl, inr, Bool, true, false, not, Option, none, some, List, [], ◌∷◌, ◌||◌,
  arith, Option-cases, All, str_eq,
}
use mcabber_jingle.Stanza.{
  Host, Node, node_children, Message, JingleNode, JingleContent, JingleAction, session_info,
}
use mcabber_jingle.Registry.{jingle_get_appfuncs, jingle_get_transportfuncs}
use mcabber_jingle.Session.{
  JingleSession, SessionContent, peer, get_session, session_remove, session_find_by_sid,
}
use mcabber_jingle.Session.Addresses.{DistinctContents, ContentsBelow}
use mcabber_jingle.Session.Keys.{get_found, All-get_session}
use mcabber_jingle.Handlers.Step.{IsConsistent}
use mcabber_jingle.Session.Links.{unlinked_head, delete_emptied}
use mcabber_jingle.Jingle.{
  Jingle, Modules, JingleHandleStatus, status_handled, status_not_handled, status_handle_error,
  jingle_ack_iq,
}
use mcabber_jingle.Handlers.{is_null, attribute_of, session_find, refuse}
use mcabber_jingle.Handlers.Active.{
  is_true, try_contents, unknown_session, handle_session_info, stop_contents,
  handle_session_terminate,
}

is_true_of_unhandled : (s : JingleHandleStatus) → s ≢ status_handled → is_true s ≡ true
is_true_of_unhandled status_handled ne = absurd (ne refl)
is_true_of_unhandled status_not_handled ne = refl
is_true_of_unhandled status_handle_error ne = refl

content_cases : (l : List SessionContent) → (l ≡ []) ⊎ (l ≢ [])
content_cases [] = inl refl
content_cases (c ∷ cs) = inr (λ e. cc)

found_at :
    {h : Host} {W : Type 0} (jn : JingleNode) (msg : Message) (j : Jingle W) (s : JingleSession)
    → session_find h jn msg j ≡ some s
    → IsConsistent h j
    → get_session s.addr j.sessions ≡ some s
unfolding session_find session_find_by_sid
found_at {h} jn msg j s found c = get_found h _ j.sessions s found c.keys_distinct

module _ (h : Host) {W : Type 0} (m : Modules W) where
  -- What a session-terminate comes to.
  pub data TerminateOutcome (msg : Message) (jn : JingleNode) (j : Jingle W)
      (r : Option (JingleNode × Jingle W)) : Type 0 where
    unknown :
        session_find h jn msg j ≡ none
        → r ≡ unknown_session h jn msg j
        → TerminateOutcome msg jn j r
    ended :
        (s : JingleSession)
        → session_find h jn msg j ≡ some s
        → s.content ≡ []
        → r
          ≡ some (jn, jingle_ack_iq msg (record j { sessions = session_remove s.addr j.sessions }))
        → TerminateOutcome msg jn j r
    reads_freed :
        (s : JingleSession)
        → session_find h jn msg j ≡ some s
        → s.content ≢ []
        → r ≡ none
        → TerminateOutcome msg jn j r

  stop_faults :
      (from_peer : Bool) (s : JingleSession) (w : W) (l : List SessionContent)
      → s.content ≡ l
      → s.content ≢ []
      → DistinctContents s.content
      → stop_contents h m from_peer l s w ≡ none
  unfolding stop_contents
  stop_faults from_peer s w [] e ne d = absurd (ne e)
  stop_faults from_peer s w (c ∷ cs) e ne d = let gone = unlinked_head s c cs e d in ground arith

  stop_empty :
      (from_peer : Bool) (s : JingleSession) (w : W) (l : List SessionContent)
      → l ≡ []
      → stop_contents h m from_peer l s w ≡ some (s, w)
  unfolding stop_contents
  stop_empty from_peer s w l e = rw e

  terminate_found :
      (msg : Message) (jn : JingleNode) (j : Jingle W) (s : JingleSession)
      → jn.message ≡ some msg
      → session_find h jn msg j ≡ some s
      → get_session s.addr j.sessions ≡ some s
      → DistinctContents s.content
      → TerminateOutcome msg jn j (handle_session_terminate h m jn j)
  unfolding handle_session_terminate
  terminate_found msg jn j s e found at d = elim (content_cases s.content) [
    | inr ne ↦
        let faults =
          stop_faults (str_eq (Host.message_from h msg) (peer s)) s j.world s.content refl ne d in
        reads_freed s found ne (ground arith)
    | inl empty ↦
        let stopped =
          stop_empty (str_eq (Host.message_from h msg) (peer s)) s j.world s.content empty in
        let deleted = delete_emptied s.addr j.sessions s s at refl empty in
        ended s found empty (ground arith)
  ]

  -- On consistent sessions a session-terminate for an unknown session is refused; that for a session
  -- with no content takes it out of the list, and is acknowledged; and that for any other session
  -- reads a link that was freed.
  pub handle_session_terminate-TerminateOutcome :
      (msg : Message) (jn : JingleNode) (j : Jingle W)
      → jn.message ≡ some msg
      → IsConsistent h j
      → TerminateOutcome msg jn j (handle_session_terminate h m jn j)
  unfolding handle_session_terminate
  handle_session_terminate-TerminateOutcome msg jn j e c =
      elim (Option-cases (session_find h jn msg j)) [
        | inl missing ↦ unknown missing (ground arith)
        | inr (s, found) ↦
            let at = found_at jn msg j s found c in
            terminate_found msg jn j s e found at
              (All-get_session (ContentsBelow j.fresh) s.addr j.sessions s at c.contents_below).0
      ]

  -- Whether the modules for a content are registered.
  abbrev pub is_supported : JingleContent → Jingle W → Bool
  is_supported cn j = not (
      is_null (jingle_get_appfuncs (attribute_of h cn.description "xmlns") j.registry)
      || is_null (jingle_get_transportfuncs (attribute_of h cn.transport "xmlns") j.registry))

  abbrev pub any_supported : List JingleContent → Jingle W → Bool
  any_supported [] j = false
  any_supported (cn ∷ cns) j = is_supported cn j || any_supported cns j

  -- Every module of these contents that looks at session-info answers that it handled it.
  abbrev pub AllHandle : Option Node → List SessionContent → Type 0
  AllHandle payload cs =
      All
        (λ c.
          (af : ℕ) × (c.appfuncs ≡ some af)
          × (handle : JingleAction → Option ℕ → Option Node → W → JingleHandleStatus × W)
          × (Modules.app_handle m af ≡ some handle)
          × ((w : W) → (handle session_info c.description payload w).0 ≡ status_handled))
        cs

  AllHandle-try :
      (payload : Option Node) (cs : List SessionContent) (w : W)
      → AllHandle payload cs
      → (w' : W) × (try_contents h m cs payload w ≡ some (false, w'))
  unfolding try_contents
  AllHandle-try payload [] w a = (w, refl)
  AllHandle-try payload (c ∷ cs) w a =
      let (af, has_funcs, handle, has_handle, handled) = a.0 in
      let answered = handled w in
      let r = AllHandle-try payload cs (handle session_info c.description payload w).1 a.1 in
      (r.0, rw (has_funcs, has_handle, answered) r.1)

  -- The test in `handle_session_info` is on a status of which the value of "handled" is 0: if every
  -- module that the payload is offered to answers that it handled it, the sender is told that
  -- the payload is not supported.
  pub handled_info_is_refused :
      (msg : Message) (jn : JingleNode) (j : Jingle W) (s : JingleSession) (node n : Node)
      (ns : List Node)
      → jn.message ≡ some msg
      → jn.node ≡ some node
      → node_children node ≡ n ∷ ns
      → session_find h jn msg j ≡ some s
      → AllHandle (some n) s.content
      → (w : W) × (handle_session_info h m jn j
          ≡ refuse h msg "modify"
              (some "feature-not-implemented")
              (some "unsupported-info")
              jn
              (record j { world = w }))
  unfolding handle_session_info
  handled_info_is_refused msg jn j s node n ns is_msg is_node children found handled =
      let (w, tried) = AllHandle-try (some n) s.content j.world handled in (w, ground arith)
