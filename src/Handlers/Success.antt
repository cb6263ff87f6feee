-- ===== src/Handlers/Success.antt =====
-- jingle/action-handlers.c, `handle_session_initiate`: a session that is offered.
use mcabber_jingle.Base.{
  ℕ, suc, String, ◌≡◌, refl, sym, inl, inr, true, none, some, List, [], ◌∷◌, ◌++◌, arith,
  Bool-cases, if◌then◌else◌, All,
}
use mcabber_jingle.Stanza.{Host, Message, sub_result, JingleNode, JingleContent, held}
use mcabber_jingle.Session.{JingleSession, SessionContent, get_session, incoming, session_new}
use mcabber_jingle.Check.{check_contents}
use mcabber_jingle.Session.Keys.{get_session_snoc, KeysBelow, keys}
use mcabber_jingle.Jingle.{Jingle, Modules, reply, jingle_ack_iq}
use mcabber_jingle.Handlers.{
  no_error, add_contents, show_contents, offer, offer_session, finish_session, fill_session,
  some_session_disposition, session_find, session_new_from_jinglenode, initiate_with,
  initiate_checked, handle_session_initiate,
}
use mcabber_jingle.Handlers.Stored.{
  Accepts, stored_content, stored_contents, DistinctNames, add_contents_lem, show_stored, all_new,
}

module _ (h : Host) {W : Type 0} (m : Modules W) where
  -- What a session-initiate that is accepted leaves: one acknowledgement, and a live session with
  -- these contents that waits for the user if mcabber takes the event.
  pub record Offered (msg : Message) (jn : JingleNode) (from to : String)
      (contents : List SessionContent) (j j' : Jingle W) : Type 0 where
    pub acknowledged : j'.sent ≡ j.sent ++ reply msg sub_result [] ∷ []
    pub live :
        get_session j.fresh j'.sessions
        ≡ some (record {
          addr = j.fresh;
          sid = jn.sid;
          origin = incoming;
          from = some from;
          to = some to;
          content = contents;
        })
    pub waits : j'.events ≡ (if Host.evs_new h j.events then j.events ++ j.fresh ∷ [] else j.events)

  -- The session as it is made, without contents.
  abbrev fresh_session : JingleNode → String → String → ℕ → JingleSession
  fresh_session jn from to a = record {
    addr = a;
    sid = jn.sid;
    origin = incoming;
    from = some from;
    to = some to;
    content = [];
  }

  abbrev with_session : Message → JingleNode → String → String → Jingle W → Jingle W
  with_session msg jn from to j = record (jingle_ack_iq msg j) {
    fresh = suc j.fresh;
    sessions = j.sessions ++ fresh_session jn from to j.fresh ∷ [];
  }

  offer_lem :
      (a : ℕ) (c : SessionContent) (cs : List SessionContent) (lines : List (String × String))
      (j : Jingle W)
      → show_contents h m j.world (c ∷ cs) ≡ some lines
      → finish_session h m a (c ∷ cs) j ≡ some (offer h a (record j { shown = j.shown ++ lines }))
  unfolding finish_session offer_session
  offer_lem a c cs lines j shown = rw shown

  fill_step :
      (a : ℕ) (cns : List JingleContent) (j j1 j2 : Jingle W) (s : JingleSession)
      → add_contents h m a cns no_error j ≡ some (no_error, j1)
      → get_session a j1.sessions ≡ some s
      → finish_session h m a s.content j1 ≡ some j2
      → fill_session h m a cns no_error j ≡ some j2
  unfolding fill_session
  fill_step a cns j j1 j2 s added at finished = ground arith

  offered :
      (msg : Message) (jn : JingleNode) (from to : String) (contents : List SessionContent)
      (j j2 : Jingle W)
      → j2.sent ≡ j.sent ++ reply msg sub_result [] ∷ []
      → get_session j.fresh j2.sessions
        ≡ some (record (fresh_session jn from to j.fresh) { content = contents })
      → j2.events ≡ j.events
      → Offered msg jn from to contents j (offer h j.fresh j2)
  offered msg jn from to contents j j2 s l e = elim (Bool-cases (Host.evs_new h j2.events)) [
    | inl taken ↦ rw taken (record { acknowledged = s; live = l; waits = rw (sym e) (rw taken) })
    | inr full ↦ rw full (record { acknowledged = s; live = l; waits = rw (sym e) (rw full) })
  ]

  fill_lem :
      (msg : Message) (jn : JingleNode) (from to : String) (cn : JingleContent)
      (cns : List JingleContent) (j : Jingle W) (k : All (Accepts h m j.registry) (cn ∷ cns))
      → DistinctNames (cn ∷ cns)
      → KeysBelow j.fresh (keys j.sessions)
      → (j' : Jingle W) × (fill_session h m j.fresh
            (cn ∷ cns)
            no_error
            (with_session msg jn from to j)
          ≡ some j')
        × Offered msg jn from to
            (stored_contents h m j.registry (cn ∷ cns) k (suc j.fresh) j.world)
            j
            j'
  unfolding fill_session jingle_ack_iq
  fill_lem msg jn from to cn cns j k d below =
      let s = fresh_session jn from to j.fresh in
      let j1 = with_session msg jn from to j in
      let r =
        add_contents_lem h m j.fresh (cn ∷ cns) s j1 k
          (get_session_snoc j.fresh j.sessions s refl below) (all_new (cn ∷ cns)) d in
      let shown = show_stored h m j.registry r.0.world (cn ∷ cns) k (suc j.fresh) j.world in
      let j2 = record r.0 { shown = r.0.shown ++ shown.0 } in
      let finished =
        offer_lem j.fresh (stored_content h m j.registry cn k.0 (suc j.fresh) j.world)
          (stored_contents h m j.registry cns k.1 (suc (suc j.fresh))
            (k.0.trans_world (k.0.app_world j.world)))
          shown.0 r.0 shown.1 in
      (
        offer h j.fresh j2,
        fill_step j.fresh (cn ∷ cns) j1 r.0 _ _ r.1 r.2.live finished,
        offered msg jn from to _ j j2 (r.2.sent_same) r.2.live r.2.events_same,
      )

  new_session_lem :
      (msg : Message) (jn : JingleNode) (from to : String) (j : Jingle W)
      → Host.get_attribute h msg.node "from" ≡ some from
      → Host.get_attribute h msg.node "to" ≡ some to
      → session_new_from_jinglenode h jn msg (jingle_ack_iq msg j)
        ≡ (some j.fresh, with_session msg jn from to j)
  unfolding session_new_from_jinglenode session_new jingle_ack_iq
  new_session_lem msg jn from to j is_from is_to = rw (is_from, is_to)

  initiate_lem :
      (msg : Message) (jn : JingleNode) (from to : String) (cns : List JingleContent)
      (j j' : Jingle W)
      → some_session_disposition cns ≡ true
      → session_find h jn msg j ≡ none
      → Host.get_attribute h msg.node "from" ≡ some from
      → Host.get_attribute h msg.node "to" ≡ some to
      → fill_session h m j.fresh cns no_error (with_session msg jn from to j) ≡ some j'
      → initiate_with h m jn msg no_error cns j ≡ some (jn, j')
  unfolding initiate_with
  initiate_lem msg jn from to cns j j' session new is_from is_to filled =
      rw (session, new, new_session_lem msg jn from to j is_from is_to, filled)

  -- A session-initiate from a contact, for no session that is known, with contents of distinct names that
  -- are well formed and of which one is of disposition "session" or of none, and with modules that accept each
  -- of them: the handler returns; the query is acknowledged, once, and nothing else is sent; the
  -- session is live, with one pending content for each of the stanza, in its order, bound to the
  -- functions and the data of its modules; and it waits for the user if mcabber takes the event.
  pub handle_session_initiate-Offered :
      (msg : Message) (jn jn' : JingleNode) (from to : String) (cn : JingleContent)
      (cns : List JingleContent) (j : Jingle W) (k : All (Accepts h m j.registry) (cn ∷ cns))
      → jn.message ≡ some msg
      → Host.in_roster h (Host.message_from h msg) ≡ true
      → check_contents h jn none ≡ some (true, jn', none)
      → jn'.content ≡ held (cn ∷ cns)
      → some_session_disposition (cn ∷ cns) ≡ true
      → session_find h jn' msg j ≡ none
      → Host.get_attribute h msg.node "from" ≡ some from
      → Host.get_attribute h msg.node "to" ≡ some to
      → DistinctNames (cn ∷ cns)
      → KeysBelow j.fresh (keys j.sessions)
      → (j' : Jingle W) × (handle_session_initiate h m jn j ≡ some (jn', j'))
        × Offered msg jn' from to
            (stored_contents h m j.registry (cn ∷ cns) k (suc j.fresh) j.world)
            j
            j'
  unfolding handle_session_initiate initiate_checked
  handle_session_initiate-Offered msg jn jn' from to cn cns j k is_msg known read contents session
        new is_from is_to d below =
      let (j', filled, o) = fill_lem msg jn' from to cn cns j k d below in
      let with_it = initiate_lem msg jn' from to (cn ∷ cns) j j' session new is_from is_to filled in
      (j', ground arith, o)
