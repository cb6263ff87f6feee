-- ===== src/Session/Search.antt =====
-- jingle/sessions.c: the searches through the static list of sessions.
use mcabber_jingle.Base.{
  ℕ, ◌≡◌, refl, ◌⊎◌, inl, inr, Bool, Option, none, some, List, [], ◌∷◌, Option-cases, find?,
}
use mcabber_jingle.Session.{
  JingleSession, SessionContent, holds, has_content, first_content, session_find_by_app,
  sessioncontent_find_by_app, session_find_by_transport, sessioncontent_find_by_transport,
}

-- The session that a search by module data finds is the one whose content the search for a content
-- finds; the two succeed together.
abbrev pub Together :
    (SessionContent → Bool) → Option JingleSession → Option SessionContent → Type 0
Together test s c =
    ((s ≡ none) × (c ≡ none))
    ⊎ ((s' : JingleSession) × (c' : SessionContent) × (s ≡ some s')
        × (c ≡ some c')
        × (find? test s'.content ≡ some c'))

first_content-Together :
    (test : SessionContent → Bool) (sessions : List JingleSession)
    → Together test (find? (has_content test) sessions) (first_content test sessions)
first_content-Together test [] = inl (refl, refl)
first_content-Together test (s ∷ ss) = elim (Option-cases (find? test s.content)) [
  | inl e ↦ rw (e, has_content) (rw (e, first_content) (first_content-Together test ss))
  | inr (c, e) ↦ inr (s, c, rw (e, has_content), rw (e, first_content), e)
]

-- A search by the data of an application finds a session exactly if it finds a content, and the
-- content is then the first of that session that holds the data; likewise by a transport's data.
pub find_by_data-Together :
    (p : ℕ) (sessions : List JingleSession)
    → Together
        (holds (λ c. c.description) p)
        (session_find_by_app p sessions)
        (sessioncontent_find_by_app p sessions)
      × Together
          (holds (λ c. c.transport) p)
          (session_find_by_transport p sessions)
          (sessioncontent_find_by_transport p sessions)
unfolding session_find_by_app sessioncontent_find_by_app session_find_by_transport
    sessioncontent_find_by_transport
find_by_data-Together p sessions =
    (first_content-Together _ sessions, first_content-Together _ sessions)
