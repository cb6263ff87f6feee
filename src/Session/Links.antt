-- ===== src/Session/Links.antt =====
-- jingle/sessions.c: the loops that take contents out of a session while they walk over them.
use mcabber_jingle.Base.{
  ℕ, ◌≡◌, refl, sym, ap, subst, ◌∙◌, ◌≢◌, ◌⊎◌, inl, inr, false, Option, none, some, List, [], ◌∷◌,
  arith, str_eq_self, find?, remove_first, All,
}
use mcabber_jingle.Session.Addresses.{addresses, DistinctContents}
use mcabber_jingle.Session.{
  JingleSession, SessionContent, is_named, session_remove_sessioncontent, content_has_addr,
  is_linked, remove_all, session_free, session_delete, get_session, session_remove, put_session,
}
use mcabber_jingle.Session.Keys.{get_session-put_session}

absent :
    (a : ℕ) (cs : List SessionContent)
    → All (λ b. b ≢ a) (addresses cs)
    → find? (content_has_addr a) cs ≡ none
absent a [] h = refl
absent a (c ∷ cs) h = ground (arith, absent a cs h.1)

find_head :
    (c : SessionContent) (cs : List SessionContent) → find? (is_named c.name) (c ∷ cs) ≡ some c
find_head c cs = rw (str_eq_self c.name)

remove_head :
    (a : ℕ) (c : SessionContent) (cs : List SessionContent)
    → c.addr ≡ a
    → remove_first (content_has_addr a) (c ∷ cs) ≡ cs
remove_head a c cs e = ground arith

-- The first content of a session is the one found under its own name, so the loop takes out the very
-- link it stands on.
pub remove_first_content :
    (s : JingleSession) (c : SessionContent) (cs : List SessionContent)
    → s.content ≡ c ∷ cs
    → (session_remove_sessioncontent s c.name).1 ≡ record s { content = cs }
unfolding session_remove_sessioncontent
remove_first_content s c cs e =
    let found : find? (is_named c.name) s.content ≡ some c =
      ap (find? (is_named c.name)) e ∙ find_head c cs in
    rw (found, session_remove_sessioncontent)
      (ap (λ l. record s { content = l })
        (ap (remove_first (content_has_addr c.addr)) e ∙ remove_head c.addr c cs refl))

pub unlinked_head :
    (s : JingleSession) (c : SessionContent) (cs : List SessionContent)
    → s.content ≡ c ∷ cs
    → DistinctContents s.content
    → is_linked c.addr (session_remove_sessioncontent s c.name).1 ≡ false
unfolding is_linked
unlinked_head s c cs e d =
    rw (remove_first_content s c cs e)
      (rw (absent c.addr cs (subst DistinctContents e d).0, is_linked))

-- What `session_free` comes to: it returns for a session with no content, and for any other it reads
-- a link that it has freed.
pub data FreeOutcome (s : JingleSession) (r : Option JingleSession) : Type 0 where
  frees : s.content ≡ [] → r ≡ some s → FreeOutcome s r
  reads_freed : s.content ≢ [] → r ≡ none → FreeOutcome s r

free_of :
    (s : JingleSession) (l : List SessionContent)
    → s.content ≡ l
    → DistinctContents s.content
    → FreeOutcome s (remove_all l s)
unfolding remove_all
free_of s [] e d = frees e refl
free_of s (c ∷ cs) e d = reads_freed (λ k. cc) (rw (unlinked_head s c cs e d, remove_all))

-- Where no two contents of a session stand at one address, `session_free` returns exactly if the
-- session has no content; otherwise it reads a link that it has freed.
pub session_free-FreeOutcome :
    (s : JingleSession) → DistinctContents s.content → FreeOutcome s (session_free s)
unfolding session_free
session_free-FreeOutcome s d = free_of s s.content refl d

-- So `session_delete` takes a session without content out of the list, and fails on any other.
pub session_delete_lem :
    (s : JingleSession) (a : ℕ) (sessions : List JingleSession)
    → get_session a sessions ≡ some s
    → DistinctContents s.content
    → ((s.content ≡ []) × (session_delete a sessions ≡ some (session_remove a sessions)))
      ⊎ ((s.content ≢ []) × (session_delete a sessions ≡ none))
unfolding session_delete
session_delete_lem s a sessions e d = elim (session_free-FreeOutcome s d) [
  | frees none_left r ↦ inl (none_left, rw (e, session_delete, r))
  | reads_freed some_left r ↦ inr (some_left, rw (e, session_delete, r))
]

put_then_remove :
    (s : JingleSession) (ss : List JingleSession)
    → session_remove s.addr (put_session s ss) ≡ session_remove s.addr ss
unfolding session_remove put_session
put_then_remove s [] = refl
put_then_remove s (t ∷ ts) = ground (arith, put_then_remove s ts)

pub delete_emptied :
    (a : ℕ) (ss : List JingleSession) (s t : JingleSession)
    → get_session a ss ≡ some s
    → t.addr ≡ a
    → t.content ≡ []
    → session_delete a (put_session t ss) ≡ some (session_remove a ss)
delete_emptied a ss s t at e empty =
    elim (session_delete_lem t a (put_session t ss) (get_session-put_session a ss s t at e)
      (subst DistinctContents (sym empty) tt)) [
        | inl (none_left, r) ↦
            r
            ∙ ap some (
                subst (λ b. session_remove b (put_session t ss) ≡ session_remove b ss) e
                  (put_then_remove t ss))
        | inr (some_left, r) ↦ absurd (some_left empty)
      ]
