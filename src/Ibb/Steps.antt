-- ===== src/Ibb/Steps.antt =====
-- jingle-ibb/ibb.c: one write to a stream, and one acknowledgement.
use mcabber_jingle.Base.{
  ℕ, ◌+◌, ◌%◌, ◌≤◌, ◌<◌, String, ◌≡◌, refl, sym, ap, subst, ◌∙◌, Option, some, List, [], ◌∷◌, ◌++◌,
  ltb, if◌then◌else◌, length, arith, length-append, append_assoc, append-nil, inl, inr, Bool-cases,
  All, All-append,
}
use mcabber_jingle.Stanza.{Host}
use mcabber_jingle.Session.{
  JingleSession, SessionContent, session_find_by_sid, session_find_sessioncontent,
}
use mcabber_jingle.Jingle.{Jingle, ContentRef, Sent}
use mcabber_jingle.Ack.{jingle_new_ack_handler}
use mcabber_jingle.Ibb.{
  Glib, JingleIbb, two_31, two_64, Next, data_stanza, send_internal, send_block, send_data,
  jingle_ibb_handle_ack_iq_send,
}
use mcabber_jingle.Ibb.Buffer.{waiting, IsSound, Stored, store_data-Stored, take_block-Taken}

abbrev pub concat : List (List ℕ) → List ℕ
concat [] = []
concat (b ∷ bs) = b ++ concat bs

pub concat-append : (bs cs : List (List ℕ)) → concat (bs ++ cs) ≡ concat bs ++ concat cs
concat-append [] cs = refl
concat-append (b ∷ bs) cs =
    ap (λ xs. b ++ xs) (concat-append bs cs) ∙ sym (append_assoc b (concat bs) (concat cs))

-- The number of the packet after some blocks.
abbrev pub seq_after : ℕ → List (List ℕ) → ℕ
seq_after n [] = n
seq_after n (b ∷ bs) = seq_after ((n + 1) % two_64) bs

seq_after-append :
    (n : ℕ) (bs cs : List (List ℕ)) → seq_after n (bs ++ cs) ≡ seq_after (seq_after n bs) cs
seq_after-append n [] cs = refl
seq_after-append n (b ∷ bs) cs = seq_after-append ((n + 1) % two_64) bs cs

module _ (g : Glib) (to sid : Option String) where
  -- The stanzas of blocks, numbered from `n` on.
  abbrev pub packets : ℕ → List (List ℕ) → List Sent
  packets n [] = []
  packets n (b ∷ bs) = data_stanza g to b sid n ∷ packets ((n + 1) % two_64) bs

  pub packets-append :
      (n : ℕ) (bs cs : List (List ℕ))
      → packets n (bs ++ cs) ≡ packets n bs ++ packets (seq_after n bs) cs
  packets-append n [] cs = refl
  packets-append n (b ∷ bs) cs =
      ap (◌∷◌ (data_stanza g to b sid n)) (packets-append ((n + 1) % two_64) bs cs)

-- The application gives the bytes later, as an event of its own.
abbrev pub later : {W : Type 0} → Next W
later sc ibb j = some (ibb, j)

full_of :
    (m n : ℕ) (bs : List (List ℕ)) → m ≡ n → All (λ b. length b ≡ m) bs → All (λ b. length b ≡ n) bs
full_of m n [] e a = tt
full_of m n (b ∷ bs) e a = (a.0 ∙ e, full_of m n bs e a.1)

module _ (h : Host) (g : Glib) {W : Type 0} (sc : ContentRef) (sess : JingleSession) where
  -- What has happened to a stream to which the bytes `given` were given: blocks of what waited went out as
  -- packets, in order and numbered, and the rest waits.
  pub record Moves (ibb : JingleIbb) (given : List ℕ) (j : Jingle W) (ibb' : JingleIbb)
      (j' : Jingle W) : Type 0 where
    pub blocks : List (List ℕ)
    pub sent : j'.sent ≡ j.sent ++ packets g sess.to ibb.sid ibb.seq blocks
    pub conserved : concat blocks ++ waiting ibb' ≡ waiting ibb ++ given
    pub numbered : ibb'.seq ≡ seq_after ibb.seq blocks
    pub full : All (λ b. length b ≡ ibb.blocksize) blocks
    pub sound : IsSound ibb'
    pub bounded : ibb'.dataleft ≤ ibb.dataleft + length given
    pub blocksize_same : ibb'.blocksize ≡ ibb.blocksize
    pub sid_same : ibb'.sid ≡ ibb.sid
    pub sessions_same : j'.sessions ≡ j.sessions

  send_block-Moves :
      (ibb : JingleIbb) (j : Jingle W)
      → session_find_by_sid h sc.sid sc.from j.sessions ≡ some sess
      → IsSound ibb
      → ibb.blocksize ≤ ibb.dataleft
      → (ibb' : JingleIbb) × (j' : Jingle W) × (send_block h g sc ibb j ≡ some (ibb', j'))
        × Moves ibb [] j ibb' j'
  unfolding send_block send_internal jingle_new_ack_handler
  send_block-Moves ibb j live s l =
      let (block, ibb1, taken, t) = take_block-Taken ibb s l in
      let out = send_internal h g sc sess.to block ibb1 j in
      (
        out.0,
        out.1,
        rw (live, taken),
        record {
          blocks = block ∷ [];
          sent =
              ap (λ x. j.sent ++ data_stanza g sess.to block x ibb1.seq ∷ []) t.sid_same
              ∙ ap (λ n. j.sent ++ data_stanza g sess.to block ibb.sid n ∷ []) t.seq_same;
          conserved =
              ap (λ xs. xs ++ waiting ibb1) (append-nil block)
              ∙ t.waits
              ∙ sym (append-nil (waiting ibb));
          numbered = ap (λ n. (n + 1) % two_64) t.seq_same;
          full = (t.full, tt);
          sound = record {
            whole = t.sound.whole;
            inside = t.sound.inside;
            fits = t.sound.fits;
            clamped = t.sound.clamped;
          };
          bounded = omega (arith, t.less);
          blocksize_same = t.blocksize_same;
          sid_same = t.sid_same;
          sessions_same = refl;
        },
      )

  pub still-Moves : (ibb : JingleIbb) (j : Jingle W) → IsSound ibb → Moves ibb [] j ibb j
  still-Moves ibb j s = record {
    blocks = [];
    sent = sym (append-nil j.sent);
    conserved = sym (append-nil (waiting ibb));
    numbered = refl;
    full = tt;
    sound = s;
    bounded = omega arith;
    blocksize_same = refl;
    sid_same = refl;
    sessions_same = refl;
  }

  pub Stored-Moves :
      (ibb ibb' : JingleIbb) (bytes : List ℕ) (j : Jingle W)
      → Stored ibb bytes ibb'
      → Moves ibb bytes j ibb' j
  Stored-Moves ibb ibb' bytes j t = record {
    blocks = [];
    sent = sym (append-nil j.sent);
    conserved = t.waits;
    numbered = t.seq_same;
    full = tt;
    sound = t.sound;
    bounded = omega (arith, t.more);
    blocksize_same = t.blocksize_same;
    sid_same = t.sid_same;
    sessions_same = refl;
  }

  pub Moves-then :
      (ibb ibb1 ibb2 : JingleIbb) (given more : List ℕ) (j j1 j2 : Jingle W)
      → Moves ibb given j ibb1 j1
      → Moves ibb1 more j1 ibb2 j2
      → Moves ibb (given ++ more) j ibb2 j2
  Moves-then ibb ibb1 ibb2 given more j j1 j2 a b = record {
    blocks = a.blocks ++ b.blocks;
    sent =
        b.sent
        ∙ ap (λ xs. xs ++ packets g sess.to ibb1.sid ibb1.seq b.blocks) a.sent
        ∙ append_assoc j.sent (packets g sess.to ibb.sid ibb.seq a.blocks) _
        ∙ ap (λ xs. j.sent ++ (packets g sess.to ibb.sid ibb.seq a.blocks ++ xs))
            (ap (λ x. packets g sess.to x ibb1.seq b.blocks) a.sid_same
              ∙ ap (λ n. packets g sess.to ibb.sid n b.blocks) a.numbered)
        ∙ ap (λ xs. j.sent ++ xs)
            (sym (packets-append g sess.to ibb.sid ibb.seq a.blocks b.blocks));
    conserved =
        ap (λ xs. xs ++ waiting ibb2) (concat-append a.blocks b.blocks)
        ∙ append_assoc (concat a.blocks) (concat b.blocks) (waiting ibb2)
        ∙ ap (λ xs. concat a.blocks ++ xs) b.conserved
        ∙ sym (append_assoc (concat a.blocks) (waiting ibb1) more)
        ∙ ap (λ xs. xs ++ more) a.conserved
        ∙ append_assoc (waiting ibb) given more;
    numbered =
        b.numbered
        ∙ ap (λ n. seq_after n b.blocks) a.numbered
        ∙ sym (seq_after-append ibb.seq a.blocks b.blocks);
    full =
        All-append (λ x. length x ≡ ibb.blocksize) a.blocks b.blocks a.full
          (full_of ibb1.blocksize ibb.blocksize b.blocks a.blocksize_same b.full);
    sound = b.sound;
    bounded = omega (arith, a.bounded, b.bounded, length-append given more);
    blocksize_same = b.blocksize_same ∙ a.blocksize_same;
    sid_same = b.sid_same ∙ a.sid_same;
    sessions_same = b.sessions_same ∙ a.sessions_same;
  }

  -- The session of the stream is live, and its content has the name of the stream.
  pub record IsLive (j : Jingle W) : Type 0 where
    pub found : session_find_by_sid h sc.sid sc.from j.sessions ≡ some sess
    pub content : SessionContent
    pub named : session_find_sessioncontent sess sc.name ≡ some content

  pub Moves-IsLive :
      (ibb ibb' : JingleIbb) (given : List ℕ) (j j' : Jingle W)
      → Moves ibb given j ibb' j'
      → IsLive j
      → IsLive j'
  Moves-IsLive ibb ibb' given j j' m l = record {
    found = ap (session_find_by_sid h sc.sid sc.from) m.sessions_same ∙ l.found;
    content = l.content;
    named = l.named;
  }

  pub send_data-Moves :
      (ibb : JingleIbb) (bytes : List ℕ) (j : Jingle W)
      → IsLive j
      → IsSound ibb
      → length bytes + ibb.dataleft < two_31
      → (ibb' : JingleIbb) × (j' : Jingle W) × (send_data h g later sc ibb bytes j
          ≡ some (ibb', j'))
        × Moves ibb bytes j ibb' j'
  unfolding send_data
  send_data-Moves ibb bytes j live s fits =
      let (ibb1, stored, t) = store_data-Stored ibb bytes s fits in
      elim (Bool-cases (ltb ibb1.dataleft ibb1.blocksize)) [
        | inl few ↦ (ibb1, j, rw (stored, few), Stored-Moves ibb ibb1 bytes j t)
        | inr enough ↦
            let (ibb2, j2, sent, m) = send_block-Moves ibb1 j live.found t.sound (ground arith) in
            (
              ibb2,
              j2,
              rw (stored, enough) sent,
              subst (λ xs. Moves ibb xs j ibb2 j2) (append-nil bytes)
                  (Moves-then ibb ibb1 ibb2 bytes [] j j j2 (Stored-Moves ibb ibb1 bytes j t) m),
            )
      ]

  ack_lem :
      (ibb : JingleIbb) (j : Jingle W) (r : Option (JingleIbb × Jingle W))
      → IsLive j
      → (if ltb ibb.blocksize ibb.dataleft then send_block h g sc ibb j else some (ibb, j)) ≡ r
      → jingle_ibb_handle_ack_iq_send h g later sc ibb j ≡ r
  unfolding jingle_ibb_handle_ack_iq_send
  ack_lem ibb j r live e = rw (live.found, jingle_ibb_handle_ack_iq_send, live.named) e

  pub acked-Moves :
      (ibb : JingleIbb) (j : Jingle W)
      → IsLive j
      → IsSound ibb
      → (ibb' : JingleIbb) × (j' : Jingle W) × (jingle_ibb_handle_ack_iq_send h g later sc ibb j
          ≡ some (ibb', j'))
        × Moves ibb [] j ibb' j'
  acked-Moves ibb j live s = elim (Bool-cases (ltb ibb.blocksize ibb.dataleft)) [
    | inl more ↦
        let (ibb2, j2, sent, m) = send_block-Moves ibb j live.found s (ground arith) in
        (ibb2, j2, ack_lem ibb j _ live (rw more sent), m)
    | inr few ↦ (ibb, j, ack_lem ibb j _ live (rw few), still-Moves ibb j s)
  ]
