-- ===== src/Ibb/Stream.antt =====
-- jingle-ibb/ibb.c: a stream from its first byte to its end, as a sequence of bytes that come from the
-- application and of packets that are acknowledged.
use mcabber_jingle.Base.{
  ℕ, ◌+◌, ◌<◌, ◌≡◌, refl, sym, ap, ◌∙◌, Option, some, List, [], ◌∷◌, ◌++◌, ltb, length, take, arith,
  length-append, append_assoc, append-nil, inl, inr, ◌⊎◌, Bool-cases, All, All-append, arith,
}
use mcabber_jingle.Stanza.{Host}
use mcabber_jingle.Session.{JingleSession}
use mcabber_jingle.Jingle.{Jingle, ContentRef, ◌>>=◌}
use mcabber_jingle.Ack.{jingle_new_ack_handler}
use mcabber_jingle.Ibb.{
  Glib, JingleIbb, two_31, send_internal, send_data, jingle_ibb_handle_ack_iq_send, end_stream,
}
use mcabber_jingle.Memory.{read_first_lem, length-take_within}
use mcabber_jingle.Ibb.Buffer.{waiting, IsSound}
use mcabber_jingle.Ibb.Steps.{
  concat, packets, later, Moves, IsLive, Moves-then, Moves-IsLive, send_data-Moves, acked-Moves,
  still-Moves, concat-append, packets-append,
}

-- What happens to a stream: the application gives bytes, or a packet is acknowledged.
pub data StreamEvent : Type 0 where
  fed : List ℕ → StreamEvent
  acked : StreamEvent

abbrev pub bytes_of : List StreamEvent → List ℕ
bytes_of [] = []
bytes_of (fed bytes ∷ es) = bytes ++ bytes_of es
bytes_of (acked ∷ es) = bytes_of es

-- A block of a stream: as long as the blocks are, or the rest, which is not empty.
abbrev pub IsBlock : ℕ → List ℕ → Type 0
IsBlock n b = (length b ≡ n) ⊎ (0 < length b)

full-Blocks : (n : ℕ) (bs : List (List ℕ)) → All (λ b. length b ≡ n) bs → All (IsBlock n) bs
full-Blocks n [] a = tt
full-Blocks n (b ∷ bs) a = (inl a.0, full-Blocks n bs a.1)

more-Blocks : (n : ℕ) (bs : List (List ℕ)) → All (λ b. 0 < length b) bs → All (IsBlock n) bs
more-Blocks n [] a = tt
more-Blocks n (b ∷ bs) a = (inr a.0, more-Blocks n bs a.1)

module _ (h : Host) (g : Glib) {W : Type 0} (sc : ContentRef) (sess : JingleSession) where
  unfoldable pub run_stream :
      List StreamEvent → JingleIbb → Jingle W → Option (JingleIbb × Jingle W)
  run_stream [] ibb j = some (ibb, j)
  run_stream (fed bytes ∷ es) ibb j =
      send_data h g later sc ibb bytes j >>= λ r. run_stream es r.0 r.1
  run_stream (acked ∷ es) ibb j =
      jingle_ibb_handle_ack_iq_send h g later sc ibb j >>= λ r. run_stream es r.0 r.1

  bind_lem :
      (es : List StreamEvent) (first : Option (JingleIbb × Jingle W)) (ibb : JingleIbb)
      (j : Jingle W) (r : Option (JingleIbb × Jingle W))
      → first ≡ some (ibb, j)
      → run_stream es ibb j ≡ r
      → (first >>= λ x. run_stream es x.0 x.1) ≡ r
  bind_lem es first ibb j r e rest = rw e rest

  -- A live session and a sound stream, given bytes that with those that wait fit a `gint`, in any order of
  -- writes and acknowledgements: no step faults; the blocks sent are whole, numbered from the stream's
  -- number on, and go to the `to` of the session; and with what waits they are the bytes
  -- that waited and those that were given, in their order.
  pub run_stream-Moves :
      (es : List StreamEvent) (ibb : JingleIbb) (j : Jingle W)
      → IsLive h g sc sess j
      → IsSound ibb
      → length (bytes_of es) + ibb.dataleft < two_31
      → (ibb' : JingleIbb) × (j' : Jingle W) × (run_stream es ibb j ≡ some (ibb', j'))
        × Moves h g sc sess ibb (bytes_of es) j ibb' j'
  unfolding run_stream
  run_stream-Moves [] ibb j live s fits = (ibb, j, refl, still-Moves h g sc sess ibb j s)
  run_stream-Moves (fed bytes ∷ es) ibb j live s fits =
      let parts = length-append bytes (bytes_of es) in
      let (ibb1, j1, first, m) =
        send_data-Moves h g sc sess ibb bytes j live s (omega (arith, fits, parts)) in
      let (ibb2, j2, rest, n) =
        run_stream-Moves es ibb1 j1 (Moves-IsLive h g sc sess ibb ibb1 bytes j j1 m live) m.sound
          (omega (arith, fits, parts, m.bounded)) in
      (
        ibb2,
        j2,
        bind_lem es _ ibb1 j1 _ first rest,
        Moves-then h g sc sess ibb ibb1 ibb2 bytes (bytes_of es) j j1 j2 m n,
      )
  run_stream-Moves (acked ∷ es) ibb j live s fits =
      let (ibb1, j1, first, m) = acked-Moves h g sc sess ibb j live s in
      let (ibb2, j2, rest, n) =
        run_stream-Moves es ibb1 j1 (Moves-IsLive h g sc sess ibb ibb1 [] j j1 m live) m.sound
          (omega (arith, fits, m.bounded)) in
      (
        ibb2,
        j2,
        bind_lem es _ ibb1 j1 _ first rest,
        Moves-then h g sc sess ibb ibb1 ibb2 [] (bytes_of es) j j1 j2 m n,
      )

  -- A stream that is ended.
  ends_lem :
      (ibb : JingleIbb) (j : Jingle W)
      → IsLive h g sc sess j
      → IsSound ibb
      → (j' : Jingle W) × (last : List (List ℕ)) × (end_stream h g sc ibb j ≡ some j')
        × (j'.sent ≡ j.sent ++ packets g sess.to ibb.sid ibb.seq last)
        × (concat last ≡ waiting ibb)
        × All (λ b. 0 < length b) last
  unfolding end_stream send_internal jingle_new_ack_handler
  ends_lem ibb j live s = elim (Bool-cases (ltb 0 ibb.dataleft)) [
    | inl some_left ↦
        let out = send_internal h g sc sess.to (waiting ibb) ibb j in
        let read = read_first_lem ibb.dataleft ibb.buf (omega (arith, s.inside, s.whole)) in
        let size = length-take_within ibb.dataleft ibb.buf (omega (arith, s.inside, s.whole)) in
        let is_some : 0 < length (waiting ibb) = ground (arith, size) in
        (
          out.1,
          waiting ibb ∷ [],
          rw (some_left, live.found, read),
          refl,
          append-nil (waiting ibb),
          (is_some, tt),
        )
    | inr none_left ↦
        let zero_left : ibb.dataleft ≡ 0 = ground arith in
        (j, [], rw none_left, sym (append-nil j.sent), ap (λ n. take n ibb.buf) (sym zero_left), tt)
  ]

  -- The packets of such a stream, none of which is empty where blocks are not.
  pub ended-Blocks :
      (es : List StreamEvent) (ibb : JingleIbb) (j : Jingle W)
      → IsLive h g sc sess j
      → IsSound ibb
      → ibb.dataleft ≡ 0
      → length (bytes_of es) < two_31
      → (j' : Jingle W) × (blocks : List (List ℕ)) × ((run_stream es ibb j >>= λ r.
            end_stream h g sc r.0 r.1)
          ≡ some j')
        × (j'.sent ≡ j.sent ++ packets g sess.to ibb.sid ibb.seq blocks)
        × (concat blocks ≡ bytes_of es)
        × All (IsBlock ibb.blocksize) blocks
  ended-Blocks es ibb j live s empty fits =
      let (ibb1, j1, ran, m) = run_stream-Moves es ibb j live s (omega (arith, empty, fits)) in
      let (j2, last, ended, sent, left, whole) =
        ends_lem ibb1 j1 (Moves-IsLive h g sc sess ibb ibb1 (bytes_of es) j j1 m live) m.sound in
      (
        j2,
        m.blocks ++ last,
        rw ran ended,
        sent
            ∙ ap (λ xs. xs ++ packets g sess.to ibb1.sid ibb1.seq last) m.sent
            ∙ append_assoc j.sent (packets g sess.to ibb.sid ibb.seq m.blocks) _
            ∙ ap (λ xs. j.sent ++ (packets g sess.to ibb.sid ibb.seq m.blocks ++ xs))
                (ap (λ x. packets g sess.to x ibb1.seq last) m.sid_same
                  ∙ ap (λ n. packets g sess.to ibb.sid n last) m.numbered)
            ∙ ap (λ xs. j.sent ++ xs)
                (sym (packets-append g sess.to ibb.sid ibb.seq m.blocks last)),
        concat-append m.blocks last
            ∙ ap (λ xs. concat m.blocks ++ xs) left
            ∙ m.conserved
            ∙ ap (λ n. take n ibb.buf ++ bytes_of es) empty,
        All-append (IsBlock ibb.blocksize) m.blocks last (full-Blocks ibb.blocksize m.blocks m.full)
            (more-Blocks ibb.blocksize last whole),
      )

  -- A live session and a sound stream with nothing waiting, given bytes that fit a `gint`, in any order of
  -- writes and acknowledgements, and ended: no step faults, and the packets sent, numbered one after the
  -- other, carry exactly the bytes that were given, in their order.
  pub stream-Delivered :
      (es : List StreamEvent) (ibb : JingleIbb) (j : Jingle W)
      → IsLive h g sc sess j
      → IsSound ibb
      → ibb.dataleft ≡ 0
      → length (bytes_of es) < two_31
      → (j' : Jingle W) × (blocks : List (List ℕ)) × ((run_stream es ibb j >>= λ r.
            end_stream h g sc r.0 r.1)
          ≡ some j')
        × (j'.sent ≡ j.sent ++ packets g sess.to ibb.sid ibb.seq blocks)
        × (concat blocks ≡ bytes_of es)
  stream-Delivered es ibb j live s empty fits =
      let (j', blocks, ran, sent, carried, whole) = ended-Blocks es ibb j live s empty fits in
      (j', blocks, ran, sent, carried)
