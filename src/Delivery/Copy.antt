-- ===== src/Delivery/Copy.antt =====
-- jingle-ibb/ibb.c and jingle-ft/filetransfer.c: what is received is what was sent.
use mathlib.Core.Path.{ap₂}
use mcabber_jingle.Base.{
  ℕ, ◌+◌, ◌%◌, ◌<◌, ◌≤◌, String, ◌≡◌, refl, sym, ap, subst, ◌∙◌, true, Option, some, List, [], ◌∷◌,
  ◌++◌, map, length, arith, All, inl, inr, append-nil, append_assoc,
}
use mcabber_jingle.Stanza.{Node, Message, Host, sub_result}
use mcabber_jingle.Session.{JingleSession, SessionContent, sessioncontent_find_by_transport}
use mcabber_jingle.Jingle.{Jingle, ContentRef, Sent, reply, jingle_ack_iq, ◌>>=◌}
use mcabber_jingle.Calls.{handle_trans_data}
use mcabber_jingle.Handlers.Dispatch.{remove_message}
use mcabber_jingle.Ibb.{Glib, JingleIbb, two_31, two_64, data_stanza, end_stream}
use mcabber_jingle.Ibb.Buffer.{IsSound}
use mcabber_jingle.Ibb.Steps.{IsLive, concat, packets}
use mcabber_jingle.Ibb.Stream.{StreamEvent, bytes_of, run_stream, IsBlock, ended-Blocks}
use mcabber_jingle.Ibb.Receive.{Table, lookup_stream, jingle_ibb_handle_iq, handle_iq_lem}
use mcabber_jingle.Ft.{
  FtHost, JingleFt, ft_ending, IoAnswer, is_good, WriteAnswers, handle_data, verified,
  stop_transfer,
}
use mcabber_jingle.Ft.Sender.{FtStore}
use mcabber_jingle.Ft.Incoming.{
  Succeeds, fresh, partial, first_chunk, next_chunk, stop_whole, verdict_on,
}
use mcabber_jingle.Delivery.{app_handle_data, receive_iqs, Lands}

-- The stream with this identifier is that of a content whose data is the file at `p`.
pub record Receives (table : Table) (sid : String) (ss : List JingleSession) (p : ℕ) : Type 0 where
  pub transport : ℕ
  pub content : SessionContent
  pub app : ℕ
  pub known : lookup_stream sid table ≡ some transport
  pub found : sessioncontent_find_by_transport transport ss ≡ some content
  pub has_app : content.appfuncs ≡ some app
  pub has_data : content.description ≡ some p

-- With blocks that are not empty, no packet is.
some_blocks : (n : ℕ) (bs : List (List ℕ)) → 0 < n → All (IsBlock n) bs → All (λ b. 0 < length b) bs
some_blocks n [] l a = tt
some_blocks n (b ∷ bs) l (inl e, a) = (omega (arith, l, e), some_blocks n bs l a)
some_blocks n (b ∷ bs) l (inr m, a) = (m, some_blocks n bs l a)

abbrev pub acks : List Message → List Sent
acks [] = []
acks (m ∷ ms) = reply m sub_result [] ∷ acks ms

module _ (h : Host) (g : Glib) (decode : Node → Option (List ℕ)) {W : Type 0} (fs : FtStore W)
    (answers : List ℕ → WriteAnswers) (carry : Sent → Message) (to : Option String) (sid : String)
    (table : Table) (p : ℕ) where
  open fs use {load, save}

  abbrev deliver : ℕ → List ℕ → Jingle W → Option (Jingle W)
  deliver = handle_trans_data h (app_handle_data fs answers)

  deliver_lem :
      (bytes : List ℕ) (x y : JingleFt) (j : Jingle W) (r : Receives table sid j.sessions p)
      → load p j.world ≡ some x
      → handle_data bytes (answers bytes) x ≡ some (true, y)
      → deliver r.transport bytes j ≡ some (record j { world = save p y j.world })
  unfolding handle_trans_data app_handle_data
  deliver_lem bytes x y j r stored written =
      rw (r.found, handle_trans_data, r.has_app, r.has_data, app_handle_data, stored, written) refl

  -- One packet, for a file whose writing succeeds.
  packet_lem :
      (bytes : List ℕ) (seq : ℕ) (x y : JingleFt) (j : Jingle W)
      → Lands h g decode carry to sid bytes seq
      → Receives table sid j.sessions p
      → load p j.world ≡ some x
      → handle_data bytes (answers bytes) x ≡ some (true, y)
      → let m = carry (data_stanza g to bytes (some sid) seq) in
        jingle_ibb_handle_iq h decode deliver table m j
        ≡ some (remove_message, record (jingle_ack_iq m j) { world = save p y j.world })
  unfolding jingle_ack_iq
  packet_lem bytes seq x y j l r stored written =
      let m = carry (data_stanza g to bytes (some sid) seq) in
      handle_iq_lem h decode deliver table m l.dnode sid j l.is_data
      ∙ rw (r.known) (
          ap
            (λ o. o >>= λ b.
              deliver r.transport b (jingle_ack_iq m j) >>= λ j'. some (remove_message, j'))
            l.decoded
          ∙ ap (λ o. o >>= λ j'. some (remove_message, j'))
              (deliver_lem bytes x y (jingle_ack_iq m j) r stored written))

  -- In `j`, the file has been received up to `bytes`.
  record IsReceiving (jft : JingleFt) (bytes : List ℕ) (j : Jingle W) : Type 0 where
    receives : Receives table sid j.sessions p
    stored : load p j.world ≡ some (partial jft bytes)

  abbrev arrived : ℕ → List (List ℕ) → List Message
  arrived seq blocks = map carry (packets g to (some sid) seq blocks)

  module _
      (lands : (bytes : List ℕ) (seq : ℕ)
        → 0 < length bytes
        → Lands h g decode carry to sid bytes seq)
      (succeeds : (bytes : List ℕ) → Succeeds (bytes, answers bytes))
      (saves : (x : JingleFt) (w : W) → load p (save p x w) ≡ some x) where
    receive_blocks :
        (blocks : List (List ℕ)) (seq : ℕ) (jft : JingleFt) (old : List ℕ) (j : Jingle W)
        → IsReceiving jft old j
        → All (λ b. 0 < length b) blocks
        → (j' : Jingle W) × (receive_iqs fs answers h decode table (arrived seq blocks) j ≡ some j')
          × IsReceiving jft (old ++ concat blocks) j'
          × (j'.sent ≡ j.sent ++ acks (arrived seq blocks))
    unfolding receive_iqs jingle_ack_iq
    receive_blocks [] seq jft old j state all = (
      j,
      refl,
      subst (λ b. IsReceiving jft b j) (sym (append-nil old)) state,
      sym (append-nil j.sent),
    )
    receive_blocks (b ∷ bs) seq jft old j state all =
        let m = carry (data_stanza g to b (some sid) seq) in
        let y = partial jft (old ++ b) in
        let j1 = record (jingle_ack_iq m j) { world = save p y j.world } in
        let step =
          packet_lem b seq (partial jft old) y j (lands b seq all.0) state.receives state.stored
            (next_chunk jft old b (answers b) (succeeds b)) in
        let (j', ran, done, sent) =
          receive_blocks bs ((seq + 1) % two_64) jft (old ++ b) j1
            (record { receives = state.receives; stored = saves y j.world }) all.1 in
        (
          j',
          rw step ran,
          subst (λ c. IsReceiving jft c j') (append_assoc old b (concat bs)) done,
          sent
              ∙ append_assoc j.sent (reply m sub_result [] ∷ [])
                  (acks (arrived ((seq + 1) % two_64) bs)),
        )

    -- The first block makes the file.
    receive_all :
        (b : List ℕ) (bs : List (List ℕ)) (seq : ℕ) (jft : JingleFt) (j : Jingle W)
        → Receives table sid j.sessions p
        → load p j.world ≡ some (fresh jft)
        → All (λ c. 0 < length c) (b ∷ bs)
        → (j' : Jingle W) × (receive_iqs fs answers h decode table (arrived seq (b ∷ bs)) j
            ≡ some j')
          × IsReceiving jft (b ++ concat bs) j'
          × (j'.sent ≡ j.sent ++ acks (arrived seq (b ∷ bs)))
    unfolding receive_iqs jingle_ack_iq
    receive_all b bs seq jft j receives stored all =
        let m = carry (data_stanza g to b (some sid) seq) in
        let y = partial jft b in
        let j1 = record (jingle_ack_iq m j) { world = save p y j.world } in
        let step =
          packet_lem b seq (fresh jft) y j (lands b seq all.0) receives stored
            (first_chunk jft b (answers b) (succeeds b)) in
        let (j', ran, done, sent) =
          receive_blocks bs ((seq + 1) % two_64) jft b j1
            (record { receives = receives; stored = saves y j.world }) all.1 in
        (
          j',
          rw step ran,
          done,
          sent
              ∙ append_assoc j.sent (reply m sub_result [] ∷ [])
                  (acks (arrived ((seq + 1) % two_64) bs)),
        )

    receive_concat :
        (blocks : List (List ℕ)) (bytes : List ℕ) (seq : ℕ) (jft : JingleFt) (j : Jingle W)
        → concat blocks ≡ bytes
        → 0 < length bytes
        → Receives table sid j.sessions p
        → load p j.world ≡ some (fresh jft)
        → All (λ b. 0 < length b) blocks
        → (j' : Jingle W) × (receive_iqs fs answers h decode table (arrived seq blocks) j ≡ some j')
          × (load p j'.world ≡ some (partial jft bytes))
          × (j'.sent ≡ j.sent ++ acks (arrived seq blocks))
    receive_concat [] bytes seq jft j e some_bytes receives stored all =
        absurd (ground (arith, ap length e))
    receive_concat (b ∷ bs) bytes seq jft j e some_bytes receives stored all =
        let (j', ran, done, sent) = receive_all b bs seq jft j receives stored all in
        (j', ran, done.stored ∙ ap (λ c. some (partial jft c)) e, sent)

    -- What the receiver says in the end, with the hash of the bytes that were sent.
    verified_lem :
        (f : FtHost) (jft : JingleFt) (bytes : List ℕ) (closed : IoAnswer)
        → is_good closed ≡ true
        → jft.size ≤ length bytes
        → length bytes < two_64
        → f.strncasecmp (f.get_string bytes) (f.get_string bytes) ≡ true
        → stop_transfer f closed (record (partial jft bytes) { hash = some (f.get_string bytes) })
          ≡ some (
            verified,
            record (partial jft bytes) { hash = some (f.get_string bytes); state = ft_ending },
          )
    unfolding verdict_on
    verified_lem f jft bytes closed good all small same =
        stop_whole f (record jft { hash = some (f.get_string bytes) }) bytes closed good all small
        ∙ rw same refl

    -- An application gives at least one byte and fewer than 2^31 to a sound stream with a block size above 0 on a
    -- live session, in any order of writes and acknowledgements, and ends it. When each packet that is not empty
    -- lands as an IQ of that stream, and the receiver has the stream for a content whose file is new and whose
    -- writing succeeds, then all packets are received, each is acknowledged once, the file has exactly the bytes
    -- that were given, and the transfer ends as verified against their hash, if no more were announced.
    pub run_stream-Copied :
        {V : Type 0} (hs : Host) (sc : ContentRef) (sess : JingleSession) (es : List StreamEvent)
        (ibb : JingleIbb) (js : Jingle V) (f : FtHost) (jft : JingleFt) (closed : IoAnswer)
        (j : Jingle W)
        → IsLive hs g sc sess js
        → IsSound ibb
        → ibb.dataleft ≡ 0
        → 0 < ibb.blocksize
        → ibb.sid ≡ some sid
        → sess.to ≡ to
        → 0 < length (bytes_of es)
        → length (bytes_of es) < two_31
        → Receives table sid j.sessions p
        → load p j.world ≡ some (fresh jft)
        → is_good closed ≡ true
        → jft.size ≤ length (bytes_of es)
        → let all = bytes_of es in
          f.strncasecmp (f.get_string all) (f.get_string all) ≡ true
          → (js' : Jingle V) × (packets_sent : List Sent) × (j' : Jingle W) × (y : JingleFt)
            × ((run_stream hs g sc sess es ibb js >>= λ r. end_stream hs g sc r.0 r.1) ≡ some js')
            × (js'.sent ≡ js.sent ++ packets_sent)
            × (receive_iqs fs answers h decode table (map carry packets_sent) j ≡ some j')
            × (j'.sent ≡ j.sent ++ acks (map carry packets_sent))
            × (load p j'.world ≡ some y)
            × (y.outfile ≡ some (record { contents = all }))
            × (stop_transfer f closed (record y { hash = some (f.get_string all) })
                ≡ some (verified, record y { hash = some (f.get_string all); state = ft_ending }))
    run_stream-Copied hs sc sess es ibb js f jft closed j live sound empty sized has_sid goes_to
          some_bytes few receives stored good all_came same =
        let all = bytes_of es in
        let (js', blocks, ran, sent, carried, whole) =
          ended-Blocks hs g sc sess es ibb js live sound empty few in
        let (j', received, kept, acked) =
          receive_concat blocks all ibb.seq jft j carried some_bytes receives stored
            (some_blocks ibb.blocksize blocks sized whole) in
        (
          js',
          packets g to (some sid) ibb.seq blocks,
          j',
          partial jft all,
          ran,
          sent ∙ ap₂ (λ t i. js.sent ++ packets g t i ibb.seq blocks) goes_to has_sid,
          received,
          acked,
          kept,
          refl,
          verified_lem f jft all closed good all_came (omega (arith, few)) same,
        )
