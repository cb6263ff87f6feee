-- ===== src/Tests/Streams.antt =====
-- The theorems on in-band streams, applied.
use mcabber_jingle.Base.{ℕ, ◌≡◌, refl, ◌++◌, none, some, List, [], ◌∷◌, arith, str_eq}
use mcabber_jingle.Stanza.{Node, element, nil, cons, JingleContent, Message, sub_set}
use mcabber_jingle.Session.{session_find_by_sid, session_find_sessioncontent}
use mcabber_jingle.Jingle.{Jingle, ContentRef, ◌>>=◌}
use mcabber_jingle.Send.{add_child}
use mcabber_jingle.Ibb.{Glib, JingleIbb, newfrommessage, tomessage, new_ibb, end_stream}
use mcabber_jingle.Ibb.Buffer.{IsSound}
use mcabber_jingle.Ibb.Steps.{IsLive, Moves, concat, packets}
use mcabber_jingle.Ibb.Stream.{
  StreamEvent, fed, acked, bytes_of, run_stream, run_stream-Moves, stream-Delivered,
}
use mcabber_jingle.Ibb.Attributes.{
  ReadOutcome, newfrommessage-ReadOutcome, transport_node, newfrommessage-tomessage,
}
use mcabber_jingle.Tests.World.{host, busy, session, one, content_of}

abbrev pub glib : Glib
glib = record {
  strtoll = λ text. 3;
  base64_encode = λ bytes. "data";
  show_uint = λ n. "3";
  show_int64 = λ n. "0";
}

abbrev pub stream : JingleIbb
stream = record (new_ibb "i1") { blocksize = 3 }

abbrev half_full : JingleIbb
half_full = record stream { buf = 1 ∷ 2 ∷ 3 ∷ 4 ∷ 5 ∷ []; size_buf = 5; dataleft = 4 }

pub stream-IsSound : IsSound stream
unfolding new_ibb
stream-IsSound = record {
  whole = refl;
  inside = omega arith;
  fits = omega arith;
  clamped = omega arith;
}

abbrev pub stream_ref : ContentRef
stream_ref = record { sid = some "s1"; from = some "them@there"; name = some "one" }

stream-IsLive : IsLive host glib stream_ref session busy
unfolding session_find_by_sid session_find_sessioncontent str_eq
stream-IsLive = record { found = refl; content = one; named = refl }

abbrev events : List StreamEvent
events = fed (1 ∷ 2 ∷ []) ∷ fed (3 ∷ 4 ∷ 5 ∷ 6 ∷ 7 ∷ []) ∷ acked ∷ []

run_stream-Moves_example :
    (ibb' : JingleIbb) × (j' : Jingle ℕ) × (run_stream host glib stream_ref session events stream
        busy
      ≡ some (ibb', j'))
    × Moves host glib stream_ref session stream (bytes_of events) busy ibb' j'
unfolding new_ibb
run_stream-Moves_example =
    run_stream-Moves host glib stream_ref session events stream busy stream-IsLive stream-IsSound
      (omega arith)

stream-Delivered_example :
    (j' : Jingle ℕ) × (blocks : List (List ℕ)) × ((run_stream host glib stream_ref session events
          stream busy
        >>= λ r. end_stream host glib stream_ref r.0 r.1)
      ≡ some j')
    × (j'.sent ≡ [] ++ packets glib (some "us@here") (some "i1") 0 blocks)
    × (concat blocks ≡ bytes_of events)
unfolding new_ibb
stream-Delivered_example =
    stream-Delivered host glib stream_ref session events stream busy stream-IsLive stream-IsSound
      refl (omega arith)

abbrev offered : JingleContent
offered = record (content_of "one") { transport = some (transport_node glib stream "i1") }

newfrommessage-ReadOutcome_example :
    ReadOutcome host glib offered none (newfrommessage host glib offered none)
newfrommessage-ReadOutcome_example = newfrommessage-ReadOutcome host glib offered none

newfrommessage-tomessage_example :
    (tomessage host glib stream (element "content" none [] nil)
      ≡ add_child (element "content" none [] nil) (transport_node glib stream "i1"))
    × (newfrommessage host glib
          (record (content_of "one") { transport = some (transport_node glib stream "i1") })
          none
        ≡ (some (record (new_ibb "i1") { blocksize = 3 }), none))
unfolding new_ibb str_eq
newfrommessage-tomessage_example =
    newfrommessage-tomessage host glib stream "i1" (element "content" none [] nil)
      (record (content_of "one") { transport = some (transport_node glib stream "i1") }) none refl
      refl (omega arith) refl refl refl refl

abbrev data_node : Node
data_node =
    element "data" none (("xmlns", "http://jabber.org/protocol/ibb") ∷ ("sid", "i1") ∷ []) nil

abbrev data_iq : Message
data_iq = record { sub_type = sub_set; node = element "iq" none [] (cons data_node nil) }
