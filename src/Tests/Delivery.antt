-- ===== src/Tests/Delivery.antt =====
-- The theorem on a file that is copied, applied: a byte is encoded as as many letters "a" and a "b".
use Prim.Native.Char.{char, code}
use mcabber_jingle.Base.{
  ℕ, zero, suc, ◌+◌, ◌<◌, Option, String, ◌≡◌, refl, ap, ◌∙◌, none, some, List, [], ◌∷◌, ◌++◌, ◌==◌,
  map, length, arith, str_eq, if◌then◌else◌,
}
use mcabber_jingle.Stanza.{Node, element, nil, cons, Message, sub_set}
use mcabber_jingle.Session.{
  session_find_by_sid, session_find_sessioncontent, sessioncontent_find_by_transport, holds,
}
use mcabber_jingle.Jingle.{Jingle, Sent, request, reply, ◌>>=◌}
use mcabber_jingle.Ibb.{Glib, new_ibb, data_stanza, end_stream}
use mcabber_jingle.Ibb.Stream.{StreamEvent, fed, acked, run_stream}
use mcabber_jingle.Ibb.Receive.{Table, lookup_stream}
use mcabber_jingle.Ft.{
  FtHost, JingleFt, new_jingle_ft, ft_ending, WriteAnswers, verified, stop_transfer,
}
use mcabber_jingle.Ft.Sender.{FtStore}
use mcabber_jingle.Ft.Incoming.{fresh}
use mcabber_jingle.Delivery.{receive_iqs, Lands}
use mcabber_jingle.Delivery.Copy.{acks, run_stream-Copied}
use mcabber_jingle.Tests.Files.{ft_host, good, wrote}
use mcabber_jingle.Tests.Streams.{glib, stream, stream_ref, stream-IsSound}
use mcabber_jingle.Tests.World.{host, busy, session, one, registry}

abbrev unary : ℕ → String → String
unary zero s = String.◌∷◌ (char 98 tt) s
unary (suc n) s = String.◌∷◌ (char 97 tt) (unary n s)

abbrev encode : List ℕ → String
encode [] = ""
encode (n ∷ ns) = unary n (encode ns)

abbrev decode_from : ℕ → String → List ℕ
decode_from n String.[] = []
decode_from n (String.◌∷◌ c s) =
    let more = decode_from (suc n) s in
    let next = decode_from 0 s in if code c == 98 then n ∷ next else more

decode-unary : (k n : ℕ) (s : String) → decode_from k (unary n s) ≡ (k + n) ∷ decode_from 0 s
decode-unary k zero s = ap (λ m. m ∷ decode_from 0 s) (omega arith)
decode-unary k (suc n) s = decode-unary (suc k) n s ∙ ap (λ m. m ∷ decode_from 0 s) (omega arith)

decode-encode : (bytes : List ℕ) → decode_from 0 (encode bytes) ≡ bytes
decode-encode [] = refl
decode-encode (n ∷ ns) =
    decode-unary 0 n (encode ns)
    ∙ ap (◌∷◌ (0 + n)) (decode-encode ns)
    ∙ ap (λ m. m ∷ ns) (omega arith)

abbrev decode : Node → Option (List ℕ)
decode (element name none attrs cs) = none
decode (element name (some text) attrs cs) = some (decode_from 0 text)

abbrev coding : Glib
coding = record glib { base64_encode = encode }

abbrev carry : Sent → Message
carry (request to n) = record { sub_type = sub_set; node = element "iq" none [] (cons n nil) }
carry (reply m sub ns) = m

packet-Lands :
    (bytes : List ℕ) (seq : ℕ)
    → 0 < length bytes
    → Lands host coding decode carry (some "us@here") "i1" bytes seq
unfolding data_stanza str_eq
packet-Lands bytes seq some_bytes = record {
  dnode = _;
  is_data = record { set = refl; child = refl; namespace = refl; for_stream = refl };
  decoded = ap some (decode-encode bytes);
}

abbrev events : List StreamEvent
events = fed (1 ∷ 2 ∷ []) ∷ acked ∷ fed (0 ∷ []) ∷ []

-- The receiver has one file.
abbrev files : FtStore JingleFt
files = record { load = λ p w. some w; save = λ p x w. x }

abbrev receiver : Jingle JingleFt
receiver = record {
  registry = registry;
  sessions = session ∷ [];
  fresh = 7;
  ack_handlers = [];
  now = 100;
  sent = [];
  events = [];
  shown = [];
  world = fresh (record new_jingle_ft { size = 3 });
}

abbrev writes : List ℕ → WriteAnswers
writes bytes = wrote (length bytes)

abbrev table : Table
table = ("i1", 12) ∷ []

run_stream-Copied_example :
    (js' : Jingle ℕ) × (packets_sent : List Sent) × (j' : Jingle JingleFt) × (y : JingleFt)
    × ((run_stream host coding stream_ref session events stream busy >>= λ r.
          end_stream host coding stream_ref r.0 r.1)
        ≡ some js')
    × (js'.sent ≡ [] ++ packets_sent)
    × (receive_iqs files writes host decode table (map carry packets_sent) receiver ≡ some j')
    × (j'.sent ≡ [] ++ acks (map carry packets_sent))
    × (some j'.world ≡ some y)
    × (y.outfile ≡ some (record { contents = 1 ∷ 2 ∷ 0 ∷ [] }))
    × (stop_transfer ft_host good
          (record y { hash = some (FtHost.get_string ft_host (1 ∷ 2 ∷ 0 ∷ [])) })
        ≡ some (
          verified,
          record y { hash = some (FtHost.get_string ft_host (1 ∷ 2 ∷ 0 ∷ [])); state = ft_ending },
        ))
unfolding new_ibb session_find_by_sid session_find_sessioncontent sessioncontent_find_by_transport
    holds lookup_stream str_eq
run_stream-Copied_example =
    run_stream-Copied host coding decode files writes carry (some "us@here") "i1" table 11
      packet-Lands
      (λ bytes. record {
        opens = refl;
        encodes = refl;
        writes = refl;
        flushes = refl;
        whole = refl;
      })
      (λ x w. refl) host stream_ref session events stream busy ft_host
      (record new_jingle_ft { size = 3 }) good receiver
      (record { found = refl; content = one; named = refl }) stream-IsSound refl (omega arith) refl
      refl (omega arith) (omega arith)
      (record {
        transport = 12;
        content = one;
        app = 1;
        known = refl;
        found = refl;
        has_app = refl;
        has_data = refl;
      })
      refl refl (omega arith) refl
