-- ===== src/Tests/Candidates.antt =====
-- The theorems on the candidates of SOCKS5 bytestreams, applied.
use mathlib.Core.List.{Perm}
use mcabber_jingle.Base.{
  ℕ, ◌≡◌, refl, inl, inr, true, false, some, none, List, [], ◌∷◌, map, All, str_eq,
}
use mcabber_jingle.Stanza.{Node, element, nil, session_accept}
use mcabber_jingle.Send.{add_child}
use mcabber_jingle.S5b.{
  listening, JingleS5b, S5bCandidate, S5bHost, LocalIp, s5b_tcp, s5b_direct, parse_candidates,
  get_port, get_our_candidates,
}
use mcabber_jingle.S5b.Transport.{new_s5b, newfrommessage, transport_node, handle, tomessage}
use mcabber_jingle.S5b.Candidates.{ParseOutcome, Descends, parse_candidates-ParseOutcome}
use mcabber_jingle.S5b.Connect.{ListenAnswers, init}
use mcabber_jingle.Check.{index_in_array}
use mcabber_jingle.S5b.Listening.{from_message, handled, init-Listens}
use mcabber_jingle.S5b.Elements.{without_candidates, newfrommessage-tomessage_s5b}
use mcabber_jingle.S5b.Interfaces.{
  Ifaddr, af_inet, af_other, IsLocalPriority, get_all_local_ips, usable, AllOffered,
  get_our_candidates-Offered,
}
use mcabber_jingle.Tests.World.{host, content_of}

-- Ports are drawn from the start of a range.
abbrev pub s5b_host : S5bHost
s5b_host = record {
  address_from_string = λ text. some 1;
  address_to_string = λ a. "10.0.0.1";
  strtoull = λ text. 7;
  show_uint = λ n. "7";
  connection_jid = some "us@here";
  draw = λ n low high. low;
  sscanf = λ text. (some 5000, some 6000);
  port_range = some "5000-6000";
  str_of = λ bytes. "abcdefg";
}

abbrev candidate : ℕ → ℕ → S5bCandidate
candidate a priority = record {
  addr = a;
  cid = some "c";
  host = a;
  jid = some "us@here";
  port = 5000;
  priority = priority;
  type = s5b_direct;
}

abbrev stream : JingleS5b
stream = record new_s5b {
  sid = some "s";
  candidates = candidate 1 9 ∷ candidate 2 8 ∷ [];
  ourcandidates = candidate 3 7 ∷ [];
}

abbrev offer_node : Node
offer_node = transport_node s5b_host (some "s") s5b_tcp (candidate 3 7 ∷ [])

abbrev content_node : Node
content_node = element "content" none [] nil

parse_candidates-ParseOutcome_example :
    ParseOutcome host s5b_host 10 offer_node (parse_candidates host s5b_host 10 offer_node)
parse_candidates-ParseOutcome_example = parse_candidates-ParseOutcome host s5b_host 10 offer_node

newfrommessage-tomessage_s5b_example :
    (tomessage host s5b_host stream content_node ≡ some (add_child content_node offer_node))
    × (newfrommessage host s5b_host [] 20 0
          (record (content_of "file") { transport = some offer_node })
          none
        ≡ some (some (without_candidates s5b_host [] 5000 21 0 "s" (some s5b_tcp)), none))
unfolding str_eq get_port
newfrommessage-tomessage_s5b_example =
    newfrommessage-tomessage_s5b host s5b_host [] 20 0 5000 stream "s" s5b_tcp content_node
      (content_of "file") none refl refl refl refl refl refl

abbrev local_ip : LocalIp
local_ip = record { address = 4; priority = 7; type = s5b_direct }

-- A transport that is read, and then given the candidates of a session-accept.
abbrev read_s5b : JingleS5b
read_s5b = without_candidates s5b_host (local_ip ∷ []) 5000 21 0 "s" (some s5b_tcp)

-- Every call of GIO succeeds.
abbrev serves_all : ℕ → ListenAnswers
serves_all a = record { makes_socket = true; binds = true; listens = true; adds = true }

init-Listens_example :
    init serves_all read_s5b ≡ inl (record read_s5b { listener = listening ((4, 5000) ∷ []) })
unfolding str_eq get_port get_our_candidates handle parse_candidates newfrommessage index_in_array
init-Listens_example = init-Listens host s5b_host (local_ip ∷ []) read_s5b serves_all (
    handled session_accept 40 read_s5b read_s5b offer_node
      (from_message 20 0 (record (content_of "file") { transport = some offer_node }) none none
        read_s5b refl refl)
      refl refl)

-- Two interfaces that are up, of which one has no address of the internet.
abbrev pub interfaces : List Ifaddr
interfaces =
    record {
      ifa_name = some "eth0";
      is_up = true;
      is_loopback = false;
      ifa_addr = some (af_inet 4);
    }
    ∷ record { ifa_name = some "eth1"; is_up = true; is_loopback = false; ifa_addr = some af_other }
    ∷ []

get_our_candidates-Offered_example :
    (ips : List LocalIp) × (get_all_local_ips (λ a. false) [] (some interfaces) ≡ some ips)
    × All IsLocalPriority ips
    × Descends (get_our_candidates s5b_host ips 5000 30 1)
    × Perm
        (map (λ c. S5bCandidate.host c) (get_our_candidates s5b_host ips 5000 30 1))
        (usable (λ a. false) [] interfaces)
    × AllOffered (λ a. false) [] interfaces (usable (λ a. false) [] interfaces)
get_our_candidates-Offered_example =
    get_our_candidates-Offered (λ a. false) [] interfaces s5b_host 5000 30 1
      (inr (af_inet 4, refl), (inr (af_other, refl), tt))
