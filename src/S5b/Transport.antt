-- ===== src/S5b/Transport.antt =====
-- jingle-s5b/s5b.c: the <transport> elements that are read and written.
use mcabber_jingle.Base.{ℕ, suc, ◌+◌, String, false, Option, none, some, List, [], ◌∷◌, length}
use mcabber_jingle.Stanza.{
  Node, element, nil, node_children, Host, JingleAction, session_accept, transport_info,
  JingleContent, GError, error_missing, set_error,
}
use mcabber_jingle.Check.{index_in_array}
use mcabber_jingle.Jingle.{JingleHandleStatus, status_handled, status_not_handled, nodes_of, ◌>>=◌}
use mcabber_jingle.Send.{add_child}
use mcabber_jingle.S5b.{
  ns_jingle_transport_socks5, JingleS5bModes, jingle_s5b_modes, type_name, mode_name, mode_cast,
  S5bCandidate, LocalIp, JingleS5b, S5bHost, gen_random_sid, parse_candidates, get_our_candidates,
  get_port, s5b_tcp, no_listener,
}

abbrev pub attribute_of_transport : Host → Option Node → String → Option String
attribute_of_transport h none name = none
attribute_of_transport h (some node) name = Host.get_attribute h node name

abbrev pub candidates_of : Host → S5bHost → ℕ → Option Node → List S5bCandidate
candidates_of h f a none = []
candidates_of h f a (some node) = parse_candidates h f a node

abbrev pub children_of : Option Node → List Node
children_of none = []
children_of (some node) = node_children node

abbrev pub new_s5b : JingleS5b
new_s5b = record {
  mode = some s5b_tcp;
  sid = none;
  connection = none;
  cancelconnect = none;
  listener = no_listener;
  client = false;
  candidates = [];
  ourcandidates = [];
}

module _ (h : Host) (f : S5bHost) (local_ips : List LocalIp) where
  -- `newfrommessage`. A transport that is NULL has no attribute.
  unfoldable pub newfrommessage :
      ℕ → ℕ → JingleContent → Option GError → Option (Option JingleS5b × Option GError)
  unfolding get_port get_our_candidates
  newfrommessage a n cn err = elim (attribute_of_transport h cn.transport "sid") [
    | none ↦
        some (none, set_error error_missing "an attribute of the transport element is missing" err)
    | some sid ↦ do
      port ← get_port f n
      let js5b = record new_s5b {
        mode =
            mode_cast
              (index_in_array (attribute_of_transport h cn.transport "mode") jingle_s5b_modes);
        sid = some sid;
        candidates = candidates_of h f a cn.transport;
        ourcandidates =
            get_our_candidates f local_ips port (a + length (children_of cn.transport)) (suc n);
      }
      some (some js5b, err)
  ]

  -- `new`.
  unfoldable pub new_own : ℕ → ℕ → Option JingleS5b
  unfolding get_port get_our_candidates
  new_own a n = do
    port ← get_port f (n + 7)
    some (record new_s5b {
      sid = some (gen_random_sid f n);
      ourcandidates = get_our_candidates f local_ips port a (n + 8);
    })

  -- `handle`: a transport-info changes nothing.
  unfoldable pub handle : JingleAction → ℕ → JingleS5b → Node → JingleHandleStatus × JingleS5b
  unfolding parse_candidates
  handle session_accept a js5b node =
      (status_handled, record js5b { candidates = parse_candidates h f a node })
  handle transport_info a js5b node = (status_handled, js5b)
  handle _ a js5b node = (status_not_handled, js5b)

-- A <candidate>, whose attributes end at one that is NULL.
abbrev pub candidate_node : S5bHost → S5bCandidate → Node
candidate_node f c =
    let after_jid : List (String × String) = elim c.jid [
      | none ↦ []
      | some jid ↦
          ("jid", jid)
          ∷ ("port", f.show_uint c.port)
          ∷ ("priority", f.show_uint c.priority)
          ∷ ("type", type_name c.type)
          ∷ []
    ] in
    element "candidate" none
      (elim c.cid [
        | none ↦ []
        | some cid ↦ ("cid", cid) ∷ ("host", f.address_to_string c.host) ∷ after_jid
      ])
      nil

abbrev pub candidate_nodes : S5bHost → List S5bCandidate → List Node
candidate_nodes f [] = []
candidate_nodes f (c ∷ cs) = candidate_node f c ∷ candidate_nodes f cs

-- The <transport> that is sent.
abbrev pub transport_node : S5bHost → Option String → JingleS5bModes → List S5bCandidate → Node
transport_node f none mode cs =
    element "transport" none (("xmlns", ns_jingle_transport_socks5) ∷ [])
      (nodes_of (candidate_nodes f cs))
transport_node f (some sid) mode cs =
    element "transport" none
      (("xmlns", ns_jingle_transport_socks5) ∷ ("sid", sid) ∷ ("mode", mode_name mode) ∷ [])
      (nodes_of (candidate_nodes f cs))

-- `tomessage`: a mode of -1 is read outside its array.
unfoldable pub tomessage : Host → S5bHost → JingleS5b → Node → Option Node
tomessage h f js5b node = elim (Host.get_child h node "transport") [
  | some t ↦ some node
  | none ↦ do
    mode ← js5b.mode
    some (add_child node (transport_node f js5b.sid mode js5b.ourcandidates))
]
