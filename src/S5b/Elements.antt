-- ===== src/S5b/Elements.antt =====
-- jingle-s5b/s5b.c: the <transport> that is written and read.
use mathlib.Core.Path.{ap₂}
use mcabber_jingle.Base.{
  ℕ, suc, String, ◌≡◌, ◌≢◌, refl, sym, ap, ◌∙◌, Option, none, some, List, [], ◌+◌, length, str_eq,
  str_eq_iff, ne→str_eq,
}
use mcabber_jingle.Stanza.{Node, node_name, node_children, Host, JingleContent, GError}
use mcabber_jingle.Check.{index_in_array}
use mcabber_jingle.Send.{add_child}
use mcabber_jingle.S5b.{
  JingleS5b, JingleS5bModes, s5b_tcp, s5b_udp, S5bHost, LocalIp, jingle_s5b_modes, mode_name,
  mode_cast, parse_candidates, get_port, get_our_candidates,
}
use mcabber_jingle.S5b.Transport.{new_s5b, newfrommessage, transport_node, tomessage}
use mcabber_jingle.S5b.Candidates.{read_none, read_sorted, parse_candidates-ParseOutcome}

mode_read :
    (mode : JingleS5bModes)
    → mode_cast (index_in_array (some (mode_name mode)) jingle_s5b_modes) ≡ some mode
unfolding index_in_array str_eq
mode_read s5b_tcp = refl
mode_read s5b_udp = refl

mode_unread :
    (m : Option String)
    → m ≢ some "tcp"
    → m ≢ some "udp"
    → mode_cast (index_in_array m jingle_s5b_modes) ≡ none
unfolding index_in_array
mode_unread m no_tcp no_udp =
    let tcp = ne→str_eq (some "tcp") m (λ e. no_tcp (sym e)) in
    let udp = ne→str_eq (some "udp") m (λ e. no_udp (sym e)) in rw (tcp, udp, index_in_array) refl

not_candidate : (node : Node) → node_name node ≡ "transport" → node_name node ≢ "candidate"
unfolding str_eq
not_candidate node e k =
    let same = (str_eq_iff (some "transport") (some "candidate")).1 (ap some (sym e ∙ k)) in cc

pub no_candidates :
    (h : Host) (f : S5bHost) (a : ℕ) (node : Node)
    → node_name node ≡ "transport"
    → parse_candidates h f a node ≡ []
no_candidates h f a node named = elim (parse_candidates-ParseOutcome h f a node) [
  | read_none ne e ↦ e
  | read_sorted name d us all p ↦ absurd (not_candidate node named name)
]

-- What is made of a <transport> with an identifier.
newfrommessage_of :
    (h : Host) (f : S5bHost) (local_ips : List LocalIp) (a n port : ℕ) (cn : JingleContent)
    (err : Option GError) (node : Node) (sid : String)
    → Host.get_attribute h node "sid" ≡ some sid
    → get_port f n ≡ some port
    → newfrommessage h f local_ips a n (record cn { transport = some node }) err
      ≡ some (
        some (record new_s5b {
          mode = mode_cast (index_in_array (Host.get_attribute h node "mode") jingle_s5b_modes);
          sid = some sid;
          candidates = parse_candidates h f a node;
          ourcandidates =
              get_our_candidates f local_ips port (a + length (node_children node)) (suc n);
        }),
        err,
      )
unfolding newfrommessage
newfrommessage_of h f local_ips a n port cn err node sid is_sid is_port =
    rw (is_sid, is_port, newfrommessage) refl

-- What was read from a <transport>: none of its candidates, and a mode that is `mode`; our own candidates are made new.
abbrev pub without_candidates :
    S5bHost → List LocalIp → ℕ → ℕ → ℕ → String → Option JingleS5bModes → JingleS5b
without_candidates f local_ips port a n sid mode = record new_s5b {
  mode = mode;
  sid = some sid;
  ourcandidates = get_our_candidates f local_ips port a (suc n);
}

-- A <transport> that `tomessage` writes is read by `newfrommessage` with its identifier and mode, but without any of the
-- candidates that were offered in it, when a port is found.
pub newfrommessage-tomessage_s5b :
    (h : Host) (f : S5bHost) (local_ips : List LocalIp) (a n port : ℕ) (js5b : JingleS5b)
    (sid : String) (mode : JingleS5bModes) (node : Node) (cn : JingleContent) (err : Option GError)
    → Host.get_child h node "transport" ≡ none
    → js5b.sid ≡ some sid
    → js5b.mode ≡ some mode
    → let t = transport_node f (some sid) mode js5b.ourcandidates in
      Host.get_attribute h t "sid" ≡ some sid
      → Host.get_attribute h t "mode" ≡ some (mode_name mode)
      → get_port f n ≡ some port
      → (tomessage h f js5b node ≡ some (add_child node t))
        × (newfrommessage h f local_ips a n (record cn { transport = some t }) err
            ≡ some (
              some (
                  without_candidates f local_ips port
                    (a + length (node_children t))
                    n
                    sid
                    (some mode)),
              err,
            ))
unfolding tomessage
newfrommessage-tomessage_s5b h f local_ips a n port js5b sid mode node cn err none_yet has_sid
      has_mode is_sid is_mode is_port =
    let t = transport_node f (some sid) mode js5b.ourcandidates in
    let read = newfrommessage_of h f local_ips a n port cn err t sid is_sid is_port in
    let reads_mode =
      ap (λ m. mode_cast (index_in_array m jingle_s5b_modes)) is_mode ∙ mode_read mode in
    let own = record new_s5b {
      sid = some sid;
      ourcandidates = get_our_candidates f local_ips port (a + length (node_children t)) (suc n);
    } in
    (
      rw (none_yet, has_mode, has_sid, tomessage) refl,
      read
          ∙ ap₂ (λ m cs. some (some (record own { mode = m; candidates = cs }), err)) reads_mode
              (no_candidates h f a t refl),
    )

-- A <transport> with no mode or an unknown one is taken, but what is made of it reads outside the array of modes as
-- soon as it is written to a <content> that has no transport.
pub unknown_mode-Faults :
    (h : Host) (f : S5bHost) (local_ips : List LocalIp) (a n port : ℕ) (t node : Node)
    (sid : String) (cn : JingleContent) (err : Option GError)
    → Host.get_attribute h t "sid" ≡ some sid
    → Host.get_attribute h t "mode" ≢ some "tcp"
    → Host.get_attribute h t "mode" ≢ some "udp"
    → get_port f n ≡ some port
    → Host.get_child h node "transport" ≡ none
    → (js5b : JingleS5b) × (newfrommessage h f local_ips a n (record cn { transport = some t }) err
        ≡ some (some js5b, err))
      × (tomessage h f js5b node ≡ none)
unfolding tomessage
unknown_mode-Faults h f local_ips a n port t node sid cn err is_sid no_tcp no_udp is_port none_yet =
    let unread = mode_unread (Host.get_attribute h t "mode") no_tcp no_udp in
    (
      record new_s5b {
        mode = mode_cast (index_in_array (Host.get_attribute h t "mode") jingle_s5b_modes);
        sid = some sid;
        candidates = parse_candidates h f a t;
        ourcandidates = get_our_candidates f local_ips port (a + length (node_children t)) (suc n);
      },
      newfrommessage_of h f local_ips a n port cn err t sid is_sid is_port,
      rw (none_yet, unread, tomessage) refl,
    )
