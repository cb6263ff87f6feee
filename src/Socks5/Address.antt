-- ===== src/Socks5/Address.antt =====
-- jingle-s5b/socks5-proto.c, `connect_reply_addr_read_cb`: the address in a reply comes in one read, or
-- in several.
use mcabber_jingle.Base.{
  ℕ, zero, suc, ◌+◌, ◌-◌, ◌<◌, ◌≤◌, ◌≡◌, ◌≢◌, refl, ap, ◌∙◌, Bool, true, false, Option, none, some,
  List, ◌∷◌, ◌++◌, ◌==◌, ◌⊎◌, inl, inr, Bool-cases, Option-cases, leb, length-drop, length, take,
  drop, map, arith, get_elem?,
}
use mcabber_jingle.Memory.{read_first}
use mcabber_jingle.Jingle.{◌>>=◌}
use mcabber_jingle.Socks5.{
  protocol, s5b_socks5_error, failed, not_allowed, client_parse_connect_reply,
}
use mcabber_jingle.Socks5.Nego.{
  ConnectAsyncData, Nego, waiting, finished, moved, run, asked, got_connect_reply, received, call,
  on_connect_reply_read, on_connect_reply_addr_read, on_connect_reply_addr_len_read,
  on_connect_addr_read, got_address, answer_connect, bytes_eq, strndup,
}
use mcabber_jingle.Socks5.Transfer.{Progress, run_finished}
use mcabber_jingle.Socks5.Reads.{got, CanRead, read_all, received_part, received_all, received_out}
use mcabber_jingle.Socks5.Client.{Asked, address_length}

Asked-CanRead :
    (hostname : List ℕ) (ipv4 : Bool) (addr : List ℕ) (d : ConnectAsyncData)
    → Asked hostname ipv4 addr d
    → address_length ipv4 ≤ length addr
    → CanRead d
Asked-CanRead hostname true addr d a l = (
  omega (arith, a.expects, a.offset),
  omega (arith, a.expects, a.room),
  omega (arith, a.expects, a.offset, l, ap length a.input),
)
Asked-CanRead hostname false addr d a l = (
  omega (arith, a.expects, a.offset),
  omega (arith, a.expects, a.room),
  omega (arith, a.expects, a.offset, l, ap length a.input),
)

-- If the address comes in one read, the negotiation succeeds, and the stream goes on after the port.
pub address_at_once :
    (hostname : List ℕ) (ipv4 : Bool) (addr : List ℕ) (d : ConnectAsyncData) (n : ℕ) (ns : List ℕ)
    → Asked hostname ipv4 addr d
    → address_length ipv4 ≤ length addr
    → address_length ipv4 ≤ n
    → (d' : ConnectAsyncData) × (run (map moved (n ∷ ns)) (waiting on_connect_reply_addr_read d)
        ≡ some (finished none d'))
      × (d'.input ≡ drop (address_length ipv4) addr)
      × (d'.output ≡ d.output)
unfolding run call
address_at_once hostname ipv4 addr d n ns a l e =
    let ok = Asked-CanRead hostname ipv4 addr d a l in
    let all = received_all n d ok (omega (arith, a.expects, a.offset, e)) in
    let k : asked d ≡ address_length ipv4 = omega (arith, a.expects, a.offset) in
    let same : (d.length == d.length) ≡ true = ground arith in
    (
      got d,
      rw (all, same) (run_finished (map moved ns) none (got d)),
      ap (λ m. drop m d.input) k ∙ ap (drop (address_length ipv4)) a.input,
      refl,
    )

wrong_version :
    (d : ConnectAsyncData) (a : ℕ)
    → get_elem? d.buffer 0 ≡ some a
    → a ≢ 5
    → got_connect_reply d ≡ some (finished (some (protocol s5b_socks5_error failed)) d)
unfolding got_connect_reply client_parse_connect_reply
wrong_version d a e ne = ground arith

first_taken : (k a : ℕ) (as' xs : List ℕ) → 0 < k → get_elem? (take k (a ∷ as') ++ xs) 0 ≡ some a
first_taken zero a as' xs p = absurd (omega (arith, p))
first_taken (suc k) a as' xs p = refl

-- If the first read brings only a part of the address, which does not start with a byte 5, and the rest comes in any chunks, the
-- negotiation fails: the callback that goes on takes the address for a reply.
pub address_in_parts-Fails :
    (hostname : List ℕ) (ipv4 : Bool) (first : ℕ) (addr : List ℕ) (d : ConnectAsyncData) (n : ℕ)
    (ns : List ℕ)
    → Asked hostname ipv4 (first ∷ addr) d
    → first ≢ 5
    → address_length ipv4 ≤ suc (length addr)
    → n < address_length ipv4
    → Progress (n ∷ ns)
    → address_length ipv4 ≤ length ns
    → (d' : ConnectAsyncData) × (run (map moved (n ∷ ns)) (waiting on_connect_reply_addr_read d)
        ≡ some (finished (some (protocol s5b_socks5_error failed)) d'))
unfolding run call
address_in_parts-Fails hostname ipv4 first addr d n ns a ne l part p enough =
    let ok = Asked-CanRead hostname ipv4 (first ∷ addr) d a l in
    let k : asked d ≡ address_length ipv4 = omega (arith, a.expects, a.offset) in
    let (d1, read, same, at, len, ok1) = received_part n d ok (omega (arith, k, part)) in
    let more : (d1.offset == d1.length) ≡ false = ground (arith, at, len, k, part, a.offset) in
    let r =
      read_all on_connect_reply_read got_connect_reply ns d1 (λ n d. refl) p.1
        (omega (arith, at, len, k, part)) ok1.1 ok1.2 (omega (arith, at, len, k, enough)) in
    let starts : get_elem? (got d).buffer 0 ≡ some first =
      ap
        (λ (x : ℕ × List ℕ).
          get_elem? (take x.0 d.buffer ++ take (asked d) x.1 ++ drop d.length d.buffer) 0)
        (let e : ◌≡◌ {A = ℕ × List ℕ} (d.offset, d.input) (0, first ∷ addr) =
            ground (arith, a.offset, a.input) in
          e)
      ∙ first_taken (asked d) first addr _ (omega (arith, k, part)) in
    (
      got d1,
      rw (read, more) r.same
          ∙ ap (λ x. x >>= run (map moved r.rest))
              (wrong_version (got d1) first
                (ap (λ x. get_elem? (ConnectAsyncData.buffer x) 0) same ∙ starts) ne)
          ∙ run_finished (map moved r.rest) _ (got d1),
    )

length_read :
    (d0 : ConnectAsyncData) (len : ℕ) (name : List ℕ) (n : ℕ) (ns : List ℕ)
    → length d0.buffer ≡ 255
    → 0 < n
    → run (map moved (n ∷ ns)) (
        waiting on_connect_reply_addr_len_read
          (record d0 { offset = 0; length = 1; input = len ∷ name }))
      ≡ run (map moved ns) (
          waiting on_connect_addr_read (record d0 {
            buffer = len ∷ drop 1 d0.buffer;
            offset = 0;
            length = len + 2;
            input = name;
          }))
unfolding run call
length_read d0 len name n ns size p =
    let d = record d0 { offset = 0; length = 1; input = len ∷ name } in
    rw (received_all n d (omega arith, omega (arith, size), omega arith) (omega (arith, p))) refl

name_out :
    (d : ConnectAsyncData) (m : ℕ) (ns : List ℕ)
    → received m d ≡ none
    → run (map moved (m ∷ ns)) (waiting on_connect_addr_read d) ≡ none
unfolding run call
name_out d m ns e = rw e refl

got_address-Fails :
    (d : ConnectAsyncData)
    → d.external_address ≡ none
    → (got_address d ≡ none)
      ⊎ (got_address d ≡ some (finished (some (protocol s5b_socks5_error not_allowed)) d))
unfolding got_address answer_connect
got_address-Fails d e = elim (Option-cases (read_first (d.length - 2) d.buffer)) [
  | inl out ↦ inl (rw (out, got_address))
  | inr (host, read) ↦ elim (Bool-cases (bytes_eq d.hostname (strndup host))) [
    | inl same ↦ inl (rw (read, same, e))
    | inr other ↦ inr (rw (read, other))
  ]
]

name_read :
    (d : ConnectAsyncData) (m : ℕ) (ns : List ℕ) (r : Option Nego)
    → received m d ≡ some (got d)
    → got_address (got d) ≡ r
    → run (map moved (m ∷ ns)) (waiting on_connect_addr_read d) ≡ (r >>= run (map moved ns))
unfolding run call
name_read d m ns r e f =
    let done : (d.length == d.length) ≡ true = ground arith in
    rw (e, done) (ap (λ x. x >>= run (map moved ns)) f)

-- A granted reply with a domain name as its address never succeeds. If the name and the port come in one
-- read, the client refuses its own name, or reads the address of a server, which it has not; and a name of
-- 254 or 255 bytes is written beyond the end of the buffer.
pub domain_reply-Fails :
    (d0 : ConnectAsyncData) (len : ℕ) (name : List ℕ) (n m : ℕ) (ns : List ℕ)
    → d0.external_address ≡ none
    → length d0.buffer ≡ 255
    → len + 2 ≤ length name
    → 0 < n
    → len + 2 ≤ m
    → let d = record d0 { offset = 0; length = 1; input = len ∷ name } in
      let end = run (map moved (n ∷ m ∷ ns)) (waiting on_connect_reply_addr_len_read d) in
      ((end ≡ none)
        ⊎ ((d' : ConnectAsyncData) × (end
              ≡ some (finished (some (protocol s5b_socks5_error not_allowed)) d'))))
      × (253 < len → end ≡ none)
domain_reply-Fails d0 len name n m ns own size enough p all =
    let d = record d0 { offset = 0; length = 1; input = len ∷ name } in
    let d1 = record d0 {
      buffer = len ∷ drop 1 d0.buffer;
      offset = 0;
      length = len + 2;
      input = name;
    } in
    let first = length_read d0 len name n (m ∷ ns) size p in
    elim (Bool-cases (leb (len + 2) 255)) [
      | inr over ↦
          let out =
            received_out m d1 (omega arith) (ground (arith, size, length-drop 1 d0.buffer))
              (omega (arith, enough)) (omega (arith, all)) in
          (inl (first ∙ name_out d1 m ns out), λ long. first ∙ name_out d1 m ns out)
      | inl within ↦
          let room : len + 2 ≤ length d1.buffer = ground (arith, size, length-drop 1 d0.buffer) in
          let read =
            received_all m d1 (omega arith, room, omega (arith, enough)) (omega (arith, all)) in
          (
            elim (got_address-Fails (got d1) own) [
              | inl fault ↦ inl (first ∙ name_read d1 m ns none read fault)
              | inr refused ↦ inr (
                got d1,
                first ∙ name_read d1 m ns _ read refused ∙ run_finished (map moved ns) _ (got d1),
              )
            ],
            λ long. absurd (ground arith),
          )
    ]
