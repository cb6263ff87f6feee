-- ===== src/Socks5/Serve.antt =====
-- jingle-s5b/socks5-proto.c: the request of a client is served, and what the client reads of the reply.
use mcabber_jingle.Base.{
  ℕ, ◌+◌, ◌-◌, ◌%◌, ◌≤◌, ◌≡◌, refl, ap, ◌∙◌, true, none, some, List, [], ◌∷◌, ◌++◌, ◌==◌, length,
  take, drop, map, arith, append_assoc, length-append,
}
use mcabber_jingle.Memory.{zeros, read_first, read_first_lem, take_append_exact, drop_append_exact}
use mcabber_jingle.Jingle.{◌>>=◌}
use mcabber_jingle.Socks5.{server_set_connect_reply, port_bytes, server_parse_connect_msg}
use mcabber_jingle.Socks5.Nego.{
  ConnectAsyncData, waiting, finished, moved, run, asked, call, with_buffer, with_message,
  got_connect_msg, got_address, answer_connect, on_connect_msg_read, on_connect_addr_len_read,
  on_connect_addr_read, on_connect_reply_write, on_connect_reply_addr_read, strndup, bytes_eq,
}
use mcabber_jingle.Socks5.Transfer.{run_finished}
use mcabber_jingle.Socks5.Messages.{connect_request}
use mcabber_jingle.Socks5.Reads.{got, CanRead, received_all}
use mcabber_jingle.Socks5.Writes.{sent, written_all}
use mcabber_jingle.Socks5.Client.{Asked}
use mcabber_jingle.Socks5.Address.{address_at_once}

-- The reply with an IPv4 address: its type is written twice.
abbrev pub reply_ipv4 : ℕ → ℕ → ℕ → ℕ → ℕ → List ℕ
reply_ipv4 a b c d port = 5 ∷ 0 ∷ 0 ∷ 1 ∷ 1 ∷ a ∷ b ∷ c ∷ d ∷ port_bytes port

reply_message :
    (a b c d port : ℕ)
    → server_set_connect_reply (zeros 255) 0 1 (a ∷ b ∷ c ∷ d ∷ []) port
      ≡ some (reply_ipv4 a b c d port ++ zeros 244, 11)
unfolding server_set_connect_reply
reply_message a b c d port = refl

bytes_eq_self : (bs : List ℕ) → bytes_eq bs bs ≡ true
unfolding bytes_eq
bytes_eq_self [] = refl
bytes_eq_self (b ∷ bs) = ground (arith, bytes_eq_self bs)

module _ (host : List ℕ) (a b c e port : ℕ) (rest : List ℕ) (d0 : ConnectAsyncData) where
  -- A server that has accepted the greeting of a client, before its request.
  abbrev pub serving : ConnectAsyncData
  serving = with_buffer 262 4 (record d0 {
    hostname = host;
    external_address = some (record { is_ipv4 = true; address = a ∷ b ∷ c ∷ e ∷ []; port = port });
    input = connect_request host 0 ++ rest;
  })

  abbrev heads : ConnectAsyncData
  heads = record (got serving) { length = 1; offset = 0 }

  reads_head :
      (n : ℕ) (ns : List ℕ)
      → 4 ≤ n
      → run (map moved (n ∷ ns)) (waiting on_connect_msg_read serving)
        ≡ run (map moved ns) (waiting on_connect_addr_len_read heads)
  unfolding run call got_connect_msg server_parse_connect_msg
  reads_head n ns l = rw (received_all n serving (omega arith, omega arith, omega arith) l) refl

  abbrev named : ConnectAsyncData
  named = record (got heads) { length = length host + 2; offset = 0 }

  reads_length :
      (n : ℕ) (ns : List ℕ)
      → 1 ≤ n
      → run (map moved (n ∷ ns)) (waiting on_connect_addr_len_read heads)
        ≡ run (map moved ns) (waiting on_connect_addr_read named)
  unfolding run call
  reads_length n ns l = rw (received_all n heads (omega arith, omega arith, omega arith) l) refl

  taken : take (length host + 2 - 0) (host ++ port_bytes 0 ++ rest) ≡ host ++ port_bytes 0
  taken =
      let e : length host + 2 - 0 ≡ length (host ++ port_bytes 0) =
        omega (arith, length-append host (port_bytes 0)) in
      ap (λ n. take n (host ++ port_bytes 0 ++ rest)) e
      ∙ take_append_exact (host ++ port_bytes 0) rest

  left : drop (length host + 2 - 0) (host ++ port_bytes 0 ++ rest) ≡ rest
  left =
      let e : length host + 2 - 0 ≡ length (host ++ port_bytes 0) + 0 =
        omega (arith, length-append host (port_bytes 0)) in
      ap (λ n. drop n (host ++ port_bytes 0 ++ rest)) e
      ∙ drop_append_exact 0 (host ++ port_bytes 0) rest

  named-CanRead : length host ≤ 255 → CanRead named
  named-CanRead short =
      let size = length-append (host ++ port_bytes 0) rest in
      let head = length-append host (port_bytes 0) in
      (omega arith, omega (arith, short), omega (arith, size, head))

  host_read : length host ≤ 255 → read_first (length host + 2 - 2) (got named).buffer ≡ some host
  host_read short =
      let buffer : (got named).buffer
          ≡ host ++ port_bytes 0 ++ drop (length host + 2) named.buffer =
        ap (λ xs. xs ++ drop (length host + 2) named.buffer) taken in
      let e : length host + 2 - 2 ≡ length host = omega arith in
      let tail = port_bytes 0 ++ drop (length host + 2) named.buffer in
      let size : length host ≤ length (host ++ tail) = omega (arith, length-append host tail) in
      ap (λ xs. read_first (length host + 2 - 2) xs)
        (buffer ∙ append_assoc host (port_bytes 0) (drop (length host + 2) named.buffer))
      ∙ ap (λ n. read_first n (host ++ tail)) e
      ∙ read_first_lem (length host) (host ++ tail) size
      ∙ ap some (take_append_exact host tail)

  replying : ConnectAsyncData
  replying = with_message (reply_ipv4 a b c e port ++ zeros 244) 11 (got named)

  answers :
      length host ≤ 255
      → strndup host ≡ host
      → got_address (got named) ≡ some (waiting on_connect_reply_write replying)
  unfolding got_address answer_connect replying
  answers short no_nul = rw (host_read short, no_nul, bytes_eq_self host) refl

  reads_address :
      (n : ℕ) (ns : List ℕ)
      → length host ≤ 255
      → strndup host ≡ host
      → length host + 2 ≤ n
      → run (map moved (n ∷ ns)) (waiting on_connect_addr_read named)
        ≡ run (map moved ns) (waiting on_connect_reply_write replying)
  unfolding run call
  reads_address n ns short no_nul l =
      let done : (length host + 2 == length host + 2) ≡ true = ground arith in
      rw (received_all n named (named-CanRead short) (omega (arith, l)), done)
        (ap (λ r. r >>= run (map moved ns)) (answers short no_nul))

  replies :
      (n : ℕ) (ns : List ℕ)
      → 11 ≤ n
      → run (map moved (n ∷ ns)) (waiting on_connect_reply_write replying)
        ≡ some (finished none (sent replying))
  unfolding run call replying
  replies n ns l =
      rw (written_all n replying (omega arith) (omega arith) l)
        (run_finished (map moved ns) none (sent replying))

  -- A server that has accepted a client serves its request for the host that is allowed, if each part of it
  -- comes at once: it writes a reply that grants it, with its own address and port, and what follows the request is
  -- still to be read. The address type stands twice in the reply.
  pub request-Served :
      (n m k l : ℕ) (ns : List ℕ)
      → length host ≤ 255
      → strndup host ≡ host
      → 4 ≤ n
      → 1 ≤ m
      → length host + 2 ≤ k
      → 11 ≤ l
      → (d : ConnectAsyncData) × (run
            (map moved (n ∷ m ∷ k ∷ l ∷ ns))
            (waiting on_connect_msg_read serving)
          ≡ some (finished none d))
        × (d.output ≡ d0.output ++ reply_ipv4 a b c e port)
        × (d.input ≡ rest)
  unfolding replying
  request-Served n m k l ns short no_nul p q r s = (
    sent replying,
    reads_head n (m ∷ k ∷ l ∷ ns) p
        ∙ reads_length m (k ∷ l ∷ ns) q
        ∙ reads_address k (l ∷ ns) short no_nul r
        ∙ replies l ns s,
    refl,
    left,
  )

-- The reply of this server is one byte longer than this client reads: a client that gets it, with its address
-- in one read, succeeds with the last byte of the port left in the stream.
pub reply-Unread :
    (hostname : List ℕ) (a b c e port : ℕ) (d : ConnectAsyncData) (n : ℕ) (ns : List ℕ)
    → Asked hostname true (drop 4 (reply_ipv4 a b c e port)) d
    → 6 ≤ n
    → (take 4 (reply_ipv4 a b c e port) ≡ 5 ∷ 0 ∷ 0 ∷ 1 ∷ [])
      × (server_set_connect_reply (zeros 255) 0 1 (a ∷ b ∷ c ∷ e ∷ []) port
          ≡ some (reply_ipv4 a b c e port ++ zeros 244, 11))
      × ((d' : ConnectAsyncData) × (run (map moved (n ∷ ns)) (waiting on_connect_reply_addr_read d)
            ≡ some (finished none d'))
          × (d'.input ≡ port % 256 ∷ []))
reply-Unread hostname a b c e port d n ns asked l =
    let (d', end, input, _) =
      address_at_once hostname true (drop 4 (reply_ipv4 a b c e port)) d n ns asked (omega arith)
        l in
    (refl, reply_message a b c e port, (d', end, input))
