-- ===== src/Socks5/Server.antt =====
-- jingle-s5b/socks5-proto.c, `socks5_server_nego` and what follows: the server.
use mcabber_jingle.Base.{
  smaller, ℕ, ◌+◌, ◌<◌, ◌≡◌, refl, ◌∙◌, inl, inr, none, some, List, [], ◌∷◌, ◌==◌, length, take,
  drop, map, arith, Bool-cases,
}
use mcabber_jingle.Memory.{write_at}
use mcabber_jingle.Jingle.{◌>>=◌}
use mcabber_jingle.Socks5.Nego.{
  new_data, got_nego_msg, SocketAddress, ConnectAsyncData, waiting, moved, run, asked, received,
  call, on_nego_msg_read, socks5_server_nego,
}
use mcabber_jingle.Socks5.Transfer.{Progress}

module _ (allowed_hostname : List ℕ) (external : SocketAddress) where
  -- The server after `k` bytes of the greeting of `socks5_client_nego`.
  abbrev heard : List ℕ → List ℕ → ℕ → ConnectAsyncData
  heard buffer input k = record (new_data allowed_hostname input) {
    external_address = some external;
    buffer = buffer;
    length = 257;
    offset = k;
  }

  hears :
      (n k : ℕ) (ns : List ℕ) (d : ConnectAsyncData)
      → smaller (smaller n (asked d)) (length d.input) ≡ k
      → run (map moved (n ∷ ns)) (waiting on_nego_msg_read d) ≡ (
          ((write_at d.offset (take k d.input) d.buffer >>= λ buffer.
          some (record d { buffer = buffer; input = drop k d.input; offset = d.offset + k }))
            >>= got_nego_msg)
          >>= run (map moved ns))
  unfolding run call received
  hears n k ns d e = rw e refl

  last_byte :
      (n : ℕ) (ns : List ℕ)
      → 0 < n
      → run (map moved (n ∷ ns)) (waiting on_nego_msg_read (heard (5 ∷ 1 ∷ 0 ∷ 0 ∷ []) (0 ∷ []) 2))
        ≡ none
  unfolding write_at got_nego_msg
  last_byte n ns p = hears n 1 ns (heard (5 ∷ 1 ∷ 0 ∷ 0 ∷ []) (0 ∷ []) 2) (ground arith)

  last_two :
      (n m : ℕ) (ns : List ℕ)
      → 0 < n
      → 0 < m
      → run
          (map moved (n ∷ m ∷ ns))
          (waiting on_nego_msg_read (heard (5 ∷ 0 ∷ 0 ∷ 0 ∷ []) (1 ∷ 0 ∷ []) 1))
        ≡ none
  unfolding write_at got_nego_msg
  last_two n m ns p q = elim (Bool-cases (n == 1)) [
    | inl one ↦
        hears n 1 (m ∷ ns) (heard (5 ∷ 0 ∷ 0 ∷ 0 ∷ []) (1 ∷ 0 ∷ []) 1) (ground arith)
        ∙ last_byte m ns q
    | inr more ↦ hears n 2 (m ∷ ns) (heard (5 ∷ 0 ∷ 0 ∷ 0 ∷ []) (1 ∷ 0 ∷ []) 1) (ground arith)
  ]

  -- The server never answers the greeting of `socks5_client_nego`, whatever the chunks in which it comes: when the
  -- whole greeting is there it is refused, through an error variable that was never set.
  pub client_greeting-Faults :
      (n m k : ℕ) (ns : List ℕ)
      → Progress (n ∷ m ∷ k ∷ ns)
      → run
          (map moved (n ∷ m ∷ k ∷ ns))
          (socks5_server_nego allowed_hostname external (5 ∷ 1 ∷ 0 ∷ []))
        ≡ none
  unfolding socks5_server_nego write_at got_nego_msg
  client_greeting-Faults n m k ns p = elim (Bool-cases (n == 1)) [
    | inl one ↦
        hears n 1 (m ∷ k ∷ ns) (heard (0 ∷ 0 ∷ 0 ∷ 0 ∷ []) (5 ∷ 1 ∷ 0 ∷ []) 0) (ground (arith, p.0))
        ∙ last_two m k ns p.1.0 p.1.1.0
    | inr more ↦ elim (Bool-cases (n == 2)) [
      | inl two ↦
          hears n 2 (m ∷ k ∷ ns) (heard (0 ∷ 0 ∷ 0 ∷ 0 ∷ []) (5 ∷ 1 ∷ 0 ∷ []) 0)
            (ground (arith, p.0))
          ∙ last_byte m (k ∷ ns) p.1.0
      | inr all ↦
          hears n 3 (m ∷ k ∷ ns) (heard (0 ∷ 0 ∷ 0 ∷ 0 ∷ []) (5 ∷ 1 ∷ 0 ∷ []) 0)
            (ground (arith, p.0))
    ]
  ]
