-- ===== src/Socks5/Client.antt =====
-- jingle-s5b/socks5-proto.c, `socks5_client_nego` and what follows: the client against a server that grants
-- its request.
use mcabber_jingle.Base.{
  ℕ, ◌+◌, ◌-◌, ◌≤◌, ◌≡◌, refl, ap, ◌∙◌, Bool, true, false, some, List, [], ◌∷◌, length, take, map,
  arith, inl, inr,
}
use mcabber_jingle.Memory.{zeros}
use mcabber_jingle.Jingle.{◌>>=◌}
use mcabber_jingle.Socks5.{null_error, client_set_connect_msg, client_parse_connect_reply}
use mcabber_jingle.Socks5.Nego.{
  ConnectAsyncData, waiting, moved, run, with_buffer, with_message, new_data, got_nego_reply,
  got_connect_reply, call, socks5_client_nego, send_connect_msg, on_nego_msg_write,
  on_nego_reply_read, on_connect_msg_write, on_connect_reply_read, on_connect_reply_addr_read,
}
use mcabber_jingle.Socks5.Transfer.{Progress, Leads, Leads-then, Leads-to}
use mcabber_jingle.Socks5.Writes.{sent, write_all}
use mcabber_jingle.Socks5.Reads.{got, read_all}
use mcabber_jingle.Socks5.Messages.{connect_request, client_set_connect_msg_lem}

abbrev client_start : List ℕ → List ℕ → ConnectAsyncData
client_start hostname input = with_message (5 ∷ 1 ∷ 0 ∷ 0 ∷ []) 3 (new_data hostname input)

client_start_lem :
    (hostname input : List ℕ)
    → socks5_client_nego hostname input
      ≡ some (waiting on_nego_msg_write (client_start hostname input))
unfolding socks5_client_nego
client_start_lem hostname input = refl

-- The address type of a reply, and how many bytes of the address and the port follow.
abbrev pub atype_of : Bool → ℕ
atype_of true = 1
atype_of false = 4

abbrev pub address_length : Bool → ℕ
address_length true = 6
address_length false = 18

got_connect_reply_lem :
    (ipv4 : Bool) (d : ConnectAsyncData) (rest : List ℕ)
    → d.buffer ≡ 5 ∷ 0 ∷ 0 ∷ atype_of ipv4 ∷ rest
    → got_connect_reply d
      ≡ some (
          waiting on_connect_reply_addr_read
            (record d { length = address_length ipv4; offset = 0 }))
unfolding got_connect_reply client_parse_connect_reply
got_connect_reply_lem true d rest e = ground arith
got_connect_reply_lem false d rest e = ground arith

-- Where the client waits for the address in a reply, after it has sent its greeting and its request.
pub record Asked (hostname : List ℕ) (ipv4 : Bool) (addr : List ℕ) (d : ConnectAsyncData)
    : Type 0 where
  pub output : d.output ≡ 5 ∷ 1 ∷ 0 ∷ connect_request hostname 0
  pub input : d.input ≡ addr
  pub expects : d.length ≡ address_length ipv4
  pub offset : d.offset ≡ 0
  pub room : length d.buffer ≡ 255

module _ (hostname : List ℕ) (ipv4 : Bool) (addr : List ℕ) where
  -- What a server that grants the request sends.
  abbrev pub granted : List ℕ
  granted = 5 ∷ 0 ∷ 5 ∷ 0 ∷ 0 ∷ atype_of ipv4 ∷ addr

  abbrev greeted : ConnectAsyncData
  greeted = with_buffer 2 2 (sent (client_start hostname granted))

  greets :
      (ns : List ℕ)
      → Progress ns
      → 3 ≤ length ns
      → Leads ns
          (waiting on_nego_msg_write (client_start hostname granted))
          (some (waiting on_nego_reply_read greeted))
          3
  unfolding call
  greets ns p enough =
      write_all on_nego_msg_write (λ d. some (waiting on_nego_reply_read (with_buffer 2 2 d))) ns
        (client_start hostname granted) (λ n d. refl) p (omega arith) (omega arith) enough

  is_answered :
      (ns : List ℕ)
      → Progress ns
      → 2 ≤ length ns
      → Leads ns (waiting on_nego_reply_read greeted) (send_connect_msg (got greeted)) 2
  unfolding call got_nego_reply
  is_answered ns p enough =
      read_all on_nego_reply_read got_nego_reply ns greeted (λ n d. refl) p (omega arith)
        (omega arith) (omega arith) enough

  asks :
      (msg : List ℕ)
      → client_set_connect_msg (zeros 262) hostname 0 null_error
        ≡ some (msg, some (7 + length hostname), null_error)
      → send_connect_msg (got greeted)
        ≡ some (waiting on_connect_msg_write (with_message msg (7 + length hostname) (got greeted)))
  unfolding send_connect_msg
  asks msg e = rw e refl

  abbrev asking : List ℕ → ConnectAsyncData
  asking msg = with_message msg (7 + length hostname) (got greeted)

  abbrev asked_for : List ℕ → ConnectAsyncData
  asked_for msg = with_buffer 255 4 (sent (asking msg))

  asks_on :
      (msg ns : List ℕ)
      → length hostname ≤ 255
      → length msg ≡ 262
      → Progress ns
      → 7 + length hostname ≤ length ns
      → Leads ns
          (waiting on_connect_msg_write (asking msg))
          (some (waiting on_connect_reply_read (asked_for msg)))
          (7 + length hostname - 0)
  unfolding call
  asks_on msg ns short size p enough =
      write_all on_connect_msg_write
        (λ d. some (waiting on_connect_reply_read (with_buffer 255 4 d))) ns (asking msg)
        (λ n d. refl) p (omega arith) (omega (arith, size, short)) (omega (arith, enough))

  abbrev answered : List ℕ → ConnectAsyncData
  answered msg = record (got (asked_for msg)) { length = address_length ipv4; offset = 0 }

  address_next :
      (msg ns : List ℕ)
      → Progress ns
      → 4 ≤ length ns
      → Leads ns
          (waiting on_connect_reply_read (asked_for msg))
          (some (waiting on_connect_reply_addr_read (answered msg)))
          4
  unfolding call
  address_next msg ns p enough =
      Leads-to
        (read_all on_connect_reply_read got_connect_reply ns (asked_for msg) (λ n d. refl) p
          (omega arith) (omega arith) (omega arith) enough)
        (got_connect_reply_lem ipv4 (got (asked_for msg)) (zeros 251) refl)

  client-Leads :
      (msg ns : List ℕ)
      → length hostname ≤ 255
      → client_set_connect_msg (zeros 262) hostname 0 null_error
        ≡ some (msg, some (7 + length hostname), null_error)
      → length msg ≡ 262
      → Progress ns
      → 16 + length hostname ≤ length ns
      → Leads ns
          (waiting on_nego_msg_write (client_start hostname granted))
          (some (waiting on_connect_reply_addr_read (answered msg)))
          (3 + (2 + (7 + length hostname - 0 + 4)))
  client-Leads msg ns short written size p enough =
      Leads-then (greets ns p (omega (arith, enough))) (λ rest q u.
        Leads-then (Leads-to (is_answered rest q (omega (arith, enough, u))) (asks msg written))
          (λ rest' q' u'.
            Leads-then (asks_on msg rest' short size q' (omega (arith, enough, u, u')))
              (λ rest'' q'' u''. address_next msg rest'' q'' (omega (arith, enough, u, u', u'')))))

  -- A server that grants the request is asked, whatever the chunks in which the bytes are written and read,
  -- if each moves something: the greeting and the request go out whole, in their order, the two answers are
  -- read, and the client waits for the address, with all that follows still to be read.
  pub client-Asked :
      (ns : List ℕ)
      → length hostname ≤ 255
      → Progress ns
      → 16 + length hostname ≤ length ns
      → (d : ConnectAsyncData) × (rest : List ℕ) × ((socks5_client_nego hostname granted
            >>= run (map moved ns))
          ≡ run (map moved rest) (waiting on_connect_reply_addr_read d))
        × Asked hostname ipv4 addr d
        × Progress rest
        × (length ns ≤ length rest + (16 + length hostname))
  client-Asked ns short p enough = elim (client_set_connect_msg_lem hostname 0) [
    | inr (long, _) ↦ absurd (omega (arith, short, long))
    | inl (_, (msg, written, starts, size)) ↦
        let l = client-Leads msg ns short written size p enough in
        (
          answered msg,
          l.rest,
          ap (λ r. r >>= run (map moved ns)) (client_start_lem hostname granted) ∙ l.same,
          record {
            output =
                ap (λ xs. 5 ∷ 1 ∷ 0 ∷ xs)
                  (let e : 7 + length hostname - 0 ≡ 7 + length hostname = omega arith in
                    ap (λ n. take n msg) e ∙ starts);
            input = refl;
            expects = refl;
            offset = refl;
            room = refl;
          },
          l.progress,
          omega (arith, l.used),
        )
  ]
