-- ===== src/Tests/Socks.antt =====
-- The theorems on the SOCKS5 negotiation, applied.
use mcabber_jingle.Base.{
  ℕ, ◌++◌, ◌%◌, ◌<◌, ◌≤◌, ◌+◌, ◌≡◌, ◌⊎◌, ◌↔◌, refl, true, some, none, List, [], ◌∷◌, length, map,
  take, drop, arith,
}
use mcabber_jingle.Memory.{zeros}
use mcabber_jingle.Jingle.{◌>>=◌}
use mcabber_jingle.Socks5.{
  protocol, s5b_socks5_error, not_allowed, null_error, server_parse_nego_init,
  server_set_connect_reply,
}
use mcabber_jingle.Socks5.Nego.{
  SocketAddress, ConnectAsyncData, waiting, finished, moved, run, new_data, with_buffer,
  socks5_client_nego, socks5_server_nego, on_connect_reply_addr_read,
  on_connect_reply_addr_len_read, on_connect_msg_read,
}
use mcabber_jingle.Socks5.Transfer.{Progress}
use mcabber_jingle.Socks5.Messages.{connect_request}
use mcabber_jingle.Socks5.Parsers.{Offers, server_parse_nego_init_iff}
use mcabber_jingle.Socks5.Client.{Asked, granted, client-Asked}
use mcabber_jingle.Socks5.Address.{domain_reply-Fails}
use mcabber_jingle.Socks5.Server.{client_greeting-Faults}
use mcabber_jingle.Socks5.Serve.{reply_ipv4, serving, request-Served, reply-Unread}

abbrev name : List ℕ
name = b'a' ∷ b'b' ∷ []

abbrev external : SocketAddress
external = record { is_ipv4 = true; address = 10 ∷ 0 ∷ 0 ∷ 1 ∷ []; port = 300 }

abbrev ones : List ℕ
ones = 2 ∷ 1 ∷ 5 ∷ 1 ∷ 1 ∷ 9 ∷ 1 ∷ 1 ∷ 1 ∷ 1 ∷ 1 ∷ 1 ∷ 1 ∷ 1 ∷ 1 ∷ 1 ∷ 1 ∷ 1 ∷ 1 ∷ []

client-Asked_example :
    (d : ConnectAsyncData) × (rest : List ℕ) × ((socks5_client_nego name
          (granted name true (10 ∷ 0 ∷ 0 ∷ 1 ∷ 0 ∷ 0 ∷ []))
        >>= run (map moved ones))
      ≡ run (map moved rest) (waiting on_connect_reply_addr_read d))
    × Asked name true (10 ∷ 0 ∷ 0 ∷ 1 ∷ 0 ∷ 0 ∷ []) d
    × Progress rest
    × (length ones ≤ length rest + (16 + length name))
client-Asked_example =
    client-Asked name true (10 ∷ 0 ∷ 0 ∷ 1 ∷ 0 ∷ 0 ∷ []) ones (omega arith) (omega arith)
      (omega arith)

abbrev asked_for_name : List ℕ → ConnectAsyncData
asked_for_name addr = record (with_buffer 255 6 (new_data name addr)) {
  output = 5 ∷ 1 ∷ 0 ∷ connect_request name 0;
}

asked_for_name-Asked : (addr : List ℕ) → Asked name true addr (asked_for_name addr)
asked_for_name-Asked addr = record {
  output = refl;
  input = refl;
  expects = refl;
  offset = refl;
  room = refl;
}

abbrev named_reply : ConnectAsyncData
named_reply = record (asked_for_name []) {
  offset = 0;
  length = 1;
  input = 2 ∷ b'a' ∷ b'b' ∷ 0 ∷ 0 ∷ [];
}

domain_reply-Fails_example :
    let end = run (map moved (1 ∷ 4 ∷ [])) (waiting on_connect_reply_addr_len_read named_reply) in
    ((end ≡ none)
      ⊎ ((d' : ConnectAsyncData) × (end
            ≡ some (finished (some (protocol s5b_socks5_error not_allowed)) d'))))
    × (253 < 2 → end ≡ none)
domain_reply-Fails_example =
    domain_reply-Fails (asked_for_name []) 2 (b'a' ∷ b'b' ∷ 0 ∷ 0 ∷ []) 1 4 [] refl refl
      (omega arith) (omega arith) (omega arith)

abbrev long_greeting : ConnectAsyncData
long_greeting = record (new_data name (5 ∷ 4 ∷ 0 ∷ 2 ∷ 3 ∷ 4 ∷ [])) {
  external_address = some external;
  buffer = zeros 4;
  length = 257;
}

client_greeting-Faults_example :
    run (map moved (1 ∷ 1 ∷ 3 ∷ [])) (socks5_server_nego name external (5 ∷ 1 ∷ 0 ∷ [])) ≡ none
client_greeting-Faults_example = client_greeting-Faults name external 1 1 3 [] (omega arith)

request-Served_example :
    (d : ConnectAsyncData) × (run
        (map moved (4 ∷ 1 ∷ 4 ∷ 11 ∷ []))
        (waiting on_connect_msg_read (serving name 10 0 0 1 300 [] (new_data [] [])))
      ≡ some (finished none d))
    × (d.output ≡ [] ++ reply_ipv4 10 0 0 1 300)
    × (d.input ≡ [])
request-Served_example =
    request-Served name 10 0 0 1 300 [] (new_data [] []) 4 1 4 11 [] (omega arith) refl
      (omega arith) (omega arith) (omega arith) (omega arith)

reply-Unread_example :
    (take 4 (reply_ipv4 10 0 0 1 300) ≡ 5 ∷ 0 ∷ 0 ∷ 1 ∷ [])
    × (server_set_connect_reply (zeros 255) 0 1 (10 ∷ 0 ∷ 0 ∷ 1 ∷ []) 300
        ≡ some (reply_ipv4 10 0 0 1 300 ++ zeros 244, 11))
    × ((d' : ConnectAsyncData) × (run
            (map moved (6 ∷ []))
            (waiting on_connect_reply_addr_read (asked_for_name (drop 4 (reply_ipv4 10 0 0 1 300))))
          ≡ some (finished none d'))
        × (d'.input ≡ 300 % 256 ∷ []))
reply-Unread_example =
    reply-Unread name 10 0 0 1 300 (asked_for_name (drop 4 (reply_ipv4 10 0 0 1 300))) 6 []
      (asked_for_name-Asked (drop 4 (reply_ipv4 10 0 0 1 300))) (omega arith)

server_parse_nego_init_iff_example :
    (server_parse_nego_init (5 ∷ 3 ∷ 0 ∷ 2 ∷ []) 4 null_error ≡ some (true, null_error))
    ↔ Offers (5 ∷ 3 ∷ 0 ∷ 2 ∷ []) 4
server_parse_nego_init_iff_example =
    server_parse_nego_init_iff (5 ∷ 3 ∷ 0 ∷ 2 ∷ []) 4 null_error (omega arith)
