-- ===== src/Socks5/Messages.antt =====
-- jingle-s5b/socks5-proto.c: what the messages hold, and which are accepted.
use mcabber_jingle.Base.{
  ℕ, ◌+◌, ◌<◌, ◌≤◌, ◌≡◌, ◌⊎◌, inl, inr, refl, ap, ◌∙◌, none, some, List, [], ◌∷◌, ◌++◌, ltb, length,
  take, drop, arith, Bool-cases,
}
use mcabber_jingle.Memory.{write_at, write_at_lem, zeros, written_length, written_prefix}
use mcabber_jingle.Socks5.{
  failed, protocol, s5b_socks5_error, null_error, set_to, port_bytes, client_set_connect_msg,
}

-- A write right after the bytes that a buffer starts with.
pub write_next :
    (at : ℕ) (front bytes buf : List ℕ)
    → at ≡ length front
    → take at buf ≡ front
    → at + length bytes ≤ length buf
    → (buf' : List ℕ) × (write_at at bytes buf ≡ some buf')
      × (take (at + length bytes) buf' ≡ front ++ bytes)
      × (length buf' ≡ length buf)
write_next at front bytes buf e starts room = (
  take at buf ++ bytes ++ drop (at + length bytes) buf,
  write_at_lem at bytes buf room,
  written_prefix at bytes buf _ (omega (arith, room)) ∙ ap (λ xs. xs ++ bytes) starts,
  written_length at bytes buf room,
)

-- The request for a host.
abbrev pub connect_request : List ℕ → ℕ → List ℕ
connect_request hostname port = 5 ∷ 1 ∷ 0 ∷ 3 ∷ length hostname ∷ hostname ++ port_bytes port

-- In the buffer that is made for it, a request for a name of at most 255 bytes is written within bounds,
-- byte for byte, its length is returned, and no error is set; for a longer name -1 is returned with an error set.
pub client_set_connect_msg_lem :
    (hostname : List ℕ) (port : ℕ)
    → ((length hostname ≤ 255)
        × ((msg : List ℕ) × (client_set_connect_msg (zeros 262) hostname port null_error
              ≡ some (msg, some (7 + length hostname), null_error))
            × (take (7 + length hostname) msg ≡ connect_request hostname port)
            × (length msg ≡ 262)))
      ⊎ ((255 < length hostname)
          × ((msg : List ℕ) × (client_set_connect_msg (zeros 262) hostname port null_error
                ≡ some (msg, none, set_to (protocol s5b_socks5_error failed)))))
unfolding client_set_connect_msg
client_set_connect_msg_lem hostname port = elim (Bool-cases (ltb 255 (length hostname))) [
  | inl long ↦ inr (ground arith, (5 ∷ 1 ∷ 0 ∷ zeros 259, rw long refl))
  | inr short ↦
      let n = length hostname in
      let within : n ≤ 255 = ground arith in
      let head = 5 ∷ 1 ∷ 0 ∷ 3 ∷ n ∷ [] in
      let b1 = head ++ zeros 257 in
      let (b2, host_in, starts2, size2) =
        write_next 5 head hostname b1 refl refl
          (let l : 5 + n ≤ 262 = omega (arith, within) in l) in
      let (b3, port_in, starts3, size3) =
        write_next (5 + n) (head ++ hostname) (port_bytes port) b2 (omega arith) starts2
          (omega (arith, size2, within)) in
      let e : 7 + n ≡ 5 + n + 2 = omega arith in
      inl (
        within,
        (b3, rw (short, host_in, port_in) refl, ap (λ k. take k b3) e ∙ starts3, size3 ∙ size2),
      )
]
