-- ===== src/Ft/Files.antt =====
-- jingle-ft/filetransfer.c: the list of files, and `_jft_flush`, which takes those out that are over.
--
-- `none` is a fault: a read of a link or of a JingleFT that was freed. A link carries its address.
use mcabber_jingle.Base.{
  ℕ, zero, suc, ◌+◌, ◌==◌, Bool, true, false, Option, none, some, List, [], ◌∷◌, length, find?,
  remove_first, if◌then◌else◌,
}
use mcabber_jingle.Ft.{JingleFtState, ft_pending, ft_starting, ft_ending, ft_reject, ft_error}
use mcabber_jingle.Ft.Sender.{FtStore}

-- A link of `info_list` with its JingleFTInfo; `jft` is a pointer.
pub record JingleFtInfo : Type 0 where
  pub addr : ℕ
  pub index : ℕ
  pub jft : ℕ

abbrev pub is_over : JingleFtState → Bool
is_over ft_error = true
is_over ft_reject = true
is_over ft_ending = true
is_over ft_pending = false
is_over ft_starting = false

abbrev pub is_link : ℕ → JingleFtInfo → Bool
is_link a i = i.addr == a

-- `el->next` of the link at an address; `none` where it was freed.
unfoldable pub next_info : ℕ → List JingleFtInfo → Option (Option ℕ)
next_info a [] = none
next_info a (i ∷ []) = if i.addr == a then some none else none
next_info a (i ∷ k ∷ is) = if i.addr == a then some (some k.addr) else next_info a (k ∷ is)

-- `free w p` is what `_free` leaves of the state.
module _ {W : Type 0} (fs : FtStore W) (free : ℕ → W → W) where
  open fs use {load}

  -- The loop of `_jft_flush`, with `fuel` bounding its rounds; `none` is a fault, or that the fuel ran out.
  unfoldable pub flush_links : ℕ → ℕ → ℕ → List JingleFtInfo → W → Option (List JingleFtInfo × W)
  unfolding next_info
  flush_links zero el el2 info_list w = none
  flush_links (suc fuel) el el2 info_list w = elim (find? (is_link el) info_list) [
    | none ↦ none
    | some jftinf ↦ elim (load jftinf.jft w) [
      | none ↦ none
      | some jft ↦ elim (is_over jft.state) [
        | true ↦ elim (remove_first (is_link el) info_list) [
          | [] ↦ some ([], free jftinf.jft w)
          | i ∷ is ↦ flush_links fuel el2 el2 (i ∷ is) (free jftinf.jft w)
        ]
        | false ↦ elim (next_info el info_list) [
          | none ↦ none
          | some next ↦ elim next [
            | none ↦ some (info_list, w)
            | some el' ↦ flush_links fuel el' el info_list w
          ]
        ]
      ]
    ]
  ]

  -- `_jft_flush`.
  unfoldable pub jft_flush : List JingleFtInfo → W → Option (List JingleFtInfo × W)
  unfolding flush_links
  jft_flush [] w = some ([], w)
  jft_flush (i ∷ is) w = flush_links (suc (length is + length is)) i.addr i.addr (i ∷ is) w
