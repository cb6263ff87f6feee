-- ===== src/Ft/Commands.antt =====
-- jingle-ft/filetransfer.c: the commands that send a file, `_new`, `_jft_send` and `_jft_retry`.
use mcabber_jingle.Base.{
  ℕ, suc, ◌%◌, String, Bool, true, false, not, ◌||◌, Option, none, some, List, [], ◌∷◌, ◌++◌,
  if◌then◌else◌, str_eq,
}
use mcabber_jingle.Stanza.{Host, JingleContent, GError}
use mcabber_jingle.Jingle.{Jingle, Modules, ns_jingle, ◌>>=◌}
use mcabber_jingle.Calls.{new_session_with_apps, jingle_handle_app}
use mcabber_jingle.Ibb.{two_64}
use mcabber_jingle.Roster.{Buddies, jingle_find_compatible_res}
use mcabber_jingle.Ft.{
  FtHost, JingleFt, new_jingle_ft, ft_outgoing, ft_pending, ft_error, ns_jingle_app_ft,
  newfrommessage,
}
use mcabber_jingle.Ft.Sender.{FtStore}
use mcabber_jingle.Ft.Files.{JingleFtInfo, jft_flush}

-- What the calls on the file answer: `g_stat`, its fields, and whether the file is opened and its encoding set.
pub record FileAnswers : Type 0 where
  pub stats : Bool
  pub is_regular : Bool
  pub is_symlink : Bool
  pub st_mtime : ℕ
  pub st_size : ℕ
  pub opens : Bool
  pub encodes : Bool

-- `info_list`, and the last number that `_next_index` answered.
pub record FtList : Type 0 where
  pub info_list : List JingleFtInfo
  pub last_index : ℕ

-- A JingleFTInfo with the next number, put last in the list. `a` is the address of its link.
abbrev pub append_info : ℕ → ℕ → FtList → FtList
append_info a p files = record {
  info_list = files.info_list ++ record { addr = a; index = suc files.last_index; jft = p } ∷ [];
  last_index = suc files.last_index;
}

-- `newfrommessage` with the list: a file that is offered, at the address `p`, is put last.
unfoldable pub newfrommessage_listed :
    Host
    → FtHost
    → ℕ
    → JingleContent
    → Option GError
    → FtList
    → (Option JingleFt × Option GError) × FtList
unfolding newfrommessage
newfrommessage_listed h f p cn err files =
    let made = newfrommessage h f cn err in
    (made, elim made.0 [ none ↦ files | some jft ↦ append_info (suc p) p files ])

-- What `_new` makes of a file, and whether it succeeds.
unfoldable pub new_file : FtHost → String → String → FileAnswers → Bool × JingleFt
new_file f name filename a =
    let jft = record new_jingle_ft {
      desc = some name;
      name = some (f.path_get_basename filename);
      dir = ft_outgoing;
    } in
    let found = record jft { date = a.st_mtime; size = a.st_size % two_64 } in
    if not a.stats || (not a.is_regular || a.is_symlink)
    then (false, record jft { state = ft_error })
    else if not a.opens
    then (false, record found { state = ft_error })
    else if not a.encodes
    then (false, record found { outfile = some (record { contents = [] }); state = ft_error })
    else (true, record found { outfile = some (record { contents = [] }) })

-- `_jft_retry` starts a file over.
abbrev pub reset_file : JingleFt → JingleFt
reset_file jft = record jft {
  hash = none;
  size = 0;
  transmit = 0;
  outfile = none;
  state = ft_pending;
  desc = none;
  md5 = none;
}

-- What `_jft_send` reads of mcabber: the JID in focus, the roster, and the full JID of a resource.
pub record Recipient : Type 0 where
  pub current_jid : Option String
  pub buddies : Buddies
  pub full_jid : String → String → String

-- `namespaces`.
abbrev pub file_namespaces : List String
file_namespaces = ns_jingle ∷ ns_jingle_app_ft ∷ []

module _ (h : Host) (f : FtHost) {W : Type 0} (fs : FtStore W) where
  open fs use {load, save}

  abbrev pub set_error_state : ℕ → Jingle W → Option (Jingle W)
  set_error_state p j = do
    jft ← load p j.world
    some (record j { world = save p (record jft { state = ft_error }) j.world })

  -- `_new`: the file is in the list whether it can be sent or not. `filename` is the expanded name.
  unfoldable pub jft_new :
      String → String → FileAnswers → FtList → Jingle W → Option ℕ × FtList × Jingle W
  unfolding new_file
  jft_new name filename a files j =
      let made = new_file f name filename a in
      (
        if made.0 then some j.fresh else none,
        append_info (suc j.fresh) j.fresh files,
        record j { fresh = suc (suc j.fresh); world = save j.fresh made.1 j.world },
      )

  module _ (m : Modules W) (delivered : Bool) (new_trans : ℕ → W → Option ℕ × W)
      (myjid : Option String) (sid : String) (r : Recipient) where
    -- `_jft_send` from where a resource was looked for.
    unfoldable pub offer_to : ℕ → String → Option String → Jingle W → Option (Jingle W)
    unfolding new_session_with_apps jingle_handle_app
    offer_to p jid none j = set_error_state p j
    offer_to p jid (some ressource) j =
        new_session_with_apps myjid sid (r.full_jid jid ressource)
          (record { name = "file"; ns = ns_jingle_app_ft; app_data = some p } ∷ []) j
        >>= jingle_handle_app h m delivered new_trans "file" ns_jingle_app_ft p

    -- `_jft_send` from where there is a file.
    unfoldable pub offer_file : ℕ → Jingle W → Option (Jingle W)
    unfolding offer_to jingle_find_compatible_res
    offer_file p j = elim r.current_jid [
      | none ↦ set_error_state p j
      | some jid ↦ do
        ressource ← jingle_find_compatible_res r.buddies jid file_namespaces
        offer_to p jid ressource j
    ]

    -- `_jft_send` after `_new`.
    unfoldable pub after_new : Option ℕ × FtList × Jingle W → Option (FtList × Jingle W)
    unfolding offer_file
    after_new (none, files, j) = some (files, j)
    after_new (some p, files, j) = do j' ← offer_file p j; some (files, j')

    -- `_jft_send` for a name, which may be NULL.
    unfoldable pub jft_send :
        Option String → String → FileAnswers → FtList → Jingle W → Option (FtList × Jingle W)
    unfolding jft_new after_new
    jft_send none filename a files j = some (files, j)
    jft_send (some name) filename a files j = after_new (jft_new name filename a files j)

    -- `_jft_retry`: its loop stops at the first link, whatever number is given.
    unfoldable pub jft_retry : Option String → FtList → Jingle W → Option (Jingle W)
    unfolding offer_file
    jft_retry none files j = some j
    jft_retry (some number) files j = elim files.info_list [
      | [] ↦ some j
      | i ∷ is ↦ do
        jft ← load i.jft j.world
        offer_file i.jft (record j { world = save i.jft (reset_file jft) j.world })
    ]

    -- `_jft_flush` on the list and the files of the state.
    abbrev flush_files : (ℕ → W → W) → FtList → Jingle W → Option (FtList × Jingle W)
    flush_files free files j = do
      r ← jft_flush fs free files.info_list j.world
      some (record files { info_list = r.0 }, record j { world = r.1 })

    -- `do_sendfile`, with the first two words of its line; "info" prints the files only.
    unfoldable pub do_sendfile :
        (ℕ → W → W)
        → Option String
        → Option String
        → String
        → FileAnswers
        → FtList
        → Jingle W
        → Option (FtList × Jingle W)
    unfolding jft_send jft_flush jft_retry
    do_sendfile free option arg filename a files j =
        if str_eq option (some "send")
        then jft_send arg filename a files j
        else if str_eq option (some "info")
        then some (files, j)
        else if str_eq option (some "flush")
        then flush_files free files j
        else if str_eq option (some "retry")
        then (jft_retry arg files j >>= λ j'. some (files, j'))
        else some (files, j)
