-- ===== src/Start/Resources.antt =====
-- What the modules hold of loudmouth and mcabber, by the calls they have made.
use mcabber_jingle.Base.{
  ℕ, suc, String, ◌≡◌, refl, Bool, true, false, List, [], ◌∷◌, ◌==◌, ◌&&◌, some, if◌then◌else◌,
  str_eq,
}
use mcabber_jingle.Start.{Call}

-- What a module takes and has to give back: a handler at loudmouth, and other things.
pub data Thing : Type 0 where
  reference hook category : ℕ → Thing
  feature command : String → Thing

pub data Resource : Type 0 where
  iq_handler : ℕ → Resource
  other : Thing → Resource

pub data Effect : Type 0 where
  takes gives_back : Resource → Effect
  neither : Effect

abbrev pub effect : Call → Effect
effect (Call.lm_message_handler_new n) = takes (other (reference n))
effect (Call.lm_message_handler_unref n) = gives_back (other (reference n))
effect (Call.lm_connection_register_message_handler n) = takes (iq_handler n)
effect (Call.lm_connection_unregister_message_handler n) = gives_back (iq_handler n)
effect (Call.xmpp_add_feature s) = takes (other (feature s))
effect (Call.xmpp_del_feature s) = gives_back (other (feature s))
effect (Call.hk_add_handler p n) = takes (other (hook n))
effect (Call.hk_del_handler p n) = gives_back (other (hook n))
effect (Call.compl_new_category n) = if n == 0 then neither else takes (other (category n))
effect (Call.compl_del_category n) = gives_back (other (category n))
effect (Call.cmd_add s n) = takes (other (command s))
effect (Call.cmd_del s) = gives_back (other (command s))
effect _ = neither

abbrev pub same_thing : Thing → Thing → Bool
same_thing (reference a) (reference b) = a == b
same_thing (hook a) (hook b) = a == b
same_thing (category a) (category b) = a == b
same_thing (feature a) (feature b) = str_eq (some a) (some b)
same_thing (command a) (command b) = str_eq (some a) (some b)
same_thing _ _ = false

abbrev pub same : Resource → Resource → Bool
same (iq_handler a) (iq_handler b) = a == b
same (other s) (other t) = same_thing s t
same _ _ = false

abbrev pub taken : Resource → Effect → ℕ → ℕ
taken r (takes s) n = if same r s then suc n else n
taken r (gives_back s) n = if same r s then 0 else n
taken r neither n = n

-- How often a resource was taken since it was given back last, by the calls, the latest first.
unfoldable pub held : Resource → List Call → ℕ
held r [] = 0
held r (c ∷ cs) = taken r (effect c) (held r cs)

-- A call under a condition that neither takes nor gives back a resource.
pub held_if :
    (c : Bool) (d : Call) (r : Resource) (cs : List Call)
    → taken r (effect d) (held r cs) ≡ held r cs
    → held r (if c then d ∷ cs else cs) ≡ held r cs
unfolding held
held_if true d r cs e = e
held_if false d r cs e = refl

pub unregistered_if :
    (c : Bool) (a n : ℕ) (cs : List Call)
    → held (iq_handler n) (if c then Call.lm_connection_unregister_message_handler a ∷ cs else cs)
      ≡ (if c && (n == a) then 0 else held (iq_handler n) cs)
unfolding held
unregistered_if true a n cs = refl
unregistered_if false a n cs = refl
