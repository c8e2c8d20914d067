-- ===== src/Mailflow/FileStore/Tests.antt =====
-- file_store.go: a store in a function from paths to states.
use mime_crypt.Base.{String, false, ◌≡◌, List, [], ◌∷◌, refl, ◌⊎◌, if◌then◌else◌}
use mime_crypt.Base.Text.{◌==◌, is_blank}
use mime_crypt.Base.Effect.{pure, After}
use mime_crypt.Mailflow.Types.{TxState, new_state}
use mime_crypt.Mailflow.Errors.{Error}
use mime_crypt.Fileutil.Stored.{Files, Stored, missing, Reads}
use mime_crypt.Mailflow.FileStore.{json_image, load, save}
use mime_crypt.Mailflow.FileStore.Refines.{
  StoreMap, with_state, Is, path, load-Refines, save-Refines,
}

abbrev World : Type 0
World = String → Stored TxState

abbrev files : Files World TxState
files = record {
  get = λ p w. w p;
  put = λ p s w q. if p == q then s else w q;
  call = pure tt;
  get-put = λ p q s w. refl;
  get-call = λ p w. refl;
  call_found = λ w. refl;
}

abbrev digest : String → String
digest key = key

abbrev join : List String → String
join [] = ""
join (a ∷ []) = a
join (a ∷ b ∷ rest) = b

abbrev state : TxState
state = new_state "inbox:1"

abbrev nothing : World
nothing = λ q. missing

dir_named : is_blank "state" ≡ false
unfolding is_blank
dir_named = refl

key_named : is_blank "inbox:1" ≡ false
unfolding is_blank
key_named = refl

load-Refines_example :
    After
      (λ o v.
        Is files digest join "state" dir_named nothing v
        × Reads files (nothing (path files digest join "state" dir_named "inbox:1")) o)
      (λ (_ : Error) v. Is files digest join "state" dir_named nothing v)
      (load files digest join "state" "inbox:1" nothing)
load-Refines_example =
    load-Refines files digest join "state" dir_named nothing "inbox:1" nothing key_named (λ q. refl)

abbrev after_save : StoreMap
after_save =
    with_state (path files digest join "state" dir_named "inbox:1") (json_image state) nothing

save-Refines_example :
    After
      (λ (_ : Unit {0}) v. Is files digest join "state" dir_named after_save v)
      (λ (_ : Error) v.
        Is files digest join "state" dir_named nothing v
        ⊎ Is files digest join "state" dir_named after_save v)
      (save files digest join "state" state nothing)
unfolding new_state
save-Refines_example =
    save-Refines files digest join "state" dir_named nothing state nothing key_named (λ q. refl)
