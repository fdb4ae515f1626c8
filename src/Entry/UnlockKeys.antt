-- ===== src/Entry/UnlockKeys.antt =====
-- What the dialog that unlocks a partition hands out.
use dde_file_manager_extensi.Prelude.{◌<◌, String, ◌≡◌, ◌⊎◌, true, arith, text_length}
use dde_file_manager_extensi.Entry.Sections.{no_dash, no_dash-remove_dashes}
use dde_file_manager_extensi.Entry.Unlock.{
  accepted, UnlockType, pwd, pin, rec, UnlockDialog, new_unlock, text_changed, handle_button,
  switched_type, switch_unlock_type, get_unlock_key, UnlockEvent, unlock_allows, unlock_handle,
  Unlocking, opened, then_,
}

-- The key fits the way to unlock: a recovery key is 24 characters, none of them a dash, and any
-- other key is not empty.
abbrev pub Fits : UnlockType → String → Type 0
Fits rec key = (text_length key ≡ 24) × (no_dash key ≡ true)
Fits pwd key = 0 < text_length key
Fits pin key = 0 < text_length key

record Sound (type : UnlockType) (d : UnlockDialog) : Type 0 where
  pub init_kept : d.init_type ≡ type
  pub one_of : (d.curr_type ≡ type) ⊎ (d.curr_type ≡ rec)
  pub enabled_by : (d.unlock_enabled ≡ true) → 0 < text_length (d.text)
  pub fits : d.result ≡ accepted → Fits (d.curr_type) (d.key)

new_unlock-Sound : (type : UnlockType) → Sound type (new_unlock type)
unfolding new_unlock
new_unlock-Sound type = ground arith

handle-Sound :
    {type : UnlockType} (d : UnlockDialog) (e : UnlockEvent)
    → Sound type d
    → unlock_allows d e ≡ true
    → Sound type (unlock_handle e d)
unfolding unlock_handle unlock_allows text_changed handle_button switch_unlock_type switched_type
handle-Sound {type} d e h a = ground (arith, h, no_dash-remove_dashes (d.text))

Unlocking-Sound : {type : UnlockType} (d : UnlockDialog) → Unlocking type d → Sound type d
Unlocking-Sound d opened = new_unlock-Sound _
Unlocking-Sound _ (then_ {d} r e a) = handle-Sound d e (Unlocking-Sound d r) a

-- However the dialog that unlocks a partition was used, once it is accepted it hands out a key of the
-- type it was opened for or a recovery key, and the key fits the type: a recovery key has 24
-- characters and no dash, another key is not empty.
pub get_unlock_key-Fits :
    {type : UnlockType} (d : UnlockDialog)
    → Unlocking type d
    → d.result ≡ accepted
    → (((get_unlock_key d).0 ≡ type) ⊎ ((get_unlock_key d).0 ≡ rec))
      × Fits (get_unlock_key d).0 (get_unlock_key d).1
unfolding get_unlock_key
get_unlock_key-Fits d r h = ((Unlocking-Sound d r).one_of, (Unlocking-Sound d r).fits h)
