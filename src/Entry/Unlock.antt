-- ===== src/Entry/Unlock.antt =====
-- `UnlockPartitionDialog` of gui/unlockpartitiondialog.cpp. A text edit calls its `textChanged`
-- handler when its text is replaced; the button and the link are clicked only while they can be.
use dde_file_manager_extensi.Prelude.{
  ℕ, zero, suc, String, ◌≡◌, Bool, true, false, ◌&&◌, not, num_eq, if◌then◌else◌, text_length,
}
use dde_file_manager_extensi.Entry.RecoveryKey.{remove_dashes, format_recovery_key, key_len}

-- What became of a dialog: `exec()` returns when it is no more shown.
pub data DialogResult : Type 0 where
  shown accepted rejected : DialogResult

abbrev pub is_shown : DialogResult → Bool
is_shown shown = true
is_shown _ = false

pub data UnlockType : Type 0 where
  pwd pin rec : UnlockType

abbrev pub is_rec : UnlockType → Bool
is_rec rec = true
is_rec _ = false

pub record UserHint : Type 0 where
  pub title : String
  pub switch_text : String
  pub placeholder : String
  pub hides_input : Bool

pub record UnlockDialog : Type 0 where
  pub curr_type : UnlockType
  pub init_type : UnlockType
  pub text : String
  pub unlock_enabled : Bool
  pub key : String
  pub hint : UserHint
  pub alerted : Bool
  pub result : DialogResult

unfoldable pub update_user_hint : UnlockType → UnlockType → UserHint
update_user_hint init pwd = record {
  title = "Unlock encryption partition";
  switch_text = "Unlock by recovery key";
  placeholder = "Please input passphrase to unlock device";
  hides_input = true;
}
update_user_hint init pin = record {
  title = "Unlock encryption partition";
  switch_text = "Unlock by recovery key";
  placeholder = "Please input PIN to unlock device";
  hides_input = true;
}
update_user_hint init rec = record {
  title = "Unlock by recovery key";
  switch_text = elim init [ pwd ↦ "Unlock by passphrase" | _ ↦ "Unlock by PIN" ];
  placeholder = "Please input recovery key to unlock device";
  hides_input = false;
}

-- The constructor, with `initUI`.
unfoldable pub new_unlock : UnlockType → UnlockDialog
new_unlock type = record {
  curr_type = type;
  init_type = type;
  text = "";
  unlock_enabled = false;
  key = "";
  hint = update_user_hint type type;
  alerted = false;
  result = shown;
}

-- The handler of `textChanged`, in `initConnect`.
unfoldable pub text_changed : String → UnlockDialog → UnlockDialog
text_changed txt d =
    let new_text = if is_rec (d.curr_type) then format_recovery_key txt else txt in
    record d { text = new_text; unlock_enabled = not (num_eq (text_length new_text) 0) }

unfoldable pub handle_button : ℕ → UnlockDialog → UnlockDialog
handle_button index d =
    if num_eq index 1
    then (let typed = d.text in
        let key = if is_rec (d.curr_type) then remove_dashes typed else typed in
        if is_rec (d.curr_type) && not (num_eq (text_length key) key_len)
        then record d { key = key; alerted = true }
        else record d { key = key; result = accepted })
    else record d { result = rejected }

unfoldable pub switched_type : UnlockType → UnlockType → UnlockType
switched_type init rec = init
switched_type init pwd = rec
switched_type init pin = rec

unfoldable pub switch_unlock_type : UnlockDialog → UnlockDialog
switch_unlock_type d =
    let type = switched_type (d.init_type) (d.curr_type) in
    record (text_changed "" (record d { curr_type = type })) {
      hint = update_user_hint (d.init_type) type;
    }

unfoldable pub get_unlock_key : UnlockDialog → UnlockType × String
get_unlock_key d = (d.curr_type, d.key)

pub data UnlockEvent : Type 0 where
  types_text : String → UnlockEvent
  clicks : ℕ → UnlockEvent
  switches : UnlockEvent

unfoldable pub unlock_allows : UnlockDialog → UnlockEvent → Bool
unlock_allows d (types_text s) = is_shown (d.result)
unlock_allows d (clicks zero) = is_shown (d.result)
unlock_allows d (clicks (suc n)) = is_shown (d.result) && d.unlock_enabled
unlock_allows d switches = is_shown (d.result) && not (is_rec (d.init_type))

unfoldable pub unlock_handle : UnlockEvent → UnlockDialog → UnlockDialog
unlock_handle (types_text s) d = text_changed s d
unlock_handle (clicks n) d = handle_button n d
unlock_handle switches d = switch_unlock_type d

-- What a user can make of the dialog that was opened for a type.
pub data Unlocking (type : UnlockType) : UnlockDialog → Type 0 where
  opened : Unlocking type (new_unlock type)
  then_ :
      {d : UnlockDialog}
      → Unlocking type d
      → (e : UnlockEvent) → unlock_allows d e ≡ true
      → Unlocking type (unlock_handle e d)
