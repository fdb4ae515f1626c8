-- ===== src/Demo/Decrypt.antt =====
-- mainwindow.cpp: the handler of `btnDecryptThree`.
use dde_file_manager_extensi.Prelude.{
  ℕ, zero, suc, not, String, Bool, true, false, List, [], ◌∷◌, ◌++◌, Option, none, some, ◌<>◌,
}
use dde_file_manager_extensi.Demo.{
  Command, rm, command_line, Log, Shell, Step, gives_up, execute, key_path, name_path, policy_path,
  primary_path, session_path, cipher_path, clear_path, policy_password, flush_session,
  start_session, policy_pcr, create_primary, load_key, encrypt_decrypt, Shown, key_dir,
}

-- The first word of a file after the given command lines, where the file opens.
abbrev pub ReadWord : Type 0
ReadWord = Log → String → Option String

module _ (base : String) where
  unfoldable pub unlock_steps : ℕ → List Step
  unlock_steps zero = policy_pcr base "" ∷ []
  unlock_steps (suc zero) = policy_password base ∷ []
  unlock_steps (suc (suc zero)) = policy_pcr base "" ∷ policy_password base ∷ []
  unlock_steps (suc (suc (suc _))) = gives_up ∷ []

  abbrev decrypt_step : String → Step
  decrypt_step pin = encrypt_decrypt base " -d" (clear_path base) (cipher_path base) pin

  unfoldable pub plain_steps : ℕ → List Step
  plain_steps zero = decrypt_step "" ∷ []
  plain_steps (suc zero) = decrypt_step "+pin123456" ∷ []
  plain_steps (suc (suc zero)) = decrypt_step "+pin123456" ∷ []
  plain_steps (suc (suc (suc _))) = gives_up ∷ []

  unfoldable pub decrypt_steps : ℕ → List Step
  decrypt_steps n =
      (start_session base "--policy-session " ∷ unlock_steps n)
      ++ (create_primary base ∷ load_key base ∷ plain_steps n)
      ++ (flush_session base ∷ [])

  unfoldable pub opened_files : List String → List String
  opened_files policy =
      clear_path base
      ∷ key_path base
      ∷ name_path base
      ∷ (policy ++ (primary_path base ∷ session_path base ∷ []))

  -- The removal, whose answer is not looked at.
  unfoldable pub clean_files : ℕ → Option Command
  clean_files zero = some (rm (opened_files []))
  clean_files (suc zero) = some (rm (opened_files (policy_path base ∷ [])))
  clean_files (suc (suc zero)) = some (rm (opened_files (policy_path base ∷ [])))
  clean_files (suc (suc (suc _))) = none

-- The end of the handler, once the commands have answered 0.
unfoldable pub show_plain : Shell → ReadWord → Bool → ℕ → String → List String → Log → Shown
show_plain shell read_word there n base text log = elim (read_word log (clear_path base)) [
  | none ↦ record { success = false; text = text; log = log; made_dir = not there }
  | some plain ↦
      let shown = text ++ (("Decrypt success! password is: " <> plain) ∷ []) in
      elim (clean_files base n) [
        | none ↦ record { success = false; text = shown; log = log; made_dir = not there }
        | some c ↦ record {
          success = true;
          text = shown;
          log = (c, shell log (command_line c)) ∷ log;
          made_dir = not there;
        }
      ]
]

unfoldable pub decrypt_by_command : Shell → ReadWord → Bool → ℕ → String → List String → Shown
decrypt_by_command shell read_word there n home text =
    let base = key_dir home in
    let (ok, log) = execute shell (decrypt_steps base n) [] in
    elim ok [
      | true ↦ show_plain shell read_word there n base text log
      | false ↦ record { success = false; text = text; log = log; made_dir = not there }
    ]
