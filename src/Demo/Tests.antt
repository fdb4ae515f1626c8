-- ===== src/Demo/Tests.antt =====
-- mainwindow.cpp: the handlers with concrete answers of the commands.
use dde_file_manager_extensi.Prelude.{true, false, ◌≡◌, refl, some, [], ◌∷◌, ◌==◌, not}
use dde_file_manager_extensi.Demo.{
  plain_path, clear_path, Shell, both, execute, encrypt_by_command, prepare_steps, clean_steps,
  generate_plain, policy_steps, create_steps, cipher_steps, command_line,
}
use dde_file_manager_extensi.Demo.Decrypt.{
  ReadWord, decrypt_by_command, decrypt_steps, unlock_steps, plain_steps, show_plain, clean_files,
}
use dde_file_manager_extensi.Demo.Leftovers.{cleaned, attempted, commands-cleaned}

-- Every command answers 0 but the loading of the key.
abbrev unloaded : Shell
unloaded log line = not (
    line
    == "tpm2_load -C /home/u/.TPMKey/primary.ctx -u /home/u/.TPMKey/key.pub -r /home/u/.TPMKey/key.priv -n /home/u/.TPMKey/key.name -c /home/u/.TPMKey/key.ctx")

abbrev answering : Shell
answering log line = true

abbrev same_word : ReadWord
same_word log file = some "Qwer@1234"

-- A run that stops at the loading of the key leaves the plain password.
unloaded_test : (encrypt_by_command unloaded true both "/home/u" []).success ≡ false
unfolding encrypt_by_command prepare_steps clean_steps generate_plain policy_steps create_steps
    cipher_steps execute command_line
unloaded_test = refl

decrypted_test :
    (decrypt_by_command answering same_word true both "/home/u" []).text
    ≡ "Decrypt success! password is: Qwer@1234" ∷ []
unfolding decrypt_by_command decrypt_steps unlock_steps plain_steps show_plain clean_files execute
    command_line
decrypted_test = refl

commands-cleaned_example :
    ((encrypt_by_command unloaded true both "/home/u" []).success
      ≡ cleaned
          (plain_path "/home/u/.TPMKey")
          (encrypt_by_command unloaded true both "/home/u" []).log)
    × ((decrypt_by_command unloaded same_word true both "/home/u" []).success
        ≡ attempted
            (clear_path "/home/u/.TPMKey")
            (decrypt_by_command unloaded same_word true both "/home/u" []).log)
commands-cleaned_example = commands-cleaned unloaded same_word true both "/home/u" []
