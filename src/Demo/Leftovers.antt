-- ===== src/Demo/Leftovers.antt =====
-- mainwindow.cpp: the file with the plain password, which the handlers write and remove.
use dde_file_manager_extensi.Prelude.{
  arith, ℕ, zero, suc, String, Bool, true, false, ◌≡◌, refl, sym, eq_refl, ◌==◌, Option-cases, none,
  some, ◌⊎◌, List, [], ◌∷◌, ◌++◌, ◌&&◌, ◌||◌, Bool-cases, inl, inr,
}
use dde_file_manager_extensi.Demo.{
  plain_path, clear_path, used_files, Command, echo, rm, tpm2, command_line, Log, Shell, Step, runs,
  gives_up, execute, prepare_steps, clean_steps, policy_steps, create_steps, cipher_steps,
  generate_plain, key_dir, encrypt_by_command,
}
use dde_file_manager_extensi.Demo.Decrypt.{
  ReadWord, unlock_steps, plain_steps, decrypt_steps, opened_files, clean_files, show_plain,
  decrypt_by_command,
}

abbrev pub has : String → List String → Bool
has file [] = false
has file (f ∷ files) = (f == file) || has file files

abbrev is_removal : String → Command → Bool
is_removal file (rm files) = has file files
is_removal file _ = false

-- Whether a removal of the file has answered 0.
abbrev pub cleaned : String → Log → Bool
cleaned file [] = false
cleaned file ((c, answer) ∷ log) = (is_removal file c && answer) || cleaned file log

-- Whether a removal of the file has been run, whatever it answered.
abbrev pub attempted : String → Log → Bool
attempted file [] = false
attempted file ((c, answer) ∷ log) = is_removal file c || attempted file log

abbrev no_removal : List Step → Bool
no_removal [] = true
no_removal (gives_up ∷ steps) = no_removal steps
no_removal (runs (rm files) ∷ steps) = false
no_removal (runs (echo arguments) ∷ steps) = no_removal steps
no_removal (runs (tpm2 command) ∷ steps) = no_removal steps

-- A handler's result tells whether the file was removed.
abbrev Tells : String → Bool × Log → Type 0
Tells file r = r.0 ≡ cleaned file r.1

used_files-plain :
    (base : String) (more : List String) → has (plain_path base) (used_files base more) ≡ true
unfolding used_files
used_files-plain base more = ground (arith, eq_refl (plain_path base))

opened_files-clear :
    (base : String) (policy : List String) → has (clear_path base) (opened_files base policy) ≡ true
unfolding opened_files
opened_files-clear base policy = ground (arith, eq_refl (clear_path base))

module _ (shell : Shell) where
  removal-Tells :
      (file : String) (files : List String) (log : Log)
      → has file files ≡ true
      → cleaned file log ≡ false
      → Tells file (execute shell (runs (rm files) ∷ []) log)
  unfolding execute
  removal-Tells file files log there h = elim (Bool-cases (shell log (command_line (rm files)))) [
    | inl e ↦ rw (e, there) refl
    | inr e ↦ rw (e, there) (sym h)
  ]

  clean_steps-Tells :
      (base : String) (n : ℕ) (log : Log)
      → cleaned (plain_path base) log ≡ false
      → Tells (plain_path base) (execute shell (clean_steps base n) log)
  unfolding execute clean_steps
  clean_steps-Tells base zero log h = removal-Tells _ _ log (used_files-plain base _) h
  clean_steps-Tells base (suc zero) log h = removal-Tells _ _ log (used_files-plain base _) h
  clean_steps-Tells base (suc (suc zero)) log h = removal-Tells _ _ log (used_files-plain base _) h
  clean_steps-Tells base (suc (suc (suc n))) log h = sym h

  prefix-Tells :
      (file : String) (steps last : List Step) (log : Log)
      → ((l : Log) → cleaned file l ≡ false → Tells file (execute shell last l))
      → no_removal steps ≡ true
      → cleaned file log ≡ false
      → Tells file (execute shell (steps ++ last) log)
  unfolding execute
  prefix-Tells file [] last log end none_in h = end log h
  prefix-Tells file (gives_up ∷ steps) last log end none_in h = sym h
  prefix-Tells file (runs (rm files) ∷ steps) last log end none_in h = absurd (cc)
  prefix-Tells file (runs (echo arguments) ∷ steps) last log end none_in h =
      elim (Bool-cases (shell log (command_line (echo arguments)))) [
        | inl e ↦ rw e (prefix-Tells file steps last ((echo arguments, true) ∷ log) end none_in h)
        | inr e ↦ rw e (sym h)
      ]
  prefix-Tells file (runs (tpm2 command) ∷ steps) last log end none_in h =
      elim (Bool-cases (shell log (command_line (tpm2 command)))) [
        | inl e ↦ rw e (prefix-Tells file steps last ((tpm2 command, true) ∷ log) end none_in h)
        | inr e ↦ rw e (sym h)
      ]

prepare_steps-no_removal : (base : String) (n : ℕ) → no_removal (prepare_steps base n) ≡ true
unfolding prepare_steps generate_plain policy_steps create_steps cipher_steps
prepare_steps-no_removal base zero = refl
prepare_steps-no_removal base (suc zero) = refl
prepare_steps-no_removal base (suc (suc zero)) = refl
prepare_steps-no_removal base (suc (suc (suc n))) = refl

execute-attempted :
    (shell : Shell) (file : String) (steps : List Step) (log : Log)
    → no_removal steps ≡ true
    → attempted file log ≡ false
    → attempted file (execute shell steps log).1 ≡ false
unfolding execute
execute-attempted shell file [] log none_in h = h
execute-attempted shell file (gives_up ∷ steps) log none_in h = h
execute-attempted shell file (runs (rm files) ∷ steps) log none_in h = absurd (cc)
execute-attempted shell file (runs (echo arguments) ∷ steps) log none_in h =
    elim (Bool-cases (shell log (command_line (echo arguments)))) [
      | inl e ↦ rw e (execute-attempted shell file steps ((echo arguments, true) ∷ log) none_in h)
      | inr e ↦ rw e h
    ]
execute-attempted shell file (runs (tpm2 command) ∷ steps) log none_in h =
    elim (Bool-cases (shell log (command_line (tpm2 command)))) [
      | inl e ↦ rw e (execute-attempted shell file steps ((tpm2 command, true) ∷ log) none_in h)
      | inr e ↦ rw e h
    ]

decrypt_steps-no_removal : (base : String) (n : ℕ) → no_removal (decrypt_steps base n) ≡ true
unfolding decrypt_steps unlock_steps plain_steps
decrypt_steps-no_removal base zero = refl
decrypt_steps-no_removal base (suc zero) = refl
decrypt_steps-no_removal base (suc (suc zero)) = refl
decrypt_steps-no_removal base (suc (suc (suc n))) = refl

clean_files-cases :
    (base : String) (n : ℕ)
    → (clean_files base n ≡ none)
      ⊎ ((files : List String) × (clean_files base n ≡ some (rm files))
          × (has (clear_path base) files ≡ true))
unfolding clean_files
clean_files-cases base zero = inr (_, refl, opened_files-clear base _)
clean_files-cases base (suc zero) = inr (_, refl, opened_files-clear base _)
clean_files-cases base (suc (suc zero)) = inr (_, refl, opened_files-clear base _)
clean_files-cases base (suc (suc (suc n))) = inl refl

show_plain-attempted :
    (shell : Shell) (read_word : ReadWord) (there : Bool) (n : ℕ) (base : String)
    (text : List String) (log : Log)
    → attempted (clear_path base) log ≡ false
    → (show_plain shell read_word there n base text log).success
      ≡ attempted (clear_path base) (show_plain shell read_word there n base text log).log
unfolding show_plain
show_plain-attempted shell read_word there n base text log h =
    elim (Option-cases (read_word log (clear_path base))) [
      | inl e ↦ rw (show_plain, e) (sym h)
      | inr (plain, e) ↦ elim (clean_files-cases base n) [
        | inl unknown ↦ rw (show_plain, e, unknown) (sym h)
        | inr (files, known, there) ↦ rw (show_plain, e, known, there) refl
      ]
    ]

decrypt_by_command-attempted :
    (shell : Shell) (read_word : ReadWord) (there : Bool) (n : ℕ) (home : String)
    (text : List String)
    → (decrypt_by_command shell read_word there n home text).success
      ≡ attempted
          (clear_path (key_dir home))
          (decrypt_by_command shell read_word there n home text).log
unfolding decrypt_by_command
decrypt_by_command-attempted shell read_word there n home text =
    let base = key_dir home in
    let untouched =
      execute-attempted shell (clear_path base) (decrypt_steps base n) []
        (decrypt_steps-no_removal base n) refl in
    elim (Bool-cases (execute shell (decrypt_steps base n) []).0) [
      | inl e ↦
          rw (decrypt_by_command, e)
            (show_plain-attempted shell read_word there n base text _ untouched)
      | inr e ↦ rw (decrypt_by_command, e) (sym untouched)
    ]

-- The handler that encrypts by commands reports success exactly where it has run a removal of plain.dat,
-- the file with the plain password, that answered 0; and the handler that decrypts exactly where it has
-- run a removal of clear.out, whatever that answered. This holds for whatever type of encryption,
-- directory and answers of the commands.
pub commands-cleaned :
    (shell : Shell) (read_word : ReadWord) (there : Bool) (n : ℕ) (home : String)
    (text : List String)
    → ((encrypt_by_command shell there n home text).success
        ≡ cleaned (plain_path (key_dir home)) (encrypt_by_command shell there n home text).log)
      × ((decrypt_by_command shell read_word there n home text).success
          ≡ attempted
              (clear_path (key_dir home))
              (decrypt_by_command shell read_word there n home text).log)
unfolding encrypt_by_command
commands-cleaned shell read_word there n home text = (
  prefix-Tells shell (plain_path (key_dir home)) (prepare_steps (key_dir home) n)
      (clean_steps (key_dir home) n) [] (clean_steps-Tells shell (key_dir home) n)
      (prepare_steps-no_removal (key_dir home) n) refl,
  decrypt_by_command-attempted shell read_word there n home text,
)
