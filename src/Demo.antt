-- ===== src/Demo.antt =====
-- demo/dfmplugin-encrypt-manager-demo/mainwindow.cpp: the buttons that encrypt and decrypt by calling
-- the commands of the TPM tools.
pub mod Decrypt
pub mod Leftovers
pub mod Tests
use dde_file_manager_extensi.Prelude.{
  ℕ, zero, suc, not, String, Bool, true, false, List, [], ◌∷◌, ◌++◌, ◌<>◌, if◌then◌else◌,
}

-- A command line that is given to `std::system`: its first word, then the rest of the line, or for `rm`
-- the files.
pub data Command : Type 0 where
  echo tpm2 : String → Command
  rm : List String → Command

abbrev pub spaced : List String → String
spaced [] = ""
spaced (file ∷ files) = " " <> (file <> spaced files)

unfoldable pub command_line : Command → String
command_line (echo arguments) = "echo " <> arguments
command_line (rm files) = "rm" <> spaced files
command_line (tpm2 command) = "tpm2_" <> command

-- The command lines run so far, newest first, each with whether it answered 0.
abbrev pub Log : Type 0
Log = List (Command × Bool)

-- Whether `std::system` answers 0 to a command line, which may depend on those run before.
abbrev pub Shell : Type 0
Shell = Log → String → Bool

-- A step of a handler: a command whose failure ends the handler, or the end for an unknown type.
pub data Step : Type 0 where
  runs : Command → Step
  gives_up : Step

-- The `if (std::system(...)) return false;` one after another.
unfoldable pub execute : Shell → List Step → Log → Bool × Log
execute shell [] log = (true, log)
execute shell (gives_up ∷ steps) log = (false, log)
execute shell (runs c ∷ steps) log =
    let answer = shell log (command_line c) in
    let rest = execute shell steps ((c, answer) ∷ log) in
    if answer then rest else (false, (c, answer) ∷ log)

abbrev pub joined : List String → String
joined [] = ""
joined (part ∷ parts) = part <> joined parts

-- The type of encryption: 0 for PCR, 1 for PIN, 2 for both. The constant of both handlers is 2.
abbrev pub both : ℕ
both = 2

-- The files, in the directory `.TPMKey` of the home.
module _ (base : String) where
  abbrev pub plain_path : String
  plain_path = base <> "/plain.dat"

  abbrev iv_path : String
  iv_path = base <> "/iv.bin"

  abbrev pub session_path : String
  session_path = base <> "/session.dat"

  abbrev pub policy_path : String
  policy_path = base <> "/policy.dat"

  abbrev pub primary_path : String
  primary_path = base <> "/primary.ctx"

  abbrev public_path : String
  public_path = base <> "/key.pub"

  abbrev private_path : String
  private_path = base <> "/key.priv"

  abbrev pub name_path : String
  name_path = base <> "/key.name"

  abbrev pub key_path : String
  key_path = base <> "/key.ctx"

  abbrev pub cipher_path : String
  cipher_path = base <> "/cipher.out"

  abbrev pcr_path : String
  pcr_path = base <> "/pcr_val.bin"

  abbrev pub clear_path : String
  clear_path = base <> "/clear.out"

  unfoldable pub generate_plain : List Step
  generate_plain =
      runs (echo (joined ("Qwer@1234" ∷ " > " ∷ plain_path ∷ [])))
      ∷ runs (tpm2 (joined ("getrandom -o " ∷ iv_path ∷ " 16" ∷ [])))
      ∷ []

  abbrev pcr_read : Step
  pcr_read = runs (tpm2 (joined ("pcrread sha256:7 -o " ∷ pcr_path ∷ [])))

  abbrev pub policy_password : Step
  policy_password =
      runs (tpm2 (joined ("policypassword -S " ∷ session_path ∷ " -L " ∷ policy_path ∷ [])))

  abbrev pub flush_session : Step
  flush_session = runs (tpm2 (joined ("flushcontext " ∷ session_path ∷ [])))

  -- The start of a session, of a trial one or of one for use.
  abbrev pub start_session : String → Step
  start_session use_option = runs (
      tpm2 (
        joined
          ("startauthsession " ∷ use_option ∷ "-S " ∷ session_path ∷ " -g sha256 -G aes" ∷ [])))

  abbrev pub policy_pcr : String → Step
  policy_pcr options =
      runs (tpm2 (joined ("policypcr -S " ∷ session_path ∷ " -l sha256:7" ∷ options ∷ [])))

  unfoldable pub policy_steps : ℕ → List Step
  policy_steps zero =
      pcr_read ∷ policy_pcr (joined (" -L " ∷ policy_path ∷ " -f " ∷ pcr_path ∷ [])) ∷ []
  policy_steps (suc zero) = policy_password ∷ []
  policy_steps (suc (suc zero)) =
      pcr_read
      ∷ policy_pcr (joined (" -L " ∷ policy_path ∷ " -f " ∷ pcr_path ∷ []))
      ∷ policy_password
      ∷ []
  policy_steps (suc (suc (suc _))) = gives_up ∷ []

  abbrev create_key : String → Step
  create_key options = runs (
      tpm2 (
        joined (
          "create -g sha256 -G aes -u " ∷ public_path ∷ " -r " ∷ private_path ∷ " -C "
          ∷ primary_path ∷ " -L " ∷ policy_path ∷ options ∷ [])))

  unfoldable pub create_steps : ℕ → List Step
  create_steps zero = create_key "" ∷ []
  create_steps (suc zero) = create_key " -p pin123456" ∷ []
  create_steps (suc (suc zero)) = create_key " -p pin123456" ∷ []
  create_steps (suc (suc (suc _))) = gives_up ∷ []

  abbrev pub create_primary : Step
  create_primary =
      runs (tpm2 (joined ("createprimary -C o -g sha256 -G rsa -c " ∷ primary_path ∷ [])))

  abbrev pub load_key : Step
  load_key = runs (
      tpm2 (
        joined (
          "load -C " ∷ primary_path ∷ " -u " ∷ public_path ∷ " -r " ∷ private_path ∷ " -n "
          ∷ name_path ∷ " -c " ∷ key_path ∷ [])))

  abbrev pub encrypt_decrypt : String → String → String → String → Step
  encrypt_decrypt direction output input pin = runs (
      tpm2 (
        joined (
          "encryptdecrypt -Q --iv " ∷ iv_path ∷ " -c " ∷ key_path ∷ direction ∷ " -o " ∷ output
          ∷ " " ∷ input ∷ " -p session:" ∷ session_path ∷ pin ∷ [])))

  unfoldable pub cipher_steps : ℕ → List Step
  cipher_steps zero =
      pcr_read ∷ policy_pcr (" -f " <> pcr_path) ∷ encrypt_decrypt "" cipher_path plain_path "" ∷ []
  cipher_steps (suc zero) =
      policy_password ∷ encrypt_decrypt "" cipher_path plain_path "+pin123456" ∷ []
  cipher_steps (suc (suc zero)) =
      pcr_read
      ∷ policy_pcr (" -f " <> pcr_path)
      ∷ policy_password
      ∷ encrypt_decrypt "" cipher_path plain_path "+pin123456"
      ∷ []
  cipher_steps (suc (suc (suc _))) = gives_up ∷ []

  unfoldable pub used_files : List String → List String
  used_files more =
      key_path ∷ name_path ∷ plain_path ∷ policy_path ∷ primary_path ∷ session_path ∷ more

  unfoldable pub clean_steps : ℕ → List Step
  clean_steps zero = runs (rm (used_files (pcr_path ∷ []))) ∷ []
  clean_steps (suc zero) = runs (rm (used_files [])) ∷ []
  clean_steps (suc (suc zero)) = runs (rm (used_files (pcr_path ∷ []))) ∷ []
  clean_steps (suc (suc (suc _))) = gives_up ∷ []

  -- All of the handler before the files are cleaned.
  unfoldable pub prepare_steps : ℕ → List Step
  prepare_steps n =
      generate_plain
      ++ (start_session "" ∷ policy_steps n)
      ++ (flush_session ∷ create_primary ∷ create_steps n)
      ++ (load_key ∷ start_session "--policy-session " ∷ cipher_steps n)
      ++ (flush_session ∷ [])

-- What the text browser shows at the end, with the command lines that were run and whether the
-- directory was made.
pub record Shown : Type 0 where
  pub success : Bool
  pub text : List String
  pub log : Log
  pub made_dir : Bool

abbrev pub key_dir : String → String
key_dir home = home <> "/.TPMKey"

-- The handler of `btnEncryptThree`; `there` tells whether the directory exists. It appends to the text.
unfoldable pub encrypt_by_command : Shell → Bool → ℕ → String → List String → Shown
encrypt_by_command shell there n home text =
    let base = key_dir home in
    let (ok, log) = execute shell (prepare_steps base n ++ clean_steps base n) [] in
    record {
      success = ok;
      text = if ok then text ++ ("Encrypt success! password is: Qwer@1234" ∷ []) else text;
      log = log;
      made_dir = not there;
    }
