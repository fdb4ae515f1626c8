-- ===== src/Workers/ServiceKeeps.antt =====
-- dbus/diskencryptdbus.cpp: the requests of the bus keep what the jobs keep, and so they free each
-- handle that they open.
use dde_file_manager_extensi.Prelude.{ℤ, String, Bool, ◌≡◌, arith, List}
use dde_file_manager_extensi.DiskEncrypt.{EncryptConfig}
use dde_file_manager_extensi.DiskEncrypt.Calls.{Env, World}
use dde_file_manager_extensi.DiskEncrypt.Keeps.{Keeps, Brackets}
use dde_file_manager_extensi.DiskEncrypt.Handles.{Held, Held-Brackets, opened, freed}
use dde_file_manager_extensi.DiskEncrypt.Functions.{set_token-Keeps, get_token-Keeps}
use dde_file_manager_extensi.Workers.{Params}
use dde_file_manager_extensi.Workers.Prepare.{Prepared, prencrypt_run}
use dde_file_manager_extensi.Workers.Decrypt.{reencrypt_run}
use dde_file_manager_extensi.Workers.Online.{online_run, rec_token}
use dde_file_manager_extensi.Workers.Keeps.{
  prencrypt_run-Keeps, decrypt_run-Keeps, reencrypt_run-Keeps, chg_pass_run-Keeps,
}
use dde_file_manager_extensi.Workers.OnlineKeeps.{online_run-Keeps}
use dde_file_manager_extensi.Workers.Service.{
  set_token_of, start_reencrypt, prepared, prepare_encrypt_disk, decrypt_disk,
  change_encrypt_passphrase, query_tpm_token,
}

module _ (env : Env) (I J : World → Type 0) (brackets : Brackets I J) where
  set_token_of-Keeps : (dev token : String) (w : World) → I w → I (set_token_of env dev token w)
  unfolding set_token_of
  set_token_of-Keeps dev token w h =
      ground (arith, (set_token-Keeps env I J brackets dev token).kept w h)

  start_reencrypt-Keeps :
      (dev name passphrase token : String) (rec_pos : ℤ)
      → Keeps I (start_reencrypt env dev name passphrase token rec_pos)
  unfolding start_reencrypt
  start_reencrypt-Keeps dev name passphrase token rec_pos = record {
    kept = λ w h.
        let w1 = (reencrypt_run env dev passphrase w).1 in
        let h2 =
          set_token_of-Keeps dev token w1
            ((reencrypt_run-Keeps env I J brackets dev passphrase).kept w h) in
        ground (arith, h2, set_token_of-Keeps dev (rec_token (env.number_text rec_pos)) _ h2);
  }

  prepared-Keeps :
      (params : Params) (job : String) (worker : Prepared)
      → Keeps I (prepared env params job worker)
  unfolding prepared
  prepared-Keeps params job worker = record {
    kept = λ w h. ground (
      arith,
      h,
      (start_reencrypt-Keeps (params.to_text "device") (params.to_text "deviceName")
            (params.to_text "passphrase") (params.to_text "tpmToken") worker.keyslot_rec_key).kept
          w h,
    );
  }

  prepare_encrypt_disk-Keeps :
      (allowed : Bool) (job : String) (params : Params)
      → Keeps I (prepare_encrypt_disk env allowed job params)
  unfolding prepare_encrypt_disk
  prepare_encrypt_disk-Keeps allowed job params = record {
    kept = λ w h.
        let (worker, w1) = prencrypt_run env params w in
        ground (
          arith,
          (prencrypt_run-Keeps env I J brackets params).kept w h,
          (prepared-Keeps params job worker).kept w1,
        );
  }

  decrypt_disk-Keeps :
      (allowed : Bool) (job : String) (params : Params)
      → Keeps I (decrypt_disk env allowed job params)
  unfolding decrypt_disk
  decrypt_disk-Keeps allowed job params = record {
    kept = λ w h. ground (arith, (decrypt_run-Keeps env I J brackets params).kept w h);
  }

  change_encrypt_passphrase-Keeps :
      (allowed : Bool) (job : String) (params : Params)
      → Keeps I (change_encrypt_passphrase env allowed job params)
  unfolding change_encrypt_passphrase
  change_encrypt_passphrase-Keeps allowed job params = record {
    kept = λ w h. ground (arith, (chg_pass_run-Keeps env I J brackets params).kept w h);
  }

  query_tpm_token-Keeps : (device : String) → Keeps I (query_tpm_token env device)
  unfolding query_tpm_token
  query_tpm_token-Keeps device = record {
    kept = λ w h. (get_token-Keeps env I J brackets device).kept w h;
  }

-- A request of the bus, or the run of the online worker.
pub data Request : Type 0 where
  prepares decrypts changes_passphrase : Bool → String → Params → Request
  queries_token : String → Request
  finishes_online : EncryptConfig → List Params → Request

-- The world after it.
unfoldable pub served : Env → Request → World → World
served env (prepares allowed job params) w = (prepare_encrypt_disk env allowed job params w).1
served env (decrypts allowed job params) w = (decrypt_disk env allowed job params w).1
served env (changes_passphrase allowed job params) w =
    (change_encrypt_passphrase env allowed job params w).1
served env (queries_token device) w = (query_tpm_token env device w).1
served env (finishes_online config seen) w = (online_run env config seen w).1

pub served-Keeps :
    (env : Env) (I J : World → Type 0)
    → Brackets I J
    → (r : Request) (w : World) → I w
    → I (served env r w)
unfolding served
served-Keeps env I J b (prepares allowed job params) =
    (prepare_encrypt_disk-Keeps env I J b allowed job params).kept
served-Keeps env I J b (decrypts allowed job params) =
    (decrypt_disk-Keeps env I J b allowed job params).kept
served-Keeps env I J b (changes_passphrase allowed job params) =
    (change_encrypt_passphrase-Keeps env I J b allowed job params).kept
served-Keeps env I J b (queries_token device) = (query_tpm_token-Keeps env I J b device).kept
served-Keeps env I J b (finishes_online config seen) = (online_run-Keeps env I J b config seen).kept

-- Whatever the calls answer, a request of the bus and a run of the online worker free as many handles
-- of libcryptsetup as they open: if all handles were freed before, all are freed after.
pub served-handles :
    (env : Env) (r : Request) (w : World)
    → opened w.events ≡ freed w.events
    → opened (served env r w).events ≡ freed (served env r w).events
served-handles env r w h =
    ground (arith, served-Keeps env (Held 0) (Held 1) (Held-Brackets 0) r w (ground arith))
