-- ===== src/Workers/Denied.antt =====
-- dbus/diskencryptdbus.cpp: the requests that polkit does not allow.
use dde_file_manager_extensi.Prelude.{ℤ, negsuc, String, false, ◌≡◌, refl, [], ◌∷◌}
use dde_file_manager_extensi.DiskEncrypt.{fail}
use dde_file_manager_extensi.DiskEncrypt.Calls.{Env, World}
use dde_file_manager_extensi.Workers.{Params}
use dde_file_manager_extensi.Workers.Service.{
  Reply, Result, prepare_encrypt_disk_result, decrypt_disk_result, change_passphrase_result,
  prepare_encrypt_disk, decrypt_disk, change_encrypt_passphrase,
}

-- The code that a signal carries.
abbrev code_of : Result → ℤ
code_of (prepare_encrypt_disk_result device name job code) = code
code_of (Result.encrypt_disk_result device name code) = code
code_of (decrypt_disk_result device name job code) = code
code_of (change_passphrase_result device name job code) = code

-- A reply that names no job and reports that the user cancelled, in one signal; nothing was called.
abbrev pub IsDenial : World → Reply × World → Type 0
IsDenial w ((job, signals), w') =
    (job ≡ "") × ((r : Result) × (signals ≡ r ∷ []) × (code_of r ≡ negsuc 0)) × (w' ≡ w)

-- A request that polkit does not allow calls nothing: preparing an encryption, decrypting and changing a
-- passphrase each answer with no job and one signal, whose code says that the user cancelled.
pub denied :
    (env : Env) (job : String) (params : Params) (w : World)
    → IsDenial w (prepare_encrypt_disk env false job params w)
      × IsDenial w (decrypt_disk env false job params w)
      × IsDenial w (change_encrypt_passphrase env false job params w)
unfolding prepare_encrypt_disk decrypt_disk change_encrypt_passphrase fail
denied env job params w =
    ((refl, (_, refl, refl), refl), (refl, (_, refl, refl), refl), (refl, (_, refl, refl), refl))
