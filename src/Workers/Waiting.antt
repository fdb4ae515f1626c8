-- ===== src/Workers/Waiting.antt =====
-- encrypt/encryptworker.cpp: the wait of `ReencryptWorkerV2::run`.
use dde_file_manager_extensi.Prelude.{
  ℕ, suc, ◌+◌, true, false, ◌≡◌, some, List, [], ◌∷◌, ◌++◌, length, All, arith,
}
use dde_file_manager_extensi.DiskEncrypt.{EncryptConfig}
use dde_file_manager_extensi.Workers.{Params}
use dde_file_manager_extensi.Workers.Online.{params_valid, await_params}

abbrev pub AllInvalid : EncryptConfig → List Params → Type 0
AllInvalid config = All (λ params. params_valid config params ≡ false)

await_params-from :
    (config : EncryptConfig) (earlier later : List Params) (params : Params) (n : ℕ)
    → AllInvalid config earlier
    → params_valid config params ≡ true
    → await_params config (earlier ++ (params ∷ later)) n ≡ (some params, length earlier + n)
unfolding await_params
await_params-from config [] later params n h v = rw v (ground arith)
await_params-from config (p ∷ earlier) later params n h v =
    rw (h.0, await_params-from config earlier later params (suc n) h.1 v) (ground arith)

-- The wait of the online worker ends with the first parameters that are valid for its device, after as
-- many requests for parameters as it saw invalid ones.
pub await_params_lem :
    (config : EncryptConfig) (earlier later : List Params) (params : Params)
    → AllInvalid config earlier
    → params_valid config params ≡ true
    → await_params config (earlier ++ (params ∷ later)) 0 ≡ (some params, length earlier)
await_params_lem config earlier later params h v =
    rw (await_params-from config earlier later params 0 h v) (ground arith)
