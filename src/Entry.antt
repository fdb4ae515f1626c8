-- ===== src/Entry.antt =====
-- The encryption entry of the file manager, dde-file-manager/dfmplugin-disk-encrypt-entry/: the
-- recovery key, the dialogs, the parameters for the TPM, the menu and the events of the daemon.
pub mod RecoveryKey
pub mod Sections
pub mod Password
pub mod PasswordRules
pub mod Unlock
pub mod UnlockKeys
pub mod DecryptInput
pub mod ChgPassphrase
pub mod DialogKeys
pub mod Passphrase
pub mod Token
pub mod TokenFiles
pub mod TokenCache
pub mod Sealing
pub mod RoundTrip
pub mod Wizard
pub mod WizardInputs
pub mod Events
pub mod EventTraces
pub mod Menu
pub mod Startup
pub mod Requests
pub mod Daemon
pub mod Answered
pub mod MenuLaws
pub mod Acquire
pub mod Mount
pub mod MountLaws
pub mod TestJson
pub mod DialogTests
pub mod TokenTests
pub mod RequestTests
pub mod Tests
