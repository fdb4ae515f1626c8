-- ===== src/Lib.antt =====
-- The logic of dde-file-manager-extensions: the settings store of the cooperation plugin, the disk
-- encryption of the daemon, and the file manager's side of it with the TPM. Paths are from the root of
-- the repository; the parts stand in src/dde-file-manager/dfmplugin-cooperation,
-- src/dde-file-manager-daemon/daemonplugin-file-encrypt,
-- src/dde-file-manager/dfmplugin-disk-encrypt-entry and
-- src/dde-file-manager/dfmplugin-encrypt-manager.
--
-- Parts, and how they interact:
-- - Prelude: tests, texts, text files as lines, signed results, and QHash/QMap/QJsonObject as
--   association lists.
-- - Settings (configs/settings/settings.cpp): `Settings` is the object with its private data, three
--   layers (default, fallback, writable), the sync timer, the watcher flag and the emitted signals, newest
--   first. Settings/Json reads and writes the documents, Settings/Edit has the operations that change the
--   writable layer, Settings/File those that meet the disk, Settings/Keys the key lists, and
--   Settings/Requests a call of any of them. A use of a null timer is `none`.
-- - DiskEncrypt (encrypt/diskencrypt.cpp, fsresize/fsresize.cpp, globaltypesdefine.h): each function is an
--   action on a `World`, the list of calls made so far with their answers and the two globals that name the
--   devices at work. The answers come from an `Env`, a parameter that may look at the whole run, so
--   every theorem holds for all behaviours of libcryptsetup, the tools and the files.
--   DiskEncrypt/Calls has the calls, early returns (`Body`) and the clean-up behind a handle
--   (`with_handle`); DiskEncrypt/Header, Reencrypt, Keyslots, Device and Resize have the functions.
-- - Tables (in encrypt/encryptworker.cpp and dbus/diskencryptdbus.cpp): /etc/fstab and /etc/crypttab, on
--   their contents.
-- - Workers (encrypt/encryptworker.cpp, dbus/diskencryptdbus.cpp): the jobs Prepare, Decrypt, Passphrase
--   and Online, each from the start of its thread to its end, Startup, the start of the online worker
--   by the service and what the service passes on, and Service, the requests of the bus with
--   the jobs that they start. The jobs call the functions of DiskEncrypt and Tables.
--   Workers/KeySlots reads off a run which passphrases open the key slots, for Rollback and OnlineKeys.
-- - Tpm (dfmplugin-encrypt-manager: tpm/tpmwork.cpp, events/eventreceiver.cpp): TPMWork in Tpm/Work
--   and the slots of the receiver in Tpm/Receiver, over the functions of libutpm2.so, which are the
--   fields of `TpmLib`. Tpm/Random and Tpm/Vault have the proofs. A result that is
--   longer than the buffer for it is `none`.
-- - Entry (dfmplugin-disk-encrypt-entry): Entry/RecoveryKey, Entry/Passphrase and Entry/Token have
--   utils/encryptutils.cpp, with the token of the menu; Entry/Password, Entry/Wizard, Entry/Unlock,
--   Entry/DecryptInput and Entry/ChgPassphrase have the dialogs of gui, each with a data type of the
--   runs that a user can make of it; Entry/Menu, Entry/Requests and
--   Entry/Mount have menu/diskencryptmenuscene.cpp, Entry/Events and Entry/Acquire events/eventshandler.cpp. The
--   other modules of Entry have the proofs. Entry calls the slots of Tpm, and Entry/Daemon joins its
--   requests to the parameters that Workers reads, and Entry/Answered to the key slots of the device.
-- - Menus (cooperationplugin.cpp, plugin_diskencryptentry.cpp): the plugin of menus as both plugins use
--   it, for Entry/Startup, the start of dfmplugin-disk-encrypt-entry, and for Cooperation/Plugin.
-- - Cooperation (dfmplugin-cooperation): Cooperation/Config has configs/dconfig, over the class DConfig
--   as a parameter; Cooperation/AppConfig has configs/settings/configmanager.cpp, over Settings, whose
--   files Settings/Paths finds; Cooperation/Menu has menu, Cooperation/Dialog the settings dialog over
--   both configurations, and Cooperation/Plugin cooperationplugin.cpp. The modules named Laws have the
--   proofs.
-- - Demo (demo/dfmplugin-encrypt-manager-demo/mainwindow.cpp): the handlers that encrypt and decrypt by
--   command lines; what a command line answers is a parameter, which sees those run before it.
--
-- Bounds: every loop is structural recursion over the lines, entries or token slots that the code walks;
-- the 32 token slots are those of LUKS2. The wait of the online worker walks the sequence of parameters
-- that it sees; where the sequence ends without valid ones, it has not come to an end, which its result
-- says. The recovery key's dashes are counted down as in the source. A length of the TPM's library is a
-- 16-bit number, with its wrap-around.
--
-- Not modelled: libcryptsetup, e2fsprogs, libutpm2, Qt's JSON, base64 and variants, polkit and the
-- monitor of block devices are parameters. The order of a QHash is that of its association list. A text
-- is a row of characters, and a char* has no byte 0. Threads run to their end before the next request,
-- and a dialog that is open lets no other signal in; so a progress dialog that is deleted while a
-- request's dialog is open is not seen. The online worker reads the
-- parameters again after the conversion once, where the source reads them in each of its last steps. A passphrase is given
-- to libcryptsetup with its number of UTF-16 units; what is read of it then is a parameter of the
-- theorems on key slots. The keys that a header is made with are passed as texts. Logging, painting, the layout of widgets and the
-- demo's other buttons are left out.
pub mod Prelude
pub mod Settings
pub mod DiskEncrypt
pub mod Tables
pub mod Tpm
pub mod Entry
pub mod Workers
pub mod Menus
pub mod Cooperation
pub mod Demo
