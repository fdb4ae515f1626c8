-- ===== src/DiskEncrypt/Calls.antt =====
-- What encrypt/diskencrypt.cpp, encrypt/encryptworker.cpp and fsresize/fsresize.cpp call outside the repository:
-- libcryptsetup, the tools of e2fsprogs, files, libusec-recoverykey and the block devices of dfm-mount.
-- A run is recorded as the list of its calls with their answers; the answers are chosen by an
-- environment, which may look at the whole run.
use dde_file_manager_extensi.Prelude.{
  ℕ, ℤ, is_neg, String, Bool, true, false, Option, none, some, List, [], ◌∷◌, Hash, ◌*◌,
  if◌then◌else◌,
}
use dde_file_manager_extensi.DiskEncrypt.{Status, init_crypt, fail}

pub data Mode : Type 0 where
  encrypt decrypt reencrypt : Mode

pub data Direction : Type 0 where
  forward backward : Direction

-- `struct crypt_params_reencrypt`, less the fields that are zero in all three blocks.
pub record ReencryptParams : Type 0 where
  pub mode : Mode
  pub direction : Direction
  pub resilience : String
  pub hash : String
  pub data_shift : ℕ
  pub luks2_sector_size : Option ℕ
  pub initialize_only : Bool
  pub move_first_segment : Bool
  pub resume_only : Bool

abbrev pub encrypt_params : ReencryptParams
encrypt_params = record {
  mode = encrypt;
  direction = backward;
  resilience = "datashift";
  hash = "sha256";
  data_shift = 32 * 1024;
  luks2_sector_size = some 512;
  initialize_only = true;
  move_first_segment = true;
  resume_only = false;
}

abbrev pub decrypt_params : ReencryptParams
decrypt_params = record {
  mode = decrypt;
  direction = backward;
  resilience = "checksum";
  hash = "sha256";
  data_shift = 0;
  luks2_sector_size = none;
  initialize_only = false;
  move_first_segment = false;
  resume_only = false;
}

abbrev pub resume_params : ReencryptParams
resume_params = record {
  mode = reencrypt;
  direction = forward;
  resilience = "checksum";
  hash = "sha256";
  data_shift = 0;
  luks2_sector_size = none;
  initialize_only = false;
  move_first_segment = false;
  resume_only = true;
}

-- A passphrase as a call is given it: the bytes of its text, and the number of bytes to read.
pub record Key : Type 0 where
  pub chars : String
  pub size : ℕ

pub data Call : Type 0 where
  -- e2fsck, resize2fs -M, resize2fs and e2image through `system`
  checks_fs shrinks_fs expands_fs : String → Call
  moves_image : String → String → Call
  -- files
  stats_path accesses_path creates_file allocates_file removes_file opens_file : String → Call
  reads_file makes_path : String → Call
  writes_file : String → String → Call
  -- libcryptsetup; a handle is opened by one of the first two
  inits : String → Call
  inits_data : String → String → Call
  frees loads gets_flags reencrypts sets_rng_type : Call
  sets_data_offset : ℕ → Call
  formats : String → String → ℕ → String → Call
  adds_keyslot_by_volume_key : String → Call
  inits_reencrypt : ReencryptParams → String → String → Call
  activates : String → String → Call
  deactivates : String → Call
  backs_up_header restores_header : String → Call
  changes_keyslot adds_keyslot : Key → Key → Call
  gets_token : ℕ → Call
  sets_token : ℤ → String → Call
  sets_label : String → Call
  -- libusec-recoverykey
  loads_library resolves_symbol generates_key unloads_library : Call

abbrev pub Event : Type 0
Event = Call × ℤ

-- The requirement flags that the functions test.
pub record Flags : Type 0 where
  pub offline_reencrypt : Bool
  pub online_reencrypt : Bool
  pub unknown : Bool

-- A block device handle of dfm-mount.
pub record BlockDevice : Type 0 where
  pub id_type : String
  pub id_version : String
  pub is_encrypted : Bool
  pub mount_points : List String

-- A value of a JSON object, as far as the functions look at it.
pub data Json : Type 0 where
  text : String → Json
  number : ℤ → Json
  texts : List String → Json
  other : String → Json

-- The environment: what each call returns, by the events before it, newest first.
pub record Env : Type 0 where
  pub code : List Event → Call → ℤ
  pub output : List Event → Call → String
  pub flags : List Event → Flags
  pub is_block : List Event → String → Bool
  pub dir_exists : List Event → String → Bool
  -- `contains(…, Qt::CaseInsensitive)` at one text
  pub same_ignoring_case : String → String → Bool
  pub block_device : List Event → String → Option BlockDevice
  -- `QJsonDocument::fromJson(…).object()`, and `QJsonDocument(…).toJson()` in its two formats
  pub parse_object : String → Hash Json
  pub print_object : Hash Json → String
  pub print_compact : Hash Json → String
  -- `QString::number`
  pub number_text : ℤ → String
  -- `QString::length`, the number of UTF-16 units
  pub utf16_length : String → ℕ

-- `toStdString().c_str()` with `length()` for the number of its bytes.
abbrev pub key_of : Env → String → Key
key_of env s = record { chars = s; size = env.utf16_length s }

-- The device of the handle after the events.
abbrev opened_by : Call → String → String
opened_by (inits device) before = device
opened_by (inits_data device header) before = device
opened_by c before = before

unfoldable pub opened_on : List Event → String
opened_on [] = ""
opened_on ((c, answer) ∷ es) = opened_by c (opened_on es)

-- The run so far, and the globals of diskencrypt.cpp.
pub record World : Type 0 where
  pub events : List Event
  pub reencrypting_device : String
  pub decrypting_device : String

abbrev pub Action : Type 0 → Type 0
Action A = World → A × World

abbrev pub pure : {A : Type 0} → A → Action A
pure a w = (a, w)

-- What a body leaves behind when it returns: its result, the last value of the local `ret`, which some
-- of the clean-ups read, and what it wrote to its out-parameter.
pub record Outcome (R : Type 0) : Type 0 where
  pub result : ℤ
  pub ret : ℤ
  pub out : Option R

-- A body with early returns.
pub data Step (R A : Type 0) : Type 0 where
  returns : Outcome R → Step R A
  goes_on : A → Step R A

abbrev pub Body : Type 0 → Type 0 → Type 0
Body R A = World → Step R A × World

abbrev pub continue : {R A B : Type 0} → Step R A × World → (A → Body R B) → Step R B × World
continue (returns o, w) f = (returns o, w)
continue (goes_on a, w) f = f a w

infixl 5 ◌>>=◌ ◌>>◌
abbrev pub ◌>>=◌ : {R A B : Type 0} → Body R A → (A → Body R B) → Body R B
◌>>=◌ m f w = continue (m w) f

abbrev pub ◌>>◌ : {R A B : Type 0} → Body R A → Body R B → Body R B
m >> n = m >>= λ _. n

-- An action inside a body.
abbrev pub lift : {R A : Type 0} → Action A → Body R A
lift m w = let (a, w') = m w in (goes_on a, w')

-- `*out = …; return …`
abbrev pub return : {R : Type 0} → ℤ → ℤ → Option R → Body R (Outcome R)
return result ret out w = (returns (record { result = result; ret = ret; out = out }), w)

-- `CHECK_BOOL(…, …, -kErrorX)`
abbrev pub require : {R : Type 0} → Bool → Status → ℤ → Body R (Unit {0})
require test error ret w =
    if test
    then (goes_on tt, w)
    else (returns (record { result = fail error; ret = ret; out = none }), w)

-- A body whose every path returns.
abbrev pub outcome_of : {R : Type 0} → Step R (Outcome R) → Outcome R
outcome_of (returns o) = o
outcome_of (goes_on o) = o

-- No further clean-up.
abbrev pub no_more : ℤ → Action (Unit {0})
no_more ret w = (tt, w)

module _ (env : Env) where
  -- One call, recorded with its answer.
  unfoldable pub call : Call → Action ℤ
  call c w =
      let answer = env.code w.events c in (answer, record w { events = (c, answer) ∷ w.events })

  -- A call whose text output is used.
  unfoldable pub call_output : Call → Action (ℤ × String)
  call_output c w =
      let out = env.output w.events c in let (answer, w') = call c w in ((answer, out), w')

  -- `ret = …; CHECK_INT(ret, …, -kErrorX)`
  unfoldable pub checked : {R : Type 0} → Call → Status → Body R ℤ
  checked c error w =
      let (ret, w') = call c w in
      if is_neg ret
      then (returns (record { result = fail error; ret = ret; out = none }), w')
      else (goes_on ret, w')

  -- A function that opens a handle first. Its `FinallyUtil` frees the handle, which libcryptsetup
  -- leaves null where the opening fails, and then does the rest of the clean-up, which may look at the
  -- last `ret`.
  unfoldable pub with_handle :
      {R : Type 0} → Call → Body R (Outcome R) → (ℤ → Action (Unit {0})) → Action (Outcome R)
  with_handle init body finally w =
      let (ret, w1) = call init w in
      if is_neg ret
      then (record { result = fail init_crypt; ret = ret; out = none }, (finally ret w1).1)
      else (let (out, w2) = body w1 in
          let o = outcome_of out in let (_, w3) = call frees w2 in (o, (finally o.ret w3).1))
