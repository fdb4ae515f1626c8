-- ===== src/DiskEncrypt/Resize.antt =====
-- fsresize/fsresize.cpp: the file system is checked, shrunk, expanded and moved by tools of e2fsprogs.
use dde_file_manager_extensi.Prelude.{is_zero, not, String, Bool, false, if◌then◌else◌}
use dde_file_manager_extensi.DiskEncrypt.Calls.{
  Env, Action, checks_fs, shrinks_fs, expands_fs, stats_path, moves_image, call, call_output,
}

module _ (env : Env) where
  unfoldable pub shrink_file_system : String → Action Bool
  shrink_file_system device w =
      let (checked, w1) = call env (checks_fs device) w in
      if not (is_zero checked)
      then (false, w1)
      else (let (resized, w2) = call env (shrinks_fs device) w1 in (is_zero resized, w2))

  unfoldable pub expand_file_system : String → Action Bool
  expand_file_system device w =
      let (checked, w1) = call env (checks_fs device) w in
      if not (is_zero checked)
      then (false, w1)
      else (let (resized, w2) = call env (expands_fs device) w1 in (is_zero resized, w2))

  -- The output of `stat` is the size of the header file, `st_size`.
  unfoldable pub recovery_superblock : String → String → Action Bool
  recovery_superblock device header_path w =
      let ((found, size), w1) = call_output env (stats_path header_path) w in
      if not (is_zero found)
      then (false, w1)
      else (let (moved, w2) = call env (moves_image device size) w1 in (is_zero moved, w2))
