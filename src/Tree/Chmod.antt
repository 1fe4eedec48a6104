-- ===== src/Tree/Chmod.antt =====
-- k_chmod (src/internal/pennfat_kernel.c).
use pennosgrp.Prelude.{
  ℕ, ◌<◌, ◌/◌, ◌^◌, ◌≡◌, refl, true, false, not, ◌||◌, some, List, arith, length, ◌==◌,
  if◌then◌else◌, pos, ok,
}
use pennosgrp.Fat.{in_fat, read_block}
use pennosgrp.Dirent.{success, entry_at, read_dirent}
use pennosgrp.Dirent.Codec.{IsEntry}
use pennosgrp.Dirent.RoundTrip.{write-read_dirent}
use pennosgrp.File.{State}
use pennosgrp.Resolve.{Resolved, resolve_path, is_nil}
use pennosgrp.Tree.{valid_perm, k_chmod}
use pennosgrp.Tree.Guards.{passed, with_fs-success}

-- When k_chmod succeeds, the permission was one that VALID_PERM takes; the entry that the path led to has
-- the new permission and the time of the call, and is otherwise as before, as are the other entries of its
-- block and the tables of open files. The entry fits its 64 bytes, its block lies beside the FAT and could
-- be read as a whole, and the time fits 64 bits.
pub k_chmod_lem :
    (now cwd : ℕ) (s s' : State) (path : List ℕ) (perm : ℕ) (r : Resolved) (i j : ℕ)
    (bytes : List ℕ)
    → resolve_path s.fs now cwd path ≡ ok (success, r)
    → r.entry_index ≡ pos i
    → in_fat s.fs r.entry_block ≡ false
    → read_block s.fs r.entry_block ≡ some bytes
    → length bytes ≡ s.fs.block_size
    → IsEntry r.entry
    → now < 2 ^ 64
    → j < s.fs.block_size / 64
    → k_chmod now cwd s path perm ≡ ok (s', success)
    → (valid_perm perm ≡ true)
      × (read_dirent s'.fs r.entry_block (pos j) ≡ (
        success,
        some (if i == j then record r.entry { perm = perm; mtime = now } else entry_at bytes j),
      ))
      × (s' ≡ record s { fs = s'.fs })
unfolding k_chmod
k_chmod_lem now cwd s s' path perm r i j bytes resolves place beside reads size is time small runs =
    let (_, after_mount) = passed (not s.mounted) s s' _ _ refl runs in
    let (usable, after_path) =
      passed (is_nil path || not (valid_perm perm)) s s' _ _ refl after_mount in
    let (_, writes) = passed (not r.found || r.is_root) s s' _ _ refl (rw resolves at after_path) in
    let (written, same) = with_fs-success s s' _ writes in
    (
      ground (arith, usable),
      write-read_dirent s.fs s'.fs r.entry_block i j bytes
          (record r.entry { perm = perm; mtime = now })
          (record {
            name = is.name;
            size = is.size;
            first_block = is.first_block;
            mtime = time;
            reserved = is.reserved;
          })
          beside reads size small (rw place at written),
      same,
    )
