-- ===== src/Fat/Region.antt =====
-- The blocks beside the FAT and the blocks of the FAT (src/internal/pennfat_kernel.c).
use pennosgrp.Prelude.{ℕ, ◌≤◌, ◌≡◌, ◌≢◌, refl, false, ◌&&◌, none, some, List, arith, if◌then◌else◌}
use pennosgrp.Fat.{Fs, update, in_fat, read_block, write_block}

-- With a FAT of one block, every other block lies beside it.
pub beside_fat : (g : Fs) (b : ℕ) → g.fat_block_count ≤ 1 → b ≢ 0 → in_fat g b ≡ false
beside_fat g b one ne = ground arith

-- Beside the FAT, reads and writes are those of the blocks.
pub read_beside :
    (g : Fs) (b : ℕ)
    → in_fat g b ≡ false
    → read_block g b ≡ (if g.fs_open then g.blocks b else none)
unfolding read_block
read_beside g b out = rw out refl

pub write_beside :
    (g : Fs) (b : ℕ) (bytes : List ℕ)
    → in_fat g b ≡ false
    → write_block g b bytes ≡ (
        if g.fs_open && g.writable b
        then some (record g { blocks = update g.blocks b (some bytes) })
        else none)
unfolding write_block
write_beside g b bytes out = rw out refl
