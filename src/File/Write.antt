-- ===== src/File/Write.antt =====
-- k_write of src/internal/pennfat_kernel.c, inside the blocks that a file's chain has.
use native.Mathlib.Nat.{mod-lt}
use pennosgrp.Prelude.{
  ℕ, suc, ◌+◌, ◌-◌, ◌*◌, ◌/◌, ◌%◌, ◌^◌, min, ◌<◌, ◌≤◌, ◌≡◌, refl, ap, sym, ◌∙◌, true, false, ◌&&◌,
  none, some, List, [], arith, length, get_or, take, drop, leb, ltb, ◌==◌, if◌then◌else◌,
  Bool-cases, inl, inr, length-take, ok,
}
use pennosgrp.Bytes.{splice, length-splice, get_or-splice}
use pennosgrp.Fat.{Fs, in_fat, read_block, write_block, update}
use pennosgrp.Fat.Region.{read_beside, write_beside}
use pennosgrp.Fat.Chain.{get_or-distinct}
use pennosgrp.File.{Writing, advance, write_target, write_loop}
use pennosgrp.File.Bytewise.{
  HasFile, block_bytes, block_bytes_lem, byte_at, locate_inside, read_at, div-lt, block_window,
  block_distance,
}

-- A file whose blocks lie beside the FAT.
pub record IsBeside (g : Fs) (first : ℕ) (xs : List ℕ) : Type 0 where
  pub chain : HasFile g first xs
  pub out : (i : ℕ) → i < length xs → in_fat g (get_or xs i 0) ≡ false

-- A block of the chain, rewritten.
abbrev rewrite : Fs → ℕ → List ℕ → Fs
rewrite g b bytes = record g { blocks = update g.blocks b (some bytes) }

module _ (g : Fs) (first : ℕ) (xs : List ℕ) (beside : IsBeside g first xs) (i : ℕ)
    (inside : i < length xs) (bytes : List ℕ) (len : length bytes ≡ g.block_size) where
  has : HasFile g first xs
  has = beside.chain

  write_block_inside : write_block g (get_or xs i 0) bytes ≡ some (rewrite g (get_or xs i 0) bytes)
  write_block_inside =
      write_beside g (get_or xs i 0) bytes (beside.out i inside)
      ∙ rw (has.is_open, has.writable i inside) refl

  read_new :
      (j : ℕ)
      → j < length xs
      → (get_or xs j 0 == get_or xs i 0) ≡ true
      → read_block (rewrite g (get_or xs i 0) bytes) (get_or xs j 0) ≡ some bytes
  read_new j h same =
      read_beside (rewrite g (get_or xs i 0) bytes) (get_or xs j 0) (beside.out j h)
      ∙ rw (has.is_open, same) refl

  read_old :
      (j : ℕ)
      → j < length xs
      → (get_or xs j 0 == get_or xs i 0) ≡ false
      → read_block (rewrite g (get_or xs i 0) bytes) (get_or xs j 0) ≡ read_block g (get_or xs j 0)
  read_old j h other =
      read_beside (rewrite g (get_or xs i 0) bytes) (get_or xs j 0) (beside.out j h)
      ∙ rw other refl
      ∙ sym (read_beside g (get_or xs j 0) (beside.out j h))

  rewrite-HasFile : HasFile (rewrite g (get_or xs i 0) bytes) first xs
  rewrite-HasFile = record {
    links = has.links;
    size = has.size;
    readable = λ j h. elim (Bool-cases (get_or xs j 0 == get_or xs i 0)) [
      | inl same ↦ (bytes, read_new j h same, len)
      | inr other ↦
          let (old, reads, old_len) = has.readable j h in (old, read_old j h other ∙ reads, old_len)
    ];
    writable = has.writable;
    is_open = has.is_open;
  }

  rewrite-IsBeside : IsBeside (rewrite g (get_or xs i 0) bytes) first xs
  rewrite-IsBeside = record { chain = rewrite-HasFile; out = beside.out }

  -- The bytes of the file after the block is rewritten.
  byte_at-rewrite :
      (k : ℕ)
      → k / g.block_size < length xs
      → byte_at (rewrite g (get_or xs i 0) bytes) xs k
        ≡ (if k / g.block_size == i then get_or bytes (k % g.block_size) 0 else byte_at g xs k)
  unfolding byte_at block_bytes
  byte_at-rewrite k h = elim (Bool-cases (k / g.block_size == i)) [
    | inl same ↦
        let e : k / g.block_size ≡ i = ground arith in
        rw (same, e) (ap (λ t. get_or t (k % g.block_size) 0) (rewritten i inside (ground arith)))
    | inr other ↦ rw other (
        ap (λ t. get_or t (k % g.block_size) 0)
          (kept (k / g.block_size) h (ground (arith, apart (k / g.block_size) h))))
  ]
    where
      b : ℕ
      b = get_or xs i 0

      apart : (j : ℕ) → j < length xs → get_or xs j 0 ≡ get_or xs i 0 → j ≡ i
      apart j h e = get_or-distinct g.fat first xs j i has.links h inside e

      rewritten :
          (j : ℕ)
          → j < length xs
          → (get_or xs j 0 == b) ≡ true
          → block_bytes (rewrite g b bytes) (get_or xs j 0) ≡ bytes
      rewritten j h e = block_bytes_lem (rewrite g b bytes) (get_or xs j 0) bytes (read_new j h e)

      kept :
          (j : ℕ)
          → j < length xs
          → (get_or xs j 0 == b) ≡ false
          → block_bytes (rewrite g b bytes) (get_or xs j 0) ≡ block_bytes g (get_or xs j 0)
      kept j h e = ap (λ r. elim r [ none ↦ [] | some bytes ↦ bytes ]) (read_old j h e)

-- What a write of `bytes` inside the chain `xs` leaves.
pub record Wrote (w w' : Writing) (bytes : List ℕ) (xs : List ℕ) : Type 0 where
  pub has : IsBeside w'.fs w.file.first_block xs
  pub first_block : w'.file.first_block ≡ w.file.first_block
  pub fat : w'.fs.fat ≡ w.fs.fat
  pub block_size : w'.fs.block_size ≡ w.fs.block_size
  pub offset : w'.offset ≡ w.offset + length bytes
  pub written : w'.written ≡ w.written + length bytes
  pub size : w'.file.size ≡ (
      if length bytes == 0
      then w.file.size
      else if ltb w.file.size (w.offset + length bytes)
      then w.offset + length bytes
      else w.file.size)
  pub contents :
      (k : ℕ)
      → k < w.fs.block_size * length xs
      → byte_at w'.fs xs k ≡ (
          if leb w.offset k && ltb k (w.offset + length bytes)
          then get_or bytes (k - w.offset) 0
          else byte_at w.fs xs k)

-- A byte in the block of an offset.
byte_in_block :
    (g : Fs) (xs : List ℕ) (off k : ℕ) (block : List ℕ)
    → read_block g (get_or xs (off / g.block_size) 0) ≡ some block
    → k / g.block_size ≡ off / g.block_size
    → byte_at g xs k ≡ get_or block (k % g.block_size) 0
unfolding byte_at
byte_in_block g xs off k block reads same =
    rw (same, block_bytes_lem g (get_or xs (off / g.block_size) 0) block reads) refl

-- One round of the loop.
module _ (now : ℕ) (w : Writing) (xs bytes : List ℕ) (beside : IsBeside w.fs w.file.first_block xs)
    (some_left : 0 < length bytes) (within : w.offset + length bytes ≤ w.fs.block_size * length xs)
    (small : w.fs.block_size * length xs < 2 ^ 32) where
  chunk_size : ℕ
  chunk_size = min (w.fs.block_size - w.offset % w.fs.block_size) (length bytes)

  inside : w.offset / w.fs.block_size < length xs
  inside = div-lt w.offset w.fs.block_size (length xs) (omega arith)

  chunk_bounds :
      (0 < chunk_size)
      × (chunk_size ≤ length bytes)
      × (w.offset % w.fs.block_size + chunk_size ≤ w.fs.block_size)
  unfolding chunk_size
  chunk_bounds = omega (arith, mod-lt w.offset beside.chain.size)

  target_inside :
      write_target w.fs w.file.first_block w.offset
      ≡ ok (some (get_or xs (w.offset / w.fs.block_size) 0, w.offset % w.fs.block_size, w.fs))
  unfolding write_target
  target_inside =
      rw (locate_inside w.fs w.file.first_block xs w.offset beside.chain.links inside, write_target)
        refl

  -- The state after the round.
  after : List ℕ → Writing
  after block =
      advance now w
        (rewrite w.fs (get_or xs (w.offset / w.fs.block_size) 0)
          (splice (w.offset % w.fs.block_size) (take chunk_size bytes) block))
        chunk_size

  round_lem :
      (f : ℕ)
      → (block : List ℕ) × (length block ≡ w.fs.block_size)
        × (write_loop (suc f) now w bytes ≡ write_loop f now (after block) (drop chunk_size bytes))
        × Wrote w (after block) (take chunk_size bytes) xs
  unfolding write_loop after chunk_size
  round_lem f =
      let (block, reads, len, byte) =
        read_at w.fs w.file.first_block xs w.offset beside.chain inside in
      let bs : ℕ = w.fs.block_size in
      let i : ℕ = w.offset / bs in
      let o : ℕ = w.offset % bs in
      let part : List ℕ = take chunk_size bytes in
      let new : List ℕ = splice o part block in
      let part_len : length part ≡ chunk_size = length-take chunk_size bytes chunk_bounds.1 in
      let fits : o + length part ≤ length block = omega (arith, chunk_bounds) in
      let new_len : length new ≡ bs = length-splice o part block fits ∙ len in
      let wraps : (w.offset + chunk_size) % 2 ^ 32 ≡ w.offset + chunk_size =
        omega (arith, chunk_bounds) in
      (
        block,
        len,
        ground (
          arith,
          target_inside,
          reads,
          write_block_inside w.fs w.file.first_block xs beside i inside new new_len,
        ),
        record {
          has = rewrite-IsBeside w.fs w.file.first_block xs beside i inside new new_len;
          first_block = ground arith;
          fat = refl;
          block_size = refl;
          offset = wraps ∙ ap (λ n. w.offset + n) (sym part_len);
          written = ap (λ n. w.written + n) (sym part_len);
          size = rw (wraps, part_len) (ground (arith, chunk_bounds));
          contents = λ k h.
              byte_at-rewrite w.fs w.file.first_block xs beside i inside new new_len k
                (div-lt k bs (length xs) h)
              ∙ ground (
                arith,
                chunk_bounds,
                part_len,
                block_window w.offset k bs chunk_size beside.chain.size chunk_bounds.2,
                block_distance w.offset k bs,
                get_or-splice o part block (k % bs) fits,
                byte_in_block w.fs xs w.offset k block reads,
                moved part (k % bs - o) (k - w.offset),
              );
        },
      )
    where
      nonzero : (length bytes == 0) ≡ false
      nonzero = ground arith

      moved : (t : List ℕ) (a b : ℕ) → a ≡ b → get_or t a 0 ≡ get_or t b 0
      moved t a b e = ap (λ n. get_or t n 0) e

  -- The round with what the loop's proof needs of it.
  pub round :
      (f : ℕ)
      → (c : ℕ) × (w1 : Writing) × (0 < c)
        × (c ≤ length bytes)
        × (write_loop (suc f) now w bytes ≡ write_loop f now w1 (drop c bytes))
        × Wrote w w1 (take c bytes) xs
  round f =
      let (block, len, steps, wrote) = round_lem f in
      (chunk_size, after block, chunk_bounds.0, chunk_bounds.1, steps, wrote)
