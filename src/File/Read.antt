-- ===== src/File/Read.antt =====
-- k_read of src/internal/pennfat_kernel.c.
use mathlib.Core.List.{append_assoc, append-nil}
use native.Mathlib.Nat.{add-zero, mod-lt}
use pennosgrp.Prelude.{
  ℕ, zero, suc, ◌+◌, ◌-◌, ◌*◌, ◌/◌, ◌%◌, ◌^◌, min, ◌<◌, ◌≤◌, ◌≡◌, refl, ap, sym, ◌∙◌, true, false,
  some, List, [], ◌++◌, arith, length, get_or, take, drop, leb, ◌==◌, if_false, length-append,
  length-take, length-drop, get_or-append, get_or-take, get_or-drop, pos, ok, not,
}
use pennosgrp.Fat.{Fs}
use pennosgrp.File.{State, file, fd_entry, set_fd, has_bit, open_fd, read_loop, to_read, k_read}
use pennosgrp.File.Bytewise.{HasFile, byte_at, locate_inside, read_at, div-lt}

-- The loop reads what is asked for, when it lies within the chain.
read_loop_lem :
    (f : ℕ) (g : Fs) (first : ℕ) (xs : List ℕ) (off left : ℕ) (out : List ℕ)
    → HasFile g first xs
    → left < f
    → off + left ≤ g.block_size * length xs
    → (new : List ℕ) × (read_loop f g first off left out
        ≡ ok (record { bytes = out ++ new; offset = off + left }))
      × (length new ≡ left)
      × ((k : ℕ) → k < left → get_or new k 0 ≡ byte_at g xs (off + k))
unfolding read_loop
read_loop_lem zero g first xs off left out has enough within = absurd (omega arith)
read_loop_lem (suc f) g first xs off zero out has enough within =
    ([], rw (append-nil, add-zero) refl, refl, λ k h. absurd (omega arith))
read_loop_lem (suc f) g first xs off (suc more) out has enough within =
    let left : ℕ = suc more in
    let bs : ℕ = g.block_size in
    let o : ℕ = off % bs in
    let inside : off / bs < length xs = div-lt off bs (length xs) (omega arith) in
    let (block, reads, len, byte) = read_at g first xs off has inside in
    let small : o < bs = mod-lt off has.size in
    let chunk : ℕ = min (bs - o) left in
    let got : List ℕ = take chunk (drop o block) in
    let got_len : length got ≡ chunk =
      length-take chunk (drop o block) (omega (arith, length-drop o block)) in
    let (new, runs, new_len, new_byte) =
      read_loop_lem f g first xs (off + chunk) (left - chunk) (out ++ got) has (omega arith)
        (omega arith) in
    let total : off + chunk + (left - chunk) ≡ off + left = omega arith in
    (
      got ++ new,
      rw (nonzero more, locate_inside g first xs off has.links inside, reads)
          (runs ∙ rw (total, append_assoc) refl),
      omega (arith, length-append got new),
      λ k h. ground (
        arith,
        get_or-append got new k 0,
        get_or-take chunk (drop o block) k 0,
        get_or-drop o block k 0,
        byte k,
        new_byte (k - chunk),
        shifted chunk k,
      ),
    )
  where
    nonzero : (n : ℕ) → (suc n == 0) ≡ false
    nonzero n = ground arith

    shifted : (c k : ℕ) → c ≤ k → byte_at g xs (off + c + (k - c)) ≡ byte_at g xs (off + k)
    shifted c k h = ap (byte_at g xs) (omega arith)

-- A descriptor that is open, for the file of a chain that holds the file's whole size.
pub record IsOpen (s : State) (n : ℕ) (xs : List ℕ) : Type 0 where
  pub mounted : s.mounted ≡ true
  pub in_range : n < 32
  pub in_use : (fd_entry s n).in_use ≡ true
  pub chain : HasFile s.fs (file s (fd_entry s n).sysfile_index).first_block xs
  pub holds : (file s (fd_entry s n).sysfile_index).size ≤ s.fs.block_size * length xs
  pub small : (file s (fd_entry s n).sysfile_index).size < 2 ^ 31

-- k_read, once its tests have passed and its loop has run.
k_read_runs :
    (s : State) (fd n left off : ℕ) (new : List ℕ)
    → s.mounted ≡ true
    → open_fd s (pos fd) ≡ some fd
    → has_bit 2 (fd_entry s fd).mode ≡ false
    → leb (file s (fd_entry s fd).sysfile_index).size (fd_entry s fd).offset ≡ false
    → to_read (pos n) ((file s (fd_entry s fd).sysfile_index).size - (fd_entry s fd).offset) ≡ left
    → read_loop
        (left + 1)
        s.fs
        (file s (fd_entry s fd).sysfile_index).first_block
        (fd_entry s fd).offset
        left
        []
      ≡ ok (record { bytes = new; offset = off })
    → k_read s (pos fd) (pos n)
      ≡ ok (set_fd s fd (record (fd_entry s fd) { offset = off }), pos (length new), new)
unfolding k_read
k_read_runs s fd n left off new mounted opened readable before count runs =
    if_false (not s.mounted) _ _ (ground (arith, mounted))
    ∙ rw (opened, k_read)
        (if_false _ _ _ readable ∙ (if_false _ _ _ before ∙ rw (count, runs) refl))

pub k_read_lem :
    (s : State) (fd n : ℕ) (xs : List ℕ)
    → IsOpen s fd xs
    → has_bit 2 (fd_entry s fd).mode ≡ false
    → (fd_entry s fd).offset < (file s (fd_entry s fd).sysfile_index).size
    → let d = fd_entry s fd in
      let f = file s d.sysfile_index in
      (new : List ℕ) × (k_read s (pos fd) (pos n)
        ≡ ok (set_fd s fd (record d { offset = d.offset + length new }), pos (length new), new))
      × (length new ≡ min n (f.size - d.offset))
      × ((k : ℕ) → k < length new → get_or new k 0 ≡ byte_at s.fs xs (d.offset + k))
unfolding k_read
k_read_lem s fd n xs is readable inside =
    let d = fd_entry s fd in
    let f = file s d.sysfile_index in
    let left : ℕ = min n (f.size - d.offset) in
    let count : to_read (pos n) (f.size - d.offset) ≡ left =
      counted n (f.size - d.offset) (omega (arith, is.small)) in
    let (new, runs, len, bytes) =
      read_loop_lem (left + 1) s.fs f.first_block xs d.offset left [] is.chain (omega arith)
        (omega (arith, is.holds)) in
    let opened : open_fd s (pos fd) ≡ some fd = ground (arith, is.in_range, is.in_use) in
    let before : leb f.size d.offset ≡ false = ground arith in
    (
      new,
      k_read_runs s fd n left (d.offset + left) new is.mounted opened readable before count runs
          ∙ ap (λ t. ok (set_fd s fd (record d { offset = d.offset + t }), pos (length new), new))
              (sym len),
      len,
      λ k h. bytes k (omega arith),
    )
  where
    counted : (n left : ℕ) → left < 2 ^ 31 → to_read (pos n) left ≡ min n left
    counted n left h = ground arith
