-- ===== src/File/Bytewise.antt =====
-- A file as its bytes: byte k stands in block k / block_size of the chain, at k % block_size.
use native.Mathlib.Nat.{div-add-mod, mod-lt, mul-le-mul_left}
use pennosgrp.Prelude.{
  ℕ, ◌+◌, ◌-◌, ◌*◌, ◌/◌, ◌%◌, ◌<◌, ◌≤◌, ◌≡◌, refl, ap, sym, true, ◌&&◌, none, some, List, [], ◌∷◌,
  arith, length, get_or, leb, ltb, ◌==◌, inl, inr, ◌⊎◌,
}
use pennosgrp.Fat.{Fs, read_block, locate_block_in_chain}
use pennosgrp.Fat.Chain.{Links}
use pennosgrp.Fat.Locate.{locate_block_in_chain_lem}

unfoldable pub block_bytes : Fs → ℕ → List ℕ
block_bytes g b = elim (read_block g b) [ none ↦ [] | some bytes ↦ bytes ]

pub block_bytes_lem :
    (g : Fs) (b : ℕ) (bytes : List ℕ) → read_block g b ≡ some bytes → block_bytes g b ≡ bytes
unfolding block_bytes
block_bytes_lem g b bytes reads = rw (reads, block_bytes) refl

unfoldable pub byte_at : Fs → List ℕ → ℕ → ℕ
byte_at g xs k = get_or (block_bytes g (get_or xs (k / g.block_size) 0)) (k % g.block_size) 0

-- The chain `xs` from `first` holds blocks that can be read and written.
pub record HasFile (g : Fs) (first : ℕ) (xs : List ℕ) : Type 0 where
  pub links : Links g.fat first xs
  pub size : 0 < g.block_size
  pub readable :
      (i : ℕ)
      → i < length xs
      → (bytes : List ℕ) × (read_block g (get_or xs i 0) ≡ some bytes)
        × (length bytes ≡ g.block_size)
  pub writable : (i : ℕ) → i < length xs → g.writable (get_or xs i 0) ≡ true
  pub is_open : g.fs_open ≡ true

-- How a range of bytes within one block looks from that block, in quotients and remainders.
window_parts :
    (bs a b r o c off k : ℕ)
    → k ≡ bs * a + r
    → off ≡ bs * b + o
    → r < bs
    → o < bs
    → o + c ≤ bs
    → (leb off k && ltb k (off + c)) ≡ ((a == b) && (leb o r && ltb r (o + c)))
window_parts bs a b r o c off k ek eo hr ho fits = elim (compare_cases a b) [
  | inl below ↦
      let step : bs * (a + 1) ≤ bs * b = mul-le-mul_left bs (omega arith) in
      ground (arith, omega_step bs a b step)
  | inr (inl same) ↦ ground (arith, ap (λ n. bs * n) same)
  | inr (inr above) ↦
      let step : bs * (b + 1) ≤ bs * a = mul-le-mul_left bs (omega arith) in
      ground (arith, omega_step bs b a step)
]
  where
    compare_cases : (a b : ℕ) → (a < b) ⊎ ((a ≡ b) ⊎ (b < a))
    compare_cases a b = omega arith

    omega_step : (bs a b : ℕ) → bs * (a + 1) ≤ bs * b → bs * a + bs ≤ bs * b
    omega_step bs a b h = omega arith

-- The bytes from `off` on, within its block, seen from the block.
pub block_window :
    (off k bs c : ℕ)
    → 0 < bs
    → off % bs + c ≤ bs
    → ((leb off k && ltb k (off + c))
        ≡ ((k / bs == off / bs) && (leb (off % bs) (k % bs) && ltb (k % bs) (off % bs + c))))
block_window off k bs c pos fits =
    window_parts bs (k / bs) (off / bs) (k % bs) (off % bs) c off k (sym (div-add-mod k bs))
      (sym (div-add-mod off bs)) (mod-lt k pos) (mod-lt off pos) fits

-- Within the window, the distance from `off` is the distance in the block.
pub block_distance : (off k bs : ℕ) → k / bs ≡ off / bs → k % bs - off % bs ≡ k - off
block_distance off k bs same =
    omega (arith, div-add-mod k bs, div-add-mod off bs, ap (λ n. bs * n) same)

-- Over a file's chain the block of an offset inside it is found.
pub locate_inside :
    (g : Fs) (first : ℕ) (xs : List ℕ) (offset : ℕ)
    → Links g.fat first xs
    → offset / g.block_size < length xs
    → locate_block_in_chain g first offset
      ≡ some (get_or xs (offset / g.block_size) 0, offset % g.block_size)
locate_inside g first [] offset links inside = absurd (omega arith)
locate_inside g first (x ∷ xs) offset links inside = rw links.0 (
    ground
      (arith, locate_block_in_chain_lem g x xs offset (refl, links.1, links.2, links.3, links.4)))

-- A byte a little further on, in the same block.
pub near_byte :
    (off k bs : ℕ)
    → 0 < bs
    → off % bs + k < bs
    → ((off + k) / bs ≡ off / bs) × ((off + k) % bs ≡ off % bs + k)
near_byte off k bs pos fits =
    let window = block_window off (off + k) bs (k + 1) pos (omega arith) in
    let same : (off + k) / bs ≡ off / bs = ground arith in
    (same, omega (arith, div-add-mod (off + k) bs, div-add-mod off bs, ap (λ n. bs * n) same))

pub div-lt : (off bs n : ℕ) → off < bs * n → off / bs < n
div-lt off bs n h = elim (cases (off / bs) n) [
  | inl below ↦ below
  | inr above ↦
      let step : bs * n ≤ bs * (off / bs) = mul-le-mul_left bs above in
      absurd (omega (arith, div-add-mod off bs))
]
  where
    cases : (a b : ℕ) → (a < b) ⊎ (b ≤ a)
    cases a b = omega arith

-- What reading the block of an offset delivers.
pub read_at :
    (g : Fs) (first : ℕ) (xs : List ℕ) (off : ℕ)
    → HasFile g first xs
    → off / g.block_size < length xs
    → (block : List ℕ) × (read_block g (get_or xs (off / g.block_size) 0) ≡ some block)
      × (length block ≡ g.block_size)
      × ((k : ℕ)
          → off % g.block_size + k < g.block_size
          → byte_at g xs (off + k) ≡ get_or block (off % g.block_size + k) 0)
unfolding byte_at
read_at g first xs off has inside =
    let (block, reads, len) = has.readable (off / g.block_size) inside in
    (
      block,
      reads,
      len,
      λ k h.
          let (same, rest) = near_byte off k g.block_size has.size h in
          rw (same, rest, block_bytes_lem g (get_or xs (off / g.block_size) 0) block reads) refl,
    )
