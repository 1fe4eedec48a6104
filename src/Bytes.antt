-- ===== src/Bytes.antt =====
-- Byte strings: memcpy into a block, and little-endian integers of packed C structures.
use pennosgrp.Prelude.{
  ℕ, zero, suc, ◌+◌, ◌-◌, ◌*◌, ◌/◌, ◌%◌, ◌^◌, ◌<◌, ◌≤◌, ◌≡◌, refl, ap, ◌&&◌, List, [], ◌∷◌, ◌++◌,
  arith, length, get_or, take, drop, length-append, length-take, length-drop, get_or-append,
  get_or-take, get_or-drop, ltb, leb, if◌then◌else◌,
}
use native.Mathlib.Nat.{pow-suc}

-- memcpy(block + off, bytes, length bytes)
unfoldable pub splice : ℕ → List ℕ → List ℕ → List ℕ
splice off bytes block = take off block ++ (bytes ++ drop (off + length bytes) block)

pub length-splice :
    (off : ℕ) (bytes block : List ℕ)
    → off + length bytes ≤ length block
    → length (splice off bytes block) ≡ length block
unfolding splice
length-splice off bytes block h = omega (
  arith,
  length-append (take off block) (bytes ++ drop (off + length bytes) block),
  length-append bytes (drop (off + length bytes) block),
  length-take off block (omega arith),
  length-drop (off + length bytes) block,
)

-- The bytes written are there, and every other byte is as before.
pub get_or-splice :
    (off : ℕ) (bytes block : List ℕ) (i : ℕ)
    → off + length bytes ≤ length block
    → get_or (splice off bytes block) i 0 ≡ (
        if leb off i && ltb i (off + length bytes)
        then get_or bytes (i - off) 0
        else get_or block i 0)
unfolding splice
get_or-splice off bytes block i h = ground (
  arith,
  get_or-append (take off block) (bytes ++ drop (off + length bytes) block) i 0,
  get_or-append bytes (drop (off + length bytes) block) (i - off) 0,
  length-take off block (omega arith),
  get_or-take off block i 0,
  get_or-drop (off + length bytes) block (i - off - length bytes) 0,
  same,
)
  where
    same :
        off + length bytes ≤ i
        → get_or block (off + length bytes + (i - off - length bytes)) 0 ≡ get_or block i 0
    same le = ap (λ k. get_or block k 0) (omega arith)

-- Byte strings of one length with the same bytes are equal.
pub list_ext :
    (xs ys : List ℕ)
    → length xs ≡ length ys
    → ((i : ℕ) → i < length xs → get_or xs i 0 ≡ get_or ys i 0)
    → xs ≡ ys
list_ext [] [] len same = refl
list_ext [] (y ∷ ys) len same = absurd (omega arith)
list_ext (x ∷ xs) [] len same = absurd (omega arith)
list_ext (x ∷ xs) (y ∷ ys) len same =
    ground (
      arith,
      same 0 (omega arith),
      list_ext xs ys (omega arith) (λ i h. same (suc i) (omega arith)),
    )

pub take-append : (n : ℕ) (xs ys : List ℕ) → n ≡ length xs → take n (xs ++ ys) ≡ xs
take-append zero [] ys e = refl
take-append zero (x ∷ xs) ys e = absurd (omega arith)
take-append (suc n) [] ys e = absurd (omega arith)
take-append (suc n) (x ∷ xs) ys e = ap (λ t. x ∷ t) (take-append n xs ys (omega arith))

pub take_all : (n : ℕ) (xs : List ℕ) → n ≡ length xs → take n xs ≡ xs
take_all zero [] e = refl
take_all zero (x ∷ xs) e = absurd (omega arith)
take_all (suc n) [] e = refl
take_all (suc n) (x ∷ xs) e = ap (λ t. x ∷ t) (take_all n xs (omega arith))

pub drop-append : (n : ℕ) (xs ys : List ℕ) → n ≡ length xs → drop n (xs ++ ys) ≡ ys
drop-append zero [] ys e = refl
drop-append zero (x ∷ xs) ys e = absurd (omega arith)
drop-append (suc n) [] ys e = absurd (omega arith)
drop-append (suc n) (x ∷ xs) ys e = drop-append n xs ys (omega arith)

-- The n bytes of a number, lowest first, and back.
unfoldable pub le_bytes : ℕ → ℕ → List ℕ
le_bytes zero v = []
le_bytes (suc n) v = (v % 256) ∷ le_bytes n (v / 256)

unfoldable pub from_le : List ℕ → ℕ
from_le [] = 0
from_le (b ∷ bs) = b + 256 * from_le bs

pub length-le_bytes : (n v : ℕ) → length (le_bytes n v) ≡ n
unfolding le_bytes
length-le_bytes zero v = refl
length-le_bytes (suc n) v = ap suc (length-le_bytes n (v / 256))

pub from_le-le_bytes : (n v : ℕ) → v < 256 ^ n → from_le (le_bytes n v) ≡ v
unfolding from_le le_bytes
from_le-le_bytes zero v h = omega arith
from_le-le_bytes (suc n) v h =
    omega (arith, from_le-le_bytes n (v / 256) (omega (arith, h, pow-suc 256 n)))
