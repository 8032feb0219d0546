-- ===== src/Kstring/Blocks.antt =====
-- lib/kstring.c: what memmove, memcpy, memset and memcmp do to blocks of memory.
use shadow_box_os.Common.{
  ℕ, zero, suc, ◌+◌, ◌-◌, ◌≤◌, ◌<◌, ◌≡◌, ◌⊎◌, inl, inr, ◌↔◌, refl, ap, fun_ext, ◌&&◌, ltb, leb,
  if◌then◌else◌, arith, Bool-cases,
}
use shadow_box_os.Common.Int.{pos}
use shadow_box_os.Kstring.{
  Memory, put, copy_up, copy_down, memcpy, memmove, memset_from, memcmp_from, memcmp,
}

-- The bytes from address `d` on, `n` of them, are those that `m` has from `s` on.
abbrev pub block_copied : Memory → ℕ → ℕ → ℕ → Memory
block_copied m d s n x = if leb d x && ltb x (d + n) then m (s + (x - d)) else m x

copy_up_lem :
    (left : ℕ) (m : Memory) (d s i x : ℕ)
    → (d ≤ s) ⊎ (s + i + left ≤ d + i)
    → copy_up left m d s i x
      ≡ (if leb (d + i) x && ltb x (d + i + left) then m (s + (x - d)) else m x)
unfolding copy_up
copy_up_lem zero m d s i x h = ground arith
copy_up_lem (suc left) m d s i x h =
    ground (arith, copy_up_lem left (put m (d + i) (m (s + i))) d s (i + 1) x, same)
  where
    same : (x ≡ d + i) → m (s + (x - d)) ≡ m (s + i)
    same e = let e' : s + (x - d) ≡ s + i = omega arith in ap m e'

copy_down_lem :
    (left : ℕ) (m : Memory) (d s x : ℕ) → s ≤ d → copy_down left m d s x ≡ block_copied m d s left x
unfolding copy_down
copy_down_lem zero m d s x h = ground arith
copy_down_lem (suc left) m d s x h =
    ground (arith, copy_down_lem left (put m (d + left) (m (s + left))) d s x h, same)
  where
    same : (x ≡ d + left) → m (s + (x - d)) ≡ m (s + left)
    same e = let e' : s + (x - d) ≡ s + left = omega arith in ap m e'

-- memmove puts the bytes that the source block held into the destination block and changes no other
-- byte, however the two blocks overlap.
pub memmove_lem : (m : Memory) (d s n x : ℕ) → memmove m d s n x ≡ block_copied m d s n x
unfolding memmove
memmove_lem m d s n x = elim (Bool-cases (ltb d s)) [
  | inl before ↦ rw before (ground (arith, copy_up_lem n m d s 0 x, before))
  | inr after ↦ rw after (copy_down_lem n m d s x (ground arith))
]

-- If the destination starts at or before the source, or at or after its end, memcpy gives the same
-- memory as memmove.
pub memcpy-eq-memmove :
    (m : Memory) (d s n : ℕ) → (d ≤ s) ⊎ (s + n ≤ d) → memcpy m d s n ≡ memmove m d s n
memcpy-eq-memmove m d s n h =
    fun_ext λ x. ground (arith, copy_up_lem n m d s 0 x, memmove_lem m d s n x)

pub memset_from_lem :
    (left : ℕ) (m : Memory) (d v i x : ℕ)
    → memset_from left m d v i x ≡ (if leb (d + i) x && ltb x (d + i + left) then v else m x)
unfolding memset_from
memset_from_lem zero m d v i x = ground arith
memset_from_lem (suc left) m d v i x =
    ground (arith, memset_from_lem left (put m (d + i) v) d v (i + 1) x)

memcmp_same :
    (left : ℕ) (m : Memory) (a b i : ℕ)
    → ((k : ℕ) → i ≤ k → k < i + left → m (a + k) ≡ m (b + k))
    → memcmp_from left m a b i ≡ pos 0
unfolding memcmp_from
memcmp_same zero m a b i h = refl
memcmp_same (suc left) m a b i h =
    ground (arith, h i (omega arith) (omega arith), memcmp_same left m a b (i + 1) later)
  where
    later : (k : ℕ) → i + 1 ≤ k → k < i + 1 + left → m (a + k) ≡ m (b + k)
    later k lo hi = h k (omega arith) (omega arith)

memcmp_zero :
    (left : ℕ) (m : Memory) (a b i k : ℕ)
    → memcmp_from left m a b i ≡ pos 0
    → i ≤ k
    → k < i + left
    → m (a + k) ≡ m (b + k)
unfolding memcmp_from
memcmp_zero zero m a b i k e lo hi = absurd (omega arith)
memcmp_zero (suc left) m a b i k e lo hi = ground (arith, memcmp_zero left m a b (i + 1) k, here)
  where
    here : i ≡ k → m (a + i) ≡ m (b + i) → m (a + k) ≡ m (b + k)
    here p = rw p (λ q. q)

-- memcmp of two blocks answers 0 exactly when they hold the same bytes.
pub memcmp_lem :
    (m : Memory) (a b len : ℕ)
    → (memcmp m a b len ≡ pos 0) ↔ ((k : ℕ) → k < len → m (a + k) ≡ m (b + k))
memcmp_lem m a b len = (
  λ e k h. memcmp_zero len m a b 0 k e (omega arith) (omega arith),
  λ h. memcmp_same len m a b 0 (λ k lo hi. h k (omega arith)),
)
