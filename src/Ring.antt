-- ===== src/Ring.antt =====
-- A ring of `size` slots with one slot left empty, the shape that kernel/input.c, the pipes of
-- kernel/ipc.c, kernel/pty.c and net/socket.c share: an item is stored at the head, taken at the
-- tail, and both indices go round at `size`. The clients keep the ring in a field of their state
-- and write their loops over `full`, `store` and `advance`.
pub mod Invariant
pub mod Refine
pub mod Loops
use shadow_box_os.Common.{
  ℕ, ◌+◌, ◌-◌, ◌%◌, Bool, List, [], ◌∷◌, zero, suc, true, false, get_or, set, ◌==◌, tabulate,
}

-- `head` is where the next item goes, `tail` where the oldest one is.
pub record Ring {ℓ} (A : Type ℓ) : Type ℓ where
  pub cells : List A
  pub head : ℕ
  pub tail : ℕ

-- The index after `i`.
abbrev pub next : ℕ → ℕ → ℕ
next size i = (i + 1) % size

module _ {ℓ} {A : Type ℓ} where
  abbrev pub full : ℕ → Ring A → Bool
  full size r = next size r.head == r.tail

  abbrev pub store : ℕ → Ring A → A → Ring A
  store size r x = record r { cells = set r.cells r.head x; head = next size r.head }

  abbrev pub advance : ℕ → Ring A → Ring A
  advance size r = record r { tail = next size r.tail }

  abbrev pub empty : Ring A → Bool
  empty r = r.tail == r.head

  -- The item at the tail; `d` is what a read out of the cells would yield.
  abbrev pub oldest : A → Ring A → A
  oldest d r = get_or r.cells r.tail d

  -- The write loop: store the items in order until they are all in or the ring is full.
  -- Returns how many went in.
  unfoldable pub fill : ℕ → Ring A → List A → ℕ × Ring A
  fill size r [] = (0, r)
  fill size r (x ∷ xs) = elim (full size r) [
    | true ↦ (0, r)
    | false ↦ let (n, r') = fill size (store size r x) xs in (n + 1, r')
  ]

  -- The read loop: take at most `n` items, until the ring is empty.
  unfoldable pub drain : A → ℕ → ℕ → Ring A → List A × Ring A
  drain d size zero r = ([], r)
  drain d size (suc n) r = elim (empty r) [
    | true ↦ ([], r)
    | false ↦ let (xs, r') = drain d size n (advance size r) in (oldest d r ∷ xs, r')
  ]

  -- How many items the ring holds.
  abbrev pub count : ℕ → Ring A → ℕ
  count size r = (r.head + size - r.tail) % size

  -- The `k`th oldest item.
  abbrev pub item : A → ℕ → Ring A → ℕ → A
  item d size r k = get_or r.cells ((r.tail + k) % size) d

  -- The items, oldest first.
  pub contents : A → ℕ → Ring A → List A
  contents d size r = tabulate (count size r) (item d size r)
