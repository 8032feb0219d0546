-- ===== src/Security.antt =====
-- kernel/security.c: capability sets and security contexts.
pub mod Sets
pub mod Log
pub mod Sandboxes
pub mod Modules
pub mod Checks
mod Examples
use shadow_box_os.Common.Bits.{complement}
use shadow_box_os.Common.Errno.{Result, ok, err, einval, enomem, enoent, eperm, eacces}
use shadow_box_os.Common.Int.{ℤ, pos, negsuc}
use shadow_box_os.Common.{
  ℕ, zero, suc, ◌+◌, ◌-◌, ◌%◌, ◌^◌, bit_and, bit_or, Bool, true, false, not, ◌&&◌, ◌||◌, Option,
  none, some, List, [], ◌∷◌, ◌++◌, length, set, get_or, get_elem?, take, tabulate, replicate, min,
  ltb, leb, ◌==◌, if◌then◌else◌,
}

-- The last capability.
abbrev pub cap_last_cap : ℕ
cap_last_cap = 40

abbrev pub cap_kill : ℕ
cap_kill = 5

abbrev pub all_ones : ℕ
all_ones = 2 ^ 32 - 1

pub record Caps : Type 0 where
  pub low : ℕ
  pub high : ℕ

unfoldable pub cap_valid : ℤ → Bool
cap_valid (pos c) = leb c cap_last_cap
cap_valid (negsuc c) = false

-- One word for each half of the set.
abbrev pub in_word : Caps → ℕ → (ℕ → ℕ → ℕ) → Caps
in_word s c f =
    if ltb c 32 then record s { low = f s.low c } else record s { high = f s.high (c - 32) }

abbrev pub word_of : Caps → ℕ → ℕ
word_of s c = if ltb c 32 then bit_and s.low (2 ^ c) else bit_and s.high (2 ^ (c - 32))

-- `none` is -EINVAL.
unfoldable pub cap_raise : Caps → ℤ → Option Caps
unfolding cap_valid
cap_raise s (negsuc c) = none
cap_raise s (pos c) =
    if cap_valid (pos c) then some (in_word s c (λ w k. bit_or w (2 ^ k))) else none

unfoldable pub cap_lower : Caps → ℤ → Option Caps
unfolding cap_valid
cap_lower s (negsuc c) = none
cap_lower s (pos c) =
    if cap_valid (pos c)
    then some (in_word s c (λ w k. bit_and w (complement 32 (2 ^ k))))
    else none

unfoldable pub cap_isclear : Caps → ℤ → Bool
unfolding cap_valid
cap_isclear s (negsuc c) = true
cap_isclear s (pos c) = if cap_valid (pos c) then word_of s c == 0 else true

unfoldable pub cap_isfull : Caps → Bool
cap_isfull s = (s.low == all_ones) && (s.high == all_ones)

abbrev pub cap_clear : Caps
cap_clear = record { low = 0; high = 0 }

abbrev pub cap_set_full : Caps
cap_set_full = record { low = all_ones; high = all_ones }

unfoldable pub cap_and : Caps → Caps → Caps
cap_and a b = record { low = bit_and a.low b.low; high = bit_and a.high b.high }

unfoldable pub cap_or : Caps → Caps → Caps
cap_or a b = record { low = bit_or a.low b.low; high = bit_or a.high b.high }

pub record Context : Type 0 where
  pub uid : ℕ
  pub gid : ℕ
  pub euid : ℕ
  pub egid : ℕ
  pub suid : ℕ
  pub sgid : ℕ
  pub fsuid : ℕ
  pub fsgid : ℕ
  pub cap_inheritable : Caps
  pub cap_permitted : Caps
  pub cap_effective : Caps
  pub cap_bset : Caps
  pub cap_ambient : Caps

unfoldable pub context_init : Context
context_init = record {
  uid = 0;
  gid = 0;
  euid = 0;
  egid = 0;
  suid = 0;
  sgid = 0;
  fsuid = 0;
  fsgid = 0;
  cap_inheritable = cap_clear;
  cap_permitted = cap_clear;
  cap_effective = cap_clear;
  cap_bset = cap_clear;
  cap_ambient = cap_clear;
}

unfoldable pub has_cap : Context → ℤ → Bool
unfolding cap_valid
has_cap x (negsuc c) = false
has_cap x (pos c) = cap_valid (pos c) && not (word_of x.cap_effective c == 0)
