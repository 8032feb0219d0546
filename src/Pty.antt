-- ===== src/Pty.antt =====
-- kernel/pty.c: eight pseudo-terminals, each with a ring for either direction. What the slave
-- writes goes through `m2s` and what the master writes through `s2m`, as the code has it.
-- Nothing takes a lock or waits, so calls are steps in a sequence.
pub mod Devices
pub mod Streams
pub mod Slots
mod Examples
use shadow_box_os.Common.{
  ℕ, zero, suc, ◌+◌, ◌/◌, ◌%◌, Bool, true, false, Option, none, some, List, [], ◌∷◌, ◌++◌,
  get_elem?, set, replicate, ltb, ◌==◌, if◌then◌else◌,
}
use shadow_box_os.Common.Int.{ℤ, pos, negsuc}
use shadow_box_os.Ring.{Ring, fill, drain}

abbrev pub pty_max : ℕ
pty_max = 8

abbrev pub pty_buf_size : ℕ
pty_buf_size = 4096

-- `pty_device_t`. `name` is the text before its terminator. The two descriptors are -1 from
-- pty_subsystem_init on, and no function writes anything else to them, so they are left out.
pub record Device : Type 0 where
  pub name : List ℕ
  pub m2s : Ring ℕ
  pub s2m : Ring ℕ

-- `pty_devices` and `pty_count`.
pub record Pty : Type 0 where
  pub devices : List Device
  pub count : ℕ

-- Both indices go to 0; the bytes stay.
abbrev pub reset : Ring ℕ → Ring ℕ
reset r = record r { head = 0; tail = 0 }

init_devices : List Device → List Device
init_devices [] = []
init_devices (d ∷ ds) = record { name = []; m2s = reset d.m2s; s2m = reset d.s2m } ∷ init_devices ds

unfoldable pub subsystem_init : Pty → Pty
unfolding init_devices
subsystem_init t = record { devices = init_devices t.devices; count = 0 }

-- `_buf` is filled from the low digit and copied backwards. Twelve rounds are enough for an int.
digits : ℕ → ℕ → List ℕ → List ℕ
digits zero n acc = acc
digits (suc fuel) n acc =
    let acc' = (48 + n % 10) ∷ acc in
    elim (n / 10 == 0) [ true ↦ acc' | false ↦ digits fuel (n / 10) acc' ]

unfoldable pub device_name : ℕ → List ℕ
unfolding digits
device_name idx = b'p' ∷ b't' ∷ b'y' ∷ digits 12 idx []

abbrev pub created : ℕ → Device → Device
created idx d = record { name = device_name idx; m2s = reset d.m2s; s2m = reset d.s2m }

-- `pty_devices[i] = f(pty_devices[i])`
pub update : (Device → Device) → ℕ → List Device → List Device
update f i [] = []
update f zero (d ∷ ds) = f d ∷ ds
update f (suc i) (d ∷ ds) = d ∷ update f i ds

-- `none` is the return value -1.
unfoldable pub create : Pty → Option ℕ × Pty
create t =
    if ltb t.count pty_max
    then (
      some t.count,
      record { devices = update (created t.count) t.count t.devices; count = t.count + 1 },
    )
    else (none, t)

abbrev at : ℕ → Option Device → Option (ℕ × Device)
at i none = none
at i (some d) = some (i, d)

-- The device that an index stands for, if it is in range.
unfoldable pub find : Pty → ℤ → Option (ℕ × Device)
find t (negsuc i) = none
find t (pos i) = if ltb i t.count then at i (get_elem? t.devices i) else none

-- Slave side. The count of bytes that went in; `none` is the return value -1.
unfoldable pub write : Pty → ℤ → List ℕ → Option ℕ × Pty
write t idx bytes = elim (find t idx) [
  | none ↦ (none, t)
  | some (i, dev) ↦
      let (n, r) = fill pty_buf_size dev.m2s bytes in
      (some n, record t { devices = set t.devices i (record dev { m2s = r }) })
]

-- Slave side. The bytes taken, at most `len`.
unfoldable pub read : Pty → ℤ → ℕ → Option (List ℕ) × Pty
read t idx len = elim (find t idx) [
  | none ↦ (none, t)
  | some (i, dev) ↦
      let (bytes, r) = drain 0 pty_buf_size len dev.s2m in
      (some bytes, record t { devices = set t.devices i (record dev { s2m = r }) })
]

unfoldable pub master_write : Pty → ℤ → List ℕ → Option ℕ × Pty
master_write t idx bytes = elim (find t idx) [
  | none ↦ (none, t)
  | some (i, dev) ↦
      let (n, r) = fill pty_buf_size dev.s2m bytes in
      (some n, record t { devices = set t.devices i (record dev { s2m = r }) })
]

unfoldable pub master_read : Pty → ℤ → ℕ → Option (List ℕ) × Pty
master_read t idx len = elim (find t idx) [
  | none ↦ (none, t)
  | some (i, dev) ↦
      let (bytes, r) = drain 0 pty_buf_size len dev.m2s in
      (some bytes, record t { devices = set t.devices i (record dev { m2s = r }) })
]

abbrev or_nothing : Option (List ℕ) → List ℕ
or_nothing none = []
or_nothing (some bytes) = bytes

abbrev or_zero : Option ℕ → ℕ
or_zero none = 0
or_zero (some n) = n

-- The VFS wrappers report a bad index as 0 bytes.
unfoldable pub vfs_read : Pty → ℤ → ℕ → List ℕ × Pty
vfs_read t idx size = let (bytes, t') = read t idx size in (or_nothing bytes, t')

unfoldable pub vfs_write : Pty → ℤ → List ℕ → ℕ × Pty
vfs_write t idx bytes = let (n, t') = write t idx bytes in (or_zero n, t')

-- The name is emptied and both rings too; the count stays, so the slot is not given out again.
unfoldable pub destroy : Pty → ℤ → Pty
destroy t idx = elim (find t idx) [
  | none ↦ t
  | some (i, dev) ↦
      let emptied : Device = record { name = []; m2s = reset dev.m2s; s2m = reset dev.s2m } in
      record t { devices = set t.devices i emptied }
]
