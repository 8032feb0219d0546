-- ===== src/Pty/Devices.antt =====
-- The table of pseudo-terminals: what every call keeps, who gets a slot, and whom a call touches.
use shadow_box_os.Common.{
  ℕ, zero, suc, ◌+◌, ◌≤◌, ◌<◌, ◌≡◌, ◌≢◌, ◌⊎◌, inl, inr, refl, ap, ◌∙◌, none, some, List, [], ◌∷◌,
  arith, length, get_elem?, set, length-set, All, All-set, All-get_elem?, get_elem?_lt,
  get_elem?-set_self, get_elem?-set_ne, Option-cases, Bool-cases, ltb,
}
use shadow_box_os.Common.Int.{ℤ, pos, negsuc}
use shadow_box_os.Ring.{Ring}
use shadow_box_os.Ring.Invariant.{IsValid}
use shadow_box_os.Ring.Loops.{fill-IsValid, drain-IsValid}
use shadow_box_os.Pty.{
  Pty, Device, pty_max, pty_buf_size, create, find, write, read, master_write, master_read, destroy,
  update, reset, device_name, created, subsystem_init, init_devices,
}

pub record AreValid (d : Device) : Type 0 where
  pub m2s_valid : IsValid pty_buf_size d.m2s
  pub s2m_valid : IsValid pty_buf_size d.s2m

pub record IsSound (t : Pty) : Type 0 where
  pub eight : length t.devices ≡ pty_max
  pub counted : t.count ≤ pty_max
  pub rings : All AreValid t.devices

find-eq-some :
    (t : Pty) (i k : ℕ) (d : Device)
    → find t (pos i) ≡ some (k, d)
    → (k ≡ i) × (i < t.count) × (get_elem? t.devices i ≡ some d)
unfolding find
find-eq-some t i k d e = elim (Option-cases (get_elem? t.devices i)) [
  | inl p ↦ ground arith
  | inr (d', p) ↦ ground arith
]

-- A new device in the slot of an index that is in range is found there, and no other moves.
pub find-set :
    (t : Pty) (i j : ℕ) {k : ℕ} {d : Device} (d' : Device)
    → find t (pos i) ≡ some (k, d)
    → (find (record t { devices = set t.devices i d' }) (pos i) ≡ some (i, d'))
      × (i ≢ j → find (record t { devices = set t.devices i d' }) (pos j) ≡ find t (pos j))
unfolding find
find-set t i j {k = k} {d = d} d' e =
    let (_, in_range, there) = find-eq-some t i k d e in
    (
      ground (arith, get_elem?-set_self t.devices i d' (get_elem?_lt t.devices i there)),
      λ other. rw (get_elem?-set_ne t.devices i j d' other),
    )

pub find-AreValid :
    (t : Pty) (i : ℕ) {k : ℕ} {d : Device} → IsSound t → find t (pos i) ≡ some (k, d) → AreValid d
find-AreValid t i {k = k} {d = d} v e =
    All-get_elem? AreValid t.devices i v.rings (find-eq-some t i k d e).2

set-IsSound :
    (t : Pty) (i : ℕ) (d : Device)
    → IsSound t
    → AreValid d
    → IsSound (record t { devices = set t.devices i d })
set-IsSound t i d v p = record {
  eight = length-set t.devices i d ∙ v.eight;
  counted = v.counted;
  rings = All-set AreValid t.devices i d v.rings p;
}

-- One call on the table.
pub data Call : Type 0 where
  creates : Call
  writes master_writes : ℤ → List ℕ → Call
  reads master_reads : ℤ → ℕ → Call
  destroys : ℤ → Call

unfoldable pub step : Pty → Call → Pty
step t creates = (create t).1
step t (writes idx bytes) = (write t idx bytes).1
step t (master_writes idx bytes) = (master_write t idx bytes).1
step t (reads idx n) = (read t idx n).1
step t (master_reads idx n) = (master_read t idx n).1
step t (destroys idx) = destroy t idx

found_pos :
    (t : Pty) (i : ℕ) → (find t (pos i) ≡ none) ⊎ ((d : Device) × (find t (pos i) ≡ some (i, d)))
unfolding find
found_pos t i = elim (Option-cases (get_elem? t.devices i)) [
  | inl e ↦ inl (ground arith)
  | inr (d, e) ↦ elim (Bool-cases (ltb i t.count)) [
    | inl h ↦ inr (d, ground arith)
    | inr h ↦ inl (ground arith)
  ]
]

-- An index stands for no device, or for a number and a device with valid rings.
pub found :
    (t : Pty) (idx : ℤ)
    → IsSound t
    → (find t idx ≡ none)
      ⊎ ((i : ℕ) × (d : Device) × (idx ≡ pos i) × (find t idx ≡ some (i, d)) × AreValid d)
unfolding find
found t (negsuc i) v = inl refl
found t (pos i) v = elim (found_pos t i) [
  | inl e ↦ inl e
  | inr (d, e) ↦ inr (i, d, refl, e, find-AreValid t i v e)
]

length-update :
    (f : Device → Device) (i : ℕ) (ds : List Device) → length (update f i ds) ≡ length ds
unfolding update
length-update f i [] = refl
length-update f zero (d ∷ ds) = refl
length-update f (suc i) (d ∷ ds) = ap suc (length-update f i ds)

All-update :
    (f : Device → Device) (i : ℕ) (ds : List Device)
    → ((d : Device) → AreValid d → AreValid (f d))
    → All AreValid ds
    → All AreValid (update f i ds)
unfolding update
All-update f i [] keep v = tt
All-update f zero (d ∷ ds) keep v = (keep d v.0, v.1)
All-update f (suc i) (d ∷ ds) keep v = (v.0, All-update f i ds keep v.1)

-- Indices at 0 are in range.
pub reset-IsValid : (r : Ring ℕ) → IsValid pty_buf_size r → IsValid pty_buf_size (reset r)
reset-IsValid r v = omega arith

created-AreValid : (i : ℕ) (d : Device) → AreValid d → AreValid (created i d)
created-AreValid i d p = record {
  m2s_valid = reset-IsValid d.m2s p.m2s_valid;
  s2m_valid = reset-IsValid d.s2m p.s2m_valid;
}

create-IsSound : (t : Pty) → IsSound t → IsSound (create t).1
unfolding create
create-IsSound t v = elim (Bool-cases (ltb t.count pty_max)) [
  | inl room ↦
      rw (room, create)
        (record {
          eight = length-update _ t.count t.devices ∙ v.eight;
          counted = ground arith;
          rings = All-update _ t.count t.devices (λ d p. created-AreValid t.count d p) v.rings;
        })
  | inr e ↦ rw (e, create) v
]

module _ (t : Pty) (idx : ℤ) (v : IsSound t) where
  pub write-IsSound : (bytes : List ℕ) → IsSound (write t idx bytes).1
  unfolding write
  write-IsSound bytes = elim (found t idx v) [
    | inl e ↦ rw (e, write) v
    | inr (i, d, _, e, p) ↦
        rw (e, write)
          (set-IsSound t i _ v
            (record { m2s_valid = fill-IsValid d.m2s bytes p.m2s_valid; s2m_valid = p.s2m_valid }))
  ]

  pub master_write-IsSound : (bytes : List ℕ) → IsSound (master_write t idx bytes).1
  unfolding master_write
  master_write-IsSound bytes = elim (found t idx v) [
    | inl e ↦ rw (e, master_write) v
    | inr (i, d, _, e, p) ↦
        rw (e, master_write)
          (set-IsSound t i _ v
            (record { s2m_valid = fill-IsValid d.s2m bytes p.s2m_valid; m2s_valid = p.m2s_valid }))
  ]

  read-IsSound : (n : ℕ) → IsSound (read t idx n).1
  unfolding read
  read-IsSound n = elim (found t idx v) [
    | inl e ↦ rw (e, read) v
    | inr (i, d, _, e, p) ↦
        rw (e, read)
          (set-IsSound t i _ v
            (record { s2m_valid = drain-IsValid 0 n d.s2m p.s2m_valid; m2s_valid = p.m2s_valid }))
  ]

  master_read-IsSound : (n : ℕ) → IsSound (master_read t idx n).1
  unfolding master_read
  master_read-IsSound n = elim (found t idx v) [
    | inl e ↦ rw (e, master_read) v
    | inr (i, d, _, e, p) ↦
        rw (e, master_read)
          (set-IsSound t i _ v
            (record { m2s_valid = drain-IsValid 0 n d.m2s p.m2s_valid; s2m_valid = p.s2m_valid }))
  ]

  destroy-IsSound : IsSound (destroy t idx)
  unfolding destroy
  destroy-IsSound = elim (found t idx v) [
    | inl e ↦ rw (e, destroy) v
    | inr (i, d, _, e, p) ↦
        rw (e, destroy)
          (set-IsSound t i _ v (record {
            m2s_valid = reset-IsValid d.m2s p.m2s_valid;
            s2m_valid = reset-IsValid d.s2m p.s2m_valid;
          }))
  ]

step-IsSound : (t : Pty) (c : Call) → IsSound t → IsSound (step t c)
unfolding step
step-IsSound t creates v = create-IsSound t v
step-IsSound t (writes idx bytes) v = write-IsSound t idx v bytes
step-IsSound t (master_writes idx bytes) v = master_write-IsSound t idx v bytes
step-IsSound t (reads idx n) v = read-IsSound t idx v n
step-IsSound t (master_reads idx n) v = master_read-IsSound t idx v n
step-IsSound t (destroys idx) v = destroy-IsSound t idx v

-- The memory of the table: eight devices whose rings have their cells.
abbrev pub HasCells : Device → Type 0
HasCells d = (pty_buf_size ≤ length d.m2s.cells) × (pty_buf_size ≤ length d.s2m.cells)

pub record HasMemory (t : Pty) : Type 0 where
  pub eight : length t.devices ≡ pty_max
  pub cells : All HasCells t.devices

-- The tables that come about: pty_subsystem_init makes one out of any memory, and every call, and
-- another pty_subsystem_init, goes on from one.
pub data Reach : Pty → Type 0 where
  boots : (t : Pty) → HasMemory t → Reach (subsystem_init t)
  calls : (t : Pty) (c : Call) → Reach t → Reach (step t c)
  boots_again : (t : Pty) → Reach t → Reach (subsystem_init t)

reset-backed : (r : Ring ℕ) → pty_buf_size ≤ length r.cells → IsValid pty_buf_size (reset r)
reset-backed r h = record { backed = h; head_in = omega arith; tail_in = omega arith }

init_devices_lem :
    (ds : List Device)
    → All HasCells ds
    → (length (init_devices ds) ≡ length ds) × All AreValid (init_devices ds)
unfolding init_devices
init_devices_lem [] h = (refl, tt)
init_devices_lem (d ∷ ds) h =
    let (same, all) = init_devices_lem ds h.1 in
    (
      ap suc same,
      (record { m2s_valid = reset-backed d.m2s h.0.0; s2m_valid = reset-backed d.s2m h.0.1 }, all),
    )

init-IsSound : (t : Pty) → HasMemory t → IsSound (subsystem_init t)
unfolding subsystem_init
init-IsSound t h =
    let (same, all) = init_devices_lem t.devices h.cells in
    record { eight = same ∙ h.eight; counted = omega arith; rings = all }

cells-AreValid : (ds : List Device) → All AreValid ds → All HasCells ds
cells-AreValid [] v = tt
cells-AreValid (d ∷ ds) v = ((v.0.m2s_valid.backed, v.0.s2m_valid.backed), cells-AreValid ds v.1)

-- After pty_subsystem_init, over any further calls on the table, in range or not, and any further
-- pty_subsystem_init, there are eight devices with valid rings, of which at most eight are counted.
pub Reach-IsSound : (t : Pty) → Reach t → IsSound t
Reach-IsSound t (boots memory h) = init-IsSound memory h
Reach-IsSound t (calls before c reached) = step-IsSound before c (Reach-IsSound before reached)
Reach-IsSound t (boots_again before reached) =
    let v = Reach-IsSound before reached in
    init-IsSound before (record { eight = v.eight; cells = cells-AreValid before.devices v.rings })

-- The digit of a slot below eight follows "pty".
pub device_name_lem : (i : ℕ) → i < 8 → device_name i ≡ b'p' ∷ b't' ∷ b'y' ∷ (48 + i) ∷ []
unfolding device_name
device_name_lem i h = ground arith
