-- ===== src/Pty/Slots.antt =====
-- Who gets a slot of the table: pty_create hands out 0 to 7 in order, and no slot comes back.
use shadow_box_os.Common.{
  ℕ, zero, suc, ◌+◌, ◌<◌, ◌≡◌, ◌≢◌, refl, ap, none, some, List, [], ◌∷◌, arith, length, get_elem?,
  All-get_elem?,
}
use shadow_box_os.Common.Int.{pos}
use shadow_box_os.Ring.Loops.{contents-empty}
use shadow_box_os.Pty.{
  Pty, Device, create, find, write, read, master_write, master_read, destroy, update, reset,
  created,
}
use shadow_box_os.Pty.Devices.{
  AreValid, IsSound, Call, creates, writes, reads, master_writes, master_reads, destroys, step,
  device_name_lem, reset-IsValid,
}
use shadow_box_os.Pty.Streams.{to_master, to_slave}

get_elem?-update :
    (f : Device → Device) (i j : ℕ) (ds : List Device)
    → i < length ds
    → ((d : Device) × (get_elem? ds i ≡ some d) × (get_elem? (update f i ds) i ≡ some (f d)))
      × (j ≢ i → get_elem? (update f i ds) j ≡ get_elem? ds j)
unfolding update
get_elem?-update f i j [] h = absurd (omega arith)
get_elem?-update f zero zero (d ∷ ds) h = ((d, refl, refl), λ ne. absurd (ne refl))
get_elem?-update f zero (suc j) (d ∷ ds) h = ((d, refl, refl), λ ne. refl)
get_elem?-update f (suc i) zero (d ∷ ds) h =
    ((get_elem?-update f i zero ds (omega arith)).0, λ ne. refl)
get_elem?-update f (suc i) (suc j) (d ∷ ds) h =
    let (there, rest) = get_elem?-update f i j ds (omega arith) in
    (there, λ ne. rest (λ e. ne (ap suc e)))

-- On a sound table, while fewer than eight were created, pty_create returns the next number, whose device is then
-- found with the name "pty" and that digit and with nothing on its way in either direction; the
-- devices created before are as they were.
pub create_lem :
    (t : Pty)
    → IsSound t
    → t.count < 8
    → let (r, t') = create t in
      (r ≡ some t.count)
      × (t'.count ≡ t.count + 1)
      × (d : Device) × (find t' (pos t.count) ≡ some (t.count, d))
      × (d.name ≡ b'p' ∷ b't' ∷ b'y' ∷ (48 + t.count) ∷ [])
      × (to_master d ≡ [])
      × (to_slave d ≡ [])
      × ((j : ℕ) → j < t.count → find t' (pos j) ≡ find t (pos j))
unfolding create find
create_lem t v room =
    let changed = get_elem?-update (created t.count) t.count in
    let (d, was, now) = (changed 0 t.devices (omega arith)).0 in
    let p = All-get_elem? AreValid t.devices t.count v.rings was in
    (
      ground arith,
      ground arith,
      created t.count d,
      ground arith,
      device_name_lem t.count room,
      contents-empty 0 (reset d.m2s) (reset-IsValid d.m2s p.m2s_valid) refl,
      contents-empty 0 (reset d.s2m) (reset-IsValid d.s2m p.s2m_valid) refl,
      λ j below. ground (arith, (changed j t.devices (omega arith)).1 (omega arith)),
    )

pub run : Pty → List Call → Pty
run t [] = t
run t (c ∷ cs) = run (step t c) cs

count-step : (t : Pty) (c : Call) → t.count ≡ 8 → (step t c).count ≡ 8
unfolding step create write master_write read master_read destroy
count-step t creates h = ground arith
count-step t (writes idx bytes) h = ground arith
count-step t (master_writes idx bytes) h = ground arith
count-step t (reads idx n) h = ground arith
count-step t (master_reads idx n) h = ground arith
count-step t (destroys idx) h = ground arith

count-run : (t : Pty) (cs : List Call) → t.count ≡ 8 → (run t cs).count ≡ 8
unfolding run
count-run t [] h = h
count-run t (c ∷ cs) h = count-run (step t c) cs (count-step t c h)

-- Once eight were created, pty_create fails for good, whatever is written, read or destroyed in
-- between: pty_destroy gives no slot back.
pub create_exhausted :
    (t : Pty) (cs : List Call) → t.count ≡ 8 → create (run t cs) ≡ (none, run t cs)
unfolding create
create_exhausted t cs h = ground (arith, count-run t cs h)
