-- ===== src/Pty/Streams.antt =====
-- A pseudo-terminal's two directions: each is a queue of at most 4095 bytes, and neither disturbs
-- the other or another device.
use shadow_box_os.Common.{
  ℕ, ◌-◌, ◌≤◌, ◌≡◌, ◌≢◌, refl, ap, ◌∙◌, some, List, [], ◌++◌, arith, length, take, drop, min,
  take_all, set,
}
use shadow_box_os.Common.Int.{pos}
use shadow_box_os.Fifo
use shadow_box_os.Ring.{fill, drain, contents}
use shadow_box_os.Ring.Loops.{fill_refines, drain_refines}
use shadow_box_os.Pty.{Pty, Device, pty_buf_size, find, write, read, master_write, master_read}
use shadow_box_os.Pty.Devices.{
  IsSound, find-set, find-AreValid, write-IsSound, master_write-IsSound,
}

-- The bytes on their way from the slave to the master, and back.
abbrev pub to_master : Device → List ℕ
to_master d = contents 0 pty_buf_size d.m2s

abbrev pub to_slave : Device → List ℕ
to_slave d = contents 0 pty_buf_size d.s2m

-- The table after a call on device `i`: the device has become `d`, and the others are as before.
pub record Becomes (t t' : Pty) (i : ℕ) (d : Device) : Type 0 where
  pub here : find t' (pos i) ≡ some (i, d)
  pub elsewhere : (j : ℕ) → i ≢ j → find t' (pos j) ≡ find t (pos j)

Becomes-set :
    (t : Pty) (i : ℕ) {d : Device} (d' : Device)
    → find t (pos i) ≡ some (i, d)
    → Becomes t (record t { devices = set t.devices i d' }) i d'
Becomes-set t i d' e = record {
  here = (find-set t i i d' e).0;
  elsewhere = λ j. (find-set t i j d' e).1;
}

module _ (t : Pty) (i : ℕ) {d : Device} (v : IsSound t) (e : find t (pos i) ≡ some (i, d)) where
  -- pty_write appends to the slave's output the bytes that fit below 4095, says how many, and
  -- changes neither the slave's input nor any other device.
  pub write_lem :
      (bytes : List ℕ)
      → let fitting = min (length bytes) (4095 - length (to_master d)) in
        let (n, t') = write t (pos i) bytes in
        (n ≡ some fitting)
        × (d' : Device) × Becomes t t' i d'
        × (to_master d' ≡ to_master d ++ take fitting bytes)
        × (to_slave d' ≡ to_slave d)
        × (d'.name ≡ d.name)
  unfolding write Fifo.push_all
  write_lem bytes =
      rw (e, write)
        (ground (arith, moved), d', Becomes-set t i d' e, ground (arith, moved), refl, refl)
    where
      d' : Device
      d' = record d { m2s = (fill pty_buf_size d.m2s bytes).1 }

      moved :
          ◌≡◌ {A = ℕ × List ℕ}
            ((fill pty_buf_size d.m2s bytes).0, to_master d')
            (Fifo.push_all 4095 (to_master d) bytes)
      moved = fill_refines 0 d.m2s bytes (find-AreValid t i v e).m2s_valid

  -- pty_master_read takes the oldest bytes of the slave's output, at most `n`, and changes neither
  -- the slave's input nor any other device.
  pub master_read_lem :
      (n : ℕ)
      → let (bytes, t') = master_read t (pos i) n in
        (bytes ≡ some (take n (to_master d)))
        × (d' : Device) × Becomes t t' i d'
        × (to_master d' ≡ drop n (to_master d))
        × (to_slave d' ≡ to_slave d)
        × (d'.name ≡ d.name)
  unfolding master_read Fifo.pop_all
  master_read_lem n =
      rw (e, master_read)
        (ground (arith, moved), d', Becomes-set t i d' e, ground (arith, moved), refl, refl)
    where
      d' : Device
      d' = record d { m2s = (drain 0 pty_buf_size n d.m2s).1 }

      moved :
          ◌≡◌ {A = List ℕ × List ℕ}
            ((drain 0 pty_buf_size n d.m2s).0, to_master d')
            (Fifo.pop_all n (to_master d))
      moved = drain_refines 0 n d.m2s (find-AreValid t i v e).m2s_valid

  -- pty_master_write appends to the slave's input the bytes that fit below 4095, says how many, and
  -- changes neither the slave's output nor any other device.
  pub master_write_lem :
      (bytes : List ℕ)
      → let fitting = min (length bytes) (4095 - length (to_slave d)) in
        let (n, t') = master_write t (pos i) bytes in
        (n ≡ some fitting)
        × (d' : Device) × Becomes t t' i d'
        × (to_slave d' ≡ to_slave d ++ take fitting bytes)
        × (to_master d' ≡ to_master d)
        × (d'.name ≡ d.name)
  unfolding master_write Fifo.push_all
  master_write_lem bytes =
      rw (e, master_write)
        (ground (arith, moved), d', Becomes-set t i d' e, ground (arith, moved), refl, refl)
    where
      d' : Device
      d' = record d { s2m = (fill pty_buf_size d.s2m bytes).1 }

      moved :
          ◌≡◌ {A = ℕ × List ℕ}
            ((fill pty_buf_size d.s2m bytes).0, to_slave d')
            (Fifo.push_all 4095 (to_slave d) bytes)
      moved = fill_refines 0 d.s2m bytes (find-AreValid t i v e).s2m_valid

  -- pty_read takes the oldest bytes of the slave's input, at most `n`, and changes neither the
  -- slave's output nor any other device.
  pub read_lem :
      (n : ℕ)
      → let (bytes, t') = read t (pos i) n in
        (bytes ≡ some (take n (to_slave d)))
        × (d' : Device) × Becomes t t' i d'
        × (to_slave d' ≡ drop n (to_slave d))
        × (to_master d' ≡ to_master d)
        × (d'.name ≡ d.name)
  unfolding read Fifo.pop_all
  read_lem n =
      rw (e, read)
        (ground (arith, moved), d', Becomes-set t i d' e, ground (arith, moved), refl, refl)
    where
      d' : Device
      d' = record d { s2m = (drain 0 pty_buf_size n d.s2m).1 }

      moved :
          ◌≡◌ {A = List ℕ × List ℕ}
            ((drain 0 pty_buf_size n d.s2m).0, to_slave d')
            (Fifo.pop_all n (to_slave d))
      moved = drain_refines 0 n d.s2m (find-AreValid t i v e).s2m_valid

into_idle :
    (q bytes : List ℕ)
    → q ≡ []
    → length bytes ≤ 4095
    → q ++ take (min (length bytes) (4095 - length q)) bytes ≡ bytes
into_idle q bytes idle short =
    rw idle (take_all (min (length bytes) (4095 - 0)) bytes (omega arith))

-- On a sound table, what a slave writes into an idle direction, up to 4095 bytes, the master reads whole and in order,
-- if it asks for as many.
pub slave_to_master :
    (t : Pty) (i : ℕ) {d : Device} (bytes : List ℕ) (n : ℕ)
    → IsSound t
    → find t (pos i) ≡ some (i, d)
    → to_master d ≡ []
    → length bytes ≤ 4095
    → length bytes ≤ n
    → (master_read (write t (pos i) bytes).1 (pos i) n).0 ≡ some bytes
slave_to_master t i {d = d} bytes n v e idle short enough =
    let (_, d', moved, held, _, _) = write_lem t i v e bytes in
    let sound = write-IsSound t (pos i) v bytes in
    (master_read_lem (write t (pos i) bytes).1 i sound moved.here n).0
    ∙ ap (λ xs. some (take n xs)) (held ∙ into_idle (to_master d) bytes idle short)
    ∙ ap some (take_all n bytes enough)

-- What the master writes into an idle direction, up to 4095 bytes, the slave reads whole and in
-- order, if it asks for as many.
pub master_to_slave :
    (t : Pty) (i : ℕ) {d : Device} (bytes : List ℕ) (n : ℕ)
    → IsSound t
    → find t (pos i) ≡ some (i, d)
    → to_slave d ≡ []
    → length bytes ≤ 4095
    → length bytes ≤ n
    → (read (master_write t (pos i) bytes).1 (pos i) n).0 ≡ some bytes
master_to_slave t i {d = d} bytes n v e idle short enough =
    let (_, d', moved, held, _, _) = master_write_lem t i v e bytes in
    let sound = master_write-IsSound t (pos i) v bytes in
    (read_lem (master_write t (pos i) bytes).1 i sound moved.here n).0
    ∙ ap (λ xs. some (take n xs)) (held ∙ into_idle (to_slave d) bytes idle short)
    ∙ ap some (take_all n bytes enough)
