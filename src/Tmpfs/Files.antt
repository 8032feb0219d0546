-- ===== src/Tmpfs/Files.antt =====
-- fs/tmpfs.c: tmpfs_read and tmpfs_write against a file that is a length and a byte for every index.
use shadow_box_os.Common.{
  ℕ, zero, suc, ◌+◌, ◌-◌, ◌%◌, ◌^◌, ◌≤◌, ◌<◌, ◌≡◌, refl, ap, sym, ◌∙◌, inl, inr, Bool, true, ◌&&◌,
  Option, none, some, List, [], ◌∷◌, length, take, drop, replicate, get_or, ltb, leb, if◌then◌else◌,
  arith, min, max, tabulate, Bool-cases, length-replicate, tabulate_ext, take-drop, All,
}
use shadow_box_os.Tmpfs.Buffers.{IsBuffer, length-put_bytes, get_or-put_bytes, grow_lem}
use shadow_box_os.Tmpfs.{
  new_entry, first_buffer, file, Entry, out_of_fuel, overrun, done, read, write, written, stored,
  grow, put_bytes, max_filesize,
}

-- The file as it is promised: its length and its bytes, with zeros past the length.
pub record Content : Type 0 where
  pub size : ℕ
  pub byte : ℕ → ℕ

-- Writing puts the bytes at their places and makes the file long enough for them.
abbrev pub write_content : Content → ℕ → List ℕ → Content
write_content c offset bs = record {
  size = max c.size (offset + length bs);
  byte = λ i.
      if leb offset i && ltb i (offset + length bs) then get_or bs (i - offset) 0 else c.byte i;
}

abbrev pub read_content : Content → ℕ → ℕ → List ℕ
read_content c offset n = tabulate (min n (c.size - offset)) (λ k. c.byte (offset + k))

-- The entry is a file with a buffer, and its content is `c`.
pub record IsFile (e : Entry) (c : Content) : Type 0 where
  pub bytes : List ℕ
  pub buffer_is : e.buffer ≡ some bytes
  pub sound : IsBuffer bytes e.file_length e.capacity
  pub size_is : c.size ≡ e.file_length
  pub byte_is : (i : ℕ) → c.byte i ≡ get_or bytes i 0

get_or-replicate : (n i : ℕ) → get_or (replicate {A = ℕ} n 0) i 0 ≡ 0
get_or-replicate zero i = refl
get_or-replicate (suc n) zero = refl
get_or-replicate (suc n) (suc i) = get_or-replicate n i

-- tmpfs_read of a file gives the bytes that are asked for, as far as the file reaches, if the end of
-- what is asked for is below 2^32.
pub read_lem :
    (e : Entry) (c : Content) (offset n : ℕ)
    → IsFile e c
    → offset + n < 2 ^ 32
    → read e offset n ≡ some (read_content c offset n)
unfolding read
read_lem e c offset n v h = elim (Bool-cases (leb e.file_length offset)) [
  | inl past ↦
      let empty : min n (c.size - offset) ≡ 0 = ground (arith, v.size_is) in
      rw empty (ground (arith, v.buffer_is, past))
  | inr before ↦
      let m = min n (c.size - offset) in
      let bytes_read : take m (drop offset v.bytes) ≡ read_content c offset n =
        take-drop offset m v.bytes 0
          (ground (arith, v.size_is, v.sound.inside, v.sound.capacity_is))
        ∙ tabulate_ext m _ _ (λ k lt. sym (v.byte_is (offset + k))) in
      let run : read e offset n ≡ some (take m (drop offset v.bytes)) =
        ground (arith, v.buffer_is, v.size_is, v.sound.inside, v.sound.capacity_is) in
      run ∙ ap some bytes_read
]

stored_lem :
    (e : Entry) (c : Content) (offset : ℕ) (source bytes' : List ℕ) (capacity' : ℕ)
    → (v : IsFile e c) → IsBuffer bytes' e.file_length capacity'
    → ((i : ℕ) → get_or bytes' i 0 ≡ get_or v.bytes i 0)
    → offset + length source ≤ capacity'
    → (e' : Entry) × (stored e offset source (bytes', capacity') ≡ done (length source) e')
      × IsFile e' (write_content c offset source)
unfolding stored
stored_lem e c offset source bytes' capacity' v sound same room = (
  record e {
    buffer = some (put_bytes bytes' offset source);
    capacity = capacity';
    file_length = max e.file_length (offset + length source);
  },
  ground (arith, sound.capacity_is, sound.most),
  record {
    bytes = put_bytes bytes' offset source;
    buffer_is = refl;
    sound = record {
      capacity_is = sound.capacity_is ∙ sym (length-put_bytes bytes' offset source);
      least = sound.least;
      most = sound.most;
      inside = omega (arith, sound.inside);
      zeros = λ i h. ground (arith, put i, sound.zeros i);
    };
    size_is = omega (arith, v.size_is);
    byte_is = λ i. ground (arith, put i, same i, v.byte_is i);
  },
)
  where
    put :
        (i : ℕ)
        → get_or (put_bytes bytes' offset source) i 0 ≡ (
            if leb offset i && ltb i (offset + length source)
            then get_or source (i - offset) 0
            else get_or bytes' i 0)
    put i = get_or-put_bytes bytes' offset source i (omega (arith, sound.capacity_is))

-- What tmpfs_write does once the buffer has grown.
write_step :
    (e : Entry) (bytes : List ℕ) (offset : ℕ) (source : List ℕ) (first : Bool) (given : ℕ → Bool)
    (grown : List ℕ × ℕ)
    → e.buffer ≡ some bytes
    → grow 9 given ((offset + length source) % 2 ^ 32) e.file_length e.capacity bytes ≡ some grown
    → write e offset source first given ≡ stored e offset source grown
unfolding write written
write_step e bytes offset source first given grown buffer_is run = ground (arith, buffer_is, run)

-- With memory for every allocation, tmpfs_write of bytes that end within 1 MB stores them all: the
-- file is as long as it was or as they reach, has them at their places, keeps its other bytes, and
-- has zeros in a gap before them.
pub write_lem :
    (e : Entry) (c : Content) (offset : ℕ) (source : List ℕ) (first : Bool) (given : ℕ → Bool)
    → IsFile e c
    → ((k : ℕ) → given k ≡ true)
    → offset + length source ≤ max_filesize
    → (e' : Entry) × (write e offset source first given ≡ done (length source) e')
      × IsFile e' (write_content c offset source)
write_lem e c offset source first given v all small =
    let last = (offset + length source) % 2 ^ 32 in
    let (bytes', capacity', run, (sound, room, same)) =
      grow_lem 8 given last e.file_length e.capacity v.bytes v.sound
        (omega (arith, v.sound.least)) in
    let (e', stores, is) =
      stored_lem e c offset source bytes' capacity' v sound same
        (omega (arith, room all (omega arith))) in
    (
      e',
      write_step e v.bytes offset source first given (bytes', capacity') v.buffer_is run ∙ stores,
      is,
    )

-- tmpfs_write of some bytes that end beyond 1 MB, to a file that holds its bytes in its buffer, writes
-- outside the buffer, whatever memory is given; the loop that grows the buffer comes to its end.
pub write_overrun :
    (e : Entry) (c : Content) (offset : ℕ) (source : List ℕ) (first : Bool) (given : ℕ → Bool)
    → IsFile e c
    → 0 < length source
    → max_filesize < offset + length source
    → write e offset source first given ≡ overrun
unfolding stored
write_overrun e c offset source first given v some_bytes large =
    let last = (offset + length source) % 2 ^ 32 in
    let (bytes', capacity', run, (sound, room, same)) =
      grow_lem 8 given last e.file_length e.capacity v.bytes v.sound
        (omega (arith, v.sound.least)) in
    write_step e v.bytes offset source first given (bytes', capacity') v.buffer_is run
    ∙ ground (arith, sound.capacity_is, sound.most)

-- Accesses to a file, and what is answered.
pub data Access : Type 0 where
  read_at : ℕ → ℕ → Access
  write_at : ℕ → List ℕ → Access

pub data Reply : Type 0 where
  bytes_read : List ℕ → Reply
  bytes_written : ℕ → Reply

-- Reads end below 2^32 and writes within 1 MB.
abbrev pub InRange : Access → Type 0
InRange (read_at offset n) = offset + n < 2 ^ 32
InRange (write_at offset bs) = offset + length bs ≤ max_filesize

-- The replies of tmpfs_read and tmpfs_write, one after another, while memory lasts; `none` if one of
-- them leaves the buffer or runs out of fuel.
unfoldable pub file_run : Entry → List Access → Option (List Reply)
file_run e [] = some []
file_run e (read_at offset n ∷ todo) =
    let rest = file_run e todo in
    elim (read e offset n) [
      | none ↦ none
      | some bs ↦ elim rest [ none ↦ none | some rs ↦ some (bytes_read bs ∷ rs) ]
    ]
file_run e (write_at offset source ∷ todo) = elim (write e offset source true (λ k. true)) [
  | out_of_fuel ↦ none
  | overrun ↦ none
  | done n e' ↦ elim (file_run e' todo) [ none ↦ none | some rs ↦ some (bytes_written n ∷ rs) ]
]

unfoldable pub content_run : Content → List Access → List Reply
content_run c [] = []
content_run c (read_at offset n ∷ todo) = bytes_read (read_content c offset n) ∷ content_run c todo
content_run c (write_at offset bs ∷ todo) =
    bytes_written (length bs) ∷ content_run (write_content c offset bs) todo

file_run_lem :
    (e : Entry) (c : Content) (todo : List Access)
    → IsFile e c
    → All InRange todo
    → file_run e todo ≡ some (content_run c todo)
unfolding file_run content_run
file_run_lem e c [] v h = refl
file_run_lem e c (read_at offset n ∷ todo) v h =
    ground (arith, read_lem e c offset n v h.0, file_run_lem e c todo v h.1)
file_run_lem e c (write_at offset bs ∷ todo) v h =
    let (e', run, v') = write_lem e c offset bs true (λ k. true) v (λ k. refl) h.0 in
    ground (arith, run, file_run_lem e' (write_content c offset bs) todo v' h.1)

abbrev pub empty : Content
empty = record { size = 0; byte = λ i. 0 }

pub fresh-IsFile :
    (name : List ℕ) (parent : Option ℕ) (inode : ℕ)
    → IsFile (new_entry name file parent inode true) empty
unfolding new_entry first_buffer
fresh-IsFile name parent inode = record {
  bytes = replicate 4096 0;
  buffer_is = refl;
  sound = record {
    capacity_is = sym (length-replicate {A = ℕ} 4096 0);
    least = omega arith;
    most = omega arith;
    inside = omega arith;
    zeros = λ i h. get_or-replicate 4096 i;
  };
  size_is = refl;
  byte_is = λ i. sym (get_or-replicate 4096 i);
}

-- A file that was just created with its buffer cannot be told from a length and a byte for every
-- index, all 0 at first, over any reads that end below 2^32 and writes within 1 MB with memory given.
pub file_run-content_run :
    (name : List ℕ) (parent : Option ℕ) (inode : ℕ) (todo : List Access)
    → All InRange todo
    → file_run (new_entry name file parent inode true) todo ≡ some (content_run empty todo)
file_run-content_run name parent inode todo h =
    file_run_lem _ empty todo (fresh-IsFile name parent inode) h
