-- ===== src/Tmpfs.antt =====
-- fs/tmpfs.c: the entries of the file system in memory, tmpfs_read and tmpfs_write. An entry is named by its address and all entries are kept
-- by address; what kmalloc answers is an argument, and what is given to kfree is returned.
pub mod Tree
pub mod Buffers
pub mod Files
pub mod Names
pub mod Directory
pub mod Making
pub mod Removing
pub mod Renaming
pub mod Reach
pub mod Mounted
mod Examples
use shadow_box_os.Common.{
  ℕ, zero, suc, ◌+◌, ◌-◌, ◌*◌, ◌%◌, ◌^◌, Bool, true, false, not, ◌&&◌, ◌||◌, Option, none, some,
  List, [], ◌∷◌, ◌++◌, length, set, take, drop, replicate, get_elem?, ltb, leb, ◌==◌, if◌then◌else◌,
  min,
}

abbrev pub max_entries : ℕ
max_entries = 256

abbrev pub max_name : ℕ
max_name = 128

abbrev pub max_filesize : ℕ
max_filesize = 1048576

pub data Kind : Type 0 where
  file directory : Kind

-- A string is the list of its characters. The buffer of a file is `none` while there is none, and
-- the number of children is the length of their list.
pub record Entry : Type 0 where
  pub name : List ℕ
  pub kind : Kind
  pub buffer : Option (List ℕ)
  pub file_length : ℕ
  pub capacity : ℕ
  pub parent : Option ℕ
  pub children : List ℕ
  pub inode : ℕ

pub record Fs : Type 0 where
  pub entry : ℕ → Entry
  pub next_inode : ℕ
  pub root : Option ℕ

-- What kmalloc gives for an entry, for the first buffer of a file, and for a node.
pub record Memory : Type 0 where
  pub entry_at : Option ℕ
  pub buffer_given : Bool
  pub node_given : Bool

abbrev pub update : Fs → ℕ → Entry → Fs
update fs a e = record fs { entry = λ x. if x == a then e else fs.entry x }

abbrev pub is_directory : Kind → Bool
is_directory file = false
is_directory directory = true

-- The first buffer of a file.
unfoldable pub first_buffer : Kind → Bool → Option (List ℕ)
first_buffer directory given = none
first_buffer file given = if given then some (replicate 4096 0) else none

unfoldable pub new_entry : List ℕ → Kind → Option ℕ → ℕ → Bool → Entry
new_entry name kind parent inode given = record {
  name = take (max_name - 1) name;
  kind = kind;
  buffer = first_buffer kind given;
  file_length = 0;
  capacity = if is_directory kind then 0 else 4096;
  parent = parent;
  children = [];
  inode = inode;
}

unfoldable pub create_entry : Fs → List ℕ → Kind → Option ℕ → Memory → Option (ℕ × Fs)
create_entry fs name kind parent m = elim (m.entry_at) [
  | none ↦ none
  | some a ↦
      let e = new_entry name kind parent fs.next_inode m.buffer_given in
      some (a, record (update fs a e) { next_inode = (fs.next_inode + 1) % 2 ^ 32 })
]

-- `none` is a read outside the buffer.
unfoldable pub read : Entry → ℕ → ℕ → Option (List ℕ)
read e offset size = elim (e.buffer) [
  | none ↦ some []
  | some bytes ↦
      let n =
        if ltb e.file_length ((offset + size) % 2 ^ 32) then e.file_length - offset else size in
      if leb e.file_length offset
      then some []
      else if leb (offset + n) (length bytes)
      then some (take n (drop offset bytes))
      else none
]

abbrev pub grown_capacity : ℕ → ℕ
grown_capacity capacity = min (capacity * 2) max_filesize

-- The new buffer has the first `len` bytes of the old one and zeros.
unfoldable pub grown_buffer : List ℕ → ℕ → ℕ → List ℕ
grown_buffer bytes len capacity = take len bytes ++ replicate (capacity - len) 0

-- The loop that grows the buffer of `capacity` bytes. `given k` says that allocation `k` succeeds;
-- `none` means that the fuel ran out.
unfoldable pub grow : ℕ → (ℕ → Bool) → ℕ → ℕ → ℕ → List ℕ → Option (List ℕ × ℕ)
grow zero given need len capacity bytes = none
grow (suc f) given need len capacity bytes =
    let bigger = grown_capacity capacity in
    let rest = grow f (λ k. given (suc k)) need len bigger (grown_buffer bytes len bigger) in
    if leb need capacity
    then some (bytes, capacity)
    else if bigger == capacity
    then some (bytes, capacity)
    else if given 0
    then rest
    else some (bytes, capacity)

unfoldable pub put_bytes : List ℕ → ℕ → List ℕ → List ℕ
put_bytes bytes offset [] = bytes
put_bytes bytes offset (b ∷ bs) = put_bytes (set bytes offset b) (offset + 1) bs

-- The bytes that a file without a buffer gets when it is written.
abbrev pub with_buffer : Entry → Bool → Option Entry
with_buffer e given = elim (e.buffer) [
  | some bytes ↦ some e
  | none ↦
      if given then some (record e { buffer = some (replicate 4096 0); capacity = 4096 }) else none
]

-- What a write comes to: more turns of the loop than the fuel has, a write outside the buffer, or a
-- count of bytes and the entry.
pub data Outcome : Type 0 where
  out_of_fuel overrun : Outcome
  done : ℕ → Entry → Outcome

unfoldable pub stored : Entry → ℕ → List ℕ → List ℕ × ℕ → Outcome
stored e offset source (bytes, capacity) =
    let n = length source in
    let last = (offset + n) % 2 ^ 32 in
    if (n == 0) || leb (offset + n) (length bytes)
    then done n (record e {
      buffer = some (put_bytes bytes offset source);
      capacity = capacity;
      file_length = if ltb e.file_length last then last else e.file_length;
    })
    else overrun

unfoldable pub written : Entry → ℕ → List ℕ → (ℕ → Bool) → Outcome
written e offset source given = elim (e.buffer) [
  | none ↦ done 0 e
  | some bytes ↦
      elim (grow 9 given ((offset + length source) % 2 ^ 32) e.file_length e.capacity bytes) [
        | none ↦ out_of_fuel
        | some grown ↦ stored e offset source grown
      ]
]

-- `source` has the bytes that are to be written, as many as `size` says.
unfoldable pub write : Entry → ℕ → List ℕ → Bool → (ℕ → Bool) → Outcome
write e offset source first given = elim (with_buffer e first) [
  | none ↦ done 0 e
  | some e' ↦ written e' offset source given
]
