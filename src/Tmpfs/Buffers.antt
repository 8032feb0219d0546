-- ===== src/Tmpfs/Buffers.antt =====
-- fs/tmpfs.c: the buffer of a file, how bytes are put into it and how it grows.
use native.Mathlib.Nat.{pow-suc, one-le-pow}
use shadow_box_os.Common.{
  ℕ, zero, suc, ◌+◌, ◌-◌, ◌*◌, ◌^◌, ◌≤◌, ◌<◌, ◌≡◌, refl, ap, ◌∙◌, inl, inr, Bool, true, ◌&&◌, ◌||◌,
  some, List, [], ◌∷◌, ◌++◌, length, set, take, replicate, get_or, ltb, leb, ◌==◌, if◌then◌else◌,
  arith, dec_lt, min, Bool-cases, get_or-set_self, get_or-set_ne, length-set, length-append,
  length-take, length-replicate,
}
use shadow_box_os.Tmpfs.{grow, grown_buffer, grown_capacity, put_bytes, max_filesize}

-- The buffer `bytes` holds a file of `len` bytes, with zeros behind them.
pub record IsBuffer (bytes : List ℕ) (len capacity : ℕ) : Type 0 where
  pub capacity_is : capacity ≡ length bytes
  pub least : 4096 ≤ capacity
  pub most : capacity ≤ max_filesize
  pub inside : len ≤ capacity
  pub zeros : (i : ℕ) → len ≤ i → get_or bytes i 0 ≡ 0

pub length-put_bytes :
    (bytes : List ℕ) (offset : ℕ) (bs : List ℕ) → length (put_bytes bytes offset bs) ≡ length bytes
unfolding put_bytes
length-put_bytes bytes offset [] = refl
length-put_bytes bytes offset (b ∷ bs) =
    length-put_bytes (set bytes offset b) (offset + 1) bs ∙ length-set bytes offset b

get_or-shift :
    (b : ℕ) (bs : List ℕ) (offset i : ℕ)
    → offset < i
    → get_or (b ∷ bs) (i - offset) 0 ≡ get_or bs (i - (offset + 1)) 0
get_or-shift b bs offset i h =
    let e : i - offset ≡ suc (i - (offset + 1)) = omega arith in rw e refl

pub get_or-put_bytes :
    (bytes : List ℕ) (offset : ℕ) (bs : List ℕ) (i : ℕ)
    → offset + length bs ≤ length bytes
    → get_or (put_bytes bytes offset bs) i 0 ≡ (
        if leb offset i && ltb i (offset + length bs)
        then get_or bs (i - offset) 0
        else get_or bytes i 0)
unfolding put_bytes
get_or-put_bytes bytes offset [] i h = ground arith
get_or-put_bytes bytes offset (b ∷ bs) i h = ground (
  arith,
  get_or-put_bytes (set bytes offset b) (offset + 1) bs i
      (omega (arith, length-set bytes offset b)),
  self,
  get_or-set_ne bytes offset i b 0,
  get_or-shift b bs offset i,
)
  where
    self : i ≡ offset → (get_or (set bytes offset b) i 0 ≡ b) × (get_or (b ∷ bs) (i - offset) 0 ≡ b)
    self e =
        let none_left : i - offset ≡ 0 = omega arith in
        (rw e (get_or-set_self bytes offset b 0 (omega arith)), rw none_left refl)

get_or-grown :
    (bytes : List ℕ) (len k i : ℕ)
    → len ≤ length bytes
    → get_or (take len bytes ++ replicate k 0) i 0 ≡ (if ltb i len then get_or bytes i 0 else 0)
get_or-grown bytes zero zero i h = ground arith
get_or-grown bytes zero (suc k) zero h = ground arith
get_or-grown bytes zero (suc k) (suc i) h = ground (arith, get_or-grown bytes zero k i)
get_or-grown [] (suc len) k i h = absurd (omega arith)
get_or-grown (b ∷ bytes) (suc len) k zero h = ground arith
get_or-grown (b ∷ bytes) (suc len) k (suc i) h = ground (arith, get_or-grown bytes len k i)

grown-IsBuffer :
    (bytes : List ℕ) (len capacity : ℕ)
    → IsBuffer bytes len capacity
    → IsBuffer (grown_buffer bytes len (grown_capacity capacity)) len (grown_capacity capacity)
unfolding grown_buffer
grown-IsBuffer bytes len capacity v = record {
  capacity_is = omega (
    arith,
    length-append (take len bytes) (replicate (grown_capacity capacity - len) 0),
    length-take len bytes,
    length-replicate {A = ℕ} (grown_capacity capacity - len) 0,
    v.inside,
    v.capacity_is,
  );
  least = omega (arith, v.least);
  most = omega arith;
  inside = omega (arith, v.inside);
  zeros = λ i h.
      ground
        (arith, get_or-grown bytes len (grown_capacity capacity - len) i (omega arith), v.zeros i);
}

-- What the growing of the buffer leaves: a sound buffer with the same bytes, and with room for
-- `need` bytes if memory was given for every step and a file may have so many.
abbrev pub Grown : (given : ℕ → Bool) (bytes bytes' : List ℕ) (need len capacity : ℕ) → Type 0
Grown given bytes bytes' need len capacity =
    IsBuffer bytes' len capacity
    × (((k : ℕ) → given k ≡ true) → need ≤ max_filesize → need ≤ capacity)
    × ((i : ℕ) → get_or bytes' i 0 ≡ get_or bytes i 0)

grown_same :
    (bytes : List ℕ) (len capacity i : ℕ)
    → IsBuffer bytes len capacity
    → get_or (grown_buffer bytes len (grown_capacity capacity)) i 0 ≡ get_or bytes i 0
unfolding grown_buffer
grown_same bytes len capacity i v =
    ground
      (arith, get_or-grown bytes len (grown_capacity capacity - len) i (omega arith), v.zeros i)

enough_more : (m c p q : ℕ) → 1 ≤ p → q ≡ p * 2 → m ≤ c * q → m ≤ min (c * 2) m * p
enough_more m c p q h e k = elim (dec_lt (c * 2) m) [
  | yes small ↦
      let is : min (c * 2) m ≡ c * 2 = omega arith in rw is (grind (arith, ap (λ (t : ℕ). c * t) e))
  | no large ↦ let is : min (c * 2) m ≡ m = omega arith in rw is (grind arith)
]

-- The loop ends with enough fuel, whatever memory is given.
pub grow_lem :
    (f : ℕ) (given : ℕ → Bool) (need len capacity : ℕ) (bytes : List ℕ)
    → IsBuffer bytes len capacity
    → max_filesize ≤ capacity * 2 ^ f
    → (bytes' : List ℕ) × (capacity' : ℕ) × (grow (suc f) given need len capacity bytes
        ≡ some (bytes', capacity'))
      × Grown given bytes bytes' need len capacity'
unfolding grow
grow_lem zero given need len capacity bytes v enough =
    (bytes, capacity, ground (arith, v.most), (v, λ all small. omega arith, λ i. refl))
grow_lem (suc f) given need len capacity bytes v enough =
    elim (Bool-cases (leb need capacity || (grown_capacity capacity == capacity))) [
      | inl stop ↦
          (bytes, capacity, ground arith, (v, λ all small. ground (arith, v.least), λ i. refl))
      | inr short ↦ elim (Bool-cases (given 0)) [
        | inl yes_given ↦
            let bigger = grown_capacity capacity in
            let (bytes', capacity', run, (sound, room, same)) =
              grow_lem f (λ k. given (suc k)) need len bigger (grown_buffer bytes len bigger)
                (grown-IsBuffer bytes len capacity v)
                (enough_more max_filesize capacity (2 ^ f) (2 ^ suc f)
                  (one-le-pow f 2 (omega arith)) (pow-suc 2 f) enough) in
            (
              bytes',
              capacity',
              ground (arith, yes_given, run),
              (
                sound,
                λ all small. room (λ k. all (suc k)) small,
                λ i. same i ∙ grown_same bytes len capacity i v,
              ),
            )
        | inr refused ↦ (
          bytes,
          capacity,
          ground arith,
          (v, λ all small. let e : given 0 ≡ true = all 0 in cc, λ i. refl),
        )
      ]
    ]
