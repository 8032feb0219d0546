-- ===== src/Dns/Wire.antt =====
-- net/dns.c: dns_encode_name, and the loop that skips a name, as inverse to each other.
use shadow_box_os.Common.{
  ℕ, zero, suc, ◌+◌, ◌≤◌, ◌<◌, ◌≡◌, ◌≢◌, refl, ap, ◌∙◌, Option, none, some, List, [], ◌∷◌, ◌++◌,
  length, get_elem?, ◌==◌, if◌then◌else◌, arith, All, append-nil, append_assoc, length-append, take,
  drop, take-length_append,
}
use shadow_box_os.Dns.{label_of, encode_labels, encode_name, skip_name}

-- A label of 1 to 63 characters without a dot.
abbrev pub IsLabel : List ℕ → Type 0
IsLabel l = (0 < length l) × (length l ≤ 63) × All (λ c. c ≢ 46) l

abbrev pub dotted : List (List ℕ) → List ℕ
dotted [] = []
dotted (l ∷ ls) = 46 ∷ l ++ dotted ls

-- The labels with dots between them.
abbrev pub join : List (List ℕ) → List ℕ
join [] = []
join (l ∷ ls) = l ++ dotted ls

-- The labels with their lengths before them.
abbrev pub wire : List (List ℕ) → List ℕ
wire [] = []
wire (l ∷ ls) = length l ∷ l ++ wire ls

-- The labels of a name on the wire, as RFC 1035 reads it; `none` is a name without an end.
unfoldable pub read_name : ℕ → List ℕ → Option (List (List ℕ))
read_name zero bytes = none
read_name (suc f) [] = none
read_name (suc f) (n ∷ bytes) =
    let rest = read_name f (drop n bytes) in
    if n == 0 then some [] else elim rest [ none ↦ none | some ls ↦ some (take n bytes ∷ ls) ]

label_of-dotted :
    (l : List ℕ) (ls : List (List ℕ))
    → All (λ c. c ≢ 46) l
    → label_of (l ++ dotted ls) ≡ (l, dotted ls)
unfolding label_of
label_of-dotted [] [] h = refl
label_of-dotted [] (m ∷ ls) h = refl
label_of-dotted (c ∷ cs) ls h = ground (arith, h.0, label_of-dotted cs ls h.1)

encode_labels-wire :
    (f maxlen len : ℕ) (l : List ℕ) (ls : List (List ℕ))
    → All IsLabel (l ∷ ls)
    → len + length (wire (l ∷ ls)) < maxlen
    → length (l ∷ ls) ≤ f
    → encode_labels f maxlen len (l ++ dotted ls) ≡ some (some (wire (l ∷ ls)))
unfolding encode_labels
encode_labels-wire zero maxlen len l ls h lt le = absurd (omega arith)
encode_labels-wire (suc f) maxlen len [] ls h lt le = absurd (omega arith)
encode_labels-wire (suc f) maxlen len (c ∷ cs) [] h lt le =
    ground
      (arith, label_of-dotted (c ∷ cs) [] h.0.2, append-nil cs, length-append (c ∷ cs) [], h.0.1)
encode_labels-wire (suc f) maxlen len (c ∷ cs) (m ∷ ls) h lt le = ground (
  arith,
  label_of-dotted (c ∷ cs) (m ∷ ls) h.0.2,
  length-append (c ∷ cs) (wire (m ∷ ls)),
  h.0.1,
  encode_labels-wire f maxlen (len + length (c ∷ cs) + 1) m ls h.1
      (omega (arith, length-append (c ∷ cs) (wire (m ∷ ls)))) (omega arith),
)

get_elem?-middle :
    (xs : List ℕ) (y : ℕ) (zs : List ℕ) → get_elem? (xs ++ y ∷ zs) (length xs) ≡ some y
get_elem?-middle [] y zs = refl
get_elem?-middle (x ∷ xs) y zs = get_elem?-middle xs y zs

skip_name-wire :
    (f r : ℕ) (before : List ℕ) (ls : List (List ℕ)) (after : List ℕ)
    → All IsLabel ls
    → length before + length (wire ls) < r
    → length ls < f
    → skip_name f (before ++ (wire ls ++ 0 ∷ after)) r (length before)
      ≡ some (length before + length (wire ls) + 1)
unfolding skip_name
skip_name-wire zero r before ls after h lt le = absurd (omega arith)
skip_name-wire (suc f) r before [] after h lt le = ground (arith, get_elem?-middle before 0 after)
skip_name-wire (suc f) r before (l ∷ ls) after h lt le = ground (
  arith,
  get_elem?-middle before (length l) (l ++ (wire ls ++ 0 ∷ after)),
  append_assoc l (wire ls) (0 ∷ after),
  ap (λ p. skip_name f (before ++ length l ∷ (l ++ (wire ls ++ 0 ∷ after))) r p) long,
  ap (λ b. skip_name f b r (length before')) whole,
  skip_name-wire f r before' ls after h.1 room (omega arith),
  long,
  h.0.0,
  h.0.1,
  length-append l (wire ls),
)
  where
    before' : List ℕ
    before' = before ++ length l ∷ l

    long : length before' ≡ length before + 1 + length l
    long = omega (arith, length-append before (length l ∷ l))

    whole : before' ++ (wire ls ++ 0 ∷ after) ≡ before ++ length l ∷ (l ++ (wire ls ++ 0 ∷ after))
    whole = append_assoc before (length l ∷ l) (wire ls ++ 0 ∷ after)

    room : length before' + length (wire ls) < r
    room = omega (arith, long, length-append l (wire ls))

drop-length_append : (xs ys : List ℕ) → drop (length xs) (xs ++ ys) ≡ ys
drop-length_append [] ys = refl
drop-length_append (x ∷ xs) ys = drop-length_append xs ys

read_name-wire :
    (f : ℕ) (ls : List (List ℕ)) (after : List ℕ)
    → All IsLabel ls
    → length ls < f
    → read_name f (wire ls ++ 0 ∷ after) ≡ some ls
unfolding read_name
read_name-wire zero ls after h le = absurd (omega arith)
read_name-wire (suc f) [] after h le = refl
read_name-wire (suc f) (l ∷ ls) after h le = ground (
  arith,
  append_assoc l (wire ls) (0 ∷ after),
  take-length_append l (wire ls ++ 0 ∷ after),
  drop-length_append l (wire ls ++ 0 ∷ after),
  read_name-wire f ls after h.1 (omega arith),
  h.0.0,
)

length-le-wire : (ls : List (List ℕ)) → length ls ≤ length (wire ls)
length-le-wire [] = omega arith
length-le-wire (l ∷ ls) = omega (arith, length-le-wire ls, length-append l (wire ls))

-- A name of labels of 1 to 63 characters without dots, with dots between them, that takes fewer than
-- `maxlen` bytes without its end: with fuel for every label dns_encode_name gives bytes that RFC 1035
-- reads back as these labels, and behind which the loop over a response, with fuel for every byte,
-- goes on, wherever they stand in it.
pub encode_name-skip_name :
    (f maxlen : ℕ) (l : List ℕ) (ls : List (List ℕ))
    → All IsLabel (l ∷ ls)
    → length (wire (l ∷ ls)) < maxlen
    → length (l ∷ ls) ≤ f
    → (bytes : List ℕ) × (encode_name f maxlen (join (l ∷ ls)) ≡ some (some bytes))
      × ((after : List ℕ) → read_name (length (l ∷ ls) + 1) (bytes ++ after) ≡ some (l ∷ ls))
      × ((before after : List ℕ) (r : ℕ)
          → length before + length bytes ≤ r
          → skip_name (r + 1) (before ++ (bytes ++ after)) r (length before)
            ≡ some (length before + length bytes))
unfolding encode_name
encode_name-skip_name f maxlen l ls h lt le = (
  wire (l ∷ ls) ++ 0 ∷ [],
  ground (arith, encode_labels-wire f maxlen 0 l ls h (omega arith) le),
  λ after.
      ap (read_name (length (l ∷ ls) + 1)) (append_assoc (wire (l ∷ ls)) (0 ∷ []) after)
      ∙ read_name-wire (length (l ∷ ls) + 1) (l ∷ ls) after h (omega arith),
  λ before after r room.
      let ends : length (wire (l ∷ ls) ++ 0 ∷ []) ≡ length (wire (l ∷ ls)) + 1 =
        length-append (wire (l ∷ ls)) (0 ∷ []) in
      ap (λ b. skip_name (r + 1) (before ++ b) r (length before))
        (append_assoc (wire (l ∷ ls)) (0 ∷ []) after)
      ∙ skip_name-wire (r + 1) r before (l ∷ ls) after h (omega (arith, ends))
          (omega (arith, ends, length-le-wire (l ∷ ls)))
      ∙ ap some (omega (arith, ends)),
)
