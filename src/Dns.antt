-- ===== src/Dns.antt =====
-- net/dns.c: the names on the wire, IPv4 literals, the answers of a server, and the cache. What the
-- network does is an argument; the machine is little-endian.
pub mod Wire
pub mod Answers
mod Examples
use shadow_box_os.Common.Errno.{Result, ok, err, einval, enodev, enomem, eperm}
use shadow_box_os.Common.Text.{matches}
use shadow_box_os.Common.{
  ℕ, zero, suc, ◌+◌, ◌-◌, ◌*◌, ◌/◌, ◌%◌, ◌^◌, Bool, true, false, not, ◌&&◌, ◌||◌, Option, none,
  some, List, [], ◌∷◌, ◌++◌, length, take, get_elem?, ltb, leb, ◌==◌, if◌then◌else◌,
}

-- The characters up to the next dot, and what follows them.
unfoldable pub label_of : List ℕ → List ℕ × List ℕ
label_of [] = ([], [])
label_of (c ∷ cs) =
    let (label, rest) = label_of cs in if c == 46 then ([], c ∷ cs) else (c ∷ label, rest)

-- The loop over the labels, with `len` bytes written. The outer `none` is that the fuel ran out, the
-- inner one is -1.
unfoldable pub encode_labels : ℕ → ℕ → ℕ → List ℕ → Option (Option (List ℕ))
encode_labels zero maxlen len name = none
encode_labels (suc f) maxlen len [] = some (some [])
encode_labels (suc f) maxlen len (c ∷ cs) =
    let (label, rest) = label_of (c ∷ cs) in
    let n = length label in
    if (n == 0) || ltb 63 n
    then some none
    else if leb maxlen (len + n + 1)
    then some none
    else elim rest [
      | [] ↦ some (some (n ∷ label))
      | dot ∷ more ↦ elim (encode_labels f maxlen (len + n + 1) more) [
        | none ↦ none
        | some none ↦ some none
        | some (some out) ↦ some (some (n ∷ label ++ out))
      ]
    ]

unfoldable pub encode_name : ℕ → ℕ → List ℕ → Option (Option (List ℕ))
encode_name f maxlen name = elim (encode_labels f maxlen 0 name) [
  | none ↦ none
  | some none ↦ some none
  | some (some []) ↦ some none
  | some (some (b ∷ out)) ↦ some (some ((b ∷ out) ++ 0 ∷ []))
]

abbrev pub is_digit : ℕ → Bool
is_digit c = leb 48 c && leb c 57

unfoldable pub all_numeric : List ℕ → Bool
all_numeric [] = true
all_numeric (c ∷ cs) = (is_digit c || (c == 46)) && all_numeric cs

abbrev pub is_literal : List ℕ → Bool
is_literal [] = false
is_literal (c ∷ cs) = all_numeric (c ∷ cs)

-- One part of a literal, and what follows it.
unfoldable pub part_of : ℕ → List ℕ → ℕ × List ℕ
part_of part [] = (part, [])
part_of part (c ∷ cs) =
    let next = part_of ((part * 10 + (c - 48)) % 2 ^ 32) cs in
    if c == 46 then (part, c ∷ cs) else next

abbrev pub after_dot : List ℕ → List ℕ
after_dot [] = []
after_dot (c ∷ cs) = if c == 46 then cs else c ∷ cs

-- The parts that are left to read; `|` is a sum here, since the low byte is 0.
unfoldable pub literal : ℕ → ℕ → List ℕ → ℕ
literal zero ip s = ip
literal (suc left) ip s =
    let (part, rest) = part_of 0 s in
    literal left ((ip * 256) % 2 ^ 32 + part % 256) (after_dot rest)

-- Behind the name at `pos` of the `r` bytes of a response. `none` is a read outside the buffer.
unfoldable pub skip_name : ℕ → List ℕ → ℕ → ℕ → Option ℕ
skip_name zero resp r pos = none
skip_name (suc f) resp r pos =
    if ltb pos r
    then elim (get_elem? resp pos) [
      | none ↦ none
      | some l ↦
          let next = skip_name f resp r (pos + 1 + l) in
          if l == 0 then some (pos + 1) else if leb 192 l then some (pos + 2) else next
    ]
    else some pos

-- A number of two bytes, the high one first.
unfoldable pub word_at : List ℕ → ℕ → Option ℕ
word_at resp pos = elim (get_elem? resp pos) [
  | none ↦ none
  | some hi ↦ elim (get_elem? resp (pos + 1)) [ none ↦ none | some lo ↦ some (hi * 256 + lo) ]
]

unfoldable pub address_at : List ℕ → ℕ → Option ℕ
address_at resp pos = elim (word_at resp pos) [
  | none ↦ none
  | some hi ↦ elim (word_at resp (pos + 2)) [ none ↦ none | some lo ↦ some (hi * 65536 + lo) ]
]

-- The address of the record at `pos`, if it is one and lies in the response.
unfoldable pub record_at : List ℕ → ℕ → ℕ → ℕ → ℕ → Option (List ℕ)
record_at resp r pos kind rdlen =
    if (kind == 1) && ((rdlen == 4) && leb (pos + 14) r)
    then elim (address_at resp (pos + 10)) [ none ↦ none | some ip ↦ some (ip ∷ []) ]
    else some []

-- The addresses of the answers, in their order.
unfoldable pub answers : ℕ → List ℕ → ℕ → ℕ → Option (List ℕ)
answers zero resp r pos = some []
answers (suc left) resp r pos =
    if ltb pos r
    then elim (skip_name (r + 1) resp r pos) [
      | none ↦ none
      | some p ↦ if ltb r (p + 10) then some [] else elim (word_at resp p) [
        | none ↦ none
        | some kind ↦ elim (word_at resp (p + 8)) [
          | none ↦ none
          | some rdlen ↦ elim (record_at resp r p kind rdlen) [
            | none ↦ none
            | some found ↦ elim (answers left resp r (p + 10 + rdlen)) [
              | none ↦ none
              | some ips ↦ some (found ++ ips)
            ]
          ]
        ]
      ]
    ]
    else some []

-- A response of `r` bytes, more than the 12 of the header.
unfoldable pub parse_response : List ℕ → ℕ → Option (List ℕ)
parse_response resp r = elim (word_at resp 6) [
  | none ↦ none
  | some ancount ↦ elim (skip_name (r + 1) resp r 12) [
    | none ↦ none
    | some p ↦ answers ancount resp r (p + 4)
  ]
]

pub record CacheEntry : Type 0 where
  pub name : List ℕ
  pub ip : ℕ

abbrev pub cache_entries : ℕ
cache_entries = 8

unfoldable pub cached : List CacheEntry → List ℕ → Option ℕ
cached [] name = none
cached (e ∷ cache) name = if matches e.name name then some e.ip else cached cache name

unfoldable pub cache_add : List CacheEntry → List ℕ → List ℕ → List CacheEntry
cache_add cache name [] = cache
cache_add cache name (ip ∷ ips) =
    let more =
      if ltb (length cache) cache_entries
      then cache ++ record { name = take 63 name; ip = ip } ∷ []
      else cache in
    cache_add more name ips

-- The query in its 512 bytes; `none` is a write behind them.
unfoldable pub query : ℕ → List ℕ → Option (List ℕ)
query id wire =
    let bytes =
      id % 256
      ∷ (id / 256) % 256
      ∷ 0
      ∷ 1
      ∷ 1
      ∷ 0
      ∷ 0
      ∷ 0
      ∷ 0
      ∷ 0
      ∷ 0
      ∷ 0
      ∷ (wire ++ 0 ∷ 1 ∷ 0 ∷ 1 ∷ []) in
    if leb (length bytes) 512 then some bytes else none

-- What comes back: nothing in time, or so many bytes of the buffer.
pub data Reply : Type 0 where
  no_reply : Reply
  reply : List ℕ → ℕ → Reply

abbrev pub last_of : List ℕ → Option ℕ
last_of [] = none
last_of (x ∷ []) = some x
last_of (x ∷ y ∷ ys) = last_of (y ∷ ys)

-- A response that is long enough; -1 is EPERM.
unfoldable pub answered : List CacheEntry → List ℕ → Reply → Option (Result ℕ × List CacheEntry)
answered cache name no_reply = some (err eperm, cache)
answered cache name (reply resp r) = elim (parse_response resp r) [
  | none ↦ none
  | some ips ↦
      some (elim (last_of ips) [ none ↦ err eperm | some ip ↦ ok ip ], cache_add cache name ips)
]

-- `none` is an access outside a buffer.
unfoldable pub resolve :
    List CacheEntry → List ℕ → Bool → Bool → ℕ → Reply → Option (Result ℕ × List CacheEntry)
resolve cache name device socket id answer =
    if is_literal name then some (ok (literal 4 0 name), cache) else elim (cached cache name) [
      | some ip ↦ some (ok ip, cache)
      | none ↦
          if not device
          then some (err enodev, cache)
          else if not socket
          then some (err enomem, cache)
          else elim (encode_name (length name + 1) 500 name) [
            | none ↦ none
            | some none ↦ some (err einval, cache)
            | some (some wire) ↦ elim (query id wire) [
              | none ↦ none
              | some bytes ↦ answered cache name answer
            ]
          ]
    ]
