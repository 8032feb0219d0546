-- ===== src/Dns/Answers.antt =====
-- net/dns.c: the loop over the answers of a response stays in the bytes that were received.
use shadow_box_os.Common.{
  ℕ, zero, suc, ◌+◌, ◌*◌, ◌≤◌, ◌<◌, ◌≡◌, refl, inl, inr, ◌&&◌, Bool-cases, some, List, [], ◌∷◌,
  ◌++◌, length, get_elem?, ltb, leb, ltb→lt, ◌==◌, arith, length-append,
}
use shadow_box_os.Dns.{skip_name, word_at, address_at, record_at, answers, parse_response}

get_elem?-in : (xs : List ℕ) (i : ℕ) → i < length xs → (x : ℕ) × (get_elem? xs i ≡ some x)
get_elem?-in [] i h = absurd (omega arith)
get_elem?-in (x ∷ xs) zero h = (x, refl)
get_elem?-in (x ∷ xs) (suc i) h = get_elem?-in xs i (omega arith)

module _ (resp : List ℕ) (r : ℕ) (inside : r ≤ length resp) where
  skip_name_total : (f pos : ℕ) → r < pos + f → 0 < f → (p : ℕ) × (skip_name f resp r pos ≡ some p)
  unfolding skip_name
  skip_name_total zero pos h q = absurd (omega arith)
  skip_name_total (suc f) pos h q = elim (Bool-cases (ltb pos r)) [
    | inr out ↦ (pos, ground (arith, out))
    | inl more ↦
        let (l, found) = get_elem?-in resp pos (omega (arith, ltb→lt pos r more, inside)) in
        elim (Bool-cases (l == 0)) [
          | inl z ↦ (pos + 1, ground (arith, more, found, z))
          | inr nz ↦ elim (Bool-cases (leb 192 l)) [
            | inl big ↦ (pos + 2, ground (arith, more, found, nz, big))
            | inr small ↦
                let (p, eq) =
                  skip_name_total f (pos + 1 + l) (omega arith)
                    (omega (arith, h, ltb→lt pos r more)) in
                (p, ground (arith, more, found, nz, small, eq))
          ]
        ]
  ]

  word_at_total : (pos : ℕ) → pos + 2 ≤ r → (w : ℕ) × (word_at resp pos ≡ some w)
  unfolding word_at
  word_at_total pos h =
      let (hi, first) = get_elem?-in resp pos (omega (arith, inside)) in
      let (lo, second) = get_elem?-in resp (pos + 1) (omega (arith, inside)) in
      (hi * 256 + lo, ground (arith, first, second))

  address_at_total : (pos : ℕ) → pos + 4 ≤ r → (w : ℕ) × (address_at resp pos ≡ some w)
  unfolding address_at
  address_at_total pos h =
      let (hi, first) = word_at_total pos (omega arith) in
      let (lo, second) = word_at_total (pos + 2) (omega arith) in
      (hi * 65536 + lo, ground (arith, first, second))

  record_at_total :
      (pos kind rdlen : ℕ)
      → (ips : List ℕ) × (record_at resp r pos kind rdlen ≡ some ips) × (length ips ≤ 1)
  unfolding record_at
  record_at_total pos kind rdlen =
      elim (Bool-cases ((kind == 1) && ((rdlen == 4) && leb (pos + 14) r))) [
        | inr other ↦ ([], ground (arith, other), omega arith)
        | inl more ↦
            let (ip, found) = address_at_total (pos + 10) (ground (arith, more)) in
            (ip ∷ [], ground (arith, more, found), omega arith)
      ]

  answers_total :
      (left pos : ℕ) → (ips : List ℕ) × (answers left resp r pos ≡ some ips) × (length ips ≤ left)
  unfolding answers
  answers_total zero pos = ([], refl, omega arith)
  answers_total (suc left) pos = elim (Bool-cases (ltb pos r)) [
    | inr out ↦ ([], ground (arith, out), omega arith)
    | inl more ↦
        let (p, skipped) = skip_name_total (r + 1) pos (omega arith) (omega arith) in
        elim (Bool-cases (ltb r (p + 10))) [
          | inl out ↦ ([], ground (arith, more, skipped, out), omega arith)
          | inr room ↦
              let fits : p + 10 ≤ r = ground (arith, room) in
              let (kind, k) = word_at_total p (omega (arith, fits)) in
              let (rdlen, n) = word_at_total (p + 8) (omega (arith, fits)) in
              let (found, rec, one) = record_at_total p kind rdlen in
              let (ips, rest, few) = answers_total left (p + 10 + rdlen) in
              (
                found ++ ips,
                ground (arith, more, skipped, room, k, n, rec, rest),
                omega (arith, one, few, length-append found ips),
              )
        ]
  ]

-- A response of more than 12 bytes that lie in its buffer: the loops end, no byte behind those
-- received is read, and there are at most as many addresses as the response counts answers.
pub parse_response_total :
    (resp : List ℕ) (r : ℕ)
    → 12 < r
    → r ≤ length resp
    → (ips : List ℕ) × (ancount : ℕ) × (parse_response resp r ≡ some ips)
      × (word_at resp 6 ≡ some ancount)
      × (length ips ≤ ancount)
unfolding parse_response
parse_response_total resp r long inside =
    let (ancount, counted) = word_at_total resp r inside 6 (omega arith) in
    let (p, skipped) = skip_name_total resp r inside (r + 1) 12 (omega arith) (omega arith) in
    let (ips, read, few) = answers_total resp r inside ancount (p + 4) in
    (ips, ancount, ground (arith, counted, skipped, read), counted, few)
