-- ===== src/Dns/Examples.antt =====
-- net/dns.c at concrete inputs.
use shadow_box_os.Common.{ℕ, ◌+◌, ◌≤◌, ◌≡◌, refl, some, List, [], ◌∷◌, ◌++◌, length, arith}
use shadow_box_os.Dns.{
  encode_name, skip_name, word_at, record_at, address_at, answers, parse_response,
}
use shadow_box_os.Dns.Answers.{parse_response_total}
use shadow_box_os.Dns.Wire.{encode_name-skip_name, join, read_name}

abbrev label : List ℕ
label = 97 ∷ 98 ∷ []

encode_name-skip_name_example :
    (bytes : List ℕ) × (encode_name 2 500 (join (label ∷ label ∷ [])) ≡ some (some bytes))
    × ((after : List ℕ) → read_name 3 (bytes ++ after) ≡ some (label ∷ label ∷ []))
    × ((before after : List ℕ) (r : ℕ)
        → length before + length bytes ≤ r
        → skip_name (r + 1) (before ++ (bytes ++ after)) r (length before)
          ≡ some (length before + length bytes))
encode_name-skip_name_example =
    encode_name-skip_name 2 500 label (label ∷ [])
      (
        (omega arith, omega arith, (omega arith, (omega arith, tt))),
        ((omega arith, omega arith, (omega arith, (omega arith, tt))), tt),
      )
      (omega arith) (omega arith)

-- One answer, 10.0.2.3, to a question with the empty name.
abbrev response : List ℕ
response =
    0 ∷ 0 ∷ 0 ∷ 0 ∷ 0 ∷ 1 ∷ 0 ∷ 1 ∷ 0 ∷ 0 ∷ 0 ∷ 0 ∷ 0 ∷ 0 ∷ 1 ∷ 0 ∷ 1 ∷ 192 ∷ 12 ∷ 0 ∷ 1 ∷ 0 ∷ 1 ∷ 0
    ∷ 0 ∷ 0 ∷ 0 ∷ 0 ∷ 4 ∷ 10 ∷ 0 ∷ 2 ∷ 3 ∷ []

response_address : parse_response response 33 ≡ some (167772675 ∷ [])
unfolding parse_response skip_name word_at record_at address_at answers
response_address = refl

parse_response_total_example :
    (ips : List ℕ) × (ancount : ℕ) × (parse_response response 33 ≡ some ips)
    × (word_at response 6 ≡ some ancount)
    × (length ips ≤ ancount)
parse_response_total_example = parse_response_total response 33 (omega arith) (omega arith)
