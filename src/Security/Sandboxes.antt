-- ===== src/Security/Sandboxes.antt =====
-- kernel/security.c: sandboxes, found by their number in a table of 64 slots.
use shadow_box_os.Common.Errno.{Result, ok, err, enomem, enoent}
use shadow_box_os.Common.{
  ℕ, ◌+◌, ◌-◌, ◌%◌, ◌^◌, ◌≤◌, ◌<◌, ◌≡◌, ◌≢◌, refl, ap, subst, ◌∙◌, ◌⊎◌, inl, inr, Bool, true, false,
  not, Option, none, some, List, [], ◌∷◌, length, take, set, get_or, leb, ◌==◌, if◌then◌else◌,
  arith, ℕ_discrete, Bool-cases, Option-cases, get_or-set_self, get_or-set_ne, length-set,
}
use shadow_box_os.Security.{Caps, cap_set_full}

-- The bytes of the name before a terminator; 64 bytes leave no place for one.
pub record Sandbox : Type 0 where
  pub id : ℕ
  pub name : List ℕ
  pub flags : ℕ
  pub cap_bound : Caps
  pub restricted_syscalls : List ℕ
  pub refcount : ℕ

-- The numbers are those of an int that counts up from 1, so `next_id` stands below 2^31 - 1 when
-- sandbox_create is called.
pub record Table : Type 0 where
  pub slots : List (Option Sandbox)
  pub sandbox_count : ℕ
  pub next_id : ℕ

abbrev pub max_sandboxes : ℕ
max_sandboxes = 64

abbrev pub security_label_max : ℕ
security_label_max = 64

-- strncpy of the name, or of "unnamed".
abbrev pub name_or_unnamed : Option (List ℕ) → List ℕ
name_or_unnamed none = b'u' ∷ b'n' ∷ b'n' ∷ b'a' ∷ b'm' ∷ b'e' ∷ b'd' ∷ []
name_or_unnamed (some name) = take security_label_max name

unfoldable pub bound_or_full : Option Caps → Caps
bound_or_full none = cap_set_full
bound_or_full (some s) = s

-- `given` says that the allocation succeeds.
unfoldable pub sandbox_create : Table → Option (List ℕ) → ℕ → Option Caps → Bool → Result ℕ × Table
sandbox_create t name flags bound given =
    let id = t.next_id in
    let sb : Sandbox = record {
      id = id;
      name = name_or_unnamed name;
      flags = flags;
      cap_bound = bound_or_full bound;
      restricted_syscalls = 0 ∷ 0 ∷ 0 ∷ 0 ∷ [];
      refcount = 0;
    } in
    if leb max_sandboxes t.sandbox_count
    then (err enomem, t)
    else if not given
    then (err enomem, t)
    else (
      ok id,
      record {
        slots = set t.slots (id % max_sandboxes) (some sb);
        sandbox_count = t.sandbox_count + 1;
        next_id = t.next_id + 1;
      },
    )

unfoldable pub sandbox_get : Table → ℕ → Option Sandbox
sandbox_get t id = elim (get_or t.slots (id % max_sandboxes) none) [
  | none ↦ none
  | some sb ↦ if sb.id == id then some sb else none
]

unfoldable pub sandbox_attach : Table → ℕ → Result ℕ × Table
sandbox_attach t id = elim (sandbox_get t id) [
  | none ↦ (err enoent, t)
  | some sb ↦ (
    ok 0,
    record t {
      slots = set t.slots (id % max_sandboxes) (some (record sb { refcount = sb.refcount + 1 }));
    },
  )
]

unfoldable pub sandbox_destroy : Table → ℕ → Result ℕ × Table
sandbox_destroy t id = elim (sandbox_get t id) [
  | none ↦ (err enoent, t)
  | some sb ↦ (
    ok 0,
    record t { slots = set t.slots (id % max_sandboxes) none; sandbox_count = t.sandbox_count - 1 },
  )
]

-- 64 slots.
abbrev pub HasSlots : Table → Type 0
HasSlots t = length t.slots ≡ max_sandboxes

abbrev in_slot : Option Sandbox → ℕ → Option Sandbox
in_slot none q = none
in_slot (some sb) q = if sb.id == q then some sb else none

-- What is found once the slot of `id` was written.
sandbox_get-set :
    (t : Table) (id count next q : ℕ) (o : Option Sandbox)
    → HasSlots t
    → sandbox_get
        (record {
          slots = set t.slots (id % max_sandboxes) o;
          sandbox_count = count;
          next_id = next;
        })
        q
      ≡ (if q % max_sandboxes == id % max_sandboxes then in_slot o q else sandbox_get t q)
unfolding sandbox_get
sandbox_get-set t id count next q o h = elim (ℕ_discrete (id % max_sandboxes) (q % max_sandboxes)) [
  | yes same ↦
      let here : get_or (set t.slots (id % max_sandboxes) o) (q % max_sandboxes) none ≡ o =
        subst (λ i. get_or (set t.slots (id % max_sandboxes) o) i none ≡ o) same
          (get_or-set_self t.slots (id % max_sandboxes) o none (omega (arith, h))) in
      elim (Option-cases o) [
        | inl empty ↦ ground (arith, here, same, empty)
        | inr (sb, held) ↦ ground (arith, here, same, held)
      ]
  | no other ↦
      ground
        (arith, other, get_or-set_ne t.slots (id % max_sandboxes) (q % max_sandboxes) o none other)
]

-- Of the numbers of one slot only that of its sandbox is found.
one_in_slot :
    (t : Table) (id q : ℕ) (sb : Sandbox)
    → sandbox_get t id ≡ some sb
    → q % max_sandboxes ≡ id % max_sandboxes
    → q ≢ id
    → sandbox_get t q ≡ none
unfolding sandbox_get
one_in_slot t id q sb h e other =
    let slot = get_or t.slots (id % max_sandboxes) none in
    elim (Option-cases slot) [
      | inl empty ↦ ground (arith, empty)
      | inr (x, held) ↦
          let there : get_or t.slots (q % max_sandboxes) none ≡ some x =
            ap (λ i. get_or t.slots i none) e ∙ held in
          ground (arith, held, there)
    ]

-- In a table of 64 slots, with a next number that the counter can go on from, sandbox_create fails,
-- and changes nothing, if 64 sandboxes are counted or no memory is given; otherwise, and only then, it
-- gives the next number to a sandbox that is found under it, with the name as far as 64 bytes, the
-- flags and the capabilities of the call, and what was found before is found as before, but for a
-- sandbox in the same slot, whose number differs by a multiple of 64: that one is lost.
pub sandbox_create_lem :
    (t : Table) (name : Option (List ℕ)) (flags : ℕ) (bound : Option Caps) (given : Bool)
    → HasSlots t
    → t.next_id + 1 < 2 ^ 31
    → ((sandbox_create t name flags bound given ≡ (err enomem, t))
        × ((max_sandboxes ≤ t.sandbox_count) ⊎ (given ≡ false)))
      ⊎ ((t.sandbox_count < max_sandboxes)
          × (given ≡ true)
          × (t' : Table) × (sandbox_create t name flags bound given ≡ (ok t.next_id, t'))
          × HasSlots t'
          × (t'.sandbox_count ≡ t.sandbox_count + 1)
          × (t'.next_id ≡ t.next_id + 1)
          × ((q : ℕ)
              → sandbox_get t' q ≡ (
                  if q == t.next_id
                  then some (record {
                    id = t.next_id;
                    name = name_or_unnamed name;
                    flags = flags;
                    cap_bound = bound_or_full bound;
                    restricted_syscalls = 0 ∷ 0 ∷ 0 ∷ 0 ∷ [];
                    refcount = 0;
                  })
                  else if q % max_sandboxes == t.next_id % max_sandboxes
                  then none
                  else sandbox_get t q)))
unfolding sandbox_create
sandbox_create_lem t name flags bound given h small =
    elim (Bool-cases (leb max_sandboxes t.sandbox_count)) [
      | inl full ↦ inl (ground (arith, full), inl (ground arith))
      | inr room ↦ elim (Bool-cases given) [
        | inr no_memory ↦ inl (ground (arith, room, no_memory), inr no_memory)
        | inl memory ↦
            let sb : Sandbox = record {
              id = t.next_id;
              name = name_or_unnamed name;
              flags = flags;
              cap_bound = bound_or_full bound;
              restricted_syscalls = 0 ∷ 0 ∷ 0 ∷ 0 ∷ [];
              refcount = 0;
            } in
            inr (
              ground (arith, room),
              memory,
              record {
                slots = set t.slots (t.next_id % max_sandboxes) (some sb);
                sandbox_count = t.sandbox_count + 1;
                next_id = t.next_id + 1;
              },
              ground (arith, room, memory),
              length-set t.slots (t.next_id % max_sandboxes) (some sb) ∙ h,
              refl,
              refl,
              λ q. ground (
                arith,
                sandbox_get-set t t.next_id (t.sandbox_count + 1) (t.next_id + 1) q (some sb) h,
              ),
            )
      ]
    ]

-- sandbox_destroy of a number that is not found fails with ENOENT and changes nothing; of one that
-- is found it takes it out, so that it is not found any more, counts it, and leaves all others.
pub sandbox_destroy_lem :
    (t : Table) (id : ℕ)
    → HasSlots t
    → ((sandbox_destroy t id ≡ (err enoent, t)) × (sandbox_get t id ≡ none))
      ⊎ ((sb : Sandbox) × (t' : Table) × (sandbox_get t id ≡ some sb)
          × (sandbox_destroy t id ≡ (ok 0, t'))
          × HasSlots t'
          × (t'.sandbox_count ≡ t.sandbox_count - 1)
          × ((q : ℕ) → sandbox_get t' q ≡ (if q == id then none else sandbox_get t q)))
unfolding sandbox_destroy
sandbox_destroy_lem t id h = elim (Option-cases (sandbox_get t id)) [
  | inl absent ↦ inl (ground (arith, absent), absent)
  | inr (sb, found) ↦ inr (
    sb,
    record t { slots = set t.slots (id % max_sandboxes) none; sandbox_count = t.sandbox_count - 1 },
    found,
    ground (arith, found),
    length-set t.slots (id % max_sandboxes) none ∙ h,
    refl,
    λ q. ground (
      arith,
      sandbox_get-set t id (t.sandbox_count - 1) t.next_id q none h,
      one_in_slot t id q sb found,
    ),
  )
]
