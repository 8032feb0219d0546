-- ===== src/Ipc/Messages/Lookup.antt =====
-- The list of message queues of kernel/ipc.c: what a write to one queue leaves in the others.
use shadow_box_os.Common.{
  ℕ, ◌≡◌, ◌≢◌, refl, sym, ap, subst, ◌∙◌, arith, inl, inr, true, false, some, List, [], ◌∷◌,
  Bool-cases, ◌==◌, if◌then◌else◌, All,
}
use shadow_box_os.Ipc.Messages.{Queue, find_id, update}

==_eq : (a b : ℕ) → (a == b) ≡ true → a ≡ b
==_eq a b e = ground arith

pub find_id-update_self :
    (qs : List Queue) (id : ℕ) (v : Queue) {q : Queue}
    → v.id ≡ id
    → find_id qs id ≡ some q
    → find_id (update qs id v) id ≡ some v
unfolding find_id update
find_id-update_self [] id v named found = cc
find_id-update_self (p ∷ qs) id v named found = elim (Bool-cases (p.id == id)) [
  | inl e ↦ let same : (v.id == id) ≡ true = ground arith in rw (e, update, same, find_id) refl
  | inr e ↦
      let later = sym (ap (λ b. if b then some p else find_id qs id) e) ∙ found in
      rw (e, update, e, find_id) (find_id-update_self qs id v named later)
]

pub find_id-update_ne :
    (qs : List Queue) (id j : ℕ) (v : Queue)
    → v.id ≡ id
    → j ≢ id
    → find_id (update qs id v) j ≡ find_id qs j
unfolding find_id update
find_id-update_ne [] id j v named ne = refl
find_id-update_ne (p ∷ qs) id j v named ne = elim (Bool-cases (p.id == id)) [
  | inl e ↦
      let other : (v.id == j) ≡ false = ground arith in
      let other' : (p.id == j) ≡ false = ground arith in rw (e, update, other, other', find_id) refl
  | inr e ↦
      rw (e, update, find_id)
        (ap (λ r. if p.id == j then some p else r) (find_id-update_ne qs id j v named ne))
]

pub All-update {κ} :
    (P : Queue → Type κ) (qs : List Queue) (id : ℕ) (v : Queue)
    → All P qs
    → P v
    → All P (update qs id v)
unfolding update
All-update P [] id v h p = tt
All-update P (q ∷ qs) id v h p = elim (Bool-cases (q.id == id)) [
  | inl e ↦ rw (e, update) (p, h.1)
  | inr e ↦ rw (e, update) (h.0, All-update P qs id v h.1 p)
]

pub All-find_id {κ} :
    (P : Queue → Type κ) (qs : List Queue) (id : ℕ) (q : Queue)
    → All P qs
    → find_id qs id ≡ some q
    → P q × (q.id ≡ id)
unfolding find_id
All-find_id P [] id q h found = cc
All-find_id P (p ∷ qs) id q h found = elim (Bool-cases (p.id == id)) [
  | inl e ↦
      let here : some p ≡ some q = sym (ap (λ b. if b then some p else find_id qs id) e) ∙ found in
      let same : p ≡ q = cc in
      (subst P same h.0, ap (λ (x : Queue). x.id) (sym same) ∙ ==_eq p.id id e)
  | inr e ↦
      All-find_id P qs id q h.1 (sym (ap (λ b. if b then some p else find_id qs id) e) ∙ found)
]
