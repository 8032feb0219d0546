-- ===== src/Notification/Lists.antt =====
-- kernel/notification.c: sending, dismissing and peeking over the list.
use shadow_box_os.Common.{
  ℕ, ◌+◌, ◌^◌, ◌≤◌, ◌<◌, ◌≡◌, refl, sym, ap, arith, inl, inr, true, false, some, List, [], ◌∷◌, map,
  take, length, min, Bool-cases, ◌==◌, if◌then◌else◌,
}
use shadow_box_os.Notification.{Note, Daemon, send, without_first, dismiss, peek}

-- Later notifications have larger numbers, and all were given out.
abbrev pub Falling : ℕ → List Note → Type 0
Falling bound [] = Unit
Falling bound (n ∷ ns) = (n.id < bound) × Falling n.id ns

abbrev pub IsSound : Daemon → Type 0
IsSound d = Falling d.next_notify_id d.notes

-- The notifications with another number, in their order.
abbrev pub others : ℕ → List Note → List Note
others id [] = []
others id (n ∷ ns) = if n.id == id then others id ns else n ∷ others id ns

Falling-le : (b c : ℕ) (ns : List Note) → b ≤ c → Falling b ns → Falling c ns
Falling-le b c [] h f = tt
Falling-le b c (n ∷ ns) h f = (omega (arith, f.0), f.1)

others_all : (b id : ℕ) (ns : List Note) → b ≤ id → Falling b ns → others id ns ≡ ns
others_all b id [] h f = refl
others_all b id (n ∷ ns) h f =
    let other : (n.id == id) ≡ false = ground (arith, f.0) in
    rw other (ap (◌∷◌ n) (others_all n.id id ns (omega (arith, f.0)) f.1))

without_first_lem :
    (b id : ℕ) (ns : List Note)
    → Falling b ns
    → (without_first ns id ≡ others id ns) × Falling b (without_first ns id)
unfolding without_first
without_first_lem b id [] f = (refl, tt)
without_first_lem b id (n ∷ ns) f = elim (Bool-cases (n.id == id)) [
  | inl e ↦
      let same : n.id ≡ id = ground arith in
      rw (e, without_first)
        (
          sym (others_all n.id id ns (omega arith) f.1),
          Falling-le n.id b ns (omega (arith, f.0)) f.1,
        )
  | inr e ↦
      let (rest, falling) = without_first_lem n.id id ns f.1 in
      rw (e, without_first) (ap (◌∷◌ n) rest, (f.0, falling))
]

-- In a list whose numbers fall, notification_dismiss takes out the notification with the number, if
-- there is one, and leaves all the others in their order; the numbers still fall.
pub dismiss_lem :
    (d : Daemon) (id : ℕ)
    → IsSound d
    → ((dismiss d id).notes ≡ others id d.notes) × IsSound (dismiss d id)
dismiss_lem d id s = without_first_lem d.next_notify_id id d.notes s

-- While numbers are left and the numbers in the list fall, a notification with memory for it is
-- entered at the front of the list, before all the others as they were, under the number that is
-- returned; no other has that number, the numbers still fall, and its dismissal gives the list from
-- before.
pub send-dismiss :
    (d : Daemon) (n : Note)
    → IsSound d
    → d.next_notify_id + 1 < 2 ^ 32
    → let (id, e) = send d (some n) true in
      (e.notes ≡ record n { id = id } ∷ d.notes)
      × IsSound e
      × (others id d.notes ≡ d.notes)
      × ((dismiss e id).notes ≡ d.notes)
unfolding send without_first
send-dismiss d n s left =
    let self : (d.next_notify_id == d.next_notify_id) ≡ true = ground arith in
    (
      refl,
      (omega arith, s),
      others_all d.next_notify_id d.next_notify_id d.notes (omega arith) s,
      rw (self, without_first) refl,
    )

-- notification_peek fills as many slots as it has and as there are notifications, newest first, with
-- the numbers of the notifications.
pub peek_lem :
    (out ns : List Note)
    → (length (peek out ns) ≡ min (length out) (length ns))
      × (map (λ (n : Note). n.id) (peek out ns) ≡ map (λ (n : Note). n.id) (take (length out) ns))
unfolding peek
peek_lem [] ns = (omega arith, refl)
peek_lem (old ∷ out) [] = (omega arith, refl)
peek_lem (old ∷ out) (n ∷ ns) =
    let (size, ids) = peek_lem out ns in (omega (arith, size), ap (◌∷◌ n.id) ids)
