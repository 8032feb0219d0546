-- ===== src/Sockets/Registry.antt =====
-- net/socket.c: the search for a path in the registry, after a socket was bound.
use shadow_box_os.Common.Text.{matches, matches_self}
use shadow_box_os.Common.{
  ℕ, ◌≡◌, ◌≢◌, true, ◌&&◌, inl, inr, Bool-cases, Option, none, some, List, [], ◌∷◌, ◌==◌, arith,
}
use shadow_box_os.Sockets.{Socket, registered, bound_to}

-- Some slot is free.
abbrev pub HasFree : List (Option ℕ) → Type 0
HasFree [] = ⊥
HasFree (none ∷ slots) = Unit
HasFree (some b ∷ slots) = HasFree slots

pub bound_to-registered :
    (socket socket' : ℕ → Socket) (slots : List (Option ℕ)) (a : ℕ) (path : List ℕ)
    → HasFree slots
    → ((x : ℕ) → x ≢ a → socket' x ≡ socket x)
    → (socket' a).bound ≡ true
    → (socket' a).path ≡ path
    → bound_to socket slots path ≡ none
    → bound_to socket' (registered slots a) path ≡ some a
unfolding bound_to registered
bound_to-registered socket socket' [] a path free same b p new = absurd free
bound_to-registered socket socket' (none ∷ slots) a path free same b p new =
    rw p (ground (arith, b, matches_self path))
bound_to-registered socket socket' (some c ∷ slots) a path free same b p new =
    elim (Bool-cases (c == a)) [
      | inl this ↦
          let e : c ≡ a = ground (arith, this) in rw (e, p) (ground (arith, b, matches_self path))
      | inr other ↦
          rw (same c (ground (arith, other)))
            (elim (Bool-cases ((socket c).bound && matches path (socket c).path)) [
              | inl found ↦ absurd (ground (arith, found, new))
              | inr missed ↦ ground (
                arith,
                missed,
                bound_to-registered socket socket' slots a path free same b p
                    (ground (arith, missed, new)),
              )
            ])
    ]
