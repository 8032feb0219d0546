-- ===== src/Sockets/Examples.antt =====
-- net/socket.c at concrete sockets.
use shadow_box_os.Common.Errno.{ok}
use shadow_box_os.Common.{
  ℕ, ◌≡◌, refl, none, some, List, [], ◌∷◌, arith, replicate, length-replicate,
}
use shadow_box_os.Ring.Invariant.{IsValid}
use shadow_box_os.Ring.Loops.{contents-empty}
use shadow_box_os.Sockets.{
  Sockets, new_socket, sock_buf_size, max_sockets, read, write, bind, bound_to, connect,
}
use shadow_box_os.Sockets.Connect.{IsIdle, connect_lem}

abbrev fresh_sockets : Sockets
fresh_sockets = record { socket = λ a. new_socket; registry = replicate max_sockets none }

new_socket-IsIdle : IsIdle new_socket
new_socket-IsIdle = record { valid = valid; nothing = contents-empty 0 new_socket.ring valid refl }
  where
    valid : IsValid sock_buf_size new_socket.ring
    valid = record {
      backed = omega (arith, length-replicate {A = ℕ} 4096 0);
      head_in = omega arith;
      tail_in = omega arith;
    }

abbrev path : List ℕ
path = 47 ∷ 115 ∷ []

nothing_bound : bound_to fresh_sockets.socket fresh_sockets.registry path ≡ none
unfolding bound_to
nothing_bound = refl

connect_lem_example :
    (s' : Sockets) × (s'' : Sockets) × (bind fresh_sockets (some 2) path ≡ some (ok 0, s'))
    × (connect s' (some 1) path ≡ (ok 0, s''))
    × ((write s'' 1 (7 ∷ 8 ∷ [])).0 ≡ 2)
    × ((read (write s'' 1 (7 ∷ 8 ∷ [])).1 2 9).0 ≡ 7 ∷ 8 ∷ [])
    × ((write s'' 2 (7 ∷ 8 ∷ [])).0 ≡ 2)
    × ((read (write s'' 2 (7 ∷ 8 ∷ [])).1 1 9).0 ≡ 7 ∷ 8 ∷ [])
connect_lem_example =
    connect_lem fresh_sockets 1 2 path (7 ∷ 8 ∷ []) 9 (omega arith) refl (omega arith) tt
      nothing_bound refl refl new_socket-IsIdle new_socket-IsIdle (omega arith) (omega arith)
