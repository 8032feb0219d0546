-- ===== src/Sockets/Connect.antt =====
-- net/socket.c: what goes through two sockets that are connected.
use shadow_box_os.Common.Errno.{ok}
use shadow_box_os.Common.{
  ℕ, ◌-◌, ◌≤◌, ◌<◌, ◌≡◌, ◌≢◌, ap, ◌∙◌, true, false, none, some, List, [], length, subst, take,
  take_all, min, arith,
}
use shadow_box_os.Fifo
use shadow_box_os.Ring.{Ring, fill, drain, contents}
use shadow_box_os.Ring.Invariant.{IsValid}
use shadow_box_os.Ring.Loops.{fill_refines, drain_refines, fill-IsValid}
use shadow_box_os.Sockets.{
  Socket, Sockets, sock_buf_size, update, read, write, registered, bind, bound_to, joined, connect,
}
use shadow_box_os.Sockets.Registry.{HasFree, bound_to-registered}

-- An empty buffer with its indices in range.
pub record IsIdleRing (r : Ring ℕ) : Type 0 where
  pub valid : IsValid sock_buf_size r
  pub nothing : contents 0 sock_buf_size r ≡ []

abbrev pub IsIdle : Socket → Type 0
IsIdle v = IsIdleRing v.ring

fits_whole :
    (bytes : List ℕ) → length bytes ≤ 4095 → Fifo.push_all 4095 [] bytes ≡ (length bytes, bytes)
unfolding Fifo.push_all
fits_whole bytes short =
    let m : min (length bytes) (4095 - 0) ≡ length bytes = omega arith in
    rw m (ap (λ t. (length bytes, t)) (take_all (length bytes) bytes (omega arith)))

module _ (v : Socket) (bytes : List ℕ) (n : ℕ) (idle : IsIdle v) (short : length bytes ≤ 4095)
    (enough : length bytes ≤ n) where
  filled :
      ◌≡◌ {A = ℕ × List ℕ}
        (
          (fill sock_buf_size v.ring bytes).0,
          contents 0 sock_buf_size (fill sock_buf_size v.ring bytes).1,
        )
        (length bytes, bytes)
  filled =
      fill_refines 0 v.ring bytes idle.valid
      ∙ ap (λ q. Fifo.push_all 4095 q bytes) idle.nothing
      ∙ fits_whole bytes short

  drained : (drain 0 sock_buf_size n (fill sock_buf_size v.ring bytes).1).0 ≡ bytes
  unfolding Fifo.pop_all
  drained =
      ap (λ p. p.0)
        (drain_refines 0 n (fill sock_buf_size v.ring bytes).1
          (fill-IsValid v.ring bytes idle.valid))
      ∙ ap (take n) (ap (λ p. p.1) filled)
      ∙ take_all n bytes enough

-- What a socket writes to an idle peer, up to 4095 bytes, is taken whole, and the peer reads it in
-- order if it asks for as many.
pub streamed :
    (s : Sockets) (a p : ℕ) (bytes : List ℕ) (n : ℕ)
    → (s.socket a).peer ≡ some p
    → IsIdle (s.socket p)
    → length bytes ≤ 4095
    → length bytes ≤ n
    → ((write s a bytes).0 ≡ length bytes) × ((read (write s a bytes).1 p n).0 ≡ bytes)
unfolding write read
streamed s a p bytes n peer idle short enough = (
  ground (arith, peer, filled (s.socket p) bytes n idle short enough),
  ground (arith, peer, drained (s.socket p) bytes n idle short enough),
)

-- Of two different sockets, both idle and without peers, `b` is not bound yet and binds a path of at
-- most 127 characters that no other is bound to, with a free slot in the registry, and `a` connects to
-- it: both calls succeed, and then what either writes, up to 4095 bytes, is taken whole and read by the
-- other in order, if it asks for as many.
pub connect_lem :
    (s : Sockets) (a b : ℕ) (path bytes : List ℕ) (n : ℕ)
    → a ≢ b
    → (s.socket b).bound ≡ false
    → length path < 128
    → HasFree s.registry
    → bound_to s.socket s.registry path ≡ none
    → (s.socket a).peer ≡ none
    → (s.socket b).peer ≡ none
    → IsIdle (s.socket a)
    → IsIdle (s.socket b)
    → length bytes ≤ 4095
    → length bytes ≤ n
    → (s' : Sockets) × (s'' : Sockets) × (bind s (some b) path ≡ some (ok 0, s'))
      × (connect s' (some a) path ≡ (ok 0, s''))
      × ((write s'' a bytes).0 ≡ length bytes)
      × ((read (write s'' a bytes).1 b n).0 ≡ bytes)
      × ((write s'' b bytes).0 ≡ length bytes)
      × ((read (write s'' b bytes).1 a n).0 ≡ bytes)
unfolding bind connect joined
connect_lem s a b path bytes n apart unbound fits free new a_alone b_alone a_idle b_idle short
      enough =
    let (b_wrote, a_got) = streamed s'' b a bytes n b_peer a_still short enough in
    let (a_wrote, b_got) = streamed s'' a b bytes n a_peer b_still short enough in
    (s', s'', ground (arith, unbound, fits), connected, a_wrote, b_got, b_wrote, a_got)
  where
    s' : Sockets
    s' = record (update s b (record (s.socket b) { bound = true; path = path })) {
      registry = registered s.registry b;
    }

    s'' : Sockets
    s'' = joined s' a b

    found : bound_to s'.socket s'.registry path ≡ some b
    found =
        bound_to-registered s.socket s'.socket s.registry b path free (λ x ne. ground (arith, ne))
          (ground arith) (ground arith) new

    connected : connect s' (some a) path ≡ (ok 0, s'')
    connected = ground (arith, a_alone, apart, found)

    a_peer : (s''.socket a).peer ≡ some b
    a_peer = ground (arith, apart, a_alone, b_alone)

    b_peer : (s''.socket b).peer ≡ some a
    b_peer = ground (arith, apart, a_alone, b_alone)

    a_still : IsIdle (s''.socket a)
    a_still = subst (λ (r : Ring ℕ). IsIdleRing r) (ground (arith, apart)) a_idle

    b_still : IsIdle (s''.socket b)
    b_still = subst (λ (r : Ring ℕ). IsIdleRing r) (ground (arith, apart, b_alone)) b_idle
