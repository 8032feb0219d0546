-- ===== src/Signal/Mask.antt =====
-- The blocked mask, bit by bit: what sys_sigprocmask makes of it.
use shadow_box_os.Common.{
  ℕ, zero, suc, ◌^◌, ◌≤◌, ◌<◌, ◌≡◌, ◌⊎◌, inl, inr, refl, ap, ◌∙◌, Bool, not, ◌&&◌, ◌||◌, some,
  arith, ◌==◌,
}
use shadow_box_os.Common.Bits.{
  test_bit, complement, test_bit-bit_or, test_bit-bit_and, test_bit-complement, test_bit-pow,
}
use shadow_box_os.Common.Errno.{einval, ok, err}
use shadow_box_os.Signal.{Process, sigprocmask, masked, spared, without, bit_of, sigkill, sigstop}

-- Taking `y` out of `x` clears its bits.
pub test_bit-without :
    (x y k : ℕ)
    → y < 2 ^ 64
    → k < 64
    → test_bit (without x y) k ≡ test_bit x k && not (test_bit y k)
test_bit-without x y k h p =
    test_bit-bit_and x (complement 64 y) k
    ∙ ap (◌&&◌ (test_bit x k)) (test_bit-complement 64 y k h p)

-- What each `how` asks of bit `k`.
abbrev pub wanted : ℕ → Bool → Bool → Bool
wanted zero old new = old || new
wanted (suc zero) old new = old && not new
wanted (suc (suc _)) old new = new

pub test_bit-spared :
    (m k : ℕ) → k < 64 → test_bit (spared m) k ≡ (test_bit m k && not (8 == k)) && not (18 == k)
test_bit-spared m k h = ground (
  arith,
  test_bit-without (without m (bit_of sigkill)) (bit_of sigstop) k,
  test_bit-without m (bit_of sigkill) k,
  test_bit-pow 8 k,
  test_bit-pow 18 k,
)

masked_bits :
    (how old m k : ℕ) {m' : ℕ}
    → m < 2 ^ 64
    → k < 64
    → masked how old m ≡ some m'
    → test_bit m' k ≡ wanted how (test_bit old k) (test_bit m k)
masked_bits zero old m k h p e = ground (arith, test_bit-bit_or old m k)
masked_bits (suc zero) old m k h p e = ground (arith, test_bit-without old m k h p)
masked_bits (suc (suc zero)) old m k h p e = ground arith
masked_bits (suc (suc (suc how))) old m k h p e = cc

-- The process whose mask is `m'` but for the two bits.
abbrev remasked : Process → ℕ → Process
remasked p m' = record p { sig_blocked = spared m' }

replaced :
    (p : Process) (how m : ℕ) {m' : ℕ}
    → m < 2 ^ 64
    → masked how p.sig_blocked m ≡ some m'
    → (q : Process) × (sigprocmask (some p) how (some m) ≡ (ok tt, some p.sig_blocked, some q))
      × (q.sig_pending ≡ p.sig_pending)
      × ((k : ℕ)
          → k < 64
          → test_bit q.sig_blocked k
            ≡ (wanted how (test_bit p.sig_blocked k) (test_bit m k) && not (8 == k))
              && not (18 == k))
unfolding sigprocmask
replaced p how m {m' = m'} h e = (
  remasked p m',
  rw (e, sigprocmask),
  refl,
  λ k small.
      test_bit-spared m' k small
      ∙ ap (λ b. (b && not (8 == k)) && not (18 == k))
          (masked_bits how p.sig_blocked m k h small e),
)

-- A mask and a `how` of 0, 1 or 2 give status 0 and a new mask whose every bit is as `how` says,
-- but for SIGKILL's and SIGSTOP's, which are clear; any other `how` is refused with EINVAL and
-- changes nothing. The old mask is returned in either case.
pub sigprocmask_lem :
    (p : Process) (how m : ℕ)
    → m < 2 ^ 64
    → ((how < 3)
        × ((q : Process) × (sigprocmask (some p) how (some m) ≡ (ok tt, some p.sig_blocked, some q))
            × (q.sig_pending ≡ p.sig_pending)
            × ((k : ℕ)
                → k < 64
                → test_bit q.sig_blocked k
                  ≡ (wanted how (test_bit p.sig_blocked k) (test_bit m k) && not (8 == k))
                    && not (18 == k))))
      ⊎ ((3 ≤ how) × (sigprocmask (some p) how (some m) ≡ (err einval, some p.sig_blocked, some p)))
unfolding sigprocmask
sigprocmask_lem p zero m h = inl (omega arith, replaced p zero m h refl)
sigprocmask_lem p (suc zero) m h = inl (omega arith, replaced p (suc zero) m h refl)
sigprocmask_lem p (suc (suc zero)) m h = inl (omega arith, replaced p (suc (suc zero)) m h refl)
sigprocmask_lem p (suc (suc (suc how))) m h = inr (omega arith, refl)
