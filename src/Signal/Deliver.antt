-- ===== src/Signal/Deliver.antt =====
-- Which signal check_and_deliver_signals takes, and which stay pending.
use native.Mathlib.Nat.{pow-le-pow_right}
use shadow_box_os.Common.{
  ℕ, zero, suc, ◌+◌, ◌-◌, ◌^◌, ◌≤◌, ◌<◌, ◌≡◌, ◌≢◌, ◌⊎◌, inl, inr, refl, ap, ◌∙◌, Bool, true, false,
  not, ◌&&◌, Option, none, some, arith, bit_and, ◌==◌, Bool-cases, Option-cases, ltb, leb,
  ℕ_discrete, ==_iff,
}
use shadow_box_os.Common.Bits.{test_bit, test_bit-pow, bit_and-pow-eq-zero, test_bit-zero}
use shadow_box_os.Signal.{
  Process, Action, without, bit_of, handle, action_of, cleared, deliver_from, check_and_deliver,
  sig_ign,
}
use shadow_box_os.Signal.Mask.{test_bit-without}

pub record AreWords (p : Process) : Type 0 where
  pub pending_word : p.sig_pending < 2 ^ 64
  pub blocked_word : p.sig_blocked < 2 ^ 64

-- Signal `sig` is pending and not blocked.
abbrev pub deliverable : Process → ℕ → Bool
deliverable p sig = test_bit p.sig_pending (sig - 1) && not (test_bit p.sig_blocked (sig - 1))

-- The deliverable signals among `from` to `upto - 1` are ignored by the process.
abbrev pub Ignores : Process → ℕ → ℕ → ℕ → Type 0
Ignores p word from upto =
    (sig : ℕ)
    → from ≤ sig
    → sig < upto
    → test_bit word (sig - 1) ≡ true
    → (action_of p sig).handler ≡ sig_ign

-- Bit `k` is one of `word`, of a signal from `from` to `upto - 1`.
abbrev pub looked_at : ℕ → ℕ → ℕ → ℕ → Bool
looked_at word from upto k = test_bit word k && (leb from (k + 1) && ltb (k + 1) upto)

-- The signals of `word` from `from` to `stop - 1` are no longer pending, and no others changed.
-- Either all of them are ignored, or all but the last, which led to the action.
pub record Settled (word from : ℕ) (p : Process) (act : Option Action) (q : Process) : Type 0 where
  pub stop : ℕ
  pub in_order : (from ≤ stop) × (stop ≤ 32)
  pub bits :
      (k : ℕ)
      → k < 64
      → test_bit q.sig_pending k ≡ test_bit p.sig_pending k && not (looked_at word from stop k)
  pub taken :
      ((act ≡ none) × (stop ≡ 32) × Ignores p word from 32)
      ⊎ ((sig : ℕ) × (stop ≡ sig + 1)
          × (from ≤ sig)
          × (test_bit word (sig - 1) ≡ true)
          × (handle sig (action_of p sig).handler ≡ act)
          × (act ≢ none)
          × Ignores p word from sig)

pub bit_of-small : (sig : ℕ) → sig ≤ 31 → bit_of sig < 2 ^ 64
bit_of-small sig h =
    omega (arith, pow-le-pow_right {n = 2} (omega arith) {i = sig - 1} {j = 31} (omega arith))

-- Clearing a signal clears its bit alone.
bits-cleared :
    (p : Process) (sig k : ℕ)
    → sig ≤ 31
    → k < 64
    → test_bit (cleared p sig).sig_pending k ≡ test_bit p.sig_pending k && not (sig - 1 == k)
bits-cleared p sig k h small =
    test_bit-without p.sig_pending (bit_of sig) k (bit_of-small sig h) small
    ∙ ap (λ b. test_bit p.sig_pending k && not b) (test_bit-pow (sig - 1) k)

handle-none : (sig handler : ℕ) → handle sig handler ≡ none → handler ≡ sig_ign
unfolding handle
handle-none sig handler e = ground arith

is_set : (sig word : ℕ) → test_bit word (sig - 1) ≡ true → (bit_and word (bit_of sig) == 0) ≡ false
is_set sig word h = bit_and-pow-eq-zero word (sig - 1) ∙ ap not h

is_clear :
    (sig word : ℕ) → test_bit word (sig - 1) ≡ false → (bit_and word (bit_of sig) == 0) ≡ true
is_clear sig word h = bit_and-pow-eq-zero word (sig - 1) ∙ ap not h

Ignores-extend :
    (p : Process) (word sig upto : ℕ)
    → (test_bit word (sig - 1) ≡ true → (action_of p sig).handler ≡ sig_ign)
    → Ignores p word (sig + 1) upto
    → Ignores p word sig upto
Ignores-extend p word sig upto here later s from below bit = elim (ℕ_discrete s sig) [
  | yes e ↦ rw e (here (rw e at bit))
  | no ne ↦ later s (omega arith) below bit
]

module _ (sig word : ℕ) (p : Process) (low : 1 ≤ sig) where
  -- What the rounds after `sig` settle, all rounds from `sig` on settle, if the bit is clear.
  skipped :
      {act : Option Action} {q : Process}
      → test_bit word (sig - 1) ≡ false
      → Settled word (sig + 1) p act q
      → Settled word sig p act q
  skipped clear_bit rest = record {
    stop = rest.stop;
    in_order = omega arith;
    bits = λ k small. elim (ℕ_discrete (sig - 1) k) [
      | yes e ↦ ground (arith, rest.bits k, ap (test_bit word) e)
      | no ne ↦ ground (arith, rest.bits k)
    ];
    taken = elim rest.taken [
      | inl (none_left, at_end, ig) ↦
          inl (none_left, at_end, Ignores-extend p word sig 32 (λ b. cc) ig)
      | inr (n, at_n, from, bit, does, acts, ig) ↦
          inr (n, at_n, omega arith, bit, does, acts, Ignores-extend p word sig n (λ b. cc) ig)
    ];
  }

  passed :
      {act : Option Action} {q : Process}
      → sig ≤ 31
      → test_bit word (sig - 1) ≡ true
      → (action_of p sig).handler ≡ sig_ign
      → Settled word (sig + 1) (cleared p sig) act q
      → Settled word sig p act q
  passed high set_bit ign rest = record {
    stop = rest.stop;
    in_order = omega arith;
    bits = λ k small. elim (ℕ_discrete (sig - 1) k) [
      | yes e ↦ ground (arith, rest.bits k, bits-cleared p sig k, ap (test_bit word) e)
      | no ne ↦ ground (arith, rest.bits k, bits-cleared p sig k)
    ];
    taken = elim rest.taken [
      | inl (none_left, at_end, ig) ↦
          inl (none_left, at_end, Ignores-extend p word sig 32 (λ _. ign) ig)
      | inr (n, at_n, from, bit, does, acts, ig) ↦
          inr (n, at_n, omega arith, bit, does, acts, Ignores-extend p word sig n (λ _. ign) ig)
    ];
  }

  halted :
      (a : Action)
      → sig ≤ 31
      → test_bit word (sig - 1) ≡ true
      → handle sig (action_of p sig).handler ≡ some a
      → Settled word sig p (some a) (cleared p sig)
  halted a high set_bit done = record {
    stop = sig + 1;
    in_order = omega arith;
    bits = λ k small. elim (ℕ_discrete (sig - 1) k) [
      | yes e ↦ ground (arith, bits-cleared p sig k, ap (test_bit word) e)
      | no ne ↦ ground (arith, bits-cleared p sig k)
    ];
    taken =
        inr (sig, refl, omega arith, set_bit, done, λ e. cc, λ s from below. absurd (omega arith));
  }

deliver_from-Settled :
    (rounds sig word : ℕ) (p : Process)
    → 1 ≤ sig
    → sig + rounds ≡ 32
    → let (act, q) = deliver_from rounds sig word p in Settled word sig p act q
unfolding deliver_from
deliver_from-Settled zero sig word p low e = record {
  stop = 32;
  in_order = omega arith;
  bits = λ k small. ground arith;
  taken = inl (refl, refl, λ s from below. absurd (omega arith));
}
deliver_from-Settled (suc rounds) sig word p low e = elim (Bool-cases (test_bit word (sig - 1))) [
  | inl set_bit ↦ elim (Option-cases (handle sig (action_of p sig).handler)) [
    | inl on ↦
        rw (is_set sig word set_bit, on, deliver_from)
          (passed sig word p low (omega arith) set_bit (handle-none sig _ on) (
            deliver_from-Settled rounds (sig + 1) word (cleared p sig) (omega arith) (omega arith)))
    | inr (a, done) ↦
        rw (is_set sig word set_bit, done, deliver_from)
          (halted sig word p low a (omega arith) set_bit done)
  ]
  | inr clear_bit ↦
      rw (is_clear sig word clear_bit, deliver_from)
        (skipped sig word p low clear_bit
          (deliver_from-Settled rounds (sig + 1) word p (omega arith) (omega arith)))
]

-- Where both masks are 64-bit words, check_and_deliver_signals looks at the signals 1 to 31 that are pending and not blocked, from the
-- lowest: it takes the first that the process does not ignore, with the action of its handler, and
-- clears it and the ignored ones below it; if all are ignored it clears them and takes none. No
-- other signal's pending bit changes, so a blocked signal stays pending.
pub check_and_deliver_lem :
    (p : Process)
    → AreWords p
    → let (act, q) = check_and_deliver p in
      (word : ℕ) × ((sig : ℕ)
        → 1 ≤ sig
        → sig ≤ 31
        → test_bit word (sig - 1)
          ≡ test_bit p.sig_pending (sig - 1) && not (test_bit p.sig_blocked (sig - 1)))
      × Settled word 1 p act q
unfolding check_and_deliver
check_and_deliver_lem p w = (
  word,
  λ sig low high.
      test_bit-without p.sig_pending p.sig_blocked (sig - 1) w.blocked_word (omega arith),
  elim (Bool-cases (word == 0)) [
    | inl e ↦ rw (e, check_and_deliver) (nothing ((==_iff word 0).0 e))
    | inr e ↦ rw (e, check_and_deliver) (deliver_from-Settled 31 1 word p (omega arith) refl)
  ],
)
  where
    word : ℕ
    word = without p.sig_pending p.sig_blocked

    nothing : word ≡ 0 → Settled word 1 p none p
    nothing e = record {
      stop = 32;
      in_order = omega arith;
      bits = λ k small. rw e (ground (arith, test_bit-zero k));
      taken = inl (
        refl,
        refl,
        λ s from below bit. ground (arith, ap (λ x. test_bit x (s - 1)) e, test_bit-zero (s - 1)),
      );
    }
