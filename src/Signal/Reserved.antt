-- ===== src/Signal/Reserved.antt =====
-- SIGKILL and SIGSTOP: no sequence of calls lets a process handle, ignore or block them.
use shadow_box_os.Common.{
  ℕ, zero, suc, ◌+◌, ◌-◌, ◌%◌, ◌^◌, ◌≤◌, ◌<◌, ◌≡◌, ◌≢◌, ◌⊎◌, inl, inr, refl, sym, ap, ap₂, ◌∙◌,
  Bool, true, false, not, ◌&&◌, ◌||◌, Option, none, some, List, [], ◌∷◌, arith, bit_or, ◌==◌,
  Bool-cases, Option-cases, ltb, get_or, get_or-set_ne,
}
use shadow_box_os.Common.Bits.{test_bit, complement, bit_or-lt, bit_and-lt}
use shadow_box_os.Common.Int.{ℤ, pos, negsuc}
use shadow_box_os.Common.Errno.{Result, ok, err}
use shadow_box_os.Signal.{
  Process, SigAction, Action, sigaction, signal, sigprocmask, masked, spared, check_and_deliver,
  signalled, woken, in_range, settable, action_of, with_action, sigkill, sigstop, cleared,
  deliver_from, sig_ign, cleared_action, bit_of, without, default_action, handle, terminate, plain,
}
use shadow_box_os.Signal.Mask.{test_bit-spared}
use shadow_box_os.Signal.Deliver.{AreWords, check_and_deliver_lem, Settled, bit_of-small}
use shadow_box_os.Signal.Send.{woken_lem}

-- What happens to one process: its own system calls, a signal that arrives, a delivery.
pub data Event : Type 0 where
  sets_action : ℤ → Option SigAction → Event
  sets_handler : ℤ → ℕ → Event
  masks : ℕ → Option ℕ → Event
  arrives : ℤ → Event
  delivers : Event

abbrev after_action : Process → Result (SigAction × Process) → Process
after_action p (ok (old, q)) = q
after_action p (err e) = p

abbrev after_mask : Process → Result (Unit {0}) × Option ℕ × Option Process → Process
after_mask p (r, old, none) = p
after_mask p (r, old, some q) = q

abbrev after_arrival : Process → Option ℕ → Process
after_arrival p none = p
after_arrival p (some n) = woken (signalled p n)

-- A mask that comes from user space is a 64-bit word.
abbrev as_word : Option ℕ → Option ℕ
as_word none = none
as_word (some m) = some (m % 2 ^ 64)

unfoldable pub step : Process → Event → Process
step p (sets_action sig act) = after_action p (sigaction (some p) sig act)
step p (sets_handler sig handler) = (signal p sig handler).1
step p (masks how m) = after_mask p (sigprocmask (some p) how (as_word m))
step p (arrives sig) = after_arrival p (in_range sig)
step p delivers = (check_and_deliver p).1

unfoldable pub run : Process → List Event → Process
run p [] = p
run p (e ∷ es) = run (step p e) es

-- Both actions are the default ones, both bits of the mask are clear, and the masks are words.
pub record IsReserved (p : Process) : Type 0 where
  pub words : AreWords p
  pub kill_default : (action_of p sigkill).handler ≡ 0
  pub stop_default : (action_of p sigstop).handler ≡ 0
  pub kill_free : test_bit p.sig_blocked 8 ≡ false
  pub stop_free : test_bit p.sig_blocked 18 ≡ false

with_action-IsReserved :
    (p : Process) (n : ℕ) (act : Option SigAction)
    → 1 ≤ n
    → n ≢ 9
    → n ≢ 19
    → IsReserved p
    → IsReserved (with_action p n act)
with_action-IsReserved p n none low nk ns v = v
with_action-IsReserved p n (some a) low nk ns v = record {
  words = record { pending_word = v.words.pending_word; blocked_word = v.words.blocked_word };
  kill_default =
      ap (λ x. x.handler) (get_or-set_ne p.sig_actions (n - 1) 8 a _ (omega arith))
      ∙ v.kill_default;
  stop_default =
      ap (λ x. x.handler) (get_or-set_ne p.sig_actions (n - 1) 18 a _ (omega arith))
      ∙ v.stop_default;
  kill_free = v.kill_free;
  stop_free = v.stop_free;
}

settable-eq-some : (sig : ℤ) (n : ℕ) → settable sig ≡ some n → (1 ≤ n) × (n ≢ 9) × (n ≢ 19)
settable-eq-some (negsuc k) n e = cc
settable-eq-some (pos k) n e = ground arith

sigaction-IsReserved :
    (p : Process) (sig : ℤ) (act : Option SigAction)
    → IsReserved p
    → IsReserved (after_action p (sigaction (some p) sig act))
unfolding sigaction
sigaction-IsReserved p sig act v = elim (Option-cases (settable sig)) [
  | inl refused ↦ rw (refused, sigaction) v
  | inr (n, e) ↦
      let (low, nk, ns) = settable-eq-some sig n e in
      rw (e, sigaction) (with_action-IsReserved p n act low nk ns v)
]

signal-IsReserved :
    (p : Process) (sig : ℤ) (handler : ℕ) → IsReserved p → IsReserved (signal p sig handler).1
unfolding signal sigaction
signal-IsReserved p sig handler v = elim (Option-cases (settable sig)) [
  | inl refused ↦ rw (refused, signal) v
  | inr (n, e) ↦
      let (low, nk, ns) = settable-eq-some sig n e in
      rw (e, signal) (with_action-IsReserved p n (some (plain handler)) low nk ns v)
]

masked-lt :
    (how old m : ℕ) {m' : ℕ} → old < 2 ^ 64 → m < 2 ^ 64 → masked how old m ≡ some m' → m' < 2 ^ 64
masked-lt zero old m {m' = m'} h p e =
    let same : bit_or old m ≡ m' = cc in omega (arith, bit_or-lt 64 old m h p)
masked-lt (suc zero) old m {m' = m'} h p e =
    let same : without old m ≡ m' = cc in omega (arith, bit_and-lt 64 old (complement 64 m) h)
masked-lt (suc (suc zero)) old m {m' = m'} h p e = let same : m ≡ m' = cc in omega arith
masked-lt (suc (suc (suc how))) old m h p e = cc

spared-lt : (m : ℕ) → m < 2 ^ 64 → spared m < 2 ^ 64
spared-lt m h =
    bit_and-lt 64 (without m (bit_of sigkill)) (complement 64 (bit_of sigstop))
      (bit_and-lt 64 m (complement 64 (bit_of sigkill)) h)

sigprocmask-IsReserved :
    (p : Process) (how : ℕ) (m : Option ℕ)
    → IsReserved p
    → IsReserved (after_mask p (sigprocmask (some p) how (as_word m)))
unfolding sigprocmask
sigprocmask-IsReserved p how none v = v
sigprocmask-IsReserved p how (some m) v =
    elim (Option-cases (masked how p.sig_blocked (m % 2 ^ 64))) [
      | inl e ↦ rw (e, sigprocmask) v
      | inr (m', e) ↦
          rw (e, sigprocmask)
            (record {
              words = record {
                pending_word = v.words.pending_word;
                blocked_word =
                    spared-lt m' (
                      masked-lt how p.sig_blocked (m % 2 ^ 64) v.words.blocked_word (omega arith)
                        e);
              };
              kill_default = v.kill_default;
              stop_default = v.stop_default;
              kill_free = test_bit-spared m' 8 (omega arith) ∙ ground arith;
              stop_free = test_bit-spared m' 18 (omega arith) ∙ ground arith;
            })
    ]

-- A delivery keeps the actions and the blocked mask, and the pending mask a word.
record Keeps (p q : Process) : Type 0 where
  pending_word : q.sig_pending < 2 ^ 64
  blocked_same : q.sig_blocked ≡ p.sig_blocked
  actions_same : q.sig_actions ≡ p.sig_actions

deliver_from-Keeps :
    (rounds sig word : ℕ) (p : Process)
    → p.sig_pending < 2 ^ 64
    → Keeps p (deliver_from rounds sig word p).1
unfolding deliver_from
deliver_from-Keeps zero sig word p h = record {
  pending_word = h;
  blocked_same = refl;
  actions_same = refl;
}
deliver_from-Keeps (suc rounds) sig word p h =
    let fewer = bit_and-lt 64 p.sig_pending (complement 64 (bit_of sig)) h in
    ground (
      arith,
      deliver_from-Keeps rounds (sig + 1) word p h,
      deliver_from-Keeps rounds (sig + 1) word (cleared p sig) fewer,
      fewer,
    )

Keeps-IsReserved : (p q : Process) → Keeps p q → IsReserved p → IsReserved q
Keeps-IsReserved p q k v = record {
  words = record {
    pending_word = k.pending_word;
    blocked_word = rw k.blocked_same v.words.blocked_word;
  };
  kill_default =
      ap (λ acts. (get_or acts 8 cleared_action).handler) k.actions_same ∙ v.kill_default;
  stop_default =
      ap (λ acts. (get_or acts 18 cleared_action).handler) k.actions_same ∙ v.stop_default;
  kill_free = ap (λ b. test_bit b 8) k.blocked_same ∙ v.kill_free;
  stop_free = ap (λ b. test_bit b 18) k.blocked_same ∙ v.stop_free;
}

delivery-IsReserved : (p : Process) → IsReserved p → IsReserved (check_and_deliver p).1
unfolding check_and_deliver
delivery-IsReserved p v = elim (Bool-cases (without p.sig_pending p.sig_blocked == 0)) [
  | inl e ↦ rw (e, check_and_deliver) v
  | inr e ↦
      rw (e, check_and_deliver)
        (Keeps-IsReserved p _
          (deliver_from-Keeps 31 1 (without p.sig_pending p.sig_blocked) p v.words.pending_word) v)
]

arrival-IsReserved :
    (p : Process) (sig : ℤ) → IsReserved p → IsReserved (after_arrival p (in_range sig))
arrival-IsReserved p (negsuc k) v = v
arrival-IsReserved p (pos n) v = elim (Bool-cases (ltb n 1 || ltb 31 n)) [
  | inl out ↦ rw out v
  | inr within ↦ rw within (
      Keeps-IsReserved p (woken (signalled p n))
        (let facts = woken_lem (signalled p n) in
          record {
            pending_word = rw facts.1 (
                bit_or-lt 64 p.sig_pending (bit_of n) v.words.pending_word
                  (bit_of-small n (ground arith)));
            blocked_same = facts.2;
            actions_same = facts.3;
          })
        v)
]

step-IsReserved : (p : Process) (e : Event) → IsReserved p → IsReserved (step p e)
unfolding step
step-IsReserved p (sets_action sig act) v = sigaction-IsReserved p sig act v
step-IsReserved p (sets_handler sig handler) v = signal-IsReserved p sig handler v
step-IsReserved p (masks how m) v = sigprocmask-IsReserved p how m v
step-IsReserved p (arrives sig) v = arrival-IsReserved p sig v
step-IsReserved p delivers v = delivery-IsReserved p v

-- From a process for which it holds, whatever calls it makes and whatever signals arrive, the actions of SIGKILL and SIGSTOP
-- stay the default ones and neither is ever blocked.
pub run-IsReserved : (p : Process) (es : List Event) → IsReserved p → IsReserved (run p es)
unfolding run
run-IsReserved p [] v = v
run-IsReserved p (e ∷ es) v = run-IsReserved (step p e) es (step-IsReserved p e v)

compare_nine : (n : ℕ) → (n < 9) ⊎ (n ≡ 9) ⊎ (9 < n)
compare_nine n = omega arith

split_and : (a b : Bool) → (a && not b) ≡ true → (a ≡ true) × (b ≡ false)
split_and a b e = ground arith

-- The delivery of `q` takes the signal, which has a lower number than SIGKILL, is pending and neither
-- blocked nor ignored: it acts by the signal's handler.
pub record TakesLower (q : Process) (act : Option Action) : Type 0 where
  pub sig : ℕ
  pub low : (1 ≤ sig) × (sig < 9)
  pub is_pending : test_bit q.sig_pending (sig - 1) ≡ true
  pub is_free : test_bit q.sig_blocked (sig - 1) ≡ false
  pub is_heeded : (action_of q sig).handler ≢ sig_ign
  pub acts : act ≢ none
  pub by_handler : act ≡ handle sig (action_of q sig).handler

handle-ign : (sig handler : ℕ) → handle sig handler ≢ none → handler ≢ sig_ign
unfolding handle
handle-ign sig handler h e = ground (arith, h)

kill_first :
    (q : Process) (word : ℕ) {act : Option Action} {after : Process}
    → (action_of q sigkill).handler ≡ 0
    → test_bit word 8 ≡ true
    → ((sig : ℕ)
        → 1 ≤ sig
        → sig < 9
        → test_bit word (sig - 1) ≡ true
        → (test_bit q.sig_pending (sig - 1) ≡ true) × (test_bit q.sig_blocked (sig - 1) ≡ false))
    → Settled word 1 q act after
    → (act ≡ some (terminate 137)) ⊎ TakesLower q act
unfolding handle default_action
kill_first q word kill set_bit lower s = elim s.taken [
  | inl (_, _, ignores) ↦ absurd (omega (arith, ignores 9 (omega arith) (omega arith) set_bit))
  | inr (sig, _, low, bit, does, acts, ignores) ↦ elim (compare_nine sig) [
    | inl below ↦
        let (is_pending, is_free) = lower sig low below bit in
        inr (record {
          sig = sig;
          low = (low, below);
          is_pending = is_pending;
          is_free = is_free;
          is_heeded = handle-ign sig (action_of q sig).handler (λ e. acts (sym does ∙ e));
          acts = acts;
          by_handler = sym does;
        })
    | inr (inl nine) ↦
        inl (sym does ∙ ap₂ handle nine (ap (λ n. (action_of q n).handler) nine ∙ kill))
    | inr (inr above) ↦ absurd (omega (arith, ignores 9 (omega arith) above set_bit))
  ]
]

-- A process whose SIGKILL and SIGSTOP started out with the default action and not blocked, and which
-- has SIGKILL pending, whatever else happened to it before: the next delivery terminates it with
-- status 137, unless it acts on a signal with a lower number that is pending and neither blocked nor
-- ignored, by that signal's handler.
pub kill_terminates :
    (p : Process) (es : List Event)
    → IsReserved p
    → test_bit (run p es).sig_pending 8 ≡ true
    → ((check_and_deliver (run p es)).0 ≡ some (terminate 137))
      ⊎ TakesLower (run p es) (check_and_deliver (run p es)).0
kill_terminates p es v pending =
    let q = run p es in
    let r = run-IsReserved p es v in
    let (word, bits, settled) = check_and_deliver_lem q r.words in
    kill_first q word r.kill_default
      (bits 9 (omega arith) (omega arith) ∙ ap₂ (λ a b. a && not b) pending r.kill_free)
      (λ sig low below bit. split_and _ _ (sym (bits sig low (omega arith)) ∙ bit)) settled
