-- ===== src/Tcp/Timers.antt =====
-- The congestion window and the retransmission timer of net/tcp.c.
use shadow_box_os.Common.{
  ℕ, ◌+◌, ◌-◌, ◌*◌, ◌/◌, ◌%◌, ◌^◌, ◌≤◌, ◌<◌, ◌≡◌, refl, arith, ◌⊎◌, inl, inr, Bool-cases, ◌==◌, ltb,
  min, max,
}
use shadow_box_os.Tcp.{Socket, congestion_control, update_rtt, sampled, clamped, abs_diff}

-- A window of at most 65535 never shrinks by congestion_control, stays at most 65535, and is doubled
-- below the threshold and raised by 1460 from it on, up to that bound.
pub congestion_control_lem :
    (s : Socket)
    → s.cwnd ≤ 65535
    → let t = congestion_control s in
      (s.cwnd ≤ t.cwnd)
      × (t.cwnd ≤ 65535)
      × (((s.cwnd < s.ssthresh) × (t.cwnd ≡ min (2 * s.cwnd) 65535))
          ⊎ ((s.ssthresh ≤ s.cwnd) × (t.cwnd ≡ min (s.cwnd + 1460) 65535)))
unfolding congestion_control
congestion_control_lem s h = elim (Bool-cases (ltb s.cwnd s.ssthresh)) [
  | inl e ↦
      rw (e, congestion_control) (ground arith, ground arith, inl (ground arith, ground arith))
  | inr e ↦
      rw (e, congestion_control) (ground arith, ground arith, inr (ground arith, ground arith))
]

clamped_lem : (n : ℕ) → (200 ≤ clamped n) × (clamped n ≤ 120000)
clamped_lem n = ground arith

abs_diff_lem : (a b : ℕ) → a < 2 ^ 28 → b < 2 ^ 28 → abs_diff a b ≡ max a b - min a b
abs_diff_lem a b h k = ground arith

-- For times below 2^28 ms, update_rtt takes the first sample as it is, and later moves the estimate
-- to a value between the old one and the sample, and the deviation to at most the larger of the old
-- deviation and the distance of the sample; the timer ends up from 200 to 120000 ms in any case.
pub update_rtt_lem :
    (s : Socket) (sample : ℕ)
    → s.rtt < 2 ^ 28
    → s.rtt_var < 2 ^ 28
    → sample < 2 ^ 28
    → let t = update_rtt s sample in
      (200 ≤ t.rto)
      × (t.rto ≤ 120000)
      × (((s.rtt ≡ 0) × (t.rtt ≡ sample) × (t.rtt_var ≡ sample / 2))
          ⊎ ((0 < s.rtt)
              × (min s.rtt sample ≤ t.rtt)
              × (t.rtt ≤ max s.rtt sample)
              × (t.rtt_var ≤ max s.rtt_var (max s.rtt sample - min s.rtt sample))))
unfolding update_rtt
update_rtt_lem s sample h k m =
    let t = sampled s sample in
    let (low, high) = clamped_lem ((t.rtt + 4 * t.rtt_var) % 2 ^ 32) in
    elim (Bool-cases (s.rtt == 0)) [
      | inl e ↦
          let first : s.rtt ≡ 0 = ground arith in
          (low, high, inl (first, rw (e, update_rtt) refl, rw (e, update_rtt) refl))
      | inr e ↦
          let dist = abs_diff_lem s.rtt sample h m in
          (
            low,
            high,
            inr (
              ground arith,
              rw (e, update_rtt) (omega arith),
              rw (e, update_rtt) (omega arith),
              rw (e, update_rtt, dist) (omega arith),
            ),
          )
    ]
