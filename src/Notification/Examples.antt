-- ===== src/Notification/Examples.antt =====
-- Notifications at a concrete list.
use shadow_box_os.Common.{ℕ, ◌≡◌, refl, arith, [], ◌∷◌, some, true, replicate, get_or, map}
use shadow_box_os.Notification.{Note, Daemon, init, send, dismiss, peek, string_prefix}
use shadow_box_os.Notification.Lists.{IsSound, others, send-dismiss}

abbrev note : ℕ → Note
note id = record { id = id; priority = 1; app_name = 97 ∷ 0 ∷ []; summary = 0 ∷ []; body = 0 ∷ [] }

abbrev daemon : Daemon
daemon = record { notes = note 4 ∷ note 2 ∷ note 1 ∷ []; next_notify_id = 5 }

first_number : (send init (some (note 0)) true).0 ≡ 1
unfolding send
first_number = refl

-- What the caller's slot held shows behind a shorter string.
abbrev dirty : Note
dirty = record {
  id = 0;
  priority = 0;
  app_name = replicate 64 120;
  summary = replicate 128 120;
  body = replicate 512 120;
}

stale : map (λ (n : Note). get_or n.app_name 1 0) (peek (dirty ∷ []) daemon.notes) ≡ 120 ∷ []
unfolding peek string_prefix
stale = refl

send-dismiss_example :
    let (id, e) = send daemon (some (note 0)) true in
    (e.notes ≡ record (note 0) { id = id } ∷ daemon.notes)
    × IsSound e
    × (others id daemon.notes ≡ daemon.notes)
    × ((dismiss e id).notes ≡ daemon.notes)
send-dismiss_example =
    send-dismiss daemon (note 0) (omega arith, (omega arith, (omega arith, tt))) (omega arith)
