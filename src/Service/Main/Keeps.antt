-- ===== src/Service/Main/Keeps.antt =====
-- What the parts of a turn leave of the loop, the server and its connections.
use apfs_for_windows.Common.{
  Bool, Bool-cases, Option, Qt, Text, false, inl, inr, not, refl, true, ℕ, ◌≡◌, ◌∙◌, ◌&&◌, ◌==◌,
}
use apfs_for_windows.Service.Control.{Request}
use apfs_for_windows.Service.Target.{Names}
use apfs_for_windows.Service.Main.{
  Main, Turn, handle_control, control_stop, control_device_event, is_storage_device_event, sync,
  sync_if, supervise,
}

-- What a sync and a supervision leave as it is.
pub record Keeps (m m' : Main) : Type 0 where
  pub looping : m'.looping ≡ m.looping
  pub stop_event : m'.stop_event ≡ m.stop_event
  pub listening : m'.listening ≡ m.listening
  pub pending : m'.pending ≡ m.pending
  pub answered : m'.answered ≡ m.answered

pub Keeps-refl : (m : Main) → Keeps m m
Keeps-refl m = record {
  looping = refl;
  stop_event = refl;
  listening = refl;
  pending = refl;
  answered = refl;
}

pub Keeps-trans : (m u v : Main) → Keeps m u → Keeps u v → Keeps m v
Keeps-trans m u v h k = record {
  looping = k.looping ∙ h.looping;
  stop_event = k.stop_event ∙ h.stop_event;
  listening = k.listening ∙ h.listening;
  pending = k.pending ∙ h.pending;
  answered = k.answered ∙ h.answered;
}

pub resync-Keeps : (m : Main) → Keeps m (record m { service = record m.service { resync = false } })
resync-Keeps m = record {
  looping = refl;
  stop_event = refl;
  listening = refl;
  pending = refl;
  answered = refl;
}

pub handle_control-Keeps :
    (events : Bool) (code type : ℕ) (m : Main)
    → not (code == control_stop) ≡ true
    → Keeps m (handle_control events code type m).0
handle_control-Keeps false code type m other = elim (Bool-cases (code == control_stop)) [
  | inl a ↦ cc (rw a at other)
  | inr a ↦ elim (Bool-cases (code == control_device_event && is_storage_device_event type)) [
    | inl b ↦ rw (a, b) (Keeps-refl m)
    | inr b ↦ rw (a, b) (Keeps-refl m)
  ]
]
handle_control-Keeps true code type m other = elim (Bool-cases (code == control_stop)) [
  | inl a ↦ cc (rw a at other)
  | inr a ↦ elim (Bool-cases (code == control_device_event && is_storage_device_event type)) [
    | inl b ↦
        rw (a, b)
          (record {
            looping = refl;
            stop_event = refl;
            listening = refl;
            pending = refl;
            answered = refl;
          })
    | inr b ↦ rw (a, b) (Keeps-refl m)
  ]
]

module _ (q : Qt) (n : Names) (parse : Text → Option Request) where
  pub sync_if-Keeps : (b : Bool) (t : Turn) (m : Main) → Keeps m (sync_if q n parse b t m)
  unfolding sync
  sync_if-Keeps false t m = Keeps-refl m
  sync_if-Keeps true t m = record {
    looping = refl;
    stop_event = refl;
    listening = refl;
    pending = refl;
    answered = refl;
  }

  pub supervise-Keeps : (t : Turn) (m : Main) → Keeps m (supervise q n parse t m)
  unfolding supervise
  supervise-Keeps t m = record {
    looping = refl;
    stop_event = refl;
    listening = refl;
    pending = refl;
    answered = refl;
  }
