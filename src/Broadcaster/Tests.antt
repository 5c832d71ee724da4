-- ===== src/Broadcaster/Tests.antt =====
-- Two connections, one of them with a full queue.
use selfhost_tip_overlay.Prelude.{ℕ, zero, suc, ◌≡◌, refl, none, List, [], ◌∷◌, ◌==◌, if◌then◌else◌}
use selfhost_tip_overlay.Prelude.Int.{pos}
use selfhost_tip_overlay.Contracts.{OverlayEvent}
use selfhost_tip_overlay.Broadcaster.{Hub, maxsize, broadcast, close, remove, put_all, remove_all}

abbrev event : ℕ → OverlayEvent
event n = record {
  charge_id = "c1";
  amount = pos 5000;
  supporter_name = "Ann";
  message = "hi";
  event_seq = n;
  tts_audio_url = none;
}

abbrev events : ℕ → List OverlayEvent
events zero = []
events (suc n) = event n ∷ events n

abbrev two : Hub
two = record {
  subscribers = 0 ∷ 1 ∷ [];
  queue = λ q. if q == 1 then events maxsize else event 7 ∷ [];
  next = 2;
}

-- The full queue is dropped, and closing its connection raises ValueError.
dropped : close 1 (broadcast (event 9) two) ≡ none
unfolding close remove broadcast put_all remove_all
dropped = refl

kept : (broadcast (event 9) two).subscribers ≡ 0 ∷ []
unfolding remove broadcast put_all remove_all
kept = refl
