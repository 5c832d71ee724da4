-- ===== src/Dev/Fired.antt =====
-- routes/dev.py: what a simulated tip does to the state of the program.
use selfhost_tip_overlay.Prelude.{
  ℕ, String, true, ◌≡◌, refl, Option, none, some, ◌∷◌, Bool-cases, inl, inr, ◌⊎◌,
}
use selfhost_tip_overlay.Prelude.Int.{ℤ}
use selfhost_tip_overlay.Contracts.{TipEvent}
use selfhost_tip_overlay.Db.Operations.{next_seq}
use selfhost_tip_overlay.Webhook.{App, Pipeline, outcome, overlay_event}
use selfhost_tip_overlay.Overlay.{is_authorised}
use selfhost_tip_overlay.Dev.{
  DevAnswer, refused, dropped, fired, dev_event, fire, fire_event, test_tip,
}

-- What was broadcast by a tip that was fired; nothing by any other.
abbrev pub Broadcasts : Pipeline → TipEvent → App → DevAnswer → App → Type 0
Broadcasts pipeline e before (fired seq amount) after =
    (result : TipEvent) × (outcome (pipeline e) e ≡ some result)
    × (after.sent ≡ overlay_event e result seq ∷ before.sent)
    × (seq ≡ next_seq before.db)
Broadcasts pipeline e before (dropped seq) after = after ≡ before
Broadcasts pipeline e before (refused code) after = after ≡ before

module _ (pipeline : Pipeline) (name : String) (amount : ℤ) (message : String) (now : ℕ)
    (a : App) where
  abbrev event : TipEvent
  event = dev_event (next_seq a.db) name amount message now

  fire-Broadcasts :
      (o : Option TipEvent)
      → outcome (pipeline event) event ≡ o
      → let out = fire event o (next_seq a.db) a in
        Broadcasts pipeline event a out.0 out.1 × (out.1.db ≡ a.db) × (out.1.qr_cache ≡ a.qr_cache)
  unfolding fire
  fire-Broadcasts none h = (refl, refl, refl)
  fire-Broadcasts (some result) h = ((result, h, refl, refl), refl, refl)

  -- A simulated tip leaves the database and the QR cache as they are. It broadcasts one event, what the pipeline
  -- made of it under the next number, where it is answered as fired, which takes a token that is set and given; in every
  -- other case the whole state stays.
  pub test_tip-Broadcasts :
      (overlay_token token : String)
      → let out = test_tip pipeline overlay_token token name amount message now a in
        Broadcasts pipeline event a out.0 out.1
        × (out.1.db ≡ a.db)
        × (out.1.qr_cache ≡ a.qr_cache)
        × ((out.1.sent ≡ a.sent) ⊎ (is_authorised overlay_token token ≡ true))
  unfolding test_tip fire_event
  test_tip-Broadcasts overlay_token token = elim (Bool-cases (is_authorised overlay_token token)) [
    | inl y ↦
        let (b, d, q) = fire-Broadcasts (outcome (pipeline event) event) refl in
        rw y (b, d, q, inr refl)
    | inr x ↦ rw x (refl, refl, refl, inl refl)
  ]
