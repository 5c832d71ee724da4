-- ===== src/Security/Serves.antt =====
-- main.py: when the startup reaches the first request.
use selfhost_tip_overlay.Prelude.{
  ℕ, String, Bool, true, false, ◌≡◌, refl, ap, ◌∙◌, Option, none, some, List, [], ◌∷◌, ◌++◌, All,
  str_eq, eq_iff, Bool-cases, inl, inr,
}
use mathlib.Core.Path.{subst}
use selfhost_tip_overlay.Payment.Signature.{Bytes, Env, encode}
use selfhost_tip_overlay.Prelude.Int.{ℤ}
use selfhost_tip_overlay.Payment.Base.{Result, ok, raise}
use selfhost_tip_overlay.Payment.Json.{Json, Fields}
use selfhost_tip_overlay.Wiring.{configure, read_settings}
use selfhost_tip_overlay.Migrations.{Build, Store, init_db}
use selfhost_tip_overlay.Security.Redaction.{Environ}
use selfhost_tip_overlay.Security.Secrets.{
  common_required, gateway_required, Startup, unknown_gateway, refused, wildcard, passed,
  gateway_name, is_debug, is_wildcard, report, check_required, validate, get,
}
use selfhost_tip_overlay.Security.SelfTest.{Failure, run}
use selfhost_tip_overlay.Security.Vectors.{IsTimely}
use selfhost_tip_overlay.Security.Passes.{IsHmac, run_failures}
use selfhost_tip_overlay.Security.Ready.{IsProvided, IsReady, validate-IsReady}
use selfhost_tip_overlay.Security.Boot.{
  Adapter, Boot, serving, served, wire, after_init, after_validate, boot,
}

module _ (lower : String → String) (environ : Environ) where
  report_debug :
      (m p : List String) (d : Bool)
      → report lower environ m p ≡ passed d
      → report lower environ m p ≡ passed (is_debug lower environ)
  unfolding report
  report_debug [] [] d h = elim (Bool-cases (is_wildcard lower environ)) [
    | inl y ↦ let stop : wildcard ≡ passed d = rw y at h in cc
    | inr x ↦ rw x refl
  ]
  report_debug (key ∷ m) p d h = cc
  report_debug [] (key ∷ p) d h = cc

  validate_debug :
      (o : Option (List String)) (d : Bool)
      → elim o [
        | none ↦ unknown_gateway
        | some required ↦ check_required lower environ (common_required ++ required)
      ]
        ≡ passed d
      → elim o [
        | none ↦ unknown_gateway
        | some required ↦ check_required lower environ (common_required ++ required)
      ]
        ≡ passed (is_debug lower environ)
  unfolding check_required
  validate_debug none d h = cc
  validate_debug (some required) d h = report_debug _ _ d h

  passed-IsReady : (d : Bool) → validate lower environ ≡ passed d → IsReady lower environ
  unfolding validate
  passed-IsReady d h =
      (validate-IsReady lower environ).0
        (validate_debug (gateway_required (gateway_name lower environ)) d h)

abbrev secret_names : Bool → List String
secret_names true = "STRIPE_SECRET_KEY" ∷ "STRIPE_WEBHOOK_SECRET" ∷ []
secret_names false = "OMISE_SECRET_KEY" ∷ "OMISE_WEBHOOK_SECRET" ∷ []

-- The secrets of the gateway that is served.
gateway_secrets :
    (name : String) (keys : List String)
    → gateway_required name ≡ some keys
    → keys ≡ secret_names (str_eq name "stripe")
unfolding gateway_required
gateway_secrets name keys h = elim (Bool-cases (str_eq name "omise")) [
  | inl y ↦
      let h' : some (secret_names false) ≡ some keys = rw y at h in
      let other : str_eq name "stripe" ≡ false = rw ((eq_iff name "omise").0 y) refl in rw other cc
  | inr x ↦ elim (Bool-cases (str_eq name "stripe")) [
    | inl y ↦ let h' : some (secret_names true) ≡ some keys = rw (x, y) at h in rw y cc
    | inr z ↦ let h' : none ≡ some keys = rw (x, z) at h in cc
  ]
]

wired :
    (o : Option Adapter) (r : Result ℤ) (a : Adapter)
    → served o r ≡ serving a
    → (o ≡ some a) × (days : ℤ) × (r ≡ ok days)
wired none r a h = cc
wired (some b) (raise e) a h = cc
wired (some b) (ok days) a h = (cc, days, refl)

module _ (lower : String → String) (environ : Environ) (decode : String → Option Bytes) {S : Type 0}
    (build : Build S) (env : Env) (clock : ℕ → ℕ) (shipped user : Result (Option Fields))
    (had_tips had_version_table : Bool) (copied : Option Bool) (s : Store S) where
  abbrev booted : Boot × Store S
  booted =
      boot lower environ decode build env clock shipped user had_tips had_version_table copied s

  -- What has gone before the first request.
  pub record IsStarted (a : Adapter) : Type 0 where
    pub ready : IsReady lower environ
    pub tested : run env lower environ clock ≡ []
    pub database : (init_db build had_tips had_version_table copied s).0 ≡ true
    pub gateway : wire lower environ decode ≡ some a
    pub settings : Json
    pub loaded : read_settings shipped user ≡ ok settings
    pub configured : (days : ℤ) × (configure settings ≡ ok days)

  tests-IsStarted :
      (v : Startup) (fs : List Failure) (r : Result Json) (i : Bool × Store S) (a : Adapter)
      → (after_validate lower environ decode build v fs r i s).0 ≡ serving a
      → ((d : Bool) × (v ≡ passed d))
        × (fs ≡ [])
        × (i.0 ≡ true)
        × (wire lower environ decode ≡ some a)
        × ((settings : Json) × (r ≡ ok settings) × (days : ℤ) × (configure settings ≡ ok days))
  tests-IsStarted (passed d) [] (ok settings) (true, s') a h =
      let (gateway, days, c) = wired (wire lower environ decode) (configure settings) a h in
      ((d, refl), refl, refl, gateway, (settings, refl, days, c))
  tests-IsStarted (passed d) [] (ok settings) (false, s') a h = cc
  tests-IsStarted (passed d) [] (raise e) i a h = cc
  tests-IsStarted (passed d) (f ∷ fs) r i a h = cc
  tests-IsStarted unknown_gateway fs r i a h = cc
  tests-IsStarted (refused m p) fs r i a h = cc
  tests-IsStarted wildcard fs r i a h = cc

  -- The program serves a request only after the environment was valid, every vector of the self-test
  -- was refused as expected, the settings files were read and converted, the database was set up
  -- and the adapter of the gateway was made; a failure of any of these ends it first.
  pub boot-IsStarted : (a : Adapter) → booted.0 ≡ serving a → IsStarted a
  unfolding boot
  boot-IsStarted a h =
      let ((d, v), tested, database, gateway, (settings, loaded, days, configured)) =
        tests-IsStarted (validate lower environ) (run env lower environ clock)
          (read_settings shipped user) (init_db build had_tips had_version_table copied s) a h in
      record {
        ready = passed-IsReady lower environ d v;
        tested = tested;
        database = database;
        gateway = gateway;
        settings = settings;
        loaded = loaded;
        configured = (days, configured);
      }

  initialised :
      (a : Adapter) (settings : Json) (days : ℤ) (i : Bool × Store S)
      → i.0 ≡ true
      → wire lower environ decode ≡ some a
      → configure settings ≡ ok days
      → after_init lower environ decode build settings i ≡ (serving a, i.1)
  initialised a settings days (true, s') d w c = rw (w, c) refl
  initialised a settings days (false, s') d w c = cc

  ready-wire :
      IsReady lower environ
      → ((secret : String)
          → get environ "OMISE_WEBHOOK_SECRET" ≡ some secret
          → (key : Bytes) × (decode secret ≡ some key))
      → (a : Adapter) × (wire lower environ decode ≡ some a)
  unfolding wire
  ready-wire r base64 =
      let keys = gateway_secrets (gateway_name lower environ) r.secrets r.gateway in
      elim (Bool-cases (str_eq (gateway_name lower environ) "stripe")) [
        | inl y ↦
            let set : All (IsProvided environ) (common_required ++ secret_names true) =
              subst (λ ks. All (IsProvided environ) (common_required ++ ks))
                (keys ∙ ap secret_names y) r.set in
            let (skey, g, p) = set.1.1.1.0 in
            let (secret, g', p') = set.1.1.1.1.0 in
            (Adapter.stripe skey (encode secret), rw (wire, y, g, g') refl)
        | inr x ↦
            let set : All (IsProvided environ) (common_required ++ secret_names false) =
              subst (λ ks. All (IsProvided environ) (common_required ++ ks))
                (keys ∙ ap secret_names x) r.set in
            let (skey, g, p) = set.1.1.1.0 in
            let (secret, g', p') = set.1.1.1.1.0 in
            let (key, e) = base64 secret g' in (Adapter.omise skey key, rw (wire, x, g, g', e) refl)
      ]

  pub started :
      (a : Adapter) (settings : Json) (days : ℤ)
      → validate lower environ ≡ passed (is_debug lower environ)
      → run env lower environ clock ≡ []
      → (init_db build had_tips had_version_table copied s).0 ≡ true
      → wire lower environ decode ≡ some a
      → read_settings shipped user ≡ ok settings
      → configure settings ≡ ok days
      → booted ≡ (serving a, (init_db build had_tips had_version_table copied s).1)
  unfolding boot
  started a settings days v t d w r c =
      rw (boot, v, t, r)
        (initialised a settings days (init_db build had_tips had_version_table copied s) d w c)

  -- With an environment that is ready, settings files that can be read and whose threshold and days of
  -- the purge can be converted, the HMAC and the clock that the self-test needs (hexadecimal
  -- digits, not the zeros of the forged vectors; at least 400 seconds after 1970 and below 10^18
  -- microseconds; vectors verified within 299 seconds), a database that can be set up and, for
  -- OMISE_WEBHOOK_SECRET, a value that is base64 if it is set, the startup reaches the first
  -- request with an adapter, on the database that `init_db` leaves.
  pub boot_serves :
      (settings : Json) (days : ℤ)
      → IsReady lower environ
      → read_settings shipped user ≡ ok settings
      → configure settings ≡ ok days
      → IsHmac env (clock 0)
      → IsTimely (clock 0) (clock 1)
      → IsTimely (clock 2) (clock 3)
      → (init_db build had_tips had_version_table copied s).0 ≡ true
      → ((secret : String)
          → get environ "OMISE_WEBHOOK_SECRET" ≡ some secret
          → (key : Bytes) × (decode secret ≡ some key))
      → (a : Adapter) × (booted
          ≡ (serving a, (init_db build had_tips had_version_table copied s).1))
  boot_serves settings days ready loaded configured hmac forged old database base64 =
      let (a, w) = ready-wire ready base64 in
      let tested : run env lower environ clock ≡ [] =
        run_failures env lower environ clock hmac forged old ∙ rw ready.origin refl in
      (
        a,
        started a settings days ((validate-IsReady lower environ).1 ready) tested database w loaded
            configured,
      )
