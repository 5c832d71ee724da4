-- ===== src/Security/Ready.antt =====
-- core/security/secrets.py: when `validate` lets the program start, and what `get` returns then.
use selfhost_tip_overlay.Prelude.{
  String, Bool, false, ◌≡◌, refl, ◌↔◌, Option, none, some, List, [], ◌∷◌, ◌++◌, All, select,
  Bool-cases, inl, inr, arith,
}
use selfhost_tip_overlay.Prelude.Text.{is_empty}
use selfhost_tip_overlay.Security.Redaction.{Environ}
use selfhost_tip_overlay.Security.Secrets.{
  common_required, gateway_required, setting, is_placeholder, is_missing, has_placeholder,
  unknown_gateway, wildcard, passed, gateway_name, is_debug, is_wildcard, report, check_required,
  validate, get,
}

-- `get` returns a value for the key, and it is no placeholder.
abbrev pub IsProvided : Environ → String → Type 0
IsProvided environ key =
    (val : String) × (get environ key ≡ some val) × (is_placeholder val ≡ false)

select_none :
    (p : String → Bool) (x : String) (xs : List String)
    → select p (x ∷ xs) ≡ []
    → (p x ≡ false) × (select p xs ≡ [])
select_none p x xs h = elim (Bool-cases (p x)) [
  | inl y ↦ let full : x ∷ select p xs ≡ [] = rw y at h in cc
  | inr n ↦ (n, rw n at h)
]

module _ (environ : Environ) where
  IsProvided-tests :
      (key : String)
      → (is_missing environ key ≡ false) × (has_placeholder environ key ≡ false)
      → IsProvided environ key
  unfolding is_missing has_placeholder get
  IsProvided-tests key h = (setting environ key, rw h.0 refl, ground (arith, h.0, h.1))

  get-setting :
      (key val : String)
      → get environ key ≡ some val
      → (is_empty (setting environ key) ≡ false) × (setting environ key ≡ val)
  unfolding get
  get-setting key val g = elim (Bool-cases (is_empty (setting environ key))) [
    | inl y ↦ let none_some : none ≡ some val = rw y at g in cc
    | inr x ↦ let same : some (setting environ key) ≡ some val = rw x at g in (x, cc)
  ]

  tests-IsProvided :
      (key : String)
      → IsProvided environ key
      → (is_missing environ key ≡ false) × (has_placeholder environ key ≡ false)
  unfolding is_missing has_placeholder
  tests-IsProvided key (val, g, p) =
      let (filled, same) = get-setting key val g in (filled, rw (filled, same, p) refl)

  -- No key is in either list just if each is set.
  select-All :
      (keys : List String)
      → select (is_missing environ) keys ≡ []
      → select (has_placeholder environ) keys ≡ []
      → All (IsProvided environ) keys
  select-All [] m p = tt
  select-All (key ∷ keys) m p =
      let (m0, ms) = select_none (is_missing environ) key keys m in
      let (p0, ps) = select_none (has_placeholder environ) key keys p in
      (IsProvided-tests key (m0, p0), select-All keys ms ps)

  none_listed :
      (keys : List String)
      → All (IsProvided environ) keys
      → (select (is_missing environ) keys ≡ []) × (select (has_placeholder environ) keys ≡ [])
  none_listed [] a = (refl, refl)
  none_listed (key ∷ keys) a =
      let (m, p) = tests-IsProvided key a.0 in
      let (ms, ps) = none_listed keys a.1 in (rw (m, ms) refl, rw (p, ps) refl)

module _ (lower : String → String) (environ : Environ) where
  -- What the program may start with: a gateway that it has, every setting that it needs, and one
  -- origin.
  pub record IsReady : Type 0 where
    pub secrets : List String
    pub gateway : gateway_required (gateway_name lower environ) ≡ some secrets
    pub set : All (IsProvided environ) (common_required ++ secrets)
    pub origin : is_wildcard lower environ ≡ false

  report-passed :
      (m p : List String)
      → report lower environ m p ≡ passed (is_debug lower environ)
      → (m ≡ []) × (p ≡ []) × (is_wildcard lower environ ≡ false)
  unfolding report
  report-passed [] [] h = elim (Bool-cases (is_wildcard lower environ)) [
    | inl y ↦ let stop : wildcard ≡ passed (is_debug lower environ) = rw y at h in cc
    | inr x ↦ (refl, refl, x)
  ]
  report-passed (key ∷ m) p h = cc
  report-passed [] (key ∷ p) h = cc

  passed-IsReady :
      (o : Option (List String))
      → gateway_required (gateway_name lower environ) ≡ o
      → elim o [
        | none ↦ unknown_gateway
        | some required ↦ check_required lower environ (common_required ++ required)
      ]
        ≡ passed (is_debug lower environ)
      → IsReady
  unfolding check_required
  passed-IsReady none e h = cc
  passed-IsReady (some required) e h =
      let (m, p, w) =
        report-passed (select (is_missing environ) (common_required ++ required))
          (select (has_placeholder environ) (common_required ++ required)) h in
      record {
        secrets = required;
        gateway = e;
        set = select-All environ (common_required ++ required) m p;
        origin = w;
      }

  check_required-passed :
      (keys : List String)
      → All (IsProvided environ) keys
      → is_wildcard lower environ ≡ false
      → check_required lower environ keys ≡ passed (is_debug lower environ)
  unfolding check_required report
  check_required-passed keys a w = let (m, p) = none_listed environ keys a in rw (m, p, w) refl

  -- The validation of the settings lets the program start just when PAYMENT_GATEWAY names one of the
  -- two gateways, `get` returns a value that is no placeholder for each setting that every program
  -- needs and for each secret of that gateway, and CORS_ORIGIN is not "*". `str.lower` is a parameter.
  pub validate-IsReady : (validate lower environ ≡ passed (is_debug lower environ)) ↔ IsReady
  unfolding validate
  validate-IsReady = (
    λ h. passed-IsReady (gateway_required (gateway_name lower environ)) refl h,
    λ r.
        rw (validate, r.gateway)
          (check_required-passed (common_required ++ r.secrets) r.set r.origin),
  )
