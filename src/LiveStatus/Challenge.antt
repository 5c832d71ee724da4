-- ===== src/LiveStatus/Challenge.antt =====
-- app/obs_client.py: the answer to the challenge in Hello, by what Hello has.
use selfhost_tip_overlay.Prelude.{
  String, ◌≡◌, ◌↔◌, refl, ◌∙◌, true, false, not, ◌&&◌, none, some, Bool-cases, if◌then◌else◌,
  Option-cases, inl, inr,
}
use mathlib.Core.Path.{subst}
use selfhost_tip_overlay.Prelude.Text.{is_empty}
use selfhost_tip_overlay.Payment.Base.{Result, ok, raise, key_error, ◌>>=◌}
use selfhost_tip_overlay.Payment.Json.{
  Json, null, bool, num, str, arr, obj, Fields, find_field, get, get_or, item, is_truthy,
}
use selfhost_tip_overlay.LiveStatus.{or_null, appended, authenticate}

-- A dict with a value under a key, and a dict without.
abbrev pub Has : String → Json → Json → Type 0
Has k x v = (fs : Fields) × (x ≡ obj fs) × (find_field k fs ≡ some v)

abbrev pub Lacks : String → Json → Type 0
Lacks k x = (fs : Fields) × (x ≡ obj fs) × (find_field k fs ≡ none)

-- How a Hello can be answered: it asks for nothing, or no password is set, or what it asks with has a
-- salt and a challenge that are texts.
pub data IsAnswerable (password : String) (hello : Json) : Type 0 where
  bare : Lacks "d" hello → IsAnswerable password hello
  unasked : (d : Json) → Has "d" hello d → Lacks "authentication" d → IsAnswerable password hello
  blank :
      (d auth : Json)
      → Has "d" hello d
      → Has "authentication" d auth
      → is_truthy auth ≡ false
      → IsAnswerable password hello
  no_password :
      (d auth : Json)
      → Has "d" hello d
      → Has "authentication" d auth
      → password ≡ ""
      → IsAnswerable password hello
  asked :
      (d auth : Json) (salt challenge : String)
      → Has "d" hello d
      → Has "authentication" d auth
      → Has "salt" auth (str salt)
      → Has "challenge" auth (str challenge)
      → IsAnswerable password hello

no_text : (s : String) → is_empty s ≡ true → s ≡ ""
no_text String.[] h = refl
no_text (String.◌∷◌ c s) h = cc

pub >>=-ok :
    {A B : Type 0} (m : Result A) (f : A → Result B) (b : B)
    → (m >>= f) ≡ ok b
    → (a : A) × (m ≡ ok a) × (f a ≡ ok b)
>>=-ok (ok a) f b h = (a, refl, h)
>>=-ok (raise e) f b h = cc

item-Has : (k : String) (x v : Json) → item k x ≡ ok v → Has k x v
unfolding item
item-Has k (obj fs) v h = elim (Option-cases (find_field k fs)) [
  | inl e ↦ let h' : raise key_error ≡ ok v = rw (item, e) at h in cc
  | inr (w, e) ↦ let h' : ok w ≡ ok v = rw (item, e) at h in (fs, refl, e ∙ cc)
]
item-Has k null v h = cc
item-Has k (bool b) v h = cc
item-Has k (num n) v h = cc
item-Has k (str s) v h = cc
item-Has k (arr xs) v h = cc

appended-text : (v : Json) → appended v ≡ ok tt → (s : String) × (v ≡ str s)
unfolding appended
appended-text (str s) h = (s, refl)
appended-text null h = cc
appended-text (bool b) h = cc
appended-text (num n) h = cc
appended-text (arr xs) h = cc
appended-text (obj fs) h = cc

-- A text under a key, where it can be appended to a text.
item-text :
    (k : String) (x : Json) → (item k x >>= appended) ≡ ok tt → (s : String) × Has k x (str s)
item-text k x h =
    let (v, e, a) = >>=-ok (item k x) appended tt h in
    let (s, t) = appended-text v a in (s, subst (Has k x) t (item-Has k x v e))

Has-item : (k : String) (x : Json) (s : String) → Has k x (str s) → (item k x >>= appended) ≡ ok tt
unfolding item appended
Has-item k x s (fs, e, g) = rw (e, item, g) refl

-- What is left to do once the value that Hello asks with is known.
abbrev respond : String → Json → Result (Unit {0})
respond password auth =
    if is_truthy auth && not (is_empty password)
    then (item "salt" auth >>= appended >>= λ _. item "challenge" auth >>= appended)
    else ok tt

respond-asked :
    (password : String) (d auth hello : Json)
    → Has "d" hello d
    → Has "authentication" d auth
    → respond password auth ≡ ok tt
    → IsAnswerable password hello
respond-asked password d auth hello i j h = elim (Bool-cases (is_truthy auth)) [
  | inr n ↦ blank d auth i j n
  | inl y ↦ elim (Bool-cases (is_empty password)) [
    | inl e ↦ no_password d auth i j (no_text password e)
    | inr n ↦
        let h' : (item "salt" auth >>= appended >>= λ _. item "challenge" auth >>= appended)
            ≡ ok tt =
          rw (y, n) at h in
        let (u, f, g) =
          >>=-ok (item "salt" auth >>= appended) (λ _. item "challenge" auth >>= appended) tt h' in
        let (s, k) = item-text "salt" auth f in
        let (c, l) = item-text "challenge" auth g in asked d auth s c i j k l
  ]
]

respond-ok :
    (password : String) (auth : Json) (s c : String)
    → Has "salt" auth (str s)
    → Has "challenge" auth (str c)
    → respond password auth ≡ ok tt
respond-ok password auth s c k l = elim (Bool-cases (is_truthy auth && not (is_empty password))) [
  | inl y ↦ rw (y, Has-item "salt" auth s k, Has-item "challenge" auth c l) refl
  | inr n ↦ rw n refl
]

in_d :
    (password : String) (hello d : Json)
    → Has "d" hello d
    → (get "authentication" d >>= λ auth. respond password (or_null auth)) ≡ ok tt
    → IsAnswerable password hello
unfolding get
in_d password hello (obj ds) i h = elim (Option-cases (find_field "authentication" ds)) [
  | inl e ↦ unasked (obj ds) i (ds, refl, e)
  | inr (auth, e) ↦
      let h' : respond password auth ≡ ok tt = rw e at h in
      respond-asked password (obj ds) auth hello i (ds, refl, e) h'
]
in_d password hello null i h = cc
in_d password hello (bool b) i h = cc
in_d password hello (num n) i h = cc
in_d password hello (str s) i h = cc
in_d password hello (arr xs) i h = cc

answerable :
    (password : String) (hello : Json)
    → authenticate password hello ≡ ok tt
    → IsAnswerable password hello
unfolding authenticate get_or get
answerable password (obj fs) h = elim (Option-cases (find_field "d" fs)) [
  | inl e ↦ bare (fs, refl, e)
  | inr (d, e) ↦ in_d password (obj fs) d (fs, refl, e) (rw e at h)
]
answerable password null h = cc
answerable password (bool b) h = cc
answerable password (num n) h = cc
answerable password (str s) h = cc
answerable password (arr xs) h = cc

in_hello :
    (password : String) (hello d auth : Json)
    → Has "d" hello d
    → Has "authentication" d auth
    → respond password auth ≡ ok tt
    → authenticate password hello ≡ ok tt
unfolding authenticate get_or get
in_hello password hello d auth (fs, e, g) (ds, e', g') h = rw (e, g, e', g') h

answers :
    (password : String) (hello : Json)
    → IsAnswerable password hello
    → authenticate password hello ≡ ok tt
unfolding authenticate get_or get is_truthy
answers password hello (bare (fs, e, n)) = rw (e, n) refl
answers password hello (unasked d (fs, e, g) (ds, e', n)) = rw (e, g, e', n) refl
answers password hello (blank d auth i j f) = in_hello password hello d auth i j (rw f refl)
answers password hello (no_password d auth i j p) = in_hello password hello d auth i j (
    unfold is_truthy in
    elim (Bool-cases (is_truthy auth)) [ inl y ↦ rw (y, p) refl | inr n ↦ rw n refl ])
answers password hello (asked d auth s c i j k l) =
    in_hello password hello d auth i j (respond-ok password auth s c k l)

pub authenticate-IsAnswerable :
    (password : String) (hello : Json)
    → (authenticate password hello ≡ ok tt) ↔ IsAnswerable password hello
authenticate-IsAnswerable password hello = (answerable password hello, answers password hello)
