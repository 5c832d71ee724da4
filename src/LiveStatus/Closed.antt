-- ===== src/LiveStatus/Closed.antt =====
-- app/obs_client.py: `_fetch_live_status`, by what OBS has to send.
use selfhost_tip_overlay.Prelude.{
  ℕ, String, ◌≡◌, ◌↔◌, ◌⊎◌, refl, sym, ap, ◌∙◌, true, false, some, arith, Option-cases, inl, inr,
}
use selfhost_tip_overlay.Payment.Base.{Result, ok}
use selfhost_tip_overlay.Payment.Json.{
  Json, null, bool, num, str, arr, obj, end, field, empty_dict, find_field, get, get_or, is_truthy,
}
use selfhost_tip_overlay.LiveStatus.Challenge.{Has, >>=-ok, IsAnswerable, authenticate-IsAnswerable}
use selfhost_tip_overlay.LiveStatus.{
  is_num, protocol, output_active, fetch_live_status, authenticate,
}

-- The status of a stream that runs: {"d": {"responseData": {"outputActive": v}}} with a truthy v.
pub record IsStreaming (r : Json) : Type 0 where
  pub d : Json
  pub body : Json
  pub active : Json
  pub in_message : Has "d" r d
  pub in_d : Has "responseData" d body
  pub in_data : Has "outputActive" body active
  pub truthy : is_truthy active ≡ true

-- `get_or` on anything: the value of a dict, or the default where a dict has none.
get_or-ok : (k : String) (d x v : Json) → get_or k d x ≡ ok v → Has k x v ⊎ (v ≡ d)
unfolding get_or get
get_or-ok k d (obj fs) v h = elim (Option-cases (find_field k fs)) [
  | inl e ↦ let h' : ok d ≡ ok v = rw e at h in inr cc
  | inr (w, e) ↦ let h' : ok w ≡ ok v = rw e at h in inl (fs, refl, e ∙ cc)
]
get_or-ok k d null v h = cc
get_or-ok k d (bool b) v h = cc
get_or-ok k d (num n) v h = cc
get_or-ok k d (str s) v h = cc
get_or-ok k d (arr xs) v h = cc

has-get_or : (k : String) (d x v : Json) → Has k x v → get_or k d x ≡ ok v
unfolding get_or get
has-get_or k d x v (fs, e, g) = rw (e, g) refl

not_empty : (k : String) (x v : Json) → Has k x v → x ≡ empty_dict → ⊥
unfolding find_field
not_empty k x v (end, e, g) h = cc
not_empty k x v (field j w fs, e, g) h = cc

-- A dict in which a value was found was not the default.
present : (k k' : String) (x d v : Json) → get_or k empty_dict x ≡ ok d → Has k' d v → Has k x d
present k k' x d v e h = elim (get_or-ok k empty_dict x d e) [
  | inl y ↦ y
  | inr n ↦ absurd (not_empty k' d v h n)
]

active :
    (x v : Json)
    → get_or "outputActive" (bool false) x ≡ ok v
    → is_truthy v ≡ true
    → Has "outputActive" x v
unfolding is_truthy
active x v e t = elim (get_or-ok "outputActive" (bool false) x v e) [
  | inl y ↦ y
  | inr n ↦ let stop : false ≡ true = ap is_truthy (sym n) ∙ t in cc
]

-- A stream that runs, from what the three look-ups read.
streaming :
    (r d body v : Json)
    → get_or "d" empty_dict r ≡ ok d
    → get_or "responseData" empty_dict d ≡ ok body
    → get_or "outputActive" (bool false) body ≡ ok v
    → is_truthy v ≡ true
    → IsStreaming r
streaming r d body v e f g t =
    let in_data = active body v g t in
    let in_d = present "responseData" "outputActive" d body v f in_data in
    record {
      d = d;
      body = body;
      active = v;
      in_message = present "d" "responseData" r d body e in_d;
      in_d = in_d;
      in_data = in_data;
      truthy = t;
    }

output_active-IsStreaming : (r : Json) → (output_active r ≡ ok true) ↔ IsStreaming r
unfolding output_active
output_active-IsStreaming r = (
  λ h.
      let (v, g, t) = >>=-ok _ (λ v. ok (is_truthy v)) true h in
      let (body, f, g') = >>=-ok _ (get_or "outputActive" (bool false)) v g in
      let (d, e, f') = >>=-ok _ (get_or "responseData" empty_dict) body f in
      streaming r d body v e f' g' cc,
  λ s.
      rw
        (
          has-get_or "d" empty_dict r s.d s.in_message,
          has-get_or "responseData" empty_dict s.d s.body s.in_d,
          has-get_or "outputActive" (bool false) s.body s.active s.in_data,
          s.truthy,
        )
        refl,
)

get-Has : (k : String) (x v : Json) → get k x ≡ ok (some v) → Has k x v
unfolding get
get-Has k (obj fs) v h = (fs, refl, cc)
get-Has k null v h = cc
get-Has k (bool b) v h = cc
get-Has k (num n) v h = cc
get-Has k (str s) v h = cc
get-Has k (arr xs) v h = cc

Has-get : (k : String) (x v : Json) → Has k x v → get k x ≡ ok (some v)
unfolding get
Has-get k x v (fs, e, g) = rw (e, g) refl

-- A message with a number as its `op`, with True for 1 and False for 0.
pub record IsOp (n : ℕ) (m : Result Json) : Type 0 where
  pub message : Json
  pub op : Json
  pub came : m ≡ ok message
  pub has_op : Has "op" message op
  pub number : is_num n op ≡ true

-- What OBS has to send to count as live.
pub record IsLive (password : String) (hello identified resp : Result Json) : Type 0 where
  pub greeting : IsOp 0 hello
  pub answered : IsAnswerable password greeting.message
  pub accepted : IsOp 2 identified
  pub status : (r : Json) × (resp ≡ ok r) × IsStreaming r

-- The steps that a run of the protocol that answers True has gone through.
record IsRun (password : String) (hello identified resp : Result Json) : Type 0 where
  greeting :
      (h : Json) × (hello ≡ ok h)
      × (authenticate password h ≡ ok tt)
      × ((op : Json) × (get "op" h ≡ ok (some op)) × (is_num 0 op ≡ true))
  accepted :
      (h : Json) × (identified ≡ ok h)
      × ((op : Json) × (get "op" h ≡ ok (some op)) × (is_num 2 op ≡ true))
  status : (r : Json) × (resp ≡ ok r) × (output_active r ≡ ok true)

fetch_live_status-IsRun :
    (password : String) (hello identified resp : Result Json)
    → fetch_live_status password hello identified resp ≡ true
    → IsRun password hello identified resp
unfolding fetch_live_status protocol is_num
fetch_live_status-IsRun password hello identified resp e = record {
  greeting = ground (arith, e);
  accepted = ground (arith, e);
  status = ground (arith, e);
}

protocol-ok :
    (password : String) (h op i op' r : Json)
    → get "op" h ≡ ok (some op)
    → is_num 0 op ≡ true
    → authenticate password h ≡ ok tt
    → get "op" i ≡ ok (some op')
    → is_num 2 op' ≡ true
    → output_active r ≡ ok true
    → fetch_live_status password (ok h) (ok i) (ok r) ≡ true
unfolding fetch_live_status protocol
protocol-ok password h op i op' r e n a e' n' s = ground (arith, e, n, a, e', n', s)

-- OBS counts as live just where all three messages came: a Hello with op 0 that can be answered (it asks
-- for nothing, or no password is set, or its salt and its challenge are texts); an Identified with op
-- 2; and a status that is a dict with a dict "d" with a dict "responseData" whose "outputActive" is
-- truthy. A failure, a time-out or a reply of another shape counts as not live.
pub fetch_live_status-IsLive :
    (password : String) (hello identified resp : Result Json)
    → (fetch_live_status password hello identified resp ≡ true)
      ↔ IsLive password hello identified resp
unfolding fetch_live_status protocol
fetch_live_status-IsLive password hello identified resp = (
  λ e.
      let run = fetch_live_status-IsRun password hello identified resp e in
      let (h, came, answered, (op, has_op, number)) = run.greeting in
      let (i, came', (op', has_op', number')) = run.accepted in
      let (r, came'', active) = run.status in
      record {
        greeting = record {
          message = h;
          op = op;
          came = came;
          has_op = get-Has "op" h op has_op;
          number = number;
        };
        answered = (authenticate-IsAnswerable password h).0 answered;
        accepted = record {
          message = i;
          op = op';
          came = came';
          has_op = get-Has "op" i op' has_op';
          number = number';
        };
        status = (r, came'', (output_active-IsStreaming r).0 active);
      },
  λ l.
      let g = l.greeting in
      let a = l.accepted in
      let (r, came, s) = l.status in
      rw (g.came, a.came, came)
        (protocol-ok password g.message g.op a.message a.op r (Has-get "op" g.message g.op g.has_op)
          g.number ((authenticate-IsAnswerable password g.message).1 l.answered)
          (Has-get "op" a.message a.op a.has_op) a.number ((output_active-IsStreaming r).1 s)),
)
