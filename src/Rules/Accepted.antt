-- ===== src/Rules/Accepted.antt =====
-- Rules that validation accepted, evaluated: no call raises, if each path has a dot.
use provenex_core.Prelude.{
  ◌≡◌, ◌⊎◌, inl, inr, Bool, true, false, Option, none, some, List, [], ◌∷◌, All, Result, ok, ◌>>=◌,
  >>=-eq-ok, Bool-cases, if◌then◌else◌, Returns, returns, Returns-bind, ◌==◌, nat_eq, list_eq,
}
use provenex_core.Text.{Text, codes, has_char, split}
use provenex_core.Value.{
  Value, null, bool, int, text, seq, dict, other, Key, name, other_key, get, entries,
}
use provenex_core.Rules.{Runtime, member, chunk_domain_roots, tool_call_domain_roots}
use provenex_core.Rules.Validate.{
  validate_path_root, refuse_unknown_keys, root_allowed, root_of, validate_condition, each,
  require_list,
}
use provenex_core.Rules.Resolve.{
  Subject, resolve_parts, resolve_path, when_matches, is_in, condition_holds,
}

-- The call returns, whatever its value.
abbrev pub Ok {ℓ} : {A : Type ℓ} → Result A → Type ℓ
Ok m = Returns (λ _. Unit {0}) m

abbrev pub IsDotted : Key × Value → Type 0
IsDotted (name path, v) = has_char b'.' path ≡ true
IsDotted (other_key n, v) = false ≡ true

-- The roots are among those that `_resolve_path` knows.
abbrev pub AreKnown : List Text → Type 0
AreKnown roots =
    (root : Text)
    → member root roots ≡ true
    → ((root == codes "chunk") ≡ true)
      ⊎ (((root == codes "tool") ≡ true) ⊎ ((root == codes "request") ≡ true))

pub chunk_roots-AreKnown : AreKnown chunk_domain_roots
chunk_roots-AreKnown root h = elim (Bool-cases (root == codes "chunk")) [
  | inl e ↦ inl e
  | inr n ↦ elim (Bool-cases (root == codes "request")) [
    | inl e ↦ inr (inr e)
    | inr m ↦ absurd (cc (rw (n, m) at h))
  ]
]

pub tool_roots-AreKnown : AreKnown tool_call_domain_roots
tool_roots-AreKnown root h = elim (Bool-cases (root == codes "tool")) [
  | inl e ↦ inr (inl e)
  | inr n ↦ elim (Bool-cases (root == codes "request")) [
    | inl e ↦ inr (inr e)
    | inr m ↦ absurd (cc (rw (n, m) at h))
  ]
]

pub if-Ok {ℓ} : {A : Type ℓ} (b : Bool) {m n : Result A} → Ok m → Ok n → Ok (if b then m else n)
if-Ok true x y = x
if-Ok false x y = y

pub bind-Ok {ℓ κ} :
    {A : Type ℓ} {B : Type κ} {m : Result A} {f : A → Result B}
    → Ok m
    → ((a : A) → Ok (f a))
    → Ok (m >>= f)
bind-Ok x k = Returns-bind x (λ a _. k a)

module _ (r : Runtime) (s : Subject) (roots : List Text) (known : AreKnown roots) where
  resolve_known :
      (parts : List Text) → member (root_of parts) roots ≡ true → Ok (resolve_parts r s parts)
  unfolding resolve_parts root_allowed
  resolve_known [] h = returns tt
  resolve_known (root ∷ segs) h = elim (known root h) [
    | inl c ↦ rw c (returns tt)
    | inr (inl t) ↦ if-Ok (root == codes "chunk") (returns tt) (rw t (returns tt))
    | inr (inr q) ↦
        if-Ok (root == codes "chunk") (returns tt)
          (if-Ok (root == codes "tool") (returns tt) (rw q (returns tt)))
  ]

  pub path-Ok :
      (k : Key) (v : Value)
      → IsDotted (k, v)
      → validate_path_root r roots k ≡ ok tt
      → Ok (resolve_path r s k)
  unfolding validate_path_root resolve_path root_allowed
  path-Ok (name path) v d h = elim (Bool-cases (root_allowed roots path)) [
    | inl t ↦ resolve_known (split b'.' path) t
    | inr t ↦ absurd (cc (rw (d, t) at h))
  ]
  path-Ok (other_key n) v d h = absurd (cc d)

  is_in-Ok :
      (o : Option Value) (w : Value)
      → require_list r o ≡ ok tt
      → Ok (elim o as (λ _. Result Bool) [ none ↦ ok false | some c ↦ is_in r w c ])
  unfolding validate_condition when_matches
  is_in-Ok none w h = returns tt
  is_in-Ok (some (seq vs)) w h = returns tt
  is_in-Ok (some null) w h = absurd (cc h)
  is_in-Ok (some (bool b)) w h = absurd (cc h)
  is_in-Ok (some (int z)) w h = absurd (cc h)
  is_in-Ok (some (text t)) w h = absurd (cc h)
  is_in-Ok (some (dict fs)) w h = absurd (cc h)
  is_in-Ok (some (other n)) w h = absurd (cc h)

  abbrev HasList : Value → Type 0
  HasList (dict fs) = require_list r (get (codes "in") fs) ≡ ok tt
  HasList _ = Unit

  holds-Ok : (v : Value) (o : Option Value) → HasList v → Ok (condition_holds r v o)
  unfolding when_matches
  holds-Ok v none h = returns tt
  holds-Ok (dict fs) (some w) h = is_in-Ok (get (codes "in") fs) w h
  holds-Ok v (some w) h = returns tt

  condition-HasList :
      (k : Key) (v : Value)
      → validate_condition r roots (k, v) ≡ ok tt
      → (validate_path_root r roots k ≡ ok tt) × HasList v
  unfolding validate_condition
  condition-HasList k (dict fs) h =
      let (_, p, h1) = >>=-eq-ok (validate_path_root r roots k) _ h in
      let (_, _, l) = >>=-eq-ok (refuse_unknown_keys r (codes "in" ∷ []) (entries fs)) _ h1 in
      (p, l)
  condition-HasList k v h = (h, tt)

  pub when-Ok :
      (es : List (Key × Value))
      → All IsDotted es
      → each (validate_condition r roots) es ≡ ok tt
      → Ok (when_matches r s es)
  unfolding when_matches each
  when-Ok [] d h = returns tt
  when-Ok ((k, v) ∷ es) d h =
      let (_, c, hs) = >>=-eq-ok (validate_condition r roots (k, v)) _ h in
      let (p, l) = condition-HasList k v c in
      bind-Ok (path-Ok k v d.0 p)
        (λ o. bind-Ok (holds-Ok v o l) (λ b. if-Ok b (when-Ok es d.1 hs) (returns tt)))
