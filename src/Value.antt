-- ===== src/Value.antt =====
-- Values that YAML and JSON files hold, as provenex/policy/yaml_evaluator.py sees them: Python's
-- None, booleans, integers, strings, lists and dictionaries. `other n` is an object of another
-- type (a float, a date, a method, a context object), known by a number.
use provenex_core.Prelude.{
  ℕ, zero, suc, ℤ, pos, negsuc, Bool, true, false, ◌&&◌, ◌||◌, Option, none, some, List, [], ◌∷◌,
  map, String, if◌then◌else◌, ◌==◌, nat_eq, list_eq,
}
use provenex_core.Text.{Text, codes}

-- A dictionary's key: a string, or a key of another type.
pub data Key : Type 0 where
  name : Text → Key
  other_key : ℕ → Key

mutual
  pub data Value : Type 0 where
    null : Value
    bool : Bool → Value
    int : ℤ → Value
    text : Text → Value
    seq : Items → Value
    dict : Fields → Value
    other : ℕ → Value

  pub data Items : Type 0 where
    nil : Items
    cons : Value → Items → Items

  pub data Fields : Type 0 where
    end : Fields
    field : Key → Value → Fields → Fields

-- A dictionary's items, in order.
pub Entries : Type 0
Entries = List (Key × Value)

unfoldable pub elements : Items → List Value
elements nil = []
elements (cons v vs) = v ∷ elements vs

unfoldable pub entries : Fields → List (Key × Value)
entries end = []
entries (field k v fs) = (k, v) ∷ entries fs

unfoldable pub to_fields : List (Key × Value) → Fields
to_fields [] = end
to_fields ((k, v) ∷ es) = field k v (to_fields es)

unfoldable pub same_key : Key → Key → Bool
same_key (name s) (name t) = s == t
same_key (other_key m) (other_key n) = m == n
same_key (name s) (other_key n) = false
same_key (other_key m) (name t) = false

-- `d.get(k)`; a key that is missing is none, where a value None is `some null`.
unfoldable pub get : Text → Fields → Option Value
unfolding same_key
get k end = none
get k (field j v fs) = let rest = get k fs in if same_key j (name k) then some v else rest

unfoldable pub get_key : Key → Fields → Option Value
unfolding same_key
get_key k end = none
get_key k (field j v fs) = let rest = get_key k fs in if same_key j k then some v else rest

-- `d[k] = v`
unfoldable pub put : Text → Value → Fields → Fields
unfolding same_key
put k v end = field (name k) v end
put k v (field j w fs) =
    let rest = field j w (put k v fs) in if same_key j (name k) then field j v fs else rest

-- The same for a key of any type.
unfoldable pub put_key : Key → Value → Fields → Fields
unfolding same_key
put_key k v end = field k v end
put_key k v (field j w fs) =
    let rest = field j w (put_key k v fs) in if same_key j k then field j v fs else rest

-- `d.update(other)`
unfoldable pub update : Fields → Fields → Fields
update fs end = fs
update fs (field k v gs) = update (put_key k v fs) gs

-- `d.pop(k, None)`
unfoldable pub pop : Text → Fields → Fields
unfolding same_key
pop k end = end
pop k (field j v fs) = let rest = pop k fs in if same_key j (name k) then rest else field j v rest

-- `d.setdefault(k, v)`
unfoldable pub set_default : Text → Value → Fields → Fields
set_default k v fs = elim (get k fs) [ none ↦ put k v fs | some w ↦ fs ]

abbrev pub or_null : Option Value → Value
or_null none = null
or_null (some v) = v

-- A value of type Optional[str].
abbrev pub optional_text : Option Text → Value
optional_text none = null
optional_text (some s) = text s

abbrev pub number : ℕ → Value
number n = int (pos n)

abbrev pub items : List Value → Items
items [] = nil
items (v ∷ vs) = cons v (items vs)

abbrev pub texts : List Text → Value
texts ss = seq (items (map text ss))

abbrev pub entry_of : String → Value → Key × Value
entry_of k v = (name (codes k), v)

abbrev pub entry_if {ℓ} : {A : Type ℓ} → String → (A → Value) → Option A → List (Key × Value)
entry_if k f none = []
entry_if k f (some a) = entry_of k (f a) ∷ []

abbrev pub or_none_value {ℓ} : {A : Type ℓ} → (A → Value) → Option A → Value
or_none_value f none = null
or_none_value f (some a) = f a

abbrev pub count : Fields → ℕ
count end = 0
count (field k v fs) = suc (count fs)

abbrev int_eq : ℤ → ℤ → Bool
int_eq (pos m) (pos n) = m == n
int_eq (negsuc m) (negsuc n) = m == n
int_eq (pos m) (negsuc n) = false
int_eq (negsuc m) (pos n) = false

abbrev pub truth_int : Bool → ℤ
truth_int true = pos 1
truth_int false = pos 0

module _ (other_eq : ℕ → Value → Bool) where
  abbrev null_eq : Value → Bool
  null_eq null = true
  null_eq (other n) = other_eq n null
  null_eq _ = false

  -- True is 1 and False is 0.
  abbrev number_eq : ℤ → Value → Bool
  number_eq z (bool b) = int_eq z (truth_int b)
  number_eq z (int w) = int_eq z w
  number_eq z (other n) = other_eq n (int z)
  number_eq z _ = false

  abbrev text_value_eq : Text → Value → Bool
  text_value_eq s (text t) = s == t
  text_value_eq s (other n) = other_eq n (text s)
  text_value_eq s _ = false

  -- Python's `==`; dictionaries are equal when they hold equal values under the same keys, in
  -- whatever order. `other_eq` says what an object of another type is equal to.
  unfoldable mutual
    unfolding get_key same_key

    pub value_eq : Value → Value → Bool
    value_eq null w = null_eq w
    value_eq (bool b) w = number_eq (truth_int b) w
    value_eq (int z) w = number_eq z w
    value_eq (text s) w = text_value_eq s w
    value_eq (seq vs) w = elim w [
      | seq ws ↦ items_eq vs ws
      | other n ↦ other_eq n (seq vs)
      | _ ↦ false
    ]
    value_eq (dict fs) w = elim w [
      | dict gs ↦ count fs == count gs && fields_in fs gs
      | other n ↦ other_eq n (dict fs)
      | _ ↦ false
    ]
    value_eq (other n) w = other_eq n w

    items_eq : Items → Items → Bool
    items_eq nil nil = true
    items_eq (cons v vs) (cons w ws) = value_eq v w && items_eq vs ws
    items_eq nil (cons w ws) = false
    items_eq (cons v vs) nil = false

    fields_in : Fields → Fields → Bool
    fields_in end gs = true
    fields_in (field k v fs) gs = elim (get_key k gs) [
      | none ↦ false
      | some w ↦ value_eq v w && fields_in fs gs
    ]

  -- `v in vs` of a list
  unfoldable pub contains : Items → Value → Bool
  contains nil v = false
  contains (cons w vs) v = value_eq w v || contains vs v

-- bool(v), for what `or` and `not` ask; `other_truth` says it of an object of another type.
unfoldable pub truthy : (ℕ → Bool) → Value → Bool
truthy other_truth null = false
truthy other_truth (bool b) = b
truthy other_truth (int (pos zero)) = false
truthy other_truth (int (pos (suc n))) = true
truthy other_truth (int (negsuc n)) = true
truthy other_truth (text []) = false
truthy other_truth (text (c ∷ s)) = true
truthy other_truth (seq nil) = false
truthy other_truth (seq (cons v vs)) = true
truthy other_truth (dict end) = false
truthy other_truth (dict (field k v fs)) = true
truthy other_truth (other n) = other_truth n
