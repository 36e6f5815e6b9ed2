-- ===== src/Python.antt =====
-- The Python values that contracts, proposals and contexts are made of (`Any`, `Dict[str, Any]`),
-- and what src/dir_core uses of Python's floats, texts and exceptions.
-- A number is a float of the type `F`, whose operations are the parameter `Prims F`: an `int` stands
-- for the float that `float(i)` gives. A `datetime` is UTC microseconds since the epoch.
pub mod Text
pub mod Json
pub mod Sample
use decision_intelligence_ru.Prelude.{
  Bool, List, Option, String, [], eqb, false, if◌then◌else◌, inl, inr, leb_ℤ, map, none, not,
  or_else, refl, some, suc, true, ℕ, ℤ, ◌&&◌, ◌==◌, ◌||◌, ◌∷◌, ◌≡◌, ◌⊎◌,
}

mutual
  pub data Value (F : Type 0) : Type 0 where
    null : Value F
    bool : Bool → Value F
    num : F → Value F
    str : String → Value F
    datetime : ℤ → Value F
    list : Values F → Value F
    dict : Fields F → Value F

  -- the items of a Python list
  pub data Values (F : Type 0) : Type 0 where
    nil : Values F
    cons : Value F → Values F → Values F

  -- the items of a Python dict, in insertion order
  pub data Fields (F : Type 0) : Type 0 where
    end : Fields F
    field : String → Value F → Fields F → Fields F

pub data Exc : Type 0 where
  type_error value_error attribute_error validation_error overflow_error : Exc

-- A call that may raise.
pub data Res {ℓ} (A : Type ℓ) : Type ℓ where
  ok : A → Res A
  raise : Exc → Res A

-- What the code uses of the Python runtime. `lt` and `eq` are the IEEE comparisons, false at a NaN.
pub record Prims (F : Type 0) : Type 0 where
  pub lt : F → F → Bool
  pub eq : F → F → Bool
  pub sub : F → F → F
  pub mul : F → F → F
  pub div : F → F → F
  pub abs : F → F
  pub dec : ℕ → ℕ → F  -- the literal m / 10 ^ k
  pub of_int : ℤ → F  -- float(i)
  pub parse : String → Option F  -- float(text), none where it raises ValueError
  pub sum : List F → F  -- sum(xs)
  pub after : ℤ → F → Res ℤ  -- time + timedelta(seconds=x), which may raise
  pub upper : String → String
  pub lower : String → String
  pub iso : ℤ → String  -- datetime.isoformat()
  pub casefold : String → String
  pub strip : String → String
  pub show : Value F → String  -- format(value), as in an f-string
  -- a number between two ordered ones is beyond one of them, unless it is a NaN
  pub lt_between : (a b c : F) → eq b b ≡ true → lt a c ≡ true → (lt a b ≡ true) ⊎ (lt b c ≡ true)
  -- a number below another is neither above it nor equal to it
  pub lt_not_le : (a b : F) → lt a b ≡ true → lt b a || eq b a ≡ false

infixl 5 ◌>>=◌
abbrev pub ◌>>=◌ {ℓ κ} : {A : Type ℓ} {B : Type κ} → Res A → (A → Res B) → Res B
raise exc >>= next = raise exc
ok value >>= next = next value

-- Tests in a row, each with an early return: the next one runs where this one found nothing.
infixr 6 ◌>>?◌
abbrev pub ◌>>?◌ {ℓ} : {A : Type ℓ} → Res (Option A) → Res (Option A) → Res (Option A)
ok none >>? next = next
ok (some reason) >>? next = ok (some reason)
raise e >>? next = raise e

pub >>?-eq-none {ℓ} :
    {A : Type ℓ} (m n : Res (Option A)) → (m >>? n) ≡ ok none → (m ≡ ok none) × (n ≡ ok none)
>>?-eq-none (ok none) n h = (refl, h)
>>?-eq-none (ok (some a)) n h = cc
>>?-eq-none (raise e) n h = cc

-- A sequence that returns has a first part that returns.
pub >>=-eq-ok {ℓ κ} :
    {A : Type ℓ} {B : Type κ} (first : Res A) (next : A → Res B) {result : B}
    → (first >>= next) ≡ ok result
    → (v : A) × (first ≡ ok v) × (next v ≡ ok result)
>>=-eq-ok (ok v) next returns = (v, refl, returns)
>>=-eq-ok (raise exc) next returns = cc

pub un_ok {ℓ} : {A : Type ℓ} {a b : A} → ok a ≡ ok b → a ≡ b
un_ok h = cc

pub Res-cases {ℓ} : {A : Type ℓ} (m : Res A) → ((a : A) × (m ≡ ok a)) ⊎ ((e : Exc) × (m ≡ raise e))
Res-cases (ok a) = inl (a, refl)
Res-cases (raise e) = inr (e, refl)

module _ {F : Type 0} where
  -- `fields.get(key)`, with `none` for a key that is not there
  unfoldable pub find_field : String → Fields F → Option (Value F)
  find_field k end = none
  find_field k (field j v fs) = if j == k then some v else find_field k fs

  -- `fields.get(key)`
  unfoldable pub get_field : String → Fields F → Value F
  unfolding find_field
  get_field k fs = or_else (find_field k fs) null

  -- `fields[key] = value`
  unfoldable pub set_field : String → Value F → Fields F → Fields F
  set_field k v end = field k v end
  set_field k v (field j w fs) = if j == k then field j v fs else field j w (set_field k v fs)

  -- `del fields[key]`
  unfoldable pub drop_field : String → Fields F → Fields F
  drop_field k end = end
  drop_field k (field j w fs) = if j == k then drop_field k fs else field j w (drop_field k fs)

  -- `target.update(updates)`
  unfoldable pub update_fields : Fields F → Fields F → Fields F
  unfolding set_field
  update_fields d end = d
  update_fields d (field k v fs) = update_fields (set_field k v d) fs

  -- the keys of a dict
  abbrev pub field_keys : Fields F → List String
  field_keys end = []
  field_keys (field k v fs) = k ∷ field_keys fs

  abbrev pub count_fields : Fields F → ℕ
  count_fields end = 0
  count_fields (field k v fs) = suc (count_fields fs)

  -- `bool(value)`, for the containers and texts that the code tests
  unfoldable pub truthy : ⦃p : Prims F⦄ → Value F → Bool
  truthy null = false
  truthy (bool b) = b
  truthy ⦃p⦄ (num x) = not (p.eq x (p.dec 0 0))
  truthy (str s) = not (s == "")
  truthy (datetime t) = true
  truthy (list nil) = false
  truthy (list (cons v vs)) = true
  truthy (dict end) = false
  truthy (dict (field k v fs)) = true

  -- `a <= b`
  abbrev pub le : ⦃p : Prims F⦄ → F → F → Bool
  le ⦃p⦄ a b = p.lt a b || p.eq a b

  -- The float that a `bool` is.
  abbrev pub of_bool : ⦃p : Prims F⦄ → Bool → F
  of_bool ⦃p⦄ true = p.dec 1 0
  of_bool ⦃p⦄ false = p.dec 0 0

  -- `float(value)`
  unfoldable pub to_float : ⦃p : Prims F⦄ → Value F → Res F
  to_float ⦃p⦄ (bool b) = ok (of_bool b)
  to_float (num x) = ok x
  to_float ⦃p⦄ (str s) = elim (p.parse s) [ none ↦ raise value_error | some x ↦ ok x ]
  to_float _ = raise type_error

-- `a == b` on values: `True == 1`, and dicts are compared whatever their order.
unfoldable mutual
  unfolding find_field

  pub eqv : {F : Type 0} → ⦃p : Prims F⦄ → Value F → Value F → Bool
  eqv null null = true
  eqv (bool a) (bool b) = if a then b else not b
  eqv ⦃p⦄ (bool a) (num y) = p.eq (of_bool a) y
  eqv ⦃p⦄ (num x) (bool b) = p.eq x (of_bool b)
  eqv ⦃p⦄ (num x) (num y) = p.eq x y
  eqv (str s) (str t) = s == t
  eqv (datetime a) (datetime b) = leb_ℤ a b && leb_ℤ b a
  eqv (list xs) (list ys) = eqv_items xs ys
  eqv (dict a) (dict b) = eqb (count_fields a) (count_fields b) && eqv_fields a b
  eqv _ _ = false

  pub eqv_items : {F : Type 0} → ⦃p : Prims F⦄ → Values F → Values F → Bool
  eqv_items nil nil = true
  eqv_items (cons x xs) (cons y ys) = eqv x y && eqv_items xs ys
  eqv_items _ _ = false

  pub eqv_fields : {F : Type 0} → ⦃p : Prims F⦄ → Fields F → Fields F → Bool
  eqv_fields end b = true
  eqv_fields (field k v a) b =
      elim (find_field k b) [ none ↦ false | some w ↦ eqv v w ] && eqv_fields a b

module _ {F : Type 0} where
  -- `value in values`
  unfoldable pub member : ⦃p : Prims F⦄ → Value F → List (Value F) → Bool
  member v [] = false
  member v (x ∷ xs) = eqv x v || member v xs

  abbrev pub items : Values F → List (Value F)
  items nil = []
  items (cons v vs) = v ∷ items vs

  abbrev pub is_null : Value F → Bool
  is_null null = true
  is_null _ = false

  -- `dict(value or {})`; a list of pairs, which Python would take too, is not modelled
  unfoldable pub dict_or_empty : ⦃p : Prims F⦄ → Value F → Res (Fields F)
  dict_or_empty (dict fs) = ok fs
  dict_or_empty (str s) = if s == "" then ok end else raise value_error
  dict_or_empty v = if truthy v then raise type_error else ok end

  -- the one-character texts of a text
  unfoldable pub characters : String → List (Value F)
  characters String.[] = []
  characters (String.◌∷◌ c s) = str (String.◌∷◌ c String.[]) ∷ characters s

  -- `list(value)`
  unfoldable pub to_list : Value F → Res (List (Value F))
  to_list (list vs) = ok (items vs)
  to_list (dict fs) = ok (map str (field_keys fs))
  to_list (str s) = ok (characters s)
  to_list _ = raise type_error

  -- `list(value or [])`
  unfoldable pub list_or_empty : ⦃p : Prims F⦄ → Value F → Res (List (Value F))
  list_or_empty v = if truthy v then to_list v else ok []

  -- `str(value)`
  unfoldable pub to_text : ⦃p : Prims F⦄ → Value F → String
  to_text (str s) = s
  to_text ⦃p⦄ v = p.show v

  abbrev pub is_dict : Value F → Bool
  is_dict (dict fs) = true
  is_dict _ = false
