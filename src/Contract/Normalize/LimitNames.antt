-- ===== src/Contract/Normalize/LimitNames.antt =====
-- The names of the limits in a normalised contract.
use decision_intelligence_ru.Prelude.{
  All, Bool, Bool-cases, String, ap, arith, eq_iff, eq_refl, false, inl, inr, mem, refl, subst, sym,
  true, ◌&&◌, ◌==◌, ◌||◌, ◌∙◌, ◌≡◌,
}
use decision_intelligence_ru.Python.{
  Fields, Prims, Value, bool, datetime, dict, dict_or_empty, drop_field, end, field, field_keys,
  get_field, list, null, num, ok, set_field, str, un_ok, update_fields,
}
use decision_intelligence_ru.Contract.{normalize_limit_key}
use decision_intelligence_ru.Contract.Normalize.{
  gather_limits, is_limit_key, limit_value, move_limit, move_limits, normalize_limits,
  update_limits,
}
use decision_intelligence_ru.Contract.Normalize.Aliases.{IsCanonical, normalize-IsCanonical}
use decision_intelligence_ru.Contract.Normalize.Keys.{mem-set_default, mem-set_field, set_field-All}

module _ {F : Type 0} ⦃p : Prims F⦄ where
  limits_kept :
      (raw limits : Fields F) (key : String)
      → mem key (field_keys limits) ≡ true
      → mem key (field_keys (normalize_limits raw limits)) ≡ true
  unfolding normalize_limits
  limits_kept end limits key h = h
  limits_kept (field k v raw) limits key h = limits_kept raw _ key (
      rw (mem-set_field key (normalize_limit_key k) (limit_value (normalize_limit_key k) v) limits)
        (ground arith))

  limits_found :
      (raw limits : Fields F) (key : String)
      → mem key (field_keys raw) ≡ true
      → mem (normalize_limit_key key) (field_keys (normalize_limits raw limits)) ≡ true
  unfolding normalize_limits mem
  limits_found end limits key h = cc
  limits_found (field k v raw) limits key h = elim (Bool-cases (k == key)) [
    | inl e ↦
        limits_kept raw
          (set_field (normalize_limit_key k) (limit_value (normalize_limit_key k) v) limits)
          (normalize_limit_key key)
          (rw
            (mem-set_field (normalize_limit_key key) (normalize_limit_key k)
              (limit_value (normalize_limit_key k) v) limits)
            (ground (
              arith,
              (eq_iff (normalize_limit_key k) (normalize_limit_key key)).1
                  (ap normalize_limit_key ((eq_iff k key).0 e)),
            )))
    | inr e ↦ limits_found raw _ key (ground arith)
  ]

  pub IsCanonical-limits :
      (raw limits : Fields F)
      → All IsCanonical (field_keys limits)
      → All IsCanonical (field_keys (normalize_limits raw limits))
  unfolding normalize_limits
  IsCanonical-limits end limits h = h
  IsCanonical-limits (field k v raw) limits h =
      IsCanonical-limits raw _
        (set_field-All IsCanonical (normalize_limit_key k) _ limits h (normalize-IsCanonical k))

  move_kept :
      (b : Bool) (k : String) (v : Value F) (state : Fields F × Fields F) (key : String)
      → mem key (field_keys state.1) ≡ true
      → mem key (field_keys (move_limit b k v state).1) ≡ true
  unfolding move_limit
  move_kept true k v state key h =
      rw (mem-set_default key (normalize_limit_key k) v state.1) (ground arith)
  move_kept false k v state key h = h

  moved_kept :
      (fs : Fields F) (state : Fields F × Fields F) (key : String)
      → mem key (field_keys state.1) ≡ true
      → mem key (field_keys (move_limits fs state).1) ≡ true
  unfolding move_limits
  moved_kept end state key h = h
  moved_kept (field k v fs) state key h =
      moved_kept fs (move_limit (is_limit_key k) k v state) key
        (move_kept (is_limit_key k) k v state key h)

  move_found :
      (b : Bool) (k : String) (v : Value F) (state : Fields F × Fields F)
      → b ≡ true
      → mem (normalize_limit_key k) (field_keys (move_limit b k v state).1) ≡ true
  unfolding move_limit
  move_found true k v state h =
      rw (mem-set_default (normalize_limit_key k) (normalize_limit_key k) v state.1)
        (ground (arith, eq_refl (normalize_limit_key k)))
  move_found false k v state h = cc

  moved_found :
      (fs : Fields F) (state : Fields F × Fields F) (key : String)
      → mem key (field_keys fs) ≡ true
      → is_limit_key key ≡ true
      → mem (normalize_limit_key key) (field_keys (move_limits fs state).1) ≡ true
  unfolding move_limits mem
  moved_found end state key h i = cc
  moved_found (field k v fs) state key h i = elim (Bool-cases (k == key)) [
    | inl e ↦ moved_kept fs (move_limit (is_limit_key k) k v state) (normalize_limit_key key) (
        subst
          (λ q.
            mem (normalize_limit_key q) (field_keys (move_limit (is_limit_key k) k v state).1)
            ≡ true)
          ((eq_iff k key).0 e)
          (move_found (is_limit_key k) k v state (ap is_limit_key ((eq_iff k key).0 e) ∙ i)))
    | inr e ↦ moved_found fs (move_limit (is_limit_key k) k v state) key (ground arith) i
  ]

  updated_kept :
      (d new : Fields F) (key : String)
      → mem key (field_keys d) ≡ true
      → mem key (field_keys (update_fields d new)) ≡ true
  unfolding update_fields
  updated_kept d end key h = h
  updated_kept d (field k v new) key h =
      updated_kept (set_field k v d) new key (rw (mem-set_field key k v d) (ground arith))

  update_limits_kept :
      (nested : Value F) (limits : Fields F) (key : String)
      → mem key (field_keys limits) ≡ true
      → mem key (field_keys (update_limits nested limits)) ≡ true
  unfolding update_limits
  update_limits_kept (dict new) limits key h = updated_kept limits new key h
  update_limits_kept null limits key h = h
  update_limits_kept (bool x) limits key h = h
  update_limits_kept (num x) limits key h = h
  update_limits_kept (str x) limits key h = h
  update_limits_kept (datetime x) limits key h = h
  update_limits_kept (list x) limits key h = h

  abbrev pub start : Fields F → Fields F → Fields F × Fields F
  start authority limits = (
    drop_field "irreversible_limits" authority,
    update_limits (get_field "irreversible_limits" authority) limits,
  )

  -- the raw limits of an authority
  abbrev pub raw_limits : Fields F → Fields F → Fields F × Fields F
  raw_limits authority limits =
      let rest = drop_field "irreversible_limits" authority in
      move_limits rest (start authority limits)

  gathered :
      (authority limits : Fields F)
      → get_field "limits" authority ≡ dict limits
      → gather_limits authority ≡ ok (raw_limits authority limits)
  unfolding gather_limits dict_or_empty
  gathered authority limits e = rw e refl

  found_raw :
      (authority limits : Fields F) (key : String)
      → mem key (field_keys limits)
          || (mem key (field_keys (drop_field "irreversible_limits" authority)) && is_limit_key key)
        ≡ true
      → mem
          (normalize_limit_key key)
          (field_keys (normalize_limits (raw_limits authority limits).1 end))
        ≡ true
  found_raw authority limits key h =
      let rest = drop_field "irreversible_limits" authority in
      elim (Bool-cases (mem key (field_keys limits))) [
        | inl e ↦
            limits_found (raw_limits authority limits).1 end key
              (moved_kept rest (start authority limits) key (update_limits_kept _ limits key e))
        | inr e ↦
            subst
              (λ q.
                mem q (field_keys (normalize_limits (raw_limits authority limits).1 end)) ≡ true)
              (normalize-IsCanonical key)
              (limits_found (raw_limits authority limits).1 end (normalize_limit_key key)
                (moved_found rest (start authority limits) key (ground arith) (ground arith)))
      ]

  -- The limits of a normalised authority all have a canonical name, and none is lost: a limit that
  -- stands at the top of the authority under a name or an alias of an irreversible limit, and one that
  -- stands in its dict of limits under any name, is found under the canonical name.
  normalize-limits_kept :
      (authority limits rest raw : Fields F) (key : String)
      → get_field "limits" authority ≡ dict limits
      → gather_limits authority ≡ ok (rest, raw)
      → mem key (field_keys limits)
          || (mem key (field_keys (drop_field "irreversible_limits" authority)) && is_limit_key key)
        ≡ true
      → All IsCanonical (field_keys (normalize_limits raw end))
        × (mem (normalize_limit_key key) (field_keys (normalize_limits raw end)) ≡ true)
  normalize-limits_kept authority limits rest raw key e h k = (
    IsCanonical-limits raw end tt,
    subst (λ r. mem (normalize_limit_key key) (field_keys (normalize_limits r end)) ≡ true)
        (ap (λ r. r.1) (un_ok (sym (gathered authority limits e) ∙ h)))
        (found_raw authority limits key k),
  )
