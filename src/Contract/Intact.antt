-- ===== src/Contract/Intact.antt =====
-- When the integrity checks of tools/contract/integrity.py pass.
use decision_intelligence_ru.Prelude.{
  Bool-cases, List, Option, String, [], ap, arith, eq_iff, false, inl, inr, is_empty, keep, none,
  not, refl, some, true, ◌==◌, ◌∙◌, ◌∷◌, ◌↔◌, ◌≡◌, ◌≢◌,
}
use decision_intelligence_ru.Python.{
  >>=-eq-ok, Fields, Prims, Res, bool, datetime, dict, list, null, num, ok, raise, str, un_ok,
  ◌>>=◌,
}
use decision_intelligence_ru.Python.Text.{join, split_lines}
use text.Mathlib.Text.{starts_with}
use decision_intelligence_ru.Contract.{CanonicalContract}
use decision_intelligence_ru.Contract.Bootstrap.{preset_name}
use decision_intelligence_ru.Contract.Errors.{set_text, unset_text}
use decision_intelligence_ru.Contract.Inflate.{from_raw}
use decision_intelligence_ru.Contract.Normalize.{normalize_contract_dict}
use decision_intelligence_ru.Contract.Integrity.{
  Loaded, Parsed, Report, Tools, checked_report, content_digest, expected_check, hash_check,
  load_raises, loaded, not_failed, parse_contract_yaml, parse_error, parse_report, parsed,
  parsed_value, schema_report, strip_yaml_comments, verify_contract_yaml, yaml_error,
}
use decision_intelligence_ru.Contract.Publishable.{IsPublishable, validate_bootstrap-IsPublishable}

no_errors : (xs : List String) → is_empty xs ≡ true → xs ≡ []
no_errors [] h = refl
no_errors (x ∷ xs) h = cc

-- The second list is the first without the lines that are a comment, by the function `strip`.
pub data IsUncommented (strip : String → String) : List String → List String → Type 0 where
  no_lines : IsUncommented strip [] []
  comment :
      {line : String} {lines rest : List String}
      → starts_with (strip line) "#" ≡ true
      → IsUncommented strip lines rest
      → IsUncommented strip (line ∷ lines) rest
  content :
      {line : String} {lines rest : List String}
      → starts_with (strip line) "#" ≡ false
      → IsUncommented strip lines rest
      → IsUncommented strip (line ∷ lines) (line ∷ rest)

uncommented :
    (strip : String → String) (lines : List String)
    → IsUncommented strip lines (keep (λ line. not (starts_with (strip line) "#")) lines)
unfolding keep
uncommented strip [] = no_lines
uncommented strip (line ∷ lines) = elim (Bool-cases (starts_with (strip line) "#")) [
  | inl e ↦ rw e (comment e (uncommented strip lines))
  | inr e ↦ rw e (content e (uncommented strip lines))
]

kept_lines :
    (strip : String → String) (lines rest : List String)
    → IsUncommented strip lines rest
    → keep (λ line. not (starts_with (strip line) "#")) lines ≡ rest
unfolding keep
kept_lines strip [] [] no_lines = refl
kept_lines strip [] (line ∷ rest) h = elim h [ ]
kept_lines strip (line ∷ lines) rest (comment e h) = rw e (kept_lines strip lines rest h)
kept_lines strip (line ∷ lines) (line2 ∷ rest) (content e h) =
    rw e (ap (λ l. line ∷ l) (kept_lines strip lines rest h))

module _ {F : Type 0} ⦃p : Prims F⦄ (tools : Tools F) where
  -- The dict, normalised, is one that the schema takes as the contract.
  abbrev pub IsContract : Fields F → CanonicalContract F → Type 0
  IsContract raw c =
      (normal : Fields F) × (normalize_contract_dict raw ≡ ok normal)
      × (tools.validate normal ≡ ok c)

  from_raw-IsContract :
      (raw : Fields F) (c : CanonicalContract F)
      → from_raw tools.validate raw ≡ ok c
      → IsContract raw c
  unfolding from_raw
  from_raw-IsContract raw c h =
      let (normal, e, q) = >>=-eq-ok (normalize_contract_dict raw) (λ out. tools.validate out) h in
      (normal, e, q)

  IsContract-from_raw :
      (raw : Fields F) (c : CanonicalContract F)
      → IsContract raw c
      → from_raw tools.validate raw ≡ ok c
  unfolding from_raw
  IsContract-from_raw raw c (normal, e, q) = rw e q

  -- The stored revision, where there is one, is a contract of the same content hash.
  pub data IsRevision (digest : String) : Option (Fields F) → Type 0 where
    no_revision : IsRevision digest none
    same_hash :
        {raw : Fields F} (c : CanonicalContract F)
        → IsContract raw c
        → tools.digest (tools.dump c) ≡ digest
        → IsRevision digest (some raw)

  -- The text without its comment lines loads as a dict that the schema takes as a contract, which can
  -- be published as a first one, and which is the stored revision.
  pub data IsIntact (preset : Option String) (revision : Option (Fields F)) (yaml_text : String)
      : Type 0 where
    intact :
        (lines : List String) (raw : Fields F) (c : CanonicalContract F)
        → IsUncommented p.strip (split_lines yaml_text) lines
        → p.strip (join "\n" lines) ≢ ""
        → tools.load (p.strip (join "\n" lines)) ≡ loaded (dict raw)
        → IsContract raw c
        → IsPublishable c (preset_name preset)
        → IsRevision (tools.digest (tools.dump c)) revision
        → IsIntact preset revision yaml_text

  expected_check-IsRevision :
      (digest : String) (revision : Option (Fields F))
      → not_failed (expected_check tools digest revision).0.passed ≡ true
      → IsRevision digest revision
  unfolding expected_check hash_check not_failed content_digest
  expected_check-IsRevision digest none h = no_revision
  expected_check-IsRevision digest (some raw) h = compared (from_raw tools.validate raw) refl h
    where
      compared :
          (m : Res (CanonicalContract F))
          → from_raw tools.validate raw ≡ m
          → not_failed
              (hash_check tools.exc_text digest (m >>= λ c. ok (content_digest tools c))).0.passed
            ≡ true
          → IsRevision digest (some raw)
      compared (ok c) e k =
          same_hash c (from_raw-IsContract raw c e)
            (ground (arith, eq_iff (tools.digest (tools.dump c)) digest))
      compared (raise exc) e k = cc

  IsRevision-expected_check :
      (digest : String) (revision : Option (Fields F))
      → IsRevision digest revision
      → not_failed (expected_check tools digest revision).0.passed ≡ true
  unfolding expected_check hash_check not_failed content_digest
  IsRevision-expected_check digest none no_revision = refl
  IsRevision-expected_check digest (some raw) (same_hash c e h) =
      rw (IsContract-from_raw raw c e) (ground (arith, eq_iff (tools.digest (tools.dump c)) digest))

  -- What a text must be parsed to.
  abbrev Loads : String → Fields F → Type 0
  Loads yaml_text raw =
      (lines : List String) × IsUncommented p.strip (split_lines yaml_text) lines
      × (p.strip (join "\n" lines) ≢ "")
      × (tools.load (p.strip (join "\n" lines)) ≡ loaded (dict raw))

  value_dict :
      (l : Loaded F) (raw : Fields F)
      → parsed_value tools l ≡ ok (parsed raw)
      → l ≡ loaded (dict raw)
  unfolding parsed_value
  value_dict (load_raises exc) raw h = cc
  value_dict (yaml_error message) raw h = cc
  value_dict (loaded (dict fs)) raw h = cc
  value_dict (loaded null) raw h = cc
  value_dict (loaded (bool b)) raw h = cc
  value_dict (loaded (num x)) raw h = cc
  value_dict (loaded (str t)) raw h = cc
  value_dict (loaded (datetime t)) raw h = cc
  value_dict (loaded (list vs)) raw h = cc

  parse-Loads :
      (yaml_text : String) (raw : Fields F)
      → parse_contract_yaml tools yaml_text ≡ ok (parsed raw)
      → Loads yaml_text raw
  unfolding parse_contract_yaml strip_yaml_comments
  parse-Loads yaml_text raw h =
      let lines = keep (λ line. not (starts_with (p.strip line) "#")) (split_lines yaml_text) in
      elim (Bool-cases (p.strip (join "\n" lines) == "")) [
        | inl e ↦ absurd (let k = rw e at h in cc (k))
        | inr e ↦ (
          lines,
          uncommented p.strip (split_lines yaml_text),
          set_text _ e,
          value_dict (tools.load (p.strip (join "\n" lines))) raw (ground arith),
        )
      ]

  Loads-parse :
      (yaml_text : String) (raw : Fields F)
      → Loads yaml_text raw
      → parse_contract_yaml tools yaml_text ≡ ok (parsed raw)
  unfolding parse_contract_yaml strip_yaml_comments
  Loads-parse yaml_text raw (lines, u, n, l) =
      rw (kept_lines p.strip (split_lines yaml_text) lines u)
        (rw (unset_text (p.strip (join "\n" lines)) n) (unfold parsed_value in rw l refl))

  schema_report-passed :
      (preset : Option String) (revision : Option (Fields F)) (raw : Fields F)
      (m : Res (CanonicalContract F))
      → (schema_report tools preset revision raw m).integrity_ok ≡ true
      → (c : CanonicalContract F) × (m ≡ ok c)
        × IsPublishable c (preset_name preset)
        × IsRevision (tools.digest (tools.dump c)) revision
  unfolding schema_report checked_report content_digest
  schema_report-passed preset revision raw (raise exc) h = cc
  schema_report-passed preset revision raw (ok c) h = (
    c,
    refl,
    (validate_bootstrap-IsPublishable c preset).0 (no_errors _ (ground arith)),
    expected_check-IsRevision _ revision (ground arith),
  )

  parse_report-IsIntact :
      (preset : Option String) (revision : Option (Fields F)) (yaml_text : String) (m : Parsed F)
      → parse_contract_yaml tools yaml_text ≡ ok m
      → (parse_report tools preset revision m).integrity_ok ≡ true
      → IsIntact preset revision yaml_text
  unfolding parse_report
  parse_report-IsIntact preset revision yaml_text (parse_error message) e h = cc
  parse_report-IsIntact preset revision yaml_text (parsed raw) e h =
      let (lines, u, n, l) = parse-Loads yaml_text raw e in
      let (c, q, b, r) = schema_report-passed preset revision raw (from_raw tools.validate raw) h in
      intact lines raw c u n l (from_raw-IsContract raw c q) b r

  -- A report that says so, and no exception.
  abbrev pub IsPassed : Res (Report F) → Type 0
  IsPassed m = (report : Report F) × (m ≡ ok report) × (report.integrity_ok ≡ true)

  verify-IsPassed :
      (preset : Option String) (revision : Option (Fields F)) (yaml_text : String)
      → IsIntact preset revision yaml_text
      → IsPassed (verify_contract_yaml tools yaml_text preset revision)
  unfolding verify_contract_yaml parse_report schema_report checked_report content_digest
  verify-IsPassed preset revision yaml_text (intact lines raw c u n l e b r) = (
    parse_report tools preset revision (parsed raw),
    rw (Loads-parse yaml_text raw (lines, u, n, l)) refl,
    rw (IsContract-from_raw raw c e) (
        rw ((validate_bootstrap-IsPublishable c preset).1 b)
          (IsRevision-expected_check _ revision r)),
  )

  -- The integrity checks pass exactly when the YAML text, without the lines that are comments, is not
  -- empty and loads as a dict that, normalised, the schema takes as a contract, the contract meets the
  -- rules that the code has for a first publication under the preset, and the stored revision, where
  -- one is given, is a contract of the same content hash.
  pub verify_yaml-IsIntact :
      (yaml_text : String) (preset : Option String) (revision : Option (Fields F))
      → IsPassed (verify_contract_yaml tools yaml_text preset revision)
        ↔ IsIntact preset revision yaml_text
  unfolding verify_contract_yaml
  verify_yaml-IsIntact yaml_text preset revision = (
    λ (report, e, h).
        let (m, q, k) =
          >>=-eq-ok (parse_contract_yaml tools yaml_text)
            (λ m. ok (parse_report tools preset revision m)) e in
        parse_report-IsIntact preset revision yaml_text m q
          (ap (λ x. x.integrity_ok) (un_ok k) ∙ h),
    verify-IsPassed preset revision yaml_text,
  )
