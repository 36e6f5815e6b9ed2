-- ===== src/Registry/Version.antt =====
-- `_parse_version` and `_version_compatible` of src/dir_core/agent_registry.py, over the code points
-- of ASCII texts: `\d` is an ASCII digit, `strip` drops blanks, tabs and line ends.
use decision_intelligence_ru.Prelude.{
  Bool, List, Option, String, [], all, eqb, false, if◌then◌else◌, leb, none, not, refl, some, true,
  ℕ, ◌&&◌, ◌*◌, ◌++◌, ◌+◌, ◌-◌, ◌||◌, ◌∷◌, ◌≡◌,
}
use mathlib.Core.List.{reverse}
use Prim.Native.Char.{code}

abbrev pub codes : String → List ℕ
codes String.[] = []
codes (String.◌∷◌ c s) = code c ∷ codes s

abbrev pub is_digit : ℕ → Bool
is_digit c = leb 48 c && leb c 57

abbrev pub is_space : ℕ → Bool
is_space c = eqb c 32 || (leb 9 c && leb c 13)

unfoldable pub drop_spaces : List ℕ → List ℕ
drop_spaces [] = []
drop_spaces (c ∷ cs) = if is_space c then drop_spaces cs else c ∷ cs

unfoldable pub strip : List ℕ → List ℕ
unfolding drop_spaces
strip cs = reverse (drop_spaces (reverse (drop_spaces cs)))

-- `\d*`: the number read so far, and the rest
unfoldable pub digits : ℕ → List ℕ → ℕ × List ℕ
digits n [] = (n, [])
digits n (c ∷ cs) = if is_digit c then digits (n * 10 + (c - 48)) cs else (n, c ∷ cs)

-- `\d+`
unfoldable pub number : List ℕ → Option (ℕ × List ℕ)
unfolding digits
number [] = none
number (c ∷ cs) = if is_digit c then some (digits (c - 48) cs) else none

-- `\.\d+`
unfoldable pub dot_number : List ℕ → Option (ℕ × List ℕ)
unfolding number
dot_number [] = none
dot_number (c ∷ cs) = if eqb c 46 then number cs else none

-- `(?:[-+].*)?$`
unfoldable pub at_end : List ℕ → Bool
at_end [] = true
at_end (c ∷ cs) = (eqb c 45 || eqb c 43) && all (λ d. not (eqb d 10)) cs

pub record Semver : Type 0 where
  pub major : ℕ
  pub minor : ℕ
  pub patch : ℕ

finish : ℕ → ℕ → ℕ → List ℕ → Option Semver
unfolding at_end
finish major minor patch rest =
    if at_end rest then some (record { major = major; minor = minor; patch = patch }) else none

-- behind the minor number: `(?:\.(\d+))?`, then the end
after_minor : ℕ → ℕ → List ℕ → Option Semver
unfolding finish dot_number
after_minor major minor rest = elim (dot_number rest) [
  | none ↦ finish major minor 0 rest
  | some (patch, rest') ↦ finish major minor patch rest'
]

unfoldable pub parse_codes : List ℕ → Option Semver
unfolding number dot_number after_minor strip
parse_codes cs = elim (number (strip cs)) [
  | none ↦ none
  | some (major, rest) ↦ elim (dot_number rest) [
    | none ↦ none
    | some (minor, rest') ↦ after_minor major minor rest'
  ]
]

unfoldable pub parse_version : String → Option Semver
unfolding parse_codes
parse_version v = parse_codes (codes v)

abbrev same_major : Option Semver → Option Semver → Bool
same_major (some a) (some s) = eqb a.major s.major
same_major _ _ = false

abbrev serves : Option Semver → Option Semver → Bool
serves (some a) (some s) = eqb a.major s.major && leb s.minor a.minor
serves _ _ = false

-- the text without its last two characters, where these are ".x"
unfoldable pub wildcard : List ℕ → Option (List ℕ)
wildcard [] = none
wildcard (c ∷ []) = none
wildcard (c ∷ d ∷ []) = if eqb c 46 && eqb d 120 then some [] else none
wildcard (c ∷ d ∷ e ∷ cs) = elim (wildcard (d ∷ e ∷ cs)) [ none ↦ none | some ps ↦ some (c ∷ ps) ]

unfoldable pub version_compatible : String → String → Bool
unfolding wildcard parse_codes parse_version
version_compatible agent_ver supported = elim (wildcard (codes supported)) [
  | some prefix ↦ same_major (parse_version agent_ver) (parse_codes (prefix ++ 46 ∷ 48 ∷ []))
  | none ↦ serves (parse_version agent_ver) (parse_version supported)
]

parse_example : parse_version " 1.22.3-rc1 " ≡ some (record { major = 1; minor = 22; patch = 3 })
unfolding parse_version
parse_example = refl

wildcard_serves : version_compatible "1.7.2" "1.x" ≡ true
unfolding version_compatible
wildcard_serves = refl

older_minor : version_compatible "1.1" "1.2" ≡ false
unfolding version_compatible
older_minor = refl

not_a_version : version_compatible "v1.0" "1.x" ≡ false
unfolding version_compatible
not_a_version = refl
