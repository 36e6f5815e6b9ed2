-- ===== src/Python/Text.antt =====
-- What the code uses of Python's `str`: split, prefix, substring, join, on native texts.
use decision_intelligence_ru.Prelude.{
  Bool, any, List, String, [], eqb, if◌then◌else◌, refl, suc, true, zero, ℕ, ◌==◌, ◌&&◌, ◌||◌, ◌∷◌,
  ◌≡◌,
}
use Prim.Native.Char.{Char, code}
use text.Mathlib.Text.{starts_with}

infixr 65 ◌+s◌
-- `a + b` on texts
abbrev pub ◌+s◌ : String → String → String
a +s b = Prim.Native.String.◌++◌ a b

push : Char → List String → List String
push c [] = String.◌∷◌ c String.[] ∷ []
push c (s ∷ rest) = String.◌∷◌ c s ∷ rest

-- `text.split(".")`
unfoldable pub split_dots : String → List String
unfolding push
split_dots String.[] = "" ∷ []
split_dots (String.◌∷◌ c s) = if eqb (code c) b'.' then "" ∷ split_dots s else push c (split_dots s)

-- `needle in text`
unfoldable pub contains : String → String → Bool
contains needle String.[] = needle == ""
contains needle (String.◌∷◌ c s) = starts_with (String.◌∷◌ c s) needle || contains needle s

-- `text.endswith(suffix)`
unfoldable pub ends_with : String → String → Bool
ends_with String.[] suffix = suffix == ""
ends_with (String.◌∷◌ c s) suffix = String.◌∷◌ c s == suffix || ends_with s suffix

drop_text : ℕ → String → String
drop_text zero s = s
drop_text (suc n) String.[] = ""
drop_text (suc n) (String.◌∷◌ c s) = drop_text n s

-- `text[:n]`
unfoldable pub first_chars : ℕ → String → String
first_chars zero s = ""
first_chars (suc n) String.[] = ""
first_chars (suc n) (String.◌∷◌ c s) = String.◌∷◌ c (first_chars n s)

-- `text.removeprefix(prefix)`, for an ASCII prefix of `n` characters
unfoldable pub remove_prefix : ℕ → String → String → String
unfolding drop_text
remove_prefix n prefix s = if starts_with s prefix then drop_text n s else s

-- `sep.join(texts)`
unfoldable pub join : String → List String → String
join sep [] = ""
join sep (s ∷ []) = s
join sep (s ∷ t ∷ rest) = s +s sep +s join sep (t ∷ rest)

split_example : split_dots "params.order_value" ≡ "params" ∷ "order_value" ∷ []
unfolding split_dots
split_example = refl

prefix_example : remove_prefix 6 "state." "state.price" ≡ "price"
unfolding remove_prefix
prefix_example = refl

contains_example : contains "lo" "hello" ≡ true
unfolding contains
contains_example = refl

join_example : join ";" ("A" ∷ "B" ∷ "C" ∷ []) ≡ "A;B;C"
unfolding join
join_example = refl

-- `a <= b` on texts: by code points, as UTF-8 bytes are ordered too
abbrev pub text_le : String → String → Bool
text_le a b = text.Mathlib.Text.is_le (Prim.Native.String.compare a b)

unfoldable pub insert_text : String → List String → List String
insert_text a [] = a ∷ []
insert_text a (b ∷ bs) = if text_le a b then a ∷ b ∷ bs else b ∷ insert_text a bs

-- `sorted(texts)`
unfoldable pub sort_texts : List String → List String
unfolding insert_text
sort_texts [] = []
sort_texts (a ∷ as') = insert_text a (sort_texts as')

-- `text.replace(old, "", 1)`, for an ASCII `old` of `n` characters
unfoldable pub remove_first : ℕ → String → String → String
unfolding drop_text
remove_first n old String.[] = ""
remove_first n old (String.◌∷◌ c s) =
    if starts_with (String.◌∷◌ c s) old
    then drop_text n (String.◌∷◌ c s)
    else String.◌∷◌ c (remove_first n old s)

-- the rest of the text after `skip` characters, with every later `old` of `n + 1` characters left out
remove_from : ℕ → ℕ → String → String → String
remove_from skip n old String.[] = ""
remove_from (suc skip) n old (String.◌∷◌ c s) = remove_from skip n old s
remove_from zero n old (String.◌∷◌ c s) =
    if starts_with (String.◌∷◌ c s) old
    then remove_from n n old s
    else String.◌∷◌ c (remove_from zero n old s)

-- `text.replace(old, "")`, for an ASCII `old` of `n + 1` characters
unfoldable pub remove_all : ℕ → String → String → String
unfolding remove_from
remove_all n old s = remove_from zero n old s

remove_all_example : remove_all 3 "_usd" "a_usd_usb_usd" ≡ "a_usb"
unfolding remove_all remove_from
remove_all_example = refl

-- `str.splitlines` breaks at these characters, and at a carriage return with its line feed
is_break : Char → Bool
is_break c = any (λ n. eqb (code c) n) (10 ∷ 11 ∷ 12 ∷ 13 ∷ 28 ∷ 29 ∷ 30 ∷ 133 ∷ 8232 ∷ 8233 ∷ [])

-- `text.splitlines()`
unfoldable pub split_lines : String → List String
unfolding push is_break
split_lines String.[] = []
split_lines (String.◌∷◌ c s) =
    let rest = split_lines s in
    if eqb (code c) 13 && starts_with s "\n"
    then rest
    else if is_break c
    then "" ∷ rest
    else push c rest

split_lines_example : split_lines "a\n\nbc\n" ≡ "a" ∷ "" ∷ "bc" ∷ []
unfolding split_lines push is_break
split_lines_example = refl
