-- ===== src/Text.antt =====
-- Python's `str` as a list of code points, with the methods that the service calls. What Unicode
-- says of a code point is a parameter, since the tables are not part of the program.
use ai_account_payable_invoi.Prelude.{
  ℕ, Bool, true, false, Option, none, some, List, [], ◌∷◌, ◌++◌, list_eq, if◌then◌else◌, ◌==◌, ◌&&◌,
  nat_eq,
}
use mathlib.Core.List.{flat_map, reverse}
use Prim.Native.Char.{code}
use Prim.Native.String.{String}

abbrev pub Text : Type 0
Text = List ℕ

-- The code points of a literal.
abbrev pub text : String → Text
text String.[] = []
text (String.◌∷◌ c s) = code c ∷ text s

-- `str.lower` maps a whole text, since a final sigma depends on what stands around it; `str.upper` maps
-- a code point to one or more; `isspace` and `isalnum` test one.
pub record Unicode : Type 0 where
  pub lower : Text → Text
  pub upper : ℕ → Text
  pub is_space : ℕ → Bool
  pub is_alnum : ℕ → Bool

abbrev pub is_empty : Text → Bool
is_empty [] = true
is_empty (_ ∷ _) = false

-- `not value` for a `str | None`.
abbrev pub is_falsy : Option Text → Bool
is_falsy none = true
is_falsy (some t) = is_empty t

-- `t.startswith(prefix)`
abbrev pub starts_with : Text → Text → Bool
starts_with t [] = true
starts_with [] (c ∷ prefix) = false
starts_with (d ∷ t) (c ∷ prefix) = d == c && starts_with t prefix

-- `str.split()`: the maximal runs of characters that are no white space.
abbrev flush : Text → List Text → List Text
flush [] words = words
flush (c ∷ word) words = (c ∷ word) ∷ words

module _ (u : Unicode) where
  abbrev pub lowercase : Text → Text
  lowercase = u.lower

  abbrev pub uppercase : Text → Text
  uppercase = flat_map u.upper

  unfoldable pub lstrip : Text → Text
  lstrip [] = []
  lstrip (c ∷ t) = let rest = lstrip t in if u.is_space c then rest else c ∷ t

  unfoldable pub strip : Text → Text
  unfolding lstrip
  strip t = reverse (lstrip (reverse (lstrip t)))

  -- The word that is being read stands first in the result, the rest after it.
  split_word : Text → Text × List Text
  split_word [] = ([], [])
  split_word (c ∷ t) =
      let (word, words) = split_word t in
      if u.is_space c then ([], flush word words) else (c ∷ word, words)

  unfoldable pub split : Text → List Text
  unfolding split_word
  split t = let (word, words) = split_word t in flush word words

-- `" ".join(words)`
abbrev pub join_words : List Text → Text
join_words [] = []
join_words (w ∷ []) = w
join_words (w ∷ v ∷ ws) = w ++ (0x20 ∷ join_words (v ∷ ws))
