-- ===== src/HttpContext/Announced.antt =====
-- The length of the body that header lines announce, said without the parser's splitting of lines.
use enhanced_proxy.Common.{
  ℕ, ◌≡◌, refl, ap, ◌∙◌, Option, none, some, List, [], ◌∷◌, ◌++◌, arith, ◌==◌, if◌then◌else◌, inl,
  inr, Bool-cases, Option-cases, Str, codes, str_eq, str_eq_iff, str_eq_refl,
}
use enhanced_proxy.HttpContext.{split_colon, atoi, read_header, content_length}
use enhanced_proxy.HttpContext.Complete.{declare}

-- What stands behind a prefix, if the line begins with it.
unfoldable pub behind_prefix : Str → Str → Option Str
behind_prefix [] l = some l
behind_prefix (c ∷ p) [] = none
behind_prefix (c ∷ p) (d ∷ l) = let rest = behind_prefix p l in if c == d then rest else none

abbrev announcement : Str
announcement = codes "Content-Length:"

-- A line that begins with `Content-Length:` announces the number behind it.
unfoldable pub announce : ℕ → Str → ℕ
announce size line = elim (behind_prefix announcement line) [
  | none ↦ size
  | some value ↦ atoi value
]

-- The last announcement counts.
unfoldable pub announced : ℕ → List Str → ℕ
unfolding announce
announced size [] = size
announced size (line ∷ lines) = announced (announce size line) lines

behind_prefix-split : (p l value : Str) → behind_prefix p l ≡ some value → l ≡ p ++ value
unfolding behind_prefix
behind_prefix-split [] l value e = ground (arith, e)
behind_prefix-split (c ∷ p) [] value e = absurd (ground (arith, e))
behind_prefix-split (c ∷ p) (d ∷ l) value e = elim (Bool-cases (c == d)) [
  | inl same ↦
      let rest = behind_prefix-split p l value (ground (arith, e, same)) in
      ground (arith, rest, same)
  | inr other ↦ absurd (ground (arith, e, other))
]

split_colon-split :
    (l name value : Str) → split_colon l ≡ some (name, value) → l ≡ name ++ (b':' ∷ value)
unfolding split_colon
split_colon-split [] name value e = absurd (ground (arith, e))
split_colon-split (c ∷ l) name value e = elim (Bool-cases (c == b':')) [
  | inl here ↦ ground (arith, e, here)
  | inr other ↦ elim (Option-cases (split_colon l)) [
    | inl fails ↦ absurd (ground (arith, e, other, fails))
    | inr ((a, b), found) ↦
        let rest = split_colon-split l a b found in ground (arith, e, other, found, rest)
  ]
]

split_colon-announcement :
    (value : Str) → split_colon (announcement ++ value) ≡ some (content_length, value)
unfolding split_colon
split_colon-announcement value = refl

behind_prefix-announcement :
    (value : Str) → behind_prefix announcement (announcement ++ value) ≡ some value
unfolding behind_prefix
behind_prefix-announcement value = refl

-- A line that begins with `Content-Length:` is split there.
announcing-split :
    (line value : Str)
    → behind_prefix announcement line ≡ some value
    → split_colon line ≡ some (content_length, value)
announcing-split line value e =
    ap split_colon (behind_prefix-split announcement line value e) ∙ split_colon-announcement value

named_announces :
    (line name value : Str)
    → split_colon line ≡ some (name, value)
    → name ≡ content_length
    → behind_prefix announcement line ≡ some value
named_announces line name value e same =
    ap (behind_prefix announcement)
      (split_colon-split line name value e ∙ ap (λ k. k ++ (b':' ∷ value)) same)
    ∙ behind_prefix-announcement value

-- What the parser takes from a line is what the line announces.
pub declare-announce :
    (size : ℕ) (line : Str) → declare size (split_colon line) ≡ announce size line
unfolding declare announce read_header
declare-announce size line = elim (Option-cases (behind_prefix announcement line)) [
  | inr (value, e) ↦ ground (arith, e, announcing-split line value e, str_eq_refl content_length)
  | inl e ↦ elim (Option-cases (split_colon line)) [
    | inl fails ↦ ground (arith, e, fails)
    | inr ((name, value), found) ↦ elim (Bool-cases (str_eq name content_length)) [
      | inl same ↦
          let announces =
            named_announces line name value found ((str_eq_iff name content_length).0 same) in
          absurd (ground (arith, e, announces))
      | inr other ↦ ground (arith, e, found, other)
    ]
  ]
]
