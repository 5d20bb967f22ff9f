-- ===== src/Page/Theme/OneRule.antt =====
-- A style sheet that the serializer writes is one rule, whatever the catalog says.
use stra2us.Prelude.{
  append_assoc, arith, ℕ, Text, codes, Bool, true, false, List, [], ◌∷◌, ◌++◌, Option, some, not,
  ◌≡◌, ◌∙◌, ◌⊎◌, refl, ◌==◌, any, all, text_eq_iff, Bool-cases, Option-cases, inl, inr, join, All,
}
use stra2us.Value.{Value, Fields, find, str}
use stra2us.Lint.{is_hex, is_hex_digits}
use stra2us.Page.Theme.{
  Kind, color, font, declarations, is_color, is_slug_char, is_slug, safe_color, safe_font,
  validator, declared, declaration, rule, theme_items, serialize_theme_css,
}

-- Neither a brace nor a character that opens a tag, a comment, an escape, a call or an at-rule.
abbrev pub is_plain : ℕ → Bool
is_plain c =
    not (
      any (λ d. c == d) (b'{' ∷ b'}' ∷ b'<' ∷ b'>' ∷ b'/' ∷ b'\\' ∷ b'(' ∷ b')' ∷ b'@' ∷ b'&' ∷ []))

abbrev pub IsPlain : Text → Type 0
IsPlain s = all is_plain s ≡ true

all-append : (p : ℕ → Bool) (s t : Text) → all p s ≡ true → all p t ≡ true → all p (s ++ t) ≡ true
all-append p [] t h k = k
all-append p (c ∷ s) t h k = ground (arith, all-append p s t)

all_mono :
    (p q : ℕ → Bool)
    → ((c : ℕ) → p c ≡ true → q c ≡ true)
    → (s : Text) → all p s ≡ true
    → all q s ≡ true
all_mono p q f [] h = refl
all_mono p q f (c ∷ s) h = ground (arith, f c, all_mono p q f s)

is_hex-plain : (c : ℕ) → is_hex c ≡ true → is_plain c ≡ true
is_hex-plain c h = ground arith

is_slug_char-plain : (c : ℕ) → is_slug_char c ≡ true → is_plain c ≡ true
is_slug_char-plain c h = ground arith

all-hex_digits : (s : Text) → is_hex_digits s ≡ true → all is_plain s ≡ true
all-hex_digits s h = ground (arith, all_mono is_hex is_plain is_hex-plain s)

safe_color-plain : (v : Value) (s : Text) → safe_color v ≡ some s → all is_plain s ≡ true
unfolding safe_color is_color
safe_color-plain (str []) s h = ground arith
safe_color-plain (str (c ∷ t)) s h = ground (arith, all-hex_digits t)
safe_color-plain _ s h = cc

safe_font-plain : (v : Value) (s : Text) → safe_font v ≡ some s → all is_plain s ≡ true
unfolding safe_font
safe_font-plain (str t) s h = ground (
  arith,
  text_eq_iff t (codes "system-ui"),
  text_eq_iff t (codes "sans-serif"),
  text_eq_iff t (codes "serif"),
  text_eq_iff t (codes "monospace"),
)
safe_font-plain _ s h = cc

validator-plain :
    (kind : Kind) (v : Value) (s : Text) → validator kind v ≡ some s → all is_plain s ≡ true
validator-plain color v s h = safe_color-plain v s h
validator-plain font v s h = safe_font-plain v s h

declaration-IsPlain :
    (css_var value : Text) → IsPlain css_var → IsPlain value → IsPlain (declaration css_var value)
declaration-IsPlain css_var value h k =
    let start = all-append is_plain (codes "  ") css_var refl h in
    let middle = all-append is_plain (codes "  " ++ css_var) (codes ": ") start refl in
    let whole = all-append is_plain (codes "  " ++ css_var ++ codes ": ") value middle k in
    all-append is_plain (codes "  " ++ css_var ++ codes ": " ++ value) (codes ";") whole refl

declared-IsPlain :
    (theme : List (Text × Value)) (ds : List (Text × Text × Kind))
    → All (λ d. IsPlain d.1) ds
    → All IsPlain (declared theme ds)
unfolding declared
declared-IsPlain theme [] h = tt
declared-IsPlain theme ((key, css_var, kind) ∷ more) (h, hs) =
    let rest = declared-IsPlain theme more hs in
    elim (Option-cases (find key theme)) [
      | inl e ↦ rw (e, declared) rest
      | inr (raw, e) ↦ elim (Option-cases (validator kind raw)) [
        | inl f ↦ rw (e, declared) (rw f rest)
        | inr (value, f) ↦
            rw (e, declared)
              (rw f (declaration-IsPlain css_var value h (validator-plain kind raw value f), rest))
      ]
    ]

join-IsPlain : (ls : List Text) → All IsPlain ls → IsPlain (join 10 ls)
unfolding join
join-IsPlain [] h = refl
join-IsPlain (l ∷ []) (h, _) = h
join-IsPlain (l ∷ m ∷ ls) (h, hs) =
    all-append is_plain l (10 ∷ join 10 (m ∷ ls)) h (join-IsPlain (m ∷ ls) hs)

is_slug-IsPlain : (slug : Text) → is_slug slug ≡ true → IsPlain slug
unfolding is_slug
is_slug-IsPlain [] h = cc
is_slug-IsPlain (c ∷ s) h =
    let tail = all_mono is_slug_char is_plain is_slug_char-plain s (ground arith) in
    let head : is_plain c ≡ true = is_slug_char-plain c (ground arith) in ground arith

-- Around the texts without braces stand the two braces of the rule.
rule_frame :
    (selector : Text) (ds : List Text)
    → All IsPlain ds
    → (body : Text) × (rule selector ds ≡ selector ++ codes " {" ++ body ++ codes "}\n")
      × IsPlain body
unfolding join
rule_frame selector [] hs = (codes "\n", simp append_assoc refl, refl)
rule_frame selector (d ∷ ds) hs = (
  10 ∷ join 10 (d ∷ ds) ++ codes "\n",
  simp append_assoc refl,
  all-append is_plain (10 ∷ join 10 (d ∷ ds)) (codes "\n") (join-IsPlain (d ∷ ds) hs) refl,
)

-- For every slug and theme the style sheet is empty, for a slug of the wrong shape, or is the
-- slug's selector and one pair of braces, between which, as in the slug, stand no braces, slashes,
-- backslashes, parentheses, angle brackets, `@` or `&`.
pub serialize_theme_css_one_rule :
    (slug : Text) (theme : Option Fields)
    → ((is_slug slug ≡ false) × (serialize_theme_css slug theme ≡ []))
      ⊎ ((body : Text) × (serialize_theme_css slug theme
            ≡ codes "[data-app=\"" ++ slug ++ codes "\"] {" ++ body ++ codes "}\n")
          × IsPlain slug
          × IsPlain body)
unfolding serialize_theme_css
serialize_theme_css_one_rule slug theme = elim (Bool-cases (is_slug slug)) [
  | inl e ↦
      let (body, eq, plain) =
        rule_frame (codes "[data-app=\"" ++ slug ++ codes "\"]")
          (declared (theme_items theme) declarations)
          (declared-IsPlain (theme_items theme) declarations
            (refl, (refl, (refl, (refl, (refl, tt)))))) in
      inr (body, rw e (eq ∙ simp append_assoc refl), is_slug-IsPlain slug e, plain)
  | inr e ↦ inl (e, rw e refl)
]
