-- ===== src/Base/Text.antt =====
-- Go strings as lists of code points, and what the program takes of package strings.
use wb_l.Base.{
  sym, not, ◌∙◌, List, ◌&&◌, ◌||◌, [], ap, true, refl, Bool, arith, ℕ, false, ◌==◌, ◌≡◌, leb, ◌++◌,
  ◌∷◌, if◌then◌else◌,
}
use Prim.Native.Char.{code}
use native.Mathlib.Decide.{ℕ_discrete}
use Prim.Native.String.{String}
use mathlib.Core.List.{reverse, reverse-append, reverse-reverse}

abbrev pub Text : Type 0
Text = List ℕ

-- The code points of a literal.
abbrev pub codes : String → Text
codes String.[] = []
codes (String.◌∷◌ c s) = code c ∷ codes s

abbrev pub in_range : ℕ → ℕ → ℕ → Bool
in_range lo hi c = leb lo c && leb c hi

abbrev pub all {ℓ} : {A : Type ℓ} → (A → Bool) → List A → Bool
all f [] = true
all f (c ∷ s) = f c && all f s

abbrev pub is_nil {ℓ} : {A : Type ℓ} → List A → Bool
is_nil [] = true
is_nil (_ ∷ _) = false

-- `unicode.IsSpace`
unfoldable pub is_space : ℕ → Bool
is_space c =
    in_range 9 13 c
    || c == 32
    || c == 0x85
    || c == 0xa0
    || c == 0x1680
    || in_range 0x2000 0x200a c
    || c == 0x2028
    || c == 0x2029
    || c == 0x202f
    || c == 0x205f
    || c == 0x3000

unfoldable pub trim_left : Text → Text
trim_left [] = []
trim_left (c ∷ s) = if is_space c then trim_left s else c ∷ s

-- `strings.TrimSpace`
unfoldable pub trim_space : Text → Text
unfolding trim_left is_space
trim_space s = reverse (trim_left (reverse (trim_left s)))

-- `strings.TrimSpace(s) == ""`
unfoldable pub is_blank : Text → Bool
unfolding trim_space
is_blank s = is_nil (trim_space s)

is_nil-trim_left : (s : Text) → is_nil (trim_left s) ≡ all is_space s
unfolding trim_left
is_nil-trim_left [] = refl
is_nil-trim_left (c ∷ s) = ground (arith, is_nil-trim_left s)

all-append : (f : ℕ → Bool) (s t : Text) → all f (s ++ t) ≡ (all f s && all f t)
all-append f [] t = refl
all-append f (c ∷ s) t = ground (arith, all-append f s t)

all-reverse : (f : ℕ → Bool) (s : Text) → all f (reverse s) ≡ all f s
all-reverse f [] = refl
all-reverse f (c ∷ s) = ground (
  arith,
  ap (all f) (reverse-append (c ∷ []) s),
  all-append f (reverse s) (c ∷ []),
  all-reverse f s,
)

is_nil-append : (s : Text) (c : ℕ) → is_nil (s ++ c ∷ []) ≡ false
is_nil-append [] c = refl
is_nil-append (d ∷ s) c = refl

is_nil-reverse : (s : Text) → is_nil (reverse s) ≡ is_nil s
is_nil-reverse [] = refl
is_nil-reverse (c ∷ s) = ap is_nil (reverse-append (c ∷ []) s) ∙ is_nil-append (reverse s) c

all-trim_left : (s : Text) → all is_space (trim_left s) ≡ all is_space s
unfolding trim_left
all-trim_left [] = refl
all-trim_left (c ∷ s) = ground (arith, all-trim_left s)

-- A text is blank exactly if all its characters are white space.
pub is_blank_lem : (s : Text) → is_blank s ≡ all is_space s
unfolding is_blank
is_blank_lem s =
    is_nil-reverse (trim_left (reverse (trim_left s)))
    ∙ is_nil-trim_left (reverse (trim_left s))
    ∙ all-reverse is_space (trim_left s)
    ∙ all-trim_left s

-- Trimming again finds a text as blank as before.
pub is_blank-trim_space : (s : Text) → is_blank (trim_space s) ≡ is_blank s
unfolding trim_space
is_blank-trim_space s =
    is_blank_lem (trim_space s)
    ∙ all-reverse is_space (trim_left (reverse (trim_left s)))
    ∙ all-trim_left (reverse (trim_left s))
    ∙ all-reverse is_space (trim_left s)
    ∙ all-trim_left s
    ∙ sym (is_blank_lem s)

trim_left_none : (s : Text) → all (λ c. not (is_space c)) s ≡ true → trim_left s ≡ s
unfolding trim_left
trim_left_none [] h = refl
trim_left_none (c ∷ s) h = ground arith

-- A text with no white space at all is left as it is.
pub trim_space_none : (s : Text) → all (λ c. not (is_space c)) s ≡ true → trim_space s ≡ s
unfolding trim_space
trim_space_none s h =
    ap (λ t. reverse (trim_left (reverse t))) (trim_left_none s h)
    ∙ ap reverse (trim_left_none (reverse s) (all-reverse (λ c. not (is_space c)) s ∙ h))
    ∙ reverse-reverse s

-- Equality of texts, decided.
heads_dec :
    (c d : ℕ) (s t : Text) → Dec (c ≡ d) → Dec (s ≡ t) → Dec (◌≡◌ {A = Text} (c ∷ s) (d ∷ t))
heads_dec c d s t (yes p) (yes q) = yes (λ i. p i ∷ q i)
heads_dec c d s t (yes p) (no n) = no (λ e. n (ground arith))
heads_dec c d s t (no n) q = no (λ e. n (ground arith))

unfoldable pub text_dec : Discrete Text
unfolding heads_dec ℕ_discrete
text_dec [] [] = yes refl
text_dec [] (d ∷ t) = no (λ e. cc)
text_dec (c ∷ s) [] = no (λ e. cc)
text_dec (c ∷ s) (d ∷ t) = heads_dec c d s t (ℕ_discrete c d) (text_dec s t)
