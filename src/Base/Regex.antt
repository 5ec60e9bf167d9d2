-- ===== src/Base/Regex.antt =====
-- Package regexp, for the patterns that the program writes: their syntax, a matcher by derivatives, and
-- the texts that a pattern stands for. `^…$` asks for the whole text.
use wb_l.Base.{
  ◌⊎◌, ◌↔◌, sym, ap, ◌∙◌, zero, inl, inr, ◌||◌, Bool, arith, ◌++◌, [], false, true, Bool-cases, ℕ,
  refl, ◌≡◌, ◌∷◌, suc, ◌&&◌, if◌then◌else◌,
}
use wb_l.Base.Text.{Text}

pub data Regex : Type 0 where
  void eps : Regex
  one : (ℕ → Bool) → Regex
  seq alt : Regex → Regex → Regex
  star : Regex → Regex

-- `r+`, `r{n}` and `r{n}`
abbrev pub plus : Regex → Regex
plus r = seq r (star r)

abbrev pub times : ℕ → Regex → Regex
times zero r = eps
times (suc n) r = seq r (times n r)

abbrev pub at_least : ℕ → Regex → Regex
at_least zero r = star r
at_least (suc n) r = seq r (at_least n r)

nullable : Regex → Bool
nullable void = false
nullable eps = true
nullable (one f) = false
nullable (seq a b) = nullable a && nullable b
nullable (alt a b) = nullable a || nullable b
nullable (star r) = true

-- What must follow once the character is read.
derive : ℕ → Regex → Regex
derive c void = void
derive c eps = void
derive c (one f) = if f c then eps else void
derive c (seq a b) = elim (nullable a) [
  | true ↦ alt (seq (derive c a) b) (derive c b)
  | false ↦ seq (derive c a) b
]
derive c (alt a b) = alt (derive c a) (derive c b)
derive c (star r) = seq (derive c r) (star r)

-- `regexp.MustCompile("^r$").MatchString(s)`
unfoldable pub matches : Regex → Text → Bool
unfolding nullable derive
matches r [] = nullable r
matches r (c ∷ s) = matches (derive c r) s

-- The texts of a pattern.
pub data Matches : Regex → Text → Type 0 where
  empty : Matches eps []
  char : {f : ℕ → Bool} {c : ℕ} → f c ≡ true → Matches (one f) (c ∷ [])
  join : {a b : Regex} {s t u : Text} → Matches a s → Matches b t → u ≡ s ++ t → Matches (seq a b) u
  left : {a b : Regex} {s : Text} → Matches a s → Matches (alt a b) s
  right : {a b : Regex} {s : Text} → Matches b s → Matches (alt a b) s
  stop : {r : Regex} → Matches (star r) []
  more :
      {r : Regex} {s t u : Text}
      → Matches r s
      → Matches (star r) t
      → u ≡ s ++ t
      → Matches (star r) u

nullable_sound : (r : Regex) → nullable r ≡ true → Matches r []
unfolding nullable
nullable_sound void h = cc
nullable_sound eps h = empty
nullable_sound (one f) h = cc
nullable_sound (seq a b) h =
    join (nullable_sound a (ground arith)) (nullable_sound b (ground arith)) refl
nullable_sound (alt a b) h = elim (Bool-cases (nullable a)) [
  | inl e ↦ left (nullable_sound a e)
  | inr e ↦ right (nullable_sound b (ground arith))
]
nullable_sound (star r) h = stop

nullable_complete : {r : Regex} {s : Text} → Matches r s → s ≡ [] → nullable r ≡ true
unfolding nullable
nullable_complete empty e = refl
nullable_complete (char h) e = cc
nullable_complete (join {s = []} m n p) e =
    ground (arith, nullable_complete m refl, nullable_complete n (sym p ∙ e))
nullable_complete (join {s = x ∷ s} m n p) e = cc
nullable_complete (left m) e = ground (arith, nullable_complete m e)
nullable_complete (right m) e = ground (arith, nullable_complete m e)
nullable_complete stop e = refl
nullable_complete (more m n p) e = refl

void-Matches : {s : Text} {A : Type 0} → Matches void s → A
void-Matches m = absurd (no_void m refl)
  where
    no_void : {r : Regex} {t : Text} → Matches r t → r ≡ void → ⊥
    no_void empty e = cc
    no_void (char h) e = cc
    no_void (join m n p) e = cc
    no_void (left m) e = cc
    no_void (right m) e = cc
    no_void stop e = cc
    no_void (more m n p) e = cc

-- A match of a sequence splits.
Split : Regex → Regex → Text → Type 0
Split a b u = (s : Text) × (t : Text) × Matches a s × Matches b t × (u ≡ s ++ t)

seq-Split : {a b : Regex} {u : Text} → Matches (seq a b) u → Split a b u
unfolding Split
seq-Split (join {s} {t} m n p) = (s, t, m, n, p)

alt-cases : {a b : Regex} {s : Text} → Matches (alt a b) s → Matches a s ⊎ Matches b s
alt-cases (left m) = inl m
alt-cases (right m) = inr m

eps-nil : {s : Text} → Matches eps s → s ≡ []
eps-nil empty = refl

derive_sound : (c : ℕ) (r : Regex) (s : Text) → Matches (derive c r) s → Matches r (c ∷ s)
unfolding derive Split
derive_sound c void s m = void-Matches m
derive_sound c eps s m = void-Matches m
derive_sound c (one f) s m = elim (Bool-cases (f c)) [
  | inl e ↦ rw (eps-nil {s = s} (rw e at m)) (char e)
  | inr e ↦ void-Matches {s = s} (rw e at m)
]
derive_sound c (seq a b) s m = elim (Bool-cases (nullable a)) [
  | inl e ↦ elim (alt-cases {s = s} (rw (e, derive) at m)) [
    | inl n ↦ let (t, u, k, q, p) = seq-Split n in join (derive_sound c a t k) q (ap (◌∷◌ c) p)
    | inr n ↦ join (nullable_sound a e) (derive_sound c b s n) refl
  ]
  | inr e ↦
      let (t, u, n, k, p) = seq-Split {a = derive c a} {b = b} {u = s} (rw (e, derive) at m) in
      join (derive_sound c a t n) k (ap (◌∷◌ c) p)
]
derive_sound c (alt a b) s (left m) = left (derive_sound c a s m)
derive_sound c (alt a b) s (right m) = right (derive_sound c b s m)
derive_sound c (star r) s m =
    let (t, u, n, k, p) = seq-Split m in more (derive_sound c r t n) k (ap (◌∷◌ c) p)

derive_complete :
    (c : ℕ) {r : Regex} {u : Text} (s : Text) → Matches r u → u ≡ c ∷ s → Matches (derive c r) s
unfolding derive
derive_complete c s empty e = cc
derive_complete c s (char {f} {c = d} h) e =
    let same : d ≡ c = ground arith in
    let rest : s ≡ [] = ground arith in rw (rest, ← same, h) empty
derive_complete c s (join {a} {b} {s = []} {t} m n p) e =
    rw (nullable_complete m refl, derive) (right (derive_complete c s n (sym p ∙ e)))
derive_complete c s (join {a} {b} {s = x ∷ s'} {t} m n p) e =
    let same : x ≡ c = ground arith in
    let rest : s ≡ s' ++ t = ground arith in
    let inner = join (derive_complete c s' m (rw same)) n rest in
    elim (Bool-cases (nullable a)) [
      | inl y ↦ rw (y, derive) (left inner)
      | inr y ↦ rw (y, derive) inner
    ]
derive_complete c s (left m) e = left (derive_complete c s m e)
derive_complete c s (right m) e = right (derive_complete c s m e)
derive_complete c s stop e = cc
derive_complete c s (more {s = []} m n p) e = derive_complete c s n (sym p ∙ e)
derive_complete c s (more {s = x ∷ s'} {t} m n p) e =
    let same : x ≡ c = ground arith in
    let rest : s ≡ s' ++ t = ground arith in join (derive_complete c s' m (rw same)) n rest

matches_sound : (r : Regex) (s : Text) → matches r s ≡ true → Matches r s
unfolding matches
matches_sound r [] h = nullable_sound r h
matches_sound r (c ∷ s) h = derive_sound c r s (matches_sound (derive c r) s h)

matches_complete : (r : Regex) (s : Text) → Matches r s → matches r s ≡ true
unfolding matches
matches_complete r [] m = nullable_complete m refl
matches_complete r (c ∷ s) m = matches_complete (derive c r) s (derive_complete c s m refl)

-- The matcher accepts exactly the texts of the pattern.
pub matches_iff : (r : Regex) (s : Text) → (matches r s ≡ true) ↔ Matches r s
matches_iff r s = (matches_sound r s, matches_complete r s)
