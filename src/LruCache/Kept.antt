-- ===== src/LruCache/Kept.antt =====
-- A predicate of the entries of the abstract cache of Spec, through the calls.
use wb_l.Base.Dict.{lookup}
use wb_l.LruCache.Spec.{stored, touched, without}
use wb_l.Base.Lists.{length, All, All-append}
use mathlib.Core.List.{tail}
use mathlib.Core.Option.{none-ne-some, some-injective}
use mathlib.Core.Logic.{if_pos, if_neg}
use wb_l.Base.{sym, ◌∙◌, List, [], ◌∷◌, ◌≡◌, ◌==◌, some, ℕ, Bool-cases, Option-cases, inl, inr}

module _ {ℓ κ} {K V : Type ℓ} (dec : Discrete K) (P : K × V → Type κ) where
  pub All-without : (k : K) (es : List (K × V)) → All P es → All P (without dec k es)
  unfolding without
  All-without k [] h = tt
  All-without k ((j, v) ∷ es) (h, hs) =
      elim (dec j k) as (λ d. All P (elim d [ yes _ ↦ es | no _ ↦ (j, v) ∷ without dec k es ])) [
        | yes _ ↦ hs
        | no _ ↦ (h, All-without k es hs)
      ]

  pub All-lookup :
      (k : K) (v : V) (es : List (K × V)) → All P es → lookup dec k es ≡ some v → P (k, v)
  unfolding lookup
  All-lookup k v [] h e = absurd (none-ne-some v e)
  All-lookup k v ((j, w) ∷ es) (h, hs) e = elim (dec j k) [
    | yes p ↦
        let same : w ≡ v =
          some-injective w v (sym (if_pos (dec j k) p (some w) (lookup dec k es)) ∙ e) in
        rw (← p, ← same) h
    | no p ↦ All-lookup k v es hs (sym (if_neg (dec j k) p (some w) (lookup dec k es)) ∙ e)
  ]

  All-tail : (es : List (K × V)) → All P es → All P (tail es)
  All-tail [] h = tt
  All-tail (e ∷ es) h = h.1

  pub All-touched : (k : K) (es : List (K × V)) → All P es → All P (touched dec k es)
  unfolding touched
  All-touched k es h = elim (Option-cases (lookup dec k es)) [
    | inl miss ↦ rw (touched, miss) h
    | inr (v, hit) ↦
        rw (touched, hit)
          (All-append P (without dec k es) ((k, v) ∷ []) (All-without k es h)
            (All-lookup k v es h hit, tt))
  ]

  pub All-stored :
      (cap : ℕ) (k : K) (v : V) (es : List (K × V))
      → All P es
      → P (k, v)
      → All P (stored dec cap k v es)
  unfolding stored
  All-stored cap k v es h new = elim (Bool-cases (length (without dec k es) == cap)) [
    | inl full ↦
        rw (stored, full)
          (All-append P (tail (without dec k es)) ((k, v) ∷ []) (All-tail _ (All-without k es h))
            (new, tt))
    | inr fits ↦
        rw (stored, fits)
          (All-append P (without dec k es) ((k, v) ∷ []) (All-without k es h) (new, tt))
  ]
