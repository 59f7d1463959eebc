-- ===== src/Provider/Models/Names.antt =====
-- `effectiveName` and `logicalName` of internal/provider/models.go.
use Prim.Native.String.{◌++◌ as concat}
use Prim.Native.Char.{code}
use text.Mathlib.TextLemmas.{nil-append, cons-append, append-nil}
use text.Mathlib.TextEquality.{Char-path}
use terraform_provider_lima.Base.{
  ◌≡◌, ◌≢◌, refl, sym, ap, ◌∙◌, ℕ, String, true, false, not, ◌&&◌, List, [], ◌∷◌, ◌++◌, codes,
  has_prefix, text_of, text_of-codes, Bool-cases, inl, inr, arith, if◌then◌else◌, ◌==◌, eq_iff,
}
use terraform_provider_lima.Paths.{drop_prefix}

unfoldable pub effective_name : String → String → String
effective_name prefix logical = concat prefix logical

abbrev pub trimmed_or_actual : String → String → String → String
trimmed_or_actual prefix actual trimmed =
    if not (prefix == "") && has_prefix (codes prefix) (codes actual) && not (trimmed == "")
    then trimmed
    else actual

unfoldable pub logical_name : String → String → String
logical_name prefix actual =
    trimmed_or_actual prefix actual (text_of (drop_prefix (codes prefix) (codes actual)))

codes-concat : (a b : String) → codes (concat a b) ≡ codes a ++ codes b
codes-concat String.[] b = ap codes (nil-append b)
codes-concat (String.◌∷◌ c a) b =
    ap codes (cons-append c a b) ∙ ap (λ x. code c ∷ x) (codes-concat a b)

has_prefix-append : (p s : List ℕ) → has_prefix p (p ++ s) ≡ true
has_prefix-append [] s = refl
has_prefix-append (x ∷ p) s = ground (arith, has_prefix-append p s)

drop_prefix-append : (p s : List ℕ) → drop_prefix p (p ++ s) ≡ s
unfolding drop_prefix
drop_prefix-append [] s = refl
drop_prefix-append (x ∷ p) s = drop_prefix-append p s

has_prefix-concat : (a b : String) → has_prefix (codes a) (codes (concat a b)) ≡ true
has_prefix-concat a b =
    ap (has_prefix (codes a)) (codes-concat a b) ∙ has_prefix-append (codes a) (codes b)

trimmed-concat : (a b : String) → text_of (drop_prefix (codes a) (codes (concat a b))) ≡ b
trimmed-concat a b =
    ap (λ x. text_of (drop_prefix (codes a) x)) (codes-concat a b)
    ∙ ap text_of (drop_prefix-append (codes a) (codes b))
    ∙ text_of-codes b

test_ne : (a b : String) → a ≢ b → (a == b) ≡ false
test_ne a b h = ground (arith, eq_iff a b)

-- The name that a create gives under a prefix is read back as the logical name.
pub logical_name-effective_name :
    (prefix logical : String)
    → logical ≢ ""
    → logical_name prefix (effective_name prefix logical) ≡ logical
unfolding logical_name effective_name
logical_name-effective_name prefix logical h =
    ap (trimmed_or_actual prefix (concat prefix logical)) (trimmed-concat prefix logical) ∙ chosen
  where
    chosen : trimmed_or_actual prefix (concat prefix logical) logical ≡ logical
    chosen = elim (Bool-cases (prefix == "")) [
      | inl e ↦ rw e (ap (λ p. concat p logical) ((eq_iff prefix "").0 e) ∙ nil-append logical)
      | inr e ↦ rw (e, has_prefix-concat prefix logical, test_ne logical "" h) refl
    ]

-- A name with a prefix is the prefix in front of another name.
prefix_split :
    (a b : String) → has_prefix (codes a) (codes b) ≡ true → (rest : String) × (b ≡ concat a rest)
prefix_split String.[] b h = (b, sym (nil-append b))
prefix_split (String.◌∷◌ c a) String.[] h = elim (no_prefix h) [ ]
  where
    no_prefix : false ≡ true → ⊥
    no_prefix e = ground arith
prefix_split (String.◌∷◌ c a) (String.◌∷◌ d b) h =
    let same : code c ≡ code d = ground arith in
    let later : has_prefix (codes a) (codes b) ≡ true = ground arith in
    let (rest, e) = prefix_split a b later in
    (
      rest,
      ap (λ x. String.◌∷◌ d x) e
          ∙ ap (λ x. String.◌∷◌ x (concat a rest)) (sym (Char-path c d same))
          ∙ sym (cons-append c a rest),
    )

pub effective_name-logical_name :
    (prefix actual : String)
    → has_prefix (codes prefix) (codes actual) ≡ true
    → actual ≢ prefix
    → effective_name prefix (logical_name prefix actual) ≡ actual
unfolding effective_name
effective_name-logical_name prefix actual h n =
    let (rest, e) = prefix_split prefix actual h in
    let more : rest ≢ "" = λ r. n (e ∙ ap (concat prefix) r ∙ append-nil prefix) in
    ap (λ x. concat prefix (logical_name prefix x)) e
    ∙ ap (concat prefix) (logical_name-effective_name prefix rest more)
    ∙ sym e

-- Create and import agree on names. What a create names under a prefix is imported under its logical
-- name, if that is not empty; and an instance whose name has the prefix and more is imported under
-- a name from which the same instance is named again.
pub import_names :
    (prefix logical actual : String)
    → logical ≢ ""
    → has_prefix (codes prefix) (codes actual) ≡ true
    → actual ≢ prefix
    → (logical_name prefix (effective_name prefix logical) ≡ logical)
      × (effective_name prefix (logical_name prefix actual) ≡ actual)
import_names prefix logical actual h p n =
    (logical_name-effective_name prefix logical h, effective_name-logical_name prefix actual p n)
