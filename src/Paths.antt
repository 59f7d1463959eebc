-- ===== src/Paths.antt =====
-- `samePath` of internal/lima/inspect.go, with filepath.Clean as on Unix. A path is walked as its
-- code points.
pub mod Expand
use mathlib.Core.List.{reverse}
use terraform_provider_lima.Base.{
  ℕ, String, ◌≡◌, refl, ap, ◌↔◌, Bool, true, false, ◌||◌, List, [], ◌∷◌, ◌++◌, eqb, codes, codes_eq,
  codes_eq_of_eq, eq_of_codes_eq, has_prefix, if◌then◌else◌, Bool-cases, inl, inr,
}

-- The components between the separators.
abbrev prepend : ℕ → List (List ℕ) → List (List ℕ)
prepend c [] = (c ∷ []) ∷ []
prepend c (w ∷ ws) = (c ∷ w) ∷ ws

split_path : List ℕ → List (List ℕ)
split_path [] = [] ∷ []
split_path (c ∷ cs) = let rest = split_path cs in if eqb c b'/' then [] ∷ rest else prepend c rest

abbrev dot : List ℕ
dot = b'.' ∷ []

abbrev dot_dot : List ℕ
dot_dot = b'.' ∷ b'.' ∷ []

-- `..` removes the last component; at the root it is dropped, and before a name it is kept.
abbrev go_up : Bool → List (List ℕ) → List (List ℕ)
go_up true [] = []
go_up false [] = dot_dot ∷ []
go_up rooted (top ∷ below) = if codes_eq top dot_dot then dot_dot ∷ top ∷ below else below

-- The stack has the last component first.
abbrev push_component : Bool → List (List ℕ) → List ℕ → List (List ℕ)
push_component rooted stack w =
    if codes_eq w [] || codes_eq w dot
    then stack
    else if codes_eq w dot_dot
    then go_up rooted stack
    else w ∷ stack

push_all : Bool → List (List ℕ) → List (List ℕ) → List (List ℕ)
push_all rooted stack [] = stack
push_all rooted stack (w ∷ ws) = push_all rooted (push_component rooted stack w) ws

join_path : List (List ℕ) → List ℕ
join_path [] = []
join_path (w ∷ []) = w
join_path (w ∷ ws) = w ++ b'/' ∷ join_path ws

abbrev pub is_rooted : List ℕ → Bool
is_rooted [] = false
is_rooted (c ∷ cs) = eqb c b'/'

abbrev render_path : Bool → List ℕ → List ℕ
render_path true joined = b'/' ∷ joined
render_path false [] = dot
render_path false (c ∷ cs) = c ∷ cs

-- filepath.Clean
unfoldable pub clean : List ℕ → List ℕ
unfolding split_path push_all join_path
clean p = render_path (is_rooted p) (join_path (reverse (push_all (is_rooted p) [] (split_path p))))

unfoldable pub drop_prefix : List ℕ → List ℕ → List ℕ
drop_prefix [] s = s
drop_prefix (p ∷ ps) [] = []
drop_prefix (p ∷ ps) (c ∷ cs) = drop_prefix ps cs

-- strings.TrimPrefix
unfoldable pub trim_prefix : List ℕ → List ℕ → List ℕ
unfolding drop_prefix
trim_prefix p s = if has_prefix p s then drop_prefix p s else s

abbrev private_prefix : List ℕ
private_prefix = codes "/private"

-- The comparison of two cleaned paths.
same_cleaned : List ℕ → List ℕ → Bool
unfolding trim_prefix
same_cleaned a b =
    if codes_eq a b
    then true
    else codes_eq (trim_prefix private_prefix a) (trim_prefix private_prefix b)

unfoldable pub same_path : String → String → Bool
unfolding clean same_cleaned
same_path a b = same_cleaned (clean (codes a)) (clean (codes b))

-- What `same_path` compares.
pub path_key : String → List ℕ
path_key a = trim_prefix private_prefix (clean (codes a))

same_cleaned_iff :
    (a b : List ℕ)
    → (same_cleaned a b ≡ true) ↔ (trim_prefix private_prefix a ≡ trim_prefix private_prefix b)
same_cleaned_iff a b = (to, from)
  where
    to : same_cleaned a b ≡ true → trim_prefix private_prefix a ≡ trim_prefix private_prefix b
    to h = elim (Bool-cases (codes_eq a b)) [
      | inl e ↦ ap (trim_prefix private_prefix) (eq_of_codes_eq a b e)
      | inr e ↦ eq_of_codes_eq _ _ (unfold same_cleaned in rw e at h)
    ]

    from : trim_prefix private_prefix a ≡ trim_prefix private_prefix b → same_cleaned a b ≡ true
    from h = elim (Bool-cases (codes_eq a b)) [
      | inl e ↦ unfold same_cleaned in rw e
      | inr e ↦ unfold same_cleaned in rw e (codes_eq_of_eq _ _ h)
    ]

-- Two paths are the same exactly if, once cleaned and trimmed of a leading `/private`, they agree.
pub same_path_iff : (a b : String) → (same_path a b ≡ true) ↔ (path_key a ≡ path_key b)
unfolding path_key
same_path_iff a b = unfold same_path in same_cleaned_iff (clean (codes a)) (clean (codes b))

clean_dots : clean (codes "/a//b/../c/./") ≡ codes "/a/c"
unfolding clean
clean_dots = refl

clean_relative : clean (codes "../../x/..") ≡ codes "../.."
unfolding clean
clean_relative = refl

private_tmp : same_path "/private/tmp/work" "/tmp/work/" ≡ true
unfolding same_path
private_tmp = refl
