-- ===== src/Provider/Refresh/Attributes.antt =====
-- What a refresh of internal/provider/instance_resource.go does to one attribute, done twice.
use terraform_provider_lima.Base.{
  ℕ, ◌≡◌, refl, ap, ℤ, pos, int_lt, String, Bool, true, false, not, ◌||◌, List, Bool-cases, inl,
  inr, arith, if◌then◌else◌,
}
use terraform_provider_lima.Paths.{same_path, same_path_iff}
use terraform_provider_lima.Instance.{Status, MountView}
use terraform_provider_lima.Sizes.Parse.{parse_size}
use terraform_provider_lima.Provider.Attr.{
  Attr, null, unknown, known, is_null, is_managed, elements_if_known, is_known, string_value,
}
use terraform_provider_lima.Provider.Models.{
  observed_cpus, observed_text, observed_size, parses_to, start_of,
}
use terraform_provider_lima.Provider.Reconcile.{observed_mount_point}

pub observed_cpus_again :
    (c : Attr ℤ) (n : ℤ) → observed_cpus (observed_cpus c n) n ≡ observed_cpus c n
observed_cpus_again c n = ground arith

pub observed_text_again :
    (c : Attr String) (t : String) → observed_text (observed_text c t) t ≡ observed_text c t
observed_text_again c t = ground arith

pub start_of_again : (c : Attr Bool) (st : Status) → start_of (start_of c st) st ≡ start_of c st
start_of_again c st = ground arith

if_same : {A : Type 0} (b : Bool) (x : A) → (if b then x else x) ≡ x
if_same true x = refl
if_same false x = refl

pub observed_size_again :
    (wide_int : ℕ → ℤ) (c : Attr String) (n : ℤ)
    → observed_size wide_int (observed_size wide_int c n) n ≡ observed_size wide_int c n
unfolding observed_size
observed_size_again wide_int c n = elim (Bool-cases (is_null c || not (int_lt (pos 0) n))) [
  | inl e ↦ rw (e, e) refl
  | inr e ↦ elim (Bool-cases (parses_to wide_int (parse_size wide_int (string_value c)) n)) [
    | inl p ↦ rw (e, p, e, p) refl
    | inr p ↦
        let reported : int_lt (pos 0) n ≡ true = ground arith in rw (e, p, reported) (if_same _ _)
  ]
]

same_path_refl : (a : String) → same_path a a ≡ true
same_path_refl a = (same_path_iff a a).1 refl

pub observed_mount_point_again :
    (d : Attr String) (f : MountView)
    → observed_mount_point (observed_mount_point d f) f ≡ observed_mount_point d f
unfolding observed_mount_point
observed_mount_point_again null f = elim (Bool-cases (same_path f.mount_point f.location)) [
  | inl e ↦ rw (e, e) refl
  | inr e ↦ rw (e, same_path_refl f.mount_point) refl
]
observed_mount_point_again unknown f = elim (Bool-cases (same_path f.mount_point "")) [
  | inl e ↦ rw (e, e) refl
  | inr e ↦ rw (e, same_path_refl f.mount_point) refl
]
observed_mount_point_again (known d) f = elim (Bool-cases (same_path f.mount_point d)) [
  | inl e ↦ rw (e, e) refl
  | inr e ↦ rw (e, same_path_refl f.mount_point) refl
]

abbrev pub managed : {A : Type 0} → (List A → List A) → Attr (List A) → Attr (List A)
managed f a = if is_managed a then known (f (elements_if_known a)) else a

pub managed_again :
    {A : Type 0} (f : List A → List A) (a : Attr (List A))
    → ((xs : List A) → f (f xs) ≡ f xs)
    → managed f (managed f a) ≡ managed f a
managed_again f null h = refl
managed_again f unknown h = refl
managed_again f (known xs) h = ap known (h xs)

abbrev pub attached : Attr (List (Attr String)) → List (Attr String) → Attr (List (Attr String))
attached a ds = if is_known a then known ds else a

pub attached_again :
    (a : Attr (List (Attr String))) (ds : List (Attr String))
    → attached (attached a ds) ds ≡ attached a ds
attached_again null ds = refl
attached_again unknown ds = refl
attached_again (known xs) ds = refl
