-- ===== src/Sweep/Adds.antt =====
-- `Sweep` of internal/lima/sweep.go: what one step adds to the report.
use terraform_provider_lima.Base.{
  String, ◌≡◌, refl, ap, none, some, List, [], ◌∷◌, ◌++◌, map, arith,
}
use terraform_provider_lima.Instance.{Instance, Disk}
use terraform_provider_lima.Session.{Result, value, fault}
use terraform_provider_lima.Sweep.{SweepReport, after_unprotect, after_delete, after_disk_delete}

pub snoc_ne : {A : Type 0} (xs : List A) (a : A) → xs ++ a ∷ [] ≡ [] → ⊥
snoc_ne [] a e = ground arith
snoc_ne (x ∷ xs) a e = ground arith

pub snoc_append :
    {A : Type 0} (xs : List A) (a : A) (ys : List A) → (xs ++ a ∷ []) ++ ys ≡ xs ++ a ∷ ys
snoc_append [] a ys = refl
snoc_append (x ∷ xs) a ys = ap (◌∷◌ x) (snoc_append xs a ys)

pub some_ne_none : {A : Type 0} (a : A) → some a ≡ none → ⊥
some_ne_none a e = ground arith

-- If the report after the step has no failure, then neither had that before, and the step added
-- these names of instances and of disks.
abbrev pub Adds : SweepReport → List String → List String → SweepReport → Type 0
Adds before is ds after =
    after.failures ≡ []
    → (before.failures ≡ [])
      × (after.instances ≡ before.instances ++ is)
      × (after.disks ≡ before.disks ++ ds)

abbrev pub instance_names : List Instance → List String
instance_names is = map (λ i. i.name) is

abbrev pub disk_names : List Disk → List String
disk_names ds = map (λ d. d.name) ds

pub append_nil : {A : Type 0} → (xs : List A) → xs ≡ xs ++ []
append_nil [] = refl
append_nil (x ∷ xs) = ap (◌∷◌ x) (append_nil xs)

pub Adds-delete :
    (report before : SweepReport) (name : String) (r : Result (Unit {0}))
    → Adds report [] [] before
    → Adds report (name ∷ []) [] (after_delete before name r)
Adds-delete report before name (value _) k e =
    let (f, i, d) = k e in (f, rw (i, ← append_nil report.instances) refl, d)
Adds-delete report before name (fault x) k e = absurd (snoc_ne before.failures _ e)

pub Adds-disk :
    (report : SweepReport) (name : String) (r : Result (Unit {0}))
    → Adds report [] (name ∷ []) (after_disk_delete report name r)
Adds-disk report name (value _) e = (e, append_nil report.instances, refl)
Adds-disk report name (fault x) e = absurd (snoc_ne report.failures _ e)

pub Adds-none : (report : SweepReport) → Adds report [] [] report
Adds-none report e = (e, append_nil report.instances, append_nil report.disks)

pub Adds-unprotect :
    (report : SweepReport) (r : Result (Unit {0})) → Adds report [] [] (after_unprotect report r)
Adds-unprotect report (value _) e = Adds-none report e
Adds-unprotect report (fault x) e = absurd (snoc_ne report.failures _ e)
