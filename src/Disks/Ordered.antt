-- ===== src/Disks/Ordered.antt =====
-- `DiskService` of internal/lima/disk.go: its methods and the order of the trace.
use terraform_provider_lima.Base.{
  String, ℤ, int_eq, int_lt, ◌≡◌, ap, ◌∙◌, true, false, not, ◌&&◌, some, List, [], ◌∷◌, arith,
  contains_text, eq_refl,
}
use terraform_provider_lima.Errors.{is_disk_not_found}
use terraform_provider_lima.Instance.{Disk, CreateDiskRequest, in_use}
use terraform_provider_lima.Locks.{disk_key, disk_key-ne-home_key}
use terraform_provider_lima.Session.{
  Host, State, Result, ok, lift_result, settle, value, fault, create_disk, resize_disk, delete_disk,
  attempt, inspect_disk,
}
use terraform_provider_lima.Session.Rules.{
  Keeps, Keeps-pure, Keeps-raise, Keeps-attempt, Keeps-if, Keeps-bind, inspect_disk-Orderly,
  with_lock-Orderly,
}
use terraform_provider_lima.Session.Leads.{
  Leads, Anything, Leads-pure, Leads-raise, Leads-if, Leads-bind,
}
use terraform_provider_lima.Session.Observed.{
  KeepsFrom, KeepsFrom-always, KeepsFrom-if, KeepsFrom-bind, KeepsFrom-then, KeepsFrom-issue,
  Keeps-KeepsFrom, Keeps-inspect_disk, Keeps-attempt_inspect_disk, latest-inspect_disk,
}
use terraform_provider_lima.Session.Discipline.{Orderly, latest_disk, seen_fault, is_ordered}
use terraform_provider_lima.Disks.{
  disk_found, disk_exists_named, disk_create_locked, disk_create, disk_resize_found,
  disk_resize_locked, disk_resize, disk_delete_found, disk_delete_locked, disk_delete,
}

free_disk : (n : String) → is_ordered [] (disk_key n) ≡ true
free_disk n = rw disk_key-ne-home_key

covered_disk : (n : String) → contains_text (disk_key n ∷ []) (disk_key n) ≡ true
covered_disk n = rw eq_refl

module _ {W : Type 0} (h : Host W) where
  abbrev own_disk : String → List String
  own_disk name = disk_key name ∷ []

  Leads-attempt_inspect_disk :
      (name : String)
      → Leads Anything (attempt (inspect_disk h name)) (λ r s. latest_disk name s.trace ≡ some r)
  unfolding attempt inspect_disk
  Leads-attempt_inspect_disk name = record {
    at =
        λ s r v e. latest-inspect_disk h name s ∙ ap some (was (h.inspect_disk name s.world).0 r e);
  }
    where
      was : (r r' : Result Disk) → settle (lift_result r) ≡ ok r' → r ≡ r'
      was (value d) r' e = ground arith
      was (fault x) r' e = ground arith

  -- The disk was seen absent.
  abbrev AbsentDisk : String → State W → Type 0
  AbsentDisk name s = seen_fault is_disk_not_found (latest_disk name s.trace) ≡ true

  disk_found-Orderly :
      {held : List String} (r : Result Disk) → Keeps (Orderly held) (disk_found h r)
  unfolding disk_found
  disk_found-Orderly (value d) = Keeps-pure true
  disk_found-Orderly (fault e) = Keeps-if _ _ _ (Keeps-pure false) (Keeps-raise e)

  disk_found_absent :
      (name : String) (r : Result Disk)
      → Leads
          (λ s. latest_disk name s.trace ≡ some r)
          (disk_found h r)
          (λ b s. b ≡ false → AbsentDisk name s)
  unfolding disk_found
  disk_found_absent name (value d) = Leads-pure true (λ s l e. absurd (ground arith))
  disk_found_absent name (fault e) =
      Leads-if (is_disk_not_found e) _ _ (λ a. Leads-pure false (λ s l x. ground arith))
        (λ _. Leads-raise e)

  create_locked-Orderly :
      (req : CreateDiskRequest)
      → KeepsFrom (Orderly (own_disk req.name)) Anything (disk_create_locked h req)
  unfolding disk_create_locked disk_exists_named
  create_locked-Orderly req =
      KeepsFrom-then _ _
        (KeepsFrom-always _
          (Keeps-bind _ _ (Keeps-attempt _ (inspect_disk-Orderly h req.name)) disk_found-Orderly))
        (Leads-bind _ _ (Leads-attempt_inspect_disk req.name) (disk_found_absent req.name))
        λ taken.
          KeepsFrom-if taken _ _ (λ _. KeepsFrom-always _ (Keeps-raise _))
            λ e.
              KeepsFrom-bind _ _
                (KeepsFrom-issue h (create_disk req) (covered_disk req.name) (λ s v. v e))
                (λ _. inspect_disk-Orderly h req.name)

  pub disk_create-Orderly : (req : CreateDiskRequest) → Keeps (Orderly []) (disk_create h req)
  unfolding disk_create
  disk_create-Orderly req =
      with_lock-Orderly h (disk_key req.name) _ (free_disk req.name)
        (Keeps-KeepsFrom _ (create_locked-Orderly req))

  resize_found-Orderly :
      (name : String) (size_bytes : ℤ) (d : Disk)
      → KeepsFrom
          (Orderly (own_disk name))
          (λ s. latest_disk name s.trace ≡ some (value d))
          (disk_resize_found h name size_bytes d)
  unfolding disk_resize_found
  resize_found-Orderly name size_bytes d =
      KeepsFrom-if (int_eq d.size_bytes size_bytes) _ _ (λ _. KeepsFrom-always _ (Keeps-pure tt))
        λ differs.
          KeepsFrom-if (int_lt size_bytes d.size_bytes) _ _
            (λ _. KeepsFrom-always _ (Keeps-raise _))
            λ grows.
              KeepsFrom-if (in_use d) _ _ (λ _. KeepsFrom-always _ (Keeps-raise _))
                λ free.
                  KeepsFrom-issue h (resize_disk name size_bytes) (covered_disk name)
                    (λ s l. rw l (allowed d.size_bytes size_bytes differs grows free))
    where
      allowed :
          (have want : ℤ)
          → int_eq have want ≡ false
          → int_lt want have ≡ false
          → in_use d ≡ false
          → (int_lt have want && not (in_use d)) ≡ true
      allowed have want p q r = ground arith

  delete_found-Orderly :
      (name : String) (r : Result Disk)
      → KeepsFrom
          (Orderly (own_disk name))
          (λ s. latest_disk name s.trace ≡ some r)
          (disk_delete_found h name r)
  unfolding disk_delete_found
  delete_found-Orderly name (fault e) =
      KeepsFrom-always _ (Keeps-if _ _ _ (Keeps-pure tt) (Keeps-raise e))
  delete_found-Orderly name (value d) =
      KeepsFrom-if (in_use d) _ _ (λ _. KeepsFrom-always _ (Keeps-raise _))
        λ e. KeepsFrom-issue h (delete_disk name) (covered_disk name) (λ s l. ground arith)

  pub disk_resize-Orderly :
      (name : String) (size_bytes : ℤ) → Keeps (Orderly []) (disk_resize h name size_bytes)
  unfolding disk_resize disk_resize_locked
  disk_resize-Orderly name size_bytes =
      with_lock-Orderly h (disk_key name) _ (free_disk name)
        (Keeps-inspect_disk h name _ (resize_found-Orderly name size_bytes))

  pub disk_delete-Orderly : (name : String) → Keeps (Orderly []) (disk_delete h name)
  unfolding disk_delete disk_delete_locked
  disk_delete-Orderly name =
      with_lock-Orderly h (disk_key name) _ (free_disk name)
        (Keeps-attempt_inspect_disk h name _ (delete_found-Orderly name))
