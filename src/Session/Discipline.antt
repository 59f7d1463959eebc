-- ===== src/Session/Discipline.antt =====
-- Which traces are in order: every command that changes an instance or a disk is issued under the
-- lock of its object, and after an observation of the object that calls for it. An observation is
-- out of date once a command on the object has been issued.
use terraform_provider_lima.Base.{
  String, int_lt, ◌≡◌, Bool, true, false, not, ◌&&◌, ◌||◌, Option, none, some, List, [], ◌∷◌,
  contains_text, if◌then◌else◌, ◌==◌,
}
use terraform_provider_lima.Errors.{Err, is_not_found, is_disk_not_found}
use terraform_provider_lima.Locks.{instance_key, disk_key, home_key}
use terraform_provider_lima.Instance.{Instance, Disk, Status, status, status_eq, in_use}
use terraform_provider_lima.Session.{
  Result, value, fault, Command, create, edit, start, stop, delete, protect, unprotect, create_disk,
  resize_disk, delete_disk, Event, acquire, release, issued, saw, saw_disk, Entry, State,
}

-- Does the command change this instance, or this disk?
abbrev pub changes : Command → String → Bool
changes (create m doc) n = m == n
changes (edit m req) n = m == n
changes (start m) n = m == n
changes (stop m) n = m == n
changes (delete m) n = m == n
changes (protect m) n = m == n
changes (unprotect m) n = m == n
changes _ n = false

abbrev pub changes_disk : Command → String → Bool
changes_disk (create_disk req) n = req.name == n
changes_disk (resize_disk m size) n = m == n
changes_disk (delete_disk m) n = m == n
changes_disk _ n = false

abbrev pub observe : Event → String → Option (Result Instance) → Option (Result Instance)
observe (saw m r) n past = if m == n then some r else past
observe (issued c) n past = if changes c n then none else past
observe _ n past = past

abbrev pub observe_disk : Event → String → Option (Result Disk) → Option (Result Disk)
observe_disk (saw_disk m r) n past = if m == n then some r else past
observe_disk (issued c) n past = if changes_disk c n then none else past
observe_disk _ n past = past

-- The last observation that is not out of date.
abbrev pub latest : String → List Entry → Option (Result Instance)
latest n [] = none
latest n (e ∷ past) = observe e.event n (latest n past)

abbrev pub latest_disk : String → List Entry → Option (Result Disk)
latest_disk n [] = none
latest_disk n (e ∷ past) = observe_disk e.event n (latest_disk n past)

module _ {A : Type 0} where
  abbrev pub seen_with : (A → Bool) → Option (Result A) → Bool
  seen_with p (some (value a)) = p a
  seen_with p (some (fault e)) = false
  seen_with p none = false

  abbrev pub seen_fault : (Err → Bool) → Option (Result A) → Bool
  seen_fault p (some (value a)) = false
  seen_fault p (some (fault e)) = p e
  seen_fault p none = false

abbrev pub is_status : Status → Instance → Bool
is_status st inst = status_eq (status inst) st

-- A create wants the name seen absent, a start an instance that does not run, a stop one that is not
-- stopped, an edit one that does not run, a delete one that is not protected, a disk's resize a free
-- disk that grows, and a disk's delete a free disk.
abbrev pub is_justified : Command → List Entry → Bool
is_justified (create n doc) past = seen_fault is_not_found (latest n past)
is_justified (start n) past = seen_with (λ i. not (is_status Status.running i)) (latest n past)
is_justified (stop n) past = seen_with (λ i. not (is_status Status.stopped i)) (latest n past)
is_justified (edit n req) past = seen_with (λ i. not (is_status Status.running i)) (latest n past)
is_justified (delete n) past = seen_with (λ i. not i.protected) (latest n past)
is_justified (protect n) past = seen_with (λ i. true) (latest n past)
is_justified (unprotect n) past = seen_with (λ i. i.protected) (latest n past)
is_justified (create_disk req) past = seen_fault is_disk_not_found (latest_disk req.name past)
is_justified (resize_disk n size) past =
    seen_with (λ d. int_lt d.size_bytes size && not (in_use d)) (latest_disk n past)
is_justified (delete_disk n) past = seen_with (λ d. not (in_use d)) (latest_disk n past)
is_justified _ past = true

-- The lock that covers a command.
abbrev pub is_covered : List String → Command → Bool
is_covered under (create n doc) = contains_text under (instance_key n)
is_covered under (start n) = contains_text under (instance_key n)
is_covered under (stop n) = contains_text under (instance_key n)
is_covered under (edit n req) = contains_text under (instance_key n)
is_covered under (delete n) = contains_text under (instance_key n)
is_covered under (protect n) = contains_text under (instance_key n)
is_covered under (unprotect n) = contains_text under (instance_key n)
is_covered under (create_disk req) = contains_text under (disk_key req.name)
is_covered under (resize_disk n size) = contains_text under (disk_key n)
is_covered under (delete_disk n) = contains_text under (disk_key n)
is_covered under _ = true

abbrev pub holds_none : List String → Bool
holds_none [] = true
holds_none (k ∷ ks) = false

-- A lock that is held is not taken again, and the lock of the home is taken first.
abbrev pub is_ordered : List String → String → Bool
is_ordered under k = not (contains_text under k) && (not (k == home_key) || holds_none under)

abbrev pub permitted : Entry → List Entry → Bool
permitted e past = elim e.event [
  | acquire k ↦ is_ordered e.under k
  | release k ↦ contains_text e.under k
  | issued c ↦ is_covered e.under c && is_justified c past
  | _ ↦ true
]

abbrev pub in_order : List Entry → Bool
in_order [] = true
in_order (e ∷ past) = permitted e past && in_order past

-- Between two steps of a method that holds `held`.
pub record Orderly {W : Type 0} (held : List String) (s : State W) : Type 0 where
  pub holds : s.held ≡ held
  pub orderly : in_order s.trace ≡ true
