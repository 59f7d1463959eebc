-- ===== src/Service/Create/Seen.antt =====
-- `Service.Create` of internal/lima/lifecycle.go: what its steps have seen of the instance.
use terraform_provider_lima.Base.{String, ◌≡◌, true, false, some, List, [], ◌∷◌, arith}
use terraform_provider_lima.Errors.{is_not_found}
use terraform_provider_lima.Instance.{Instance, Status, running, stopped}
use terraform_provider_lima.Session.{Host, State, Result, value, fault, validate, issue}
use terraform_provider_lima.Session.Leads.{
  Leads, Anything, Leads-pure, Leads-raise, Leads-bind, Leads-from, Leads-if,
}
use terraform_provider_lima.Session.Observed.{Leads-attempt_inspect}
use terraform_provider_lima.Session.Discipline.{latest, seen_with, seen_fault}
use terraform_provider_lima.Poll.{PollOptions}
use terraform_provider_lima.Service.{found, exists, wait_for_status, start_locked}
use terraform_provider_lima.Service.Reached.{SeenStatus, wait_for_status_done, start_locked_done}
use terraform_provider_lima.Service.Create.{CreateParams, only_if}

-- The instance was seen, in any status; it was seen absent.
abbrev pub SeenPresent : {W : Type 0} → String → State W → Type 0
SeenPresent name s = seen_with (λ i. true) (latest name s.trace) ≡ true

abbrev pub SeenAbsent : {W : Type 0} → String → State W → Type 0
SeenAbsent name s = seen_fault is_not_found (latest name s.trace) ≡ true

pub SeenPresent-SeenStatus :
    {W : Type 0} (name : String) (want : List Status) (s : State W)
    → SeenStatus name want s
    → SeenPresent name s
SeenPresent-SeenStatus name want s v = ground arith

module _ {W : Type 0} (h : Host W) (o : PollOptions) where
  pub exists_absent :
      (name : String) → Leads Anything (exists h o name) (λ b s. b ≡ false → SeenAbsent name s)
  unfolding exists
  exists_absent name = Leads-bind _ _ (Leads-attempt_inspect h name) go
    where
      go :
          (r : Result Instance)
          → Leads
              (λ s. latest name s.trace ≡ some r)
              (found h o r)
              (λ b s. b ≡ false → SeenAbsent name s)
      go (value i) = unfold found in Leads-pure true (λ s l e. absurd (ground arith))
      go (fault e) =
          unfold found in
          Leads-if (is_not_found e) _ _ (λ a. Leads-pure false (λ s l x. ground arith))
            (λ _. Leads-raise e)

  pub start_present :
      (p : CreateParams)
      → Leads
          (SeenPresent p.name)
          (only_if p.start (start_locked h o p.name))
          (λ _. SeenPresent p.name)
  start_present p =
      Leads-if p.start _ _
        (λ _. Leads-from _ (record {
          at = λ s a v e.
              SeenPresent-SeenStatus p.name (running ∷ []) (start_locked h o p.name s).1
                ((start_locked_done h o p.name).at s a v e);
        }))
        (λ _. Leads-pure tt (λ s v. v))

  pub created_present :
      (p : CreateParams)
      → Leads Anything
          (wait_for_status h o p.name "creation" (stopped ∷ running ∷ []))
          (λ _. SeenPresent p.name)
  created_present p = record {
    at = λ s a v e.
        let want = stopped ∷ running ∷ [] in
        SeenPresent-SeenStatus p.name want (wait_for_status h o p.name "creation" want s).1
          ((wait_for_status_done h o p.name "creation" want).at s a v e);
  }

  pub validated_absent :
      (p : CreateParams)
      → Leads
          (SeenAbsent p.name)
          (only_if p.validate (issue h (validate p.document)))
          (λ _. SeenAbsent p.name)
  unfolding issue
  validated_absent p =
      Leads-if p.validate _ _ (λ _. record { at = λ s a v e. v }) (λ _. Leads-pure tt (λ s v. v))
