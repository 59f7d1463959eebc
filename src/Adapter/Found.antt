-- ===== src/Adapter/Found.antt =====
-- `Inspect` of internal/lima/exec_client.go: what it takes for an instance and for its absence.
use terraform_provider_lima.Base.{
  String, ◌≡◌, refl, ◌∙◌, sym, subst, ◌⊎◌, inl, inr, Bool, true, false, Option, none, some, List,
  [], ◌∷◌, Bool-cases, any_of, arith, ◌==◌, eq_iff,
}
use terraform_provider_lima.Errors.{Err, is_not_found, is_cancellation}
use terraform_provider_lima.Session.Named.{NamesAsked}
use terraform_provider_lima.Instance.{Instance}
use terraform_provider_lima.Session.{Host, Result, value, fault}
use terraform_provider_lima.Commands.{Encoders, list_args}
use terraform_provider_lima.Adapter.{
  Machine, Decoders, ExecClient, first_named, or_not_found, failed_inspect, listed_inspect,
  inspected, run, inspect_by_name, exec_host,
}

-- Is an instance of this name in the list?
abbrev pub lists_name : String → List Instance → Bool
lists_name name is = any_of (λ i. i.name == name) is

-- A command that succeeded and whose list has no instance of the name; or one that failed, but not
-- because the context ended, and that printed no instance at all; or one whose error says so.
abbrev pub ShowsAbsence : String → Result (List Instance) → Option Err → Type 0
ShowsAbsence name printed none =
    (is : List Instance) × (printed ≡ value is) × (lists_name name is ≡ false)
ShowsAbsence name printed (some e) =
    ((is_cancellation e ≡ false) × (printed ≡ value [])) ⊎ (is_not_found e ≡ true)

-- A text that does not parse is not taken for an absence.
pub record PlainErrors (dec : Decoders) : Type 0 where
  pub plain : (text : String) (e : Err) → dec.instances text ≡ fault e → is_not_found e ≡ false

abbrev NameIs : String → Option Instance → Type 0
NameIs name none = Unit
NameIs name (some i) = i.name ≡ name

first_named-NameIs : (name : String) (is : List Instance) → NameIs name (first_named name is)
first_named-NameIs name [] = tt
first_named-NameIs name (j ∷ is) = elim (Bool-cases (j.name == name)) [
  | inl e ↦ rw e ((eq_iff j.name name).0 e)
  | inr e ↦ rw e (first_named-NameIs name is)
]

abbrev ResultNamed : String → Result Instance → Type 0
ResultNamed name (value i) = i.name ≡ name
ResultNamed name (fault e) = Unit

or_not_found-ResultNamed :
    (name : String) (o : Option Instance) → NameIs name o → ResultNamed name (or_not_found name o)
or_not_found-ResultNamed name none n = tt
or_not_found-ResultNamed name (some i) n = n

listed-ResultNamed :
    (name : String) (r : Result (List Instance)) → ResultNamed name (listed_inspect name r)
listed-ResultNamed name (fault x) = tt
listed-ResultNamed name (value is) =
    or_not_found-ResultNamed name (first_named name is) (first_named-NameIs name is)

failed-ResultNamed :
    (name : String) (e : Err) (r : Result (List Instance))
    → ResultNamed name (failed_inspect name e r)
failed-ResultNamed name e (value []) = tt
failed-ResultNamed name e (value (i ∷ is)) = tt
failed-ResultNamed name e (fault x) = tt

inspected-ResultNamed :
    (dec : Decoders) (name stdout : String) (failure : Option Err)
    → ResultNamed name (inspected dec name stdout failure)
inspected-ResultNamed dec name stdout none = listed-ResultNamed name (dec.instances stdout)
inspected-ResultNamed dec name stdout (some e) = elim (Bool-cases (is_cancellation e)) [
  | inl c ↦ rw c tt
  | inr c ↦ rw c (failed-ResultNamed name e (dec.instances stdout))
]

module _ {W : Type 0} (m : Machine W) (c : ExecClient) (enc : Encoders) (dec : Decoders) where
  -- The host over limactl finds instances under the names that are asked for.
  pub exec_host-NamesAsked : (rest : Host W) → NamesAsked (exec_host m c enc dec rest)
  unfolding exec_host inspect_by_name
  exec_host-NamesAsked rest = record {
    asked = λ n w i e. subst (ResultNamed n) e (
        let r = (run m c enc dec (list_args (n ∷ [])) w).0 in
        inspected-ResultNamed dec n r.stdout r.failure);
  }

first_named-none :
    (name : String) (is : List Instance) → first_named name is ≡ none → lists_name name is ≡ false
first_named-none name [] h = refl
first_named-none name (j ∷ is) h = ground (arith, first_named-none name is)

same_fault :
    (x e : Err)
    → ◌≡◌ {A = Result Instance} (fault x) (fault e)
    → is_not_found e ≡ true
    → is_not_found x ≡ true
same_fault x e h n = let p : x ≡ e = ground arith in subst (λ z. is_not_found z ≡ true) (sym p) n

not_listed :
    (name : String) (o : Option Instance) (e : Err) → or_not_found name o ≡ fault e → o ≡ none
not_listed name none e h = refl
not_listed name (some i) e h = ground arith

listed_absent :
    (dec : Decoders)
    → PlainErrors dec
    → (name stdout : String) (r : Result (List Instance)) (e : Err) → dec.instances stdout ≡ r
    → listed_inspect name r ≡ fault e
    → is_not_found e ≡ true
    → ShowsAbsence name r none
listed_absent dec p name stdout (fault x) e d h n =
    let wrong : true ≡ false = sym (same_fault x e h n) ∙ p.plain stdout x d in
    absurd (ground (arith, wrong))
listed_absent dec p name stdout (value is) e d h n =
    (is, refl, first_named-none name is (not_listed name _ e h))

failed_absent :
    (name : String) (e x : Err) (r : Result (List Instance))
    → is_cancellation e ≡ false
    → failed_inspect name e r ≡ fault x
    → is_not_found x ≡ true
    → ShowsAbsence name r (some e)
failed_absent name e x (value []) c h n = inl (c, refl)
failed_absent name e x (value (i ∷ is)) c h n = inr (same_fault e x h n)
failed_absent name e x (fault y) c h n = inr (same_fault e x h n)

-- What `Inspect` takes for an absence shows one: a list without the name, a failure that printed
-- nothing and is not that of an ended context, or an error that says so.
pub inspected_absent :
    (dec : Decoders)
    → PlainErrors dec
    → (name stdout : String) (failure : Option Err) (x : Err)
    → inspected dec name stdout failure ≡ fault x
    → is_not_found x ≡ true
    → ShowsAbsence name (dec.instances stdout) failure
inspected_absent dec p name stdout none x h n = listed_absent dec p name stdout _ x refl h n
inspected_absent dec p name stdout (some e) x h n = elim (Bool-cases (is_cancellation e)) [
  | inl c ↦ inr (same_fault e x (rw c at h) n)
  | inr c ↦ failed_absent name e x (dec.instances stdout) c (rw c at h) n
]
