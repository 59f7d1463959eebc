-- ===== src/Provider/Changes/Quiet.antt =====
-- `resizeRequest` of internal/provider/instance_resource.go between a configuration and what Lima
-- reports.
use terraform_provider_lima.Base.{
  ℕ, ◌<◌, ◌≡◌, refl, sym, ap, ◌∙◌, subst, ℤ, pos, int_lt, int_eq_refl, int_eq_iff, String, true,
  false, Option, none, some, [], Bool-cases, inl, inr, arith, ltb, if◌then◌else◌,
}
use terraform_provider_lima.Instance.{Instance, EditRequest}
use terraform_provider_lima.Sizes.Float.{two_53}
use terraform_provider_lima.Sizes.Parse.{parse_size}
use terraform_provider_lima.Sizes.Written.{format_size_text}
use terraform_provider_lima.Sizes.Roundtrip.{parse_size-format_size_text}
use terraform_provider_lima.Provider.Attr.{
  Attr, null, known, is_null, is_known, string_value, int_value,
}
use terraform_provider_lima.Provider.Models.{InstanceModel, observed_size, parses_to}
use terraform_provider_lima.Provider.Document.{Platform}
use terraform_provider_lima.Provider.Refresh.{refreshed}
use terraform_provider_lima.Provider.Refresh.Resources.{refreshed-ReadResources}
use terraform_provider_lima.Provider.Changes.{cpus_change, size_change, resize_request}
use terraform_provider_lima.Provider.Records.{imported}

module _ (w : ℕ → ℤ) where
  parses_to-some : (o : Option ℤ) (b : ℤ) → parses_to w o b ≡ true → o ≡ some b
  parses_to-some none b h = ground arith
  parses_to-some (some a) b h = ap some ((int_eq_iff a b).0 h)

  -- A size that is configured says, after it is read, what Lima reported.
  pub observed_size-parses :
      (c : Attr String) (n : ℕ)
      → is_null c ≡ false
      → ltb 0 n ≡ true
      → n < two_53
      → parse_size w (string_value (observed_size w c (pos n))) ≡ some (pos n)
  unfolding observed_size
  observed_size-parses c n h p b =
      elim (Bool-cases (parses_to w (parse_size w (string_value c)) (pos n))) [
        | inl e ↦ rw (h, p, e) (parses_to-some _ _ e)
        | inr e ↦ rw (h, p, e) (parse_size-format_size_text w n b)
      ]

  pub observed_size-not_null :
      (c : Attr String) (n : ℤ) → is_null c ≡ false → is_null (observed_size w c n) ≡ false
  unfolding observed_size
  observed_size-not_null c n h = ground arith

  size_change-quiet :
      (planned current : Attr String) (attribute : String) (b : ℤ)
      → (is_known planned ≡ true → parse_size w (string_value planned) ≡ some b)
      → is_null current ≡ false
      → parse_size w (string_value current) ≡ some b
      → size_change w planned current attribute ≡ (pos 0, [])
  size_change-quiet planned current attribute b p n c = elim (Bool-cases (is_known planned)) [
    | inl e ↦ rw (e, p e, n, c, int_eq_refl b) refl
    | inr e ↦ rw e refl
  ]

  cpus_change-quiet :
      (planned : Attr ℤ) (n : ℤ)
      → (is_known planned ≡ true → int_value planned ≡ n)
      → cpus_change planned (known n) ≡ pos 0
  cpus_change-quiet planned n e = elim (Bool-cases (is_known planned)) [
    | inl k ↦ rw (k, e k, int_eq_refl n) refl
    | inr k ↦ rw k refl
  ]

  -- Each of the sizes and the number of CPUs that a configuration sets is, in whatever spelling, what
  -- Lima reports, which is positive and, for a size, below 2 ^ 53.
  pub record Agrees (plan : InstanceModel) (inst : Instance) : Type 0 where
    pub memory_count : ℕ
    pub disk_count : ℕ
    pub memory_bytes : inst.memory_bytes ≡ pos memory_count
    pub disk_bytes : inst.disk_bytes ≡ pos disk_count
    pub cpus_reported : int_lt (pos 0) inst.cpus ≡ true
    pub memory_reported : ltb 0 memory_count ≡ true
    pub disk_reported : ltb 0 disk_count ≡ true
    pub memory_exact : memory_count < two_53
    pub disk_exact : disk_count < two_53
    pub cpus : is_known plan.cpus ≡ true → int_value plan.cpus ≡ inst.cpus
    pub memory :
        is_known plan.memory ≡ true
        → parse_size w (string_value plan.memory) ≡ some inst.memory_bytes
    pub disk :
        is_known plan.disk ≡ true → parse_size w (string_value plan.disk) ≡ some inst.disk_bytes

  abbrev pub nothing_asked : EditRequest
  nothing_asked = record {
    cpus = pos 0;
    memory_bytes = pos 0;
    disk_bytes = pos 0;
    mounts = none;
    port_forwards = none;
    additional_disks = none;
  }

  -- A state holds a size of Lima's.
  abbrev pub Holds : Attr String → ℤ → Type 0
  Holds a b = (is_null a ≡ false) × (parse_size w (string_value a) ≡ some b)

  resize_request-quiet :
      (plan state : InstanceModel) (inst : Instance)
      → Agrees plan inst
      → state.cpus ≡ known inst.cpus
      → Holds state.memory inst.memory_bytes
      → Holds state.disk inst.disk_bytes
      → resize_request w plan state ≡ (nothing_asked, [])
  unfolding resize_request
  resize_request-quiet plan state inst a c m d =
      let memory = size_change-quiet plan.memory state.memory "memory" _ a.memory m.0 m.1 in
      let disk = size_change-quiet plan.disk state.disk "disk" _ a.disk d.0 d.1 in
      rw (c, cpus_change-quiet plan.cpus inst.cpus a.cpus, memory, disk) refl

  -- An imported instance is adopted without a change of its resources: if the configuration says, in
  -- whatever spelling, what Lima reports, and Lima reports a positive number of CPUs and sizes that are
  -- positive and below 2 ^ 53, then the first update asks Lima for nothing.
  pub imported_unchanged :
      (logical : String) (plan : InstanceModel) (inst : Instance)
      → Agrees plan inst
      → resize_request w plan (imported logical inst) ≡ (nothing_asked, [])
  unfolding imported
  imported_unchanged logical plan inst a =
      resize_request-quiet plan (imported logical inst) inst a (rw a.cpus_reported refl)
        (held inst.memory_bytes a.memory_count a.memory_bytes a.memory_reported a.memory_exact)
        (held inst.disk_bytes a.disk_count a.disk_bytes a.disk_reported a.disk_exact)
    where
      held :
          (b : ℤ) (n : ℕ)
          → b ≡ pos n
          → ltb 0 n ≡ true
          → n < two_53
          → Holds (if int_lt (pos 0) b then known (format_size_text b) else null) b
      held b n e p s = rw (e, p) (refl, parse_size-format_size_text w n s)

module _ (pf : Platform) (m plan : InstanceModel) (inst : Instance) where
  abbrev w : ℕ → ℤ
  w = pf.wide_int

  -- After a refresh that finds what is configured, in whatever spelling, an update asks Lima for no
  -- change of resources: if the state declares the number of CPUs and the sizes, the configuration
  -- says what Lima reports, and that is positive and, for a size, below 2 ^ 53.
  pub refreshed_unchanged :
      Agrees w plan inst
      → is_null m.cpus ≡ false
      → is_null m.memory ≡ false
      → is_null m.disk ≡ false
      → resize_request w plan (refreshed pf m inst) ≡ (nothing_asked w, [])
  refreshed_unchanged a c n d =
      let (cpus, memory, disk) = refreshed-ReadResources pf m inst in
      resize_request-quiet w plan (refreshed pf m inst) inst a (cpus ∙ rw (c, a.cpus_reported) refl)
        (subst (λ x. Holds w x inst.memory_bytes) (sym memory)
          (held m.memory inst.memory_bytes a.memory_count n a.memory_bytes a.memory_reported
            a.memory_exact))
        (subst (λ x. Holds w x inst.disk_bytes) (sym disk)
          (held m.disk inst.disk_bytes a.disk_count d a.disk_bytes a.disk_reported a.disk_exact))
    where
      held :
          (c : Attr String) (b : ℤ) (n : ℕ)
          → is_null c ≡ false
          → b ≡ pos n
          → ltb 0 n ≡ true
          → n < two_53
          → Holds w (observed_size w c b) b
      held c b n h e p s =
          rw e (observed_size-not_null w c (pos n) h, observed_size-parses w c n h p s)
