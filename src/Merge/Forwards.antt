-- ===== src/Merge/Forwards.antt =====
-- `mergePortForwards` and `samePortForwards` against their specification: a forward is known by its
-- guest port and its protocol.
use terraform_provider_lima.Base.{
  ℕ, ◌≡◌, refl, ◌⊎◌, ◌↔◌, inl, inr, Bool, true, ◌&&◌, String, List, [], ◌∷◌, arith, ◌==◌, ℤ, pos,
  int_eq, int_eq_iff, int_eq_refl, codes, codes_eq, codes_eq_refl, codes_eq_of_eq, eq_of_codes_eq,
  to_lower, Bool-cases,
}
use terraform_provider_lima.Instance.{PortForward, PortForwardView}
use terraform_provider_lima.Merge.{
  normalize_proto, forward_of_view, forward_view_at, forward_at, merge_port_forwards, same_forward,
  same_port_forwards, proto_or_tcp, equal_fold,
}
use terraform_provider_lima.Merge.Loops.{drop_previous}
use terraform_provider_lima.Merge.Reapply.{Reports, pairwise, reapplied}

match_iff : (a b : ℤ) (p q : List ℕ) → ((int_eq a b && codes_eq p q) ≡ true) ↔ ((a ≡ b) × (p ≡ q))
match_iff a b p q = (
  (λ h. ground (arith, int_eq_iff a b, eq_of_codes_eq p q)),
  (λ h. ground (arith, int_eq_iff a b, codes_eq_of_eq p q)),
)

-- Two resolved forwards of one guest port and protocol.
abbrev pub same_guest : PortForwardView → PortForwardView → Bool
same_guest x y =
    int_eq x.guest_port y.guest_port && codes_eq (normalize_proto x.proto) (normalize_proto y.proto)

-- The test by which a forward was configured before, or is declared now.
abbrev pub names_forward : PortForward → PortForwardView → Bool
names_forward b m =
    int_eq m.guest_port b.guest_port && codes_eq (normalize_proto m.proto) (normalize_proto b.proto)

-- Lima reports the forward with its guest port and protocol, where an empty protocol may read
-- `tcp`; a host port that was left to Lima may be any.
abbrev pub ForwardReported : PortForward → PortForwardView → Type 0
ForwardReported b v =
    (v.guest_port ≡ b.guest_port)
    × (normalize_proto v.proto ≡ normalize_proto b.proto)
    × ((b.host_port ≡ pos 0) ⊎ (v.host_port ≡ b.host_port))

same_port_forwards-eq-pairwise :
    (ws : List PortForward) (vs : List PortForwardView)
    → same_port_forwards ws vs ≡ pairwise same_forward ws vs
unfolding same_port_forwards pairwise
same_port_forwards-eq-pairwise [] [] = refl
same_port_forwards-eq-pairwise [] (v ∷ vs) = refl
same_port_forwards-eq-pairwise (w ∷ ws) [] = refl
same_port_forwards-eq-pairwise (w ∷ ws) (v ∷ vs) =
    ground (arith, same_port_forwards-eq-pairwise ws vs)

-- strings.EqualFold after the default, and the normalised protocols, agree.
pub lower-proto : (p : String) → to_lower (codes (proto_or_tcp p)) ≡ normalize_proto p
unfolding proto_or_tcp normalize_proto
lower-proto p = elim (Bool-cases (p == "")) [ inl e ↦ rw e | inr e ↦ rw e ]

same_forward-reported :
    (b : PortForward) (v : PortForwardView) → ForwardReported b v → same_forward b v ≡ true
unfolding same_forward equal_fold
same_forward-reported b v h = ground (
  arith,
  int_eq_refl b.guest_port,
  int_eq_refl b.host_port,
  lower-proto b.proto,
  lower-proto v.proto,
  codes_eq_refl (normalize_proto b.proto),
)

same_forward-converted : (v : PortForwardView) → same_forward (forward_of_view v) v ≡ true
unfolding same_forward forward_of_view equal_fold
same_forward-converted v = ground (
  arith,
  int_eq_refl v.guest_port,
  int_eq_refl v.host_port,
  codes_eq_refl (to_lower (codes (proto_or_tcp v.proto))),
)

forward_view_at-reported :
    (b : PortForward) (v : PortForwardView) → ForwardReported b v → forward_view_at b v ≡ true
unfolding forward_view_at
forward_view_at-reported b v h =
    (match_iff v.guest_port b.guest_port (normalize_proto v.proto) (normalize_proto b.proto)).1
      (h.0, h.1)

forward_at-reported :
    (m v : PortForwardView) (d : PortForward)
    → ForwardReported (forward_of_view m) v
    → forward_at v d ≡ forward_at m d
unfolding forward_at forward_of_view
forward_at-reported m v d h = ground arith

-- After an edit wrote the merged forwards, and whatever host ports Lima chose for unset ones,
-- applying the same configuration again finds the forwards unchanged.
pub merge_port_forwards_reapplied :
    (resolved reported : List PortForwardView) (previous desired : List PortForward)
    → Reports ForwardReported (merge_port_forwards resolved previous desired) reported
    → same_port_forwards (merge_port_forwards reported desired desired) reported ≡ true
unfolding merge_port_forwards
merge_port_forwards_reapplied resolved reported previous desired h =
    rw same_port_forwards-eq-pairwise (
      reapplied forward_view_at forward_at forward_of_view same_forward ForwardReported
        forward_view_at-reported same_forward-reported same_forward-converted forward_at-reported
        desired (drop_previous forward_view_at resolved previous) reported h)
