-- ===== src/Tree/Ordered.antt =====
-- `toOrdered` of internal/lima/config.go: the tree with the keys of each map sorted.
use terraform_provider_lima.Base.{
  String, ◌≡◌, refl, ap, ◌∙◌, Bool, true, false, ◌&&◌, ◌||◌, none, arith, codes, codes_lt,
  codes_lt_irrefl, codes_lt_trans, codes_lt-total, eq_of_codes, if◌then◌else◌, ◌==◌, eq_iff,
  Bool-cases, inl, inr,
}
use terraform_provider_lima.Tree.{
  Value, null_value, scalar, sequence, mapping, Values, no_values, value_then, FieldList, no_fields,
  field_then, get, has_key,
}

abbrev pub insert_field : String → Value → FieldList → FieldList
insert_field k v no_fields = field_then k v no_fields
insert_field k v (field_then j w rest) =
    let later = insert_field k v rest in
    if codes_lt (codes j) (codes k)
    then field_then j w later
    else field_then k v (field_then j w rest)

unfoldable mutual
  pub ordered_value : Value → Value
  ordered_value null_value = null_value
  ordered_value (scalar t) = scalar t
  ordered_value (sequence vs) = sequence (ordered_values vs)
  ordered_value (mapping fs) = mapping (to_ordered fs)

  pub ordered_values : Values → Values
  ordered_values no_values = no_values
  ordered_values (value_then v vs) = value_then (ordered_value v) (ordered_values vs)

  pub to_ordered : FieldList → FieldList
  to_ordered no_fields = no_fields
  to_ordered (field_then k v rest) = insert_field k (ordered_value v) (to_ordered rest)

abbrev pub all_above : String → FieldList → Bool
all_above k no_fields = true
all_above k (field_then j w rest) = codes_lt (codes k) (codes j) && all_above k rest

abbrev pub is_sorted : FieldList → Bool
is_sorted no_fields = true
is_sorted (field_then k v rest) = all_above k rest && is_sorted rest

pub both : (a b : Bool) → (a && b) ≡ true → (a ≡ true) × (b ≡ true)
both a b h = ground arith

pub all_above_trans :
    (i k : String) (xs : FieldList)
    → codes_lt (codes i) (codes k) ≡ true
    → all_above k xs ≡ true
    → all_above i xs ≡ true
all_above_trans i k no_fields h a = refl
all_above_trans i k (field_then j w rest) h a =
    let (p, q) = both (codes_lt (codes k) (codes j)) (all_above k rest) a in
    rw (codes_lt_trans (codes i) (codes k) (codes j) h p, all_above_trans i k rest h q) refl

pub test_ne : (j k : String) → codes_lt (codes j) (codes k) ≡ true → (j == k) ≡ false
test_ne j k h = elim (Bool-cases (j == k)) [
  | inl e ↦
      let p : codes_lt (codes k) (codes k) ≡ true = rw ((eq_iff j k).0 e) at h in
      absurd (ground (arith, codes_lt_irrefl (codes k)))
  | inr e ↦ e
]

pub get-above : (k : String) (xs : FieldList) → all_above k xs ≡ true → get xs k ≡ none
get-above k no_fields h = refl
get-above k (field_then j w rest) h =
    let (p, q) = both (codes_lt (codes k) (codes j)) (all_above k rest) h in
    let n : (j == k) ≡ false = ground (arith, test_ne k j p, eq_iff j k, eq_iff k j) in
    rw n (get-above k rest q)

pub has_key-insert_field :
    (k : String) (v : Value) (xs : FieldList) (j : String)
    → has_key (insert_field k v xs) j ≡ (k == j || has_key xs j)
has_key-insert_field k v no_fields j = refl
has_key-insert_field k v (field_then i w rest) j =
    placed (codes_lt (codes i) (codes k)) (has_key-insert_field k v rest j)
  where
    swap : (a b c : Bool) → (a || (b || c)) ≡ (b || (a || c))
    swap a b c = ground arith

    placed :
        (b : Bool)
        → has_key (insert_field k v rest) j ≡ (k == j || has_key rest j)
        → has_key
            (if b
              then field_then i w (insert_field k v rest)
              else field_then k v (field_then i w rest))
            j
          ≡ (k == j || (i == j || has_key rest j))
    placed true h = ap (λ x. i == j || x) h ∙ swap (i == j) (k == j) (has_key rest j)
    placed false h = refl

all_above-insert_field :
    (i k : String) (v : Value) (xs : FieldList)
    → codes_lt (codes i) (codes k) ≡ true
    → all_above i xs ≡ true
    → all_above i (insert_field k v xs) ≡ true
all_above-insert_field i k v no_fields h a = rw h refl
all_above-insert_field i k v (field_then j w rest) h a =
    let (p, q) = both (codes_lt (codes i) (codes j)) (all_above i rest) a in
    placed (codes_lt (codes j) (codes k)) p q (all_above-insert_field i k v rest h q)
  where
    placed :
        (b : Bool)
        → codes_lt (codes i) (codes j) ≡ true
        → all_above i rest ≡ true
        → all_above i (insert_field k v rest) ≡ true
        → all_above i (
            if b
            then field_then j w (insert_field k v rest)
            else field_then k v (field_then j w rest))
          ≡ true
    placed true p q r = rw (p, r) refl
    placed false p q r = rw (h, p, q) refl

-- Two different keys stand in order one way.
above-of-not :
    (j k : String)
    → (j == k) ≡ false
    → codes_lt (codes j) (codes k) ≡ false
    → codes_lt (codes k) (codes j) ≡ true
above-of-not j k n h = elim (Bool-cases (codes_lt (codes k) (codes j))) [
  | inl e ↦ e
  | inr e ↦
      let p : j ≡ k = eq_of_codes j k (codes_lt-total (codes j) (codes k) h e) in
      absurd (ground (arith, (eq_iff j k).1 p))
]

pub is_sorted-insert_field :
    (k : String) (v : Value) (xs : FieldList)
    → has_key xs k ≡ false
    → is_sorted xs ≡ true
    → is_sorted (insert_field k v xs) ≡ true
is_sorted-insert_field k v no_fields n s = refl
is_sorted-insert_field k v (field_then j w rest) n s =
    let (a, t) = both (all_above j rest) (is_sorted rest) s in
    let (p, q) = neither (j == k) (has_key rest k) n in
    placed (codes_lt (codes j) (codes k)) refl a t p (is_sorted-insert_field k v rest q t)
  where
    neither : (a b : Bool) → (a || b) ≡ false → (a ≡ false) × (b ≡ false)
    neither a b h = ground arith

    placed :
        (b : Bool)
        → codes_lt (codes j) (codes k) ≡ b
        → all_above j rest ≡ true
        → is_sorted rest ≡ true
        → (j == k) ≡ false
        → is_sorted (insert_field k v rest) ≡ true
        → is_sorted (
            if b
            then field_then j w (insert_field k v rest)
            else field_then k v (field_then j w rest))
          ≡ true
    placed true e a t p r = rw (all_above-insert_field j k v rest e a, r) refl
    placed false e a t p r =
        let l = above-of-not j k p e in rw (l, all_above_trans k j rest l a, a, t) refl
