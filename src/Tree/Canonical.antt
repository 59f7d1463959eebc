-- ===== src/Tree/Canonical.antt =====
-- `toOrdered` of internal/lima/config.go: sorted fields, and what they hold.
use terraform_provider_lima.Base.{
  String, ◌≡◌, refl, ap, ◌∙◌, sym, subst, Bool, true, false, ◌||◌, Option, none, some, arith, codes,
  codes_lt, codes_lt-total, eq_of_codes, if◌then◌else◌, ◌==◌, eq_iff, eq_refl,
}
use terraform_provider_lima.Tree.{Value, FieldList, no_fields, field_then, get, has_key, is_map}
use terraform_provider_lima.Tree.Fields.{rest-is_map, head-absent}
use terraform_provider_lima.Tree.Ordered.{
  insert_field, ordered_value, to_ordered, all_above, is_sorted, both, test_ne, get-above,
  all_above_trans, has_key-insert_field, is_sorted-insert_field,
}

swap_if :
    (a b : Bool) (x y z : Option Value)
    → (b ≡ true → a ≡ false)
    → (if a then x else if b then y else z) ≡ (if b then y else if a then x else z)
swap_if true true x y z h = absurd (ground (arith, h refl))
swap_if true false x y z h = refl
swap_if false b x y z h = refl

neither : (a b : Bool) → (a || b) ≡ false → (a ≡ false) × (b ≡ false)
neither a b h = ground arith

get-insert_field :
    (k : String) (v : Value) (xs : FieldList) (j : String)
    → has_key xs k ≡ false
    → get (insert_field k v xs) j ≡ (if k == j then some v else get xs j)
get-insert_field k v no_fields j n = refl
get-insert_field k v (field_then i w rest) j n =
    let (p, q) = neither (i == k) (has_key rest k) n in
    placed (codes_lt (codes i) (codes k)) p (get-insert_field k v rest j q)
  where
    apart : (i == k) ≡ false → (k == j) ≡ true → (i == j) ≡ false
    apart p e = rw (← (eq_iff k j).0 e) p

    placed :
        (b : Bool)
        → (i == k) ≡ false
        → get (insert_field k v rest) j ≡ (if k == j then some v else get rest j)
        → get
            (if b
              then field_then i w (insert_field k v rest)
              else field_then k v (field_then i w rest))
            j
          ≡ (if k == j then some v else if i == j then some w else get rest j)
    placed true p h =
        ap (λ x. if i == j then some w else x) h
        ∙ swap_if (i == j) (k == j) (some w) (some v) (get rest j) (apart p)
    placed false p h = refl

has_key-to_ordered : (fs : FieldList) (k : String) → has_key (to_ordered fs) k ≡ has_key fs k
unfolding to_ordered
has_key-to_ordered no_fields k = refl
has_key-to_ordered (field_then j v rest) k =
    has_key-insert_field j (ordered_value v) (to_ordered rest) k
    ∙ ap (λ b. j == k || b) (has_key-to_ordered rest k)

to_ordered-is_sorted : (fs : FieldList) → is_map fs ≡ true → is_sorted (to_ordered fs) ≡ true
unfolding to_ordered
to_ordered-is_sorted no_fields h = refl
to_ordered-is_sorted (field_then k v rest) h =
    is_sorted-insert_field k (ordered_value v) (to_ordered rest)
      (has_key-to_ordered rest k ∙ head-absent k v rest h)
      (to_ordered-is_sorted rest (rest-is_map k v rest h))

abbrev pub ordered_at : Option Value → Option Value
ordered_at none = none
ordered_at (some v) = some (ordered_value v)

get-to_ordered :
    (fs : FieldList) (k : String) → is_map fs ≡ true → get (to_ordered fs) k ≡ ordered_at (get fs k)
unfolding to_ordered
get-to_ordered no_fields k h = refl
get-to_ordered (field_then j v rest) k h =
    get-insert_field j (ordered_value v) (to_ordered rest) k
      (has_key-to_ordered rest j ∙ head-absent j v rest h)
    ∙ ap (λ x. if j == k then some (ordered_value v) else x)
        (get-to_ordered rest k (rest-is_map j v rest h))
    ∙ picked (j == k)
  where
    picked :
        (b : Bool)
        → (if b then some (ordered_value v) else ordered_at (get rest k))
          ≡ ordered_at (if b then some v else get rest k)
    picked true = refl
    picked false = refl

some_ne_none : {A : Type 0} {a : A} → some a ≡ none → ⊥
some_ne_none e = ground arith

some-injective : {A : Type 0} (a b : A) → some a ≡ some b → a ≡ b
some-injective a b e = ground arith

head_get : (j : String) (w : Value) (xs : FieldList) → get (field_then j w xs) j ≡ some w
head_get j w xs = rw (eq_refl j) refl

-- The smaller of two heads is a key that the other list lacks.
head_lacks :
    (j : String) (w : Value) (xs : FieldList) (k : String) (v : Value) (ys : FieldList)
    → codes_lt (codes j) (codes k) ≡ true
    → all_above j ys ≡ true
    → get (field_then j w xs) j ≡ get (field_then k v ys) j
    → ⊥
head_lacks j w xs k v ys h a e =
    let n : (k == j) ≡ false = ground (arith, test_ne j k h, eq_iff j k, eq_iff k j) in
    let gone : get (field_then k v ys) j ≡ none = rw n (get-above j ys a) in
    some_ne_none (sym (head_get j w xs) ∙ e ∙ gone)

-- Below equal heads the values agree and the tails hold the same.
tails_agree :
    (j : String) (w v : Value) (xs ys : FieldList)
    → all_above j xs ≡ true
    → all_above j ys ≡ true
    → ((i : String) → get (field_then j w xs) i ≡ get (field_then j v ys) i)
    → (w ≡ v) × ((i : String) → get xs i ≡ get ys i)
tails_agree j w v xs ys a b h = (
  some-injective w v (sym (head_get j w xs) ∙ h j ∙ head_get j v ys),
  λ i. tail i (j == i) refl (h i),
)
  where
    tail :
        (i : String) (c : Bool)
        → (j == i) ≡ c
        → (if c then some w else get xs i) ≡ (if c then some v else get ys i)
        → get xs i ≡ get ys i
    tail i true e g = rw (← (eq_iff j i).0 e) (get-above j xs a ∙ sym (get-above j ys b))
    tail i false e g = g

below :
    (j k : String) (w v : Value) (xs ys : FieldList)
    → j ≡ k
    → all_above j xs ≡ true
    → all_above k ys ≡ true
    → ((i : String) → get (field_then j w xs) i ≡ get (field_then k v ys) i)
    → (w ≡ v) × ((i : String) → get xs i ≡ get ys i)
below j k w v xs ys p a b h =
    tails_agree j w v xs ys a (subst (λ l. all_above l ys ≡ true) (sym p) b)
      (subst (λ l. (i : String) → get (field_then j w xs) i ≡ get (field_then l v ys) i) (sym p) h)

-- Heads of lists that hold the same are the same.
heads_agree :
    (j k : String) (w v : Value) (xs ys : FieldList)
    → all_above j xs ≡ true
    → all_above k ys ≡ true
    → ((i : String) → get (field_then j w xs) i ≡ get (field_then k v ys) i)
    → j ≡ k
heads_agree j k w v xs ys a b h =
    go (codes_lt (codes j) (codes k)) (codes_lt (codes k) (codes j)) refl refl
  where
    go : (c d : Bool) → codes_lt (codes j) (codes k) ≡ c → codes_lt (codes k) (codes j) ≡ d → j ≡ k
    go true d e f = absurd (head_lacks j w xs k v ys e (all_above_trans j k ys e b) (h j))
    go false true e f = absurd (head_lacks k v ys j w xs f (all_above_trans k j xs f a) (sym (h k)))
    go false false e f = eq_of_codes j k (codes_lt-total (codes j) (codes k) e f)

sorted_eq :
    (xs ys : FieldList)
    → is_sorted xs ≡ true
    → is_sorted ys ≡ true
    → ((k : String) → get xs k ≡ get ys k)
    → xs ≡ ys
sorted_eq no_fields no_fields s t h = refl
sorted_eq no_fields (field_then k v ys) s t h =
    absurd (some_ne_none (sym (head_get k v ys) ∙ sym (h k)))
sorted_eq (field_then j w xs) no_fields s t h = absurd (some_ne_none (sym (head_get j w xs) ∙ h j))
sorted_eq (field_then j w xs) (field_then k v ys) s t h =
    let (a, s') = both (all_above j xs) (is_sorted xs) s in
    let (b, t') = both (all_above k ys) (is_sorted ys) t in
    let p = heads_agree j k w v xs ys a b h in
    let (q, g) = below j k w v xs ys p a b h in
    let r = sorted_eq xs ys s' t' g in λ i. field_then (p i) (q i) (r i)

-- Two maps that hold the same at every key, up to the order inside of their values, are serialised
-- from one and the same ordered tree, whose keys are sorted.
pub to_ordered_lem :
    (fs gs : FieldList)
    → is_map fs ≡ true
    → is_map gs ≡ true
    → ((k : String) → ordered_at (get fs k) ≡ ordered_at (get gs k))
    → (to_ordered fs ≡ to_ordered gs) × (is_sorted (to_ordered fs) ≡ true)
to_ordered_lem fs gs h g e = (
  sorted_eq (to_ordered fs) (to_ordered gs) (to_ordered-is_sorted fs h) (to_ordered-is_sorted gs g)
      (λ k. get-to_ordered fs k h ∙ e k ∙ sym (get-to_ordered gs k g)),
  to_ordered-is_sorted fs h,
)
