-- ===== src/Tree/Overlay.antt =====
-- `mergeMaps` and `markEmptySequencesAsClears` of internal/lima/config.go for overlays.
use terraform_provider_lima.Base.{
  String, ◌≡◌, refl, ap, ◌∙◌, sym, subst, ◌⊎◌, Bool, true, false, Option, none, some, arith,
  if◌then◌else◌, ◌==◌, eq_iff, eq_refl, Bool-cases, inl, inr,
}
use terraform_provider_lima.Tree.{
  Value, null_value, scalar, sequence, mapping, no_values, value_then, FieldList, no_fields,
  field_then, get, put, merge_value, merge_maps, mark_value, mark_empty_sequences, is_map,
  is_map_value, has_key,
}
use terraform_provider_lima.Tree.Fields.{
  get-absent, rest-is_map, head-absent, head-is_map, merged, get-merge_maps,
}

abbrev marked : Option Value → Option Value
marked none = none
marked (some v) = some (mark_value v)

if_marked :
    (b : Bool) (v : Value) (x y : Option Value)
    → x ≡ marked y
    → (if b then some (mark_value v) else x) ≡ marked (if b then some v else y)
if_marked true v x y e = refl
if_marked false v x y e = e

get-mark : (xs : FieldList) (k : String) → get (mark_empty_sequences xs) k ≡ marked (get xs k)
unfolding mark_empty_sequences
get-mark no_fields k = refl
get-mark (field_then j v rest) k = if_marked (j == k) v _ _ (get-mark rest k)

has_key-mark : (xs : FieldList) (k : String) → has_key (mark_empty_sequences xs) k ≡ has_key xs k
unfolding mark_empty_sequences
has_key-mark no_fields k = refl
has_key-mark (field_then j v rest) k = rw (has_key-mark rest k) refl

-- Assigning what is there already changes nothing.
put_if :
    (b : Bool) (j : String) (w v : Value) (rest new : FieldList) (old : Option Value)
    → (if b then some w else old) ≡ some v
    → (old ≡ some v → new ≡ rest)
    → (if b then field_then j v rest else field_then j w new) ≡ field_then j w rest
put_if true j w v rest new old h k =
    let p : w ≡ v = ground arith in ap (λ x. field_then j x rest) (sym p)
put_if false j w v rest new old h k = ap (field_then j w) (k h)

put-same : (xs : FieldList) (k : String) (v : Value) → get xs k ≡ some v → put xs k v ≡ xs
put-same no_fields k v h = absurd (ground arith)
put-same (field_then j w rest) k v h = put_if (j == k) j w v rest _ _ h (put-same rest k v)

-- If merging an overlay's value once more gives what is there, at each key, so does the merge.
merge_maps-same :
    (out src : FieldList)
    → is_map src ≡ true
    → ((k : String) (v : Value)
        → get src k ≡ some v
        → (x : Value) × (get out k ≡ some x) × (merge_value (some x) v ≡ x))
    → merge_maps out src ≡ out
unfolding merge_maps
merge_maps-same out no_fields h there = refl
merge_maps-same out (field_then j v rest) h there =
    let (x, e, same) = there j v (rw (eq_refl j) refl) in
    let kept : put out j (merge_value (get out j) v) ≡ out = rw (e, same) (put-same out j x e) in
    rw kept (
      merge_maps-same out rest (rest-is_map j v rest h)
        λ k w f. there k w (still k w f (Bool-cases (j == k))))
  where
    still :
        (k : String) (w : Value)
        → get rest k ≡ some w
        → ((j == k) ≡ true) ⊎ ((j == k) ≡ false)
        → (if j == k then some v else get rest k) ≡ some w
    still k w f (inr e) = rw e f
    still k w f (inl e) =
        let gone : get rest k ≡ none =
          rw (← (eq_iff j k).0 e) (get-absent rest j (head-absent j v rest h)) in
        absurd (ground arith)

merge_none : (v : Value) → merge_value none v ≡ v
unfolding merge_value
merge_none null_value = refl
merge_none (scalar t) = refl
merge_none (sequence vs) = refl
merge_none (mapping fs) = refl

-- A value that was merged is not changed by merging it again.
abbrev Settles : Value → Type 0
Settles v = (old : Option Value) → merge_value (some (merge_value old v)) v ≡ merge_value old v

Settles-if :
    (b : Bool) (w v : Value) (old : Option Value)
    → Settles w
    → (old ≡ some v → Settles v)
    → (if b then some w else old) ≡ some v
    → Settles v
Settles-if true w v old k l e = let p : w ≡ v = ground arith in subst Settles p k
Settles-if false w v old k l e = l e

merge_maps-merge_maps :
    (out src : FieldList)
    → is_map src ≡ true
    → ((k : String) (v : Value) → get src k ≡ some v → Settles v)
    → merge_maps (merge_maps out src) src ≡ merge_maps out src
merge_maps-merge_maps out src h settles = merge_maps-same (merge_maps out src) src h λ k v e.
    (merge_value (get out k) v, get-merge_maps out src k h ∙ rw e refl, settles k v e (get out k))

self-Settles :
    (src : FieldList)
    → is_map src ≡ true
    → ((k : String) (v : Value) → get src k ≡ some v → Settles v)
    → merge_maps src src ≡ src
self-Settles src h settles =
    merge_maps-same src src h
      λ k v e. (v, e, subst (λ x. merge_value (some x) v ≡ x) (merge_none v) (settles k v e none))

mutual
  unfolding merge_value

  value-Settles : (v : Value) → is_map_value v ≡ true → Settles v
  value-Settles null_value h old = refl
  value-Settles (scalar t) h none = refl
  value-Settles (scalar t) h (some null_value) = refl
  value-Settles (scalar t) h (some (scalar u)) = refl
  value-Settles (scalar t) h (some (sequence us)) = refl
  value-Settles (scalar t) h (some (mapping gs)) = refl
  value-Settles (sequence vs) h none = refl
  value-Settles (sequence vs) h (some null_value) = refl
  value-Settles (sequence vs) h (some (scalar u)) = refl
  value-Settles (sequence vs) h (some (sequence us)) = refl
  value-Settles (sequence vs) h (some (mapping gs)) = refl
  value-Settles (mapping fs) h none = ap mapping (self-Settles fs h (fields-Settles fs h))
  value-Settles (mapping fs) h (some null_value) =
      ap mapping (self-Settles fs h (fields-Settles fs h))
  value-Settles (mapping fs) h (some (scalar u)) =
      ap mapping (self-Settles fs h (fields-Settles fs h))
  value-Settles (mapping fs) h (some (sequence us)) =
      ap mapping (self-Settles fs h (fields-Settles fs h))
  value-Settles (mapping fs) h (some (mapping gs)) =
      ap mapping (merge_maps-merge_maps gs fs h (fields-Settles fs h))

  fields-Settles :
      (fs : FieldList) → is_map fs ≡ true → (k : String) (v : Value) → get fs k ≡ some v → Settles v
  fields-Settles no_fields h k v e = absurd (ground arith)
  fields-Settles (field_then j w rest) h k v e =
      Settles-if (j == k) w v (get rest k) (value-Settles w (head-is_map j w rest h))
        (fields-Settles rest (rest-is_map j w rest h) k v) e

abbrev pub is_clear : Option Value → Bool
is_clear (some (sequence no_values)) = true
is_clear (some null_value) = true
is_clear _ = false

cleared : (old got : Option Value) → is_clear got ≡ true → merged old (marked got) ≡ some null_value
unfolding merge_value mark_value
cleared old none h = absurd (ground arith)
cleared old (some null_value) h = refl
cleared old (some (scalar t)) h = absurd (ground arith)
cleared old (some (sequence no_values)) h = refl
cleared old (some (sequence (value_then v vs))) h = absurd (ground arith)
cleared old (some (mapping fs)) h = absurd (ground arith)

mutual
  unfolding mark_value

  mark_value-is_map : (v : Value) → is_map_value v ≡ true → is_map_value (mark_value v) ≡ true
  mark_value-is_map null_value h = refl
  mark_value-is_map (scalar t) h = refl
  mark_value-is_map (sequence no_values) h = refl
  mark_value-is_map (sequence (value_then v vs)) h = h
  mark_value-is_map (mapping fs) h = mark-is_map fs h

  mark-is_map : (fs : FieldList) → is_map fs ≡ true → is_map (mark_empty_sequences fs) ≡ true
  mark-is_map no_fields h = refl
  mark-is_map (field_then k v rest) h =
      rw
        (
          has_key-mark rest k,
          head-absent k v rest h,
          mark_value-is_map v (head-is_map k v rest h),
          mark-is_map rest (rest-is_map k v rest h),
        )
        refl

-- Applying an overlay to its own result changes nothing, at any depth.
pub merge_maps_again :
    (doc overlay : FieldList)
    → is_map overlay ≡ true
    → merge_maps (merge_maps doc overlay) overlay ≡ merge_maps doc overlay
merge_maps_again doc overlay h = merge_maps-merge_maps doc overlay h (fields-Settles overlay h)

-- A key that an overlay sets to null or to an empty list is null in the merged document, whatever
-- the document had there: both spellings clear what a template set.
pub overlay_clears :
    (doc overlay : FieldList) (k : String)
    → is_map overlay ≡ true
    → is_clear (get overlay k) ≡ true
    → get (merge_maps doc (mark_empty_sequences overlay)) k ≡ some null_value
overlay_clears doc overlay k h c =
    get-merge_maps doc (mark_empty_sequences overlay) k (mark-is_map overlay h)
    ∙ rw (get-mark overlay k) (cleared (get doc k) (get overlay k) c)
