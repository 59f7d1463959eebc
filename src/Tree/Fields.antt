-- ===== src/Tree/Fields.antt =====
-- `mergeMaps` of internal/lima/config.go, key by key.
use terraform_provider_lima.Base.{
  String, ◌≡◌, refl, ◌∙◌, Bool, true, false, not, ◌&&◌, Option, none, some, arith, if◌then◌else◌,
  ◌==◌, eq_iff,
}
use terraform_provider_lima.Tree.{
  Value, FieldList, no_fields, field_then, get, put, merge_value, merge_maps, is_map, is_map_value,
  has_key,
}

test_sym : (a b : String) → (a == b) ≡ (b == a)
test_sym a b = ground (arith, eq_iff a b, eq_iff b a)

pub get-put :
    (xs : FieldList) (k j : String) (v : Value)
    → get (put xs k v) j ≡ (if k == j then some v else get xs j)
get-put no_fields k j v = refl
get-put (field_then i w rest) k j v =
    ground (arith, get-put rest k j v, eq_iff i k, eq_iff i j, eq_iff k j)

pub get-absent : (xs : FieldList) (k : String) → has_key xs k ≡ false → get xs k ≡ none
get-absent no_fields k h = refl
get-absent (field_then j v rest) k h = ground (arith, get-absent rest k)

all_three : (a b c : Bool) → (not a && b && c) ≡ true → (a ≡ false) × (b ≡ true) × (c ≡ true)
all_three a b c h = ground arith

pub rest-is_map :
    (k : String) (v : Value) (rest : FieldList)
    → is_map (field_then k v rest) ≡ true
    → is_map rest ≡ true
rest-is_map k v rest h = (all_three (has_key rest k) (is_map_value v) (is_map rest) h).2

pub head-absent :
    (k : String) (v : Value) (rest : FieldList)
    → is_map (field_then k v rest) ≡ true
    → has_key rest k ≡ false
head-absent k v rest h = (all_three (has_key rest k) (is_map_value v) (is_map rest) h).0

pub head-is_map :
    (k : String) (v : Value) (rest : FieldList)
    → is_map (field_then k v rest) ≡ true
    → is_map_value v ≡ true
head-is_map k v rest h = (all_three (has_key rest k) (is_map_value v) (is_map rest) h).1

-- What the merge leaves at a key.
abbrev pub merged : Option Value → Option Value → Option Value
merged old none = old
merged old (some v) = some (merge_value old v)

pub get-merge_maps :
    (out src : FieldList) (k : String)
    → is_map src ≡ true
    → get (merge_maps out src) k ≡ merged (get out k) (get src k)
unfolding merge_maps
get-merge_maps out no_fields k h = refl
get-merge_maps out (field_then j v rest) k h =
    let new = merge_value (get out j) v in
    get-merge_maps (put out j new) rest k (rest-is_map j v rest h)
    ∙ rw (get-put out j k new) (at_key (j == k) refl)
  where
    at_key :
        (b : Bool)
        → (j == k) ≡ b
        → merged (if b then some (merge_value (get out j) v) else get out k) (get rest k)
          ≡ merged (get out k) (if b then some v else get rest k)
    at_key true e =
        let p : j ≡ k = (eq_iff j k).0 e in
        rw (← p, get-absent rest j (head-absent j v rest h)) refl
    at_key false e = refl
