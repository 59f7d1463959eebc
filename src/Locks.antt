-- ===== src/Locks.antt =====
-- internal/lima/locks.go.
use Prim.Native.String.{◌++◌}
use text.Mathlib.TextLemmas.{append_cancel_left, cons-append}
use Prim.Native.Char.{code}
use terraform_provider_lima.Base.{ℕ, String, ◌≡◌, ◌≢◌, refl, ap, false, ◌==◌, eq_iff, arith}

-- Keys are namespaced strings.
unfoldable pub instance_key : String → String
instance_key name = "instance:" ++ name

unfoldable pub disk_key : String → String
disk_key name = "disk:" ++ name

unfoldable pub home_key : String
home_key = "home:"

pub instance_key-injective : (a b : String) → instance_key a ≡ instance_key b → a ≡ b
unfolding instance_key
instance_key-injective a b h = append_cancel_left "instance:" a b h

pub disk_key-injective : (a b : String) → disk_key a ≡ disk_key b → a ≡ b
unfolding disk_key
disk_key-injective a b h = append_cancel_left "disk:" a b h

test_ne : (a b : String) → a ≢ b → (a == b) ≡ false
test_ne a b h = ground (arith, eq_iff a b)

head_code : String → ℕ
head_code String.[] = 0
head_code (String.◌∷◌ c s) = code c

head-home : head_code home_key ≡ b'h'
unfolding head_code home_key
head-home = refl

head-instance : (a : String) → head_code (instance_key a) ≡ b'i'
unfolding head_code instance_key
head-instance a = ap head_code (cons-append "i" "nstance:" a)

head-disk : (a : String) → head_code (disk_key a) ≡ b'd'
unfolding head_code disk_key
head-disk a = ap head_code (cons-append "d" "isk:" a)

pub home_key-ne-instance_key : (a : String) → (home_key == instance_key a) ≡ false
home_key-ne-instance_key a =
    test_ne home_key (instance_key a) λ h. omega (arith, ap head_code h, head-home, head-instance a)

pub instance_key-ne-home_key : (a : String) → (instance_key a == home_key) ≡ false
instance_key-ne-home_key a =
    test_ne (instance_key a) home_key λ h. omega (arith, ap head_code h, head-home, head-instance a)

pub disk_key-ne-home_key : (a : String) → (disk_key a == home_key) ≡ false
disk_key-ne-home_key a =
    test_ne (disk_key a) home_key λ h. omega (arith, ap head_code h, head-home, head-disk a)

-- Two keys are equal only for one object: instances, disks and the home never share a lock.
pub instance_key-ne-disk_key : (a b : String) → (instance_key a == disk_key b) ≡ false
instance_key-ne-disk_key a b =
    test_ne (instance_key a) (disk_key b)
      λ h. omega (arith, ap head_code h, head-instance a, head-disk b)
