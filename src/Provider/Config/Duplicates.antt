-- ===== src/Provider/Config/Duplicates.antt =====
-- The duplicates that `validateInstanceConfig` of internal/provider/instance_resource.go reports.
use terraform_provider_lima.Base.{ℤ, String, Bool, true, not, ◌&&◌, List, [], ◌∷◌, contains_text}
use terraform_provider_lima.Provider.Attr.{Attr, known, string_value, value_or}
use terraform_provider_lima.Provider.Models.{PortModel}
use terraform_provider_lima.Provider.Config.{forward_key}

-- The keys of the forwards whose guest port is known.
abbrev pub guest_key : PortModel → Attr ℤ → List String → List String
guest_key pf (known port) rest =
    forward_key (value_or "tcp" pf.protocol) port (string_value pf.guest_ip) ∷ rest
guest_key pf _ rest = rest

abbrev pub guest_keys : List PortModel → List String
guest_keys [] = []
guest_keys (pf ∷ pfs) = guest_key pf pf.guest_port (guest_keys pfs)

-- The keys of the forwards whose two ports are known.
abbrev pub host_key : PortModel → Attr ℤ → Attr ℤ → List String → List String
host_key pf (known guest_port) (known port) rest =
    forward_key (value_or "tcp" pf.protocol) port (string_value pf.host_ip) ∷ rest
host_key pf _ _ rest = rest

abbrev pub host_keys : List PortModel → List String
host_keys [] = []
host_keys (pf ∷ pfs) = host_key pf pf.guest_port pf.host_port (host_keys pfs)

-- No text stands twice.
abbrev pub all_distinct : List String → Bool
all_distinct [] = true
all_distinct (k ∷ ks) = not (contains_text ks k) && all_distinct ks

abbrev fresh : List String → List String → Bool
fresh seen [] = true
fresh seen (k ∷ ks) = not (contains_text seen k) && fresh (k ∷ seen) ks

abbrev disjoint : List String → List String → Bool
disjoint seen [] = true
disjoint seen (k ∷ ks) = not (contains_text seen k) && disjoint seen ks
