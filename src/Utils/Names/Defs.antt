-- ===== src/Utils/Names/Defs.antt =====
-- `SanitizeName` and the generators of names in internal/utils/helpers.go.
use notebook_operator.Base.{ℕ, ◌-◌, ◌∷◌, ◌++◌, length, take, leb, if◌then◌else◌}
use notebook_operator.Base.Text.{Text, codes}
use notebook_operator.Utils.Sha1
use notebook_operator.Utils.Strings.{to_lower, is_empty, trim_right}

abbrev pub default_domain : Text
default_domain = codes "lab.toiyeuptit.com"

-- The first seven hexadecimal digits of the name's SHA-1.
unfoldable pub hash_str : Text → Text
hash_str name = take 7 (Sha1.hex (Sha1.sum name))

unfoldable pub sanitize_name : Text → ℕ → Text
sanitize_name name max_len =
    if leb (length name) max_len
    then name
    else if leb max_len 8
    then hash_str name
    else trim_right (take (max_len - 8) name) ++ b'-' ∷ hash_str name

unfoldable pub generate_target_namespace : Text → Text
generate_target_namespace cluster_lab_name = sanitize_name (codes "lab-" ++ cluster_lab_name) 63

unfoldable pub generate_ingress_host : Text → Text → Text → Text
generate_ingress_host instance_lab_name cluster_lab_name domain =
    let domain' = if is_empty domain then default_domain else domain in
    let subdomain_raw = instance_lab_name ++ codes "-" ++ cluster_lab_name in
    sanitize_name (to_lower subdomain_raw) 63 ++ codes "." ++ domain'
