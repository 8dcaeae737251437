-- ===== src/Tests/Names.antt =====
-- Generated names of concrete clusters.
use notebook_operator.Base.{◌+◌, ◌<◌, ◌⊎◌, ◌≤◌, ◌≡◌, if◌then◌else◌, [], ◌∷◌, ◌++◌, arith, length}
use notebook_operator.Base.Text.{Text, codes}
use notebook_operator.Utils.Names.{sanitize_name, generate_target_namespace, generate_ingress_host}
use notebook_operator.Utils.Names.Hosts.{generate_ingress_host_lem}
use notebook_operator.Utils.Strings.{is_empty}
use notebook_operator.Utils.Names.Labels.{
  IsDnsLabel, sanitize_name-IsDnsLabel, generate_target_namespace_dotted,
}

sanitize_name-IsDnsLabel_example :
    IsDnsLabel (sanitize_name (codes "machine-learning-lab") 12)
    × (length (sanitize_name (codes "machine-learning-lab") 12) ≤ 12)
unfolding codes
sanitize_name-IsDnsLabel_example =
    sanitize_name-IsDnsLabel (codes "machine-learning-lab") 12 (omega arith) (omega arith)
      (ground arith) (ground arith) (ground arith)

generate_target_namespace_dotted_example :
    ¬ IsDnsLabel (generate_target_namespace (codes "ml" ++ b'.' ∷ codes "org"))
unfolding codes
generate_target_namespace_dotted_example =
    generate_target_namespace_dotted (codes "ml") (codes "org") (omega arith)

generate_ingress_host_lem_example :
    (label : Text) × IsDnsLabel label
    × (length label ≤ 63)
    × (generate_ingress_host (codes "web") (codes "ml") []
        ≡ label ++ codes "." ++ (if is_empty [] then codes "lab.toiyeuptit.com" else []))
    × ((label ≡ codes "web" ++ codes "-" ++ codes "ml")
        ⊎ (62 < length (codes "web") + length (codes "ml")))
unfolding codes
generate_ingress_host_lem_example =
    generate_ingress_host_lem (codes "web") (codes "ml") [] (ground arith) (ground arith)
      (ground arith) (ground arith)
