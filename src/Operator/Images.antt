-- ===== src/Operator/Images.antt =====
-- The images in greenplum-operator/cmd/greenplumOperator/main.go.
use greenplum_for_kubernetes.Prelude.{false, if◌then◌else◌}
use greenplum_for_kubernetes.Prelude.Text.{String, ◌&◌, str_eq}
use greenplum_for_kubernetes.Prelude.Effects.{Error, Result, ok, err}

abbrev is_empty_error : String → Error
is_empty_error name = record { message = name & " cannot be empty"; is_not_found = false }

-- The repository first; the tag is asked for only where there is one.
unfoldable pub get_image_name_from_env :
    (env_prefix : String) → (getenv : String → String) → Result String
get_image_name_from_env env_prefix getenv =
    let repo = getenv (env_prefix & "_REPO") in
    let tag = getenv (env_prefix & "_TAG") in
    if str_eq repo ""
    then err (is_empty_error (env_prefix & "_REPO"))
    else if str_eq tag ""
    then err (is_empty_error (env_prefix & "_TAG"))
    else ok (repo & ":" & tag)

unfoldable pub get_instance_image_from_env : (getenv : String → String) → Result String
unfolding get_image_name_from_env
get_instance_image_from_env getenv = get_image_name_from_env "GREENPLUM_IMAGE" getenv

unfoldable pub get_operator_image_from_env : (getenv : String → String) → Result String
unfolding get_image_name_from_env
get_operator_image_from_env getenv = get_image_name_from_env "OPERATOR_IMAGE" getenv
