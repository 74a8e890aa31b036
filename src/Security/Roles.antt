-- ===== src/Security/Roles.antt =====
-- app/services/auth.py: the roles and the matrix of what each may do.
use khalij_intelligent_energ.Base.{
  String, Bool, true, false, Option, none, some, List, [], ◌∷◌, str_eq, or_else, if◌then◌else◌,
}
use khalij_intelligent_energ.Base.Table.{Dict, get}

pub data Role : Type 0 where
  viewer operator admin : Role

abbrev pub role_in : Role → List Role → Bool
role_in r [] = false
role_in Role.viewer (Role.viewer ∷ rs) = true
role_in Role.operator (Role.operator ∷ rs) = true
role_in Role.admin (Role.admin ∷ rs) = true
role_in r (_ ∷ rs) = role_in r rs

abbrev pub matrix : Dict (List Role)
matrix =
    ("read", Role.viewer ∷ Role.operator ∷ Role.admin ∷ [])
    ∷ ("predict", Role.operator ∷ Role.admin ∷ [])
    ∷ ("operate", Role.operator ∷ Role.admin ∷ [])
    ∷ ("train", Role.operator ∷ Role.admin ∷ [])
    ∷ ("apply", Role.admin ∷ [])
    ∷ ("settings", Role.admin ∷ [])
    ∷ []

unfoldable pub role_allows : Role → String → Bool
role_allows role action = role_in role (or_else (get action matrix) [])

-- `role.value` and `Role(text)`
abbrev pub role_value : Role → String
role_value Role.viewer = "viewer"
role_value Role.operator = "operator"
role_value Role.admin = "admin"

abbrev pub role_of : String → Option Role
role_of text =
    if str_eq text "viewer"
    then some Role.viewer
    else if str_eq text "operator"
    then some Role.operator
    else if str_eq text "admin"
    then some Role.admin
    else none
