-- ===== src/Words.antt =====
-- `strings.TrimSpace`, `strings.EqualFold` and `strings.Join` on strings.
use Prim.Native.Char.{code}
use Prim.Native.String.{◌++◌ as append_str}
use cobalt_dingo.Prelude.{ℕ, Bool, List, [], ◌∷◌, map, String, str_eq, if◌then◌else◌}
use cobalt_dingo.Prelude.Text.{is_space, same_text}
use cobalt_dingo.Dates.{codes}

unfoldable pub trim_str_left : String → String
trim_str_left String.[] = ""
trim_str_left (String.◌∷◌ c s) =
    let rest = trim_str_left s in if is_space (code c) then rest else String.◌∷◌ c s

-- A space is dropped if only spaces follow it.
unfoldable pub trim_str_right : String → String
trim_str_right String.[] = ""
trim_str_right (String.◌∷◌ c s) =
    let rest = trim_str_right s in
    if str_eq rest ""
    then (if is_space (code c) then "" else String.◌∷◌ c "")
    else String.◌∷◌ c rest

unfoldable pub trim_str : String → String
trim_str s = trim_str_right (trim_str_left s)

unfoldable pub equal_fold_str : (ℕ → ℕ) → String → String → Bool
equal_fold_str fold a b = same_text (map fold (codes a)) (map fold (codes b))

abbrev pub join_from : String → List String → String
join_from s [] = s
join_from s (t ∷ ts) = append_str s (append_str " " (join_from t ts))

-- `strings.Join(texts, " ")`
abbrev pub join_space : List String → String
join_space [] = ""
join_space (t ∷ ts) = join_from t ts
