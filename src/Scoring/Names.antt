-- ===== src/Scoring/Names.antt =====
-- `displayName` of scoring.js.
use Prim.Native.Char.{Char, code}
use Prim.Native.String.{String, ◌++◌}
use league_table.Prelude.{
  Option, none, some, List, [], ◌∷◌, ◌==◌, ◌===◌, if◌then◌else◌, last?, or_default,
}
use league_table.Model.{Student}

-- puts a character before the first piece
abbrev pub onto_first : Char → List String → List String
onto_first c [] = String.◌∷◌ c String.[] ∷ []
onto_first c (bit ∷ bits) = String.◌∷◌ c bit ∷ bits

-- `text.split(' ')`
abbrev pub split_spaces : String → List String
split_spaces String.[] = "" ∷ []
split_spaces (String.◌∷◌ c s) =
    let rest = split_spaces s in if code c == b' ' then "" ∷ rest else onto_first c rest

-- `${text[0]}`: of an empty text that is the word "undefined"
abbrev pub first_character : String → String
first_character String.[] = "undefined"
first_character (String.◌∷◌ c s) = String.◌∷◌ c String.[]

abbrev pub initials_of : List String → String
initials_of [] = "undefined"
initials_of (bit ∷ []) = bit
initials_of (bit ∷ next ∷ bits) =
    ((bit ++ " ") ++ first_character (or_default (last? (next ∷ bits)) "")) ++ "."

-- `nickname || display_name`
abbrev pub nickname_or : Option String → String → String
nickname_or none name = name
nickname_or (some nick) name = if nick === "" then name else nick

unfoldable pub display_name : Student → String → String
display_name student mode =
    if mode === "nickname"
    then nickname_or student.nickname student.display_name
    else if mode === "initials"
    then initials_of (split_spaces student.display_name)
    else student.display_name
