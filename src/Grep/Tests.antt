-- ===== src/Grep/Tests.antt =====
-- The matcher of user/grep.c at patterns for `a*b$` and `^.c`.
use intro2os_project.Prelude.{true, false, refl, ◌≡◌, ◌↔◌, [], ◌∷◌}
use intro2os_project.Grep.{matchstar, match_one, matchhere, match_from, match}
use intro2os_project.Grep.Meaning.{elements}
use intro2os_project.Grep.Decide.{Contains, match_iff}

-- "caab" has a match of `a*b$`, and "ab" none of `^.c`.
found : match (97 ∷ 42 ∷ 98 ∷ 36 ∷ []) (99 ∷ 97 ∷ 97 ∷ 98 ∷ []) ≡ true
unfolding match match_from matchhere matchstar match_one
found = refl

not_found : match (94 ∷ 46 ∷ 99 ∷ []) (97 ∷ 98 ∷ []) ≡ false
unfolding match match_from matchhere matchstar match_one
not_found = refl

match_iff_example :
    (match (94 ∷ 97 ∷ 42 ∷ 98 ∷ []) (97 ∷ 97 ∷ 98 ∷ 99 ∷ []) ≡ true)
    ↔ Contains
        (elements (97 ∷ 42 ∷ 98 ∷ [])).0
        (elements (97 ∷ 42 ∷ 98 ∷ [])).1
        true
        (97 ∷ 97 ∷ 98 ∷ 99 ∷ [])
match_iff_example = match_iff (94 ∷ 97 ∷ 42 ∷ 98 ∷ []) (97 ∷ 97 ∷ 98 ∷ 99 ∷ [])
