-- ===== src/Grep/Decide.antt =====
-- The matcher of user/grep.c decides what patterns mean.
use intro2os_project.Prelude.{
  ℕ, Bool, true, false, ◌||◌, ◌==◌, if◌then◌else◌, List, [], ◌∷◌, ◌++◌, ◌≡◌, ◌↔◌, inl, inr, refl,
  sym, ap, ◌∙◌, subst, arith, Bool-cases,
}
use intro2os_project.Grep.{
  dollar, asterisk, dot, caret, at_end, matchstar, match_one, matchhere, match_from, match,
}
use intro2os_project.Grep.Meaning.{
  Element, one, many, elements, Fits, Word, empty, char, Starts, starts, Decides, test-Fits,
  Fits-test, star_sound, star_complete,
}

-- The loop of `matchstar` decides a run and what follows it.
pub matchstar-Decides :
    (c : ℕ) (here : List ℕ → Bool) (es : List Element) (whole : Bool)
    → Decides here es whole
    → Decides (matchstar c here) (many c ∷ es) whole
matchstar-Decides c here es whole d text = (star_sound c here es whole d text, back)
  where
    back : Starts (many c ∷ es) whole text → matchstar c here text ≡ true
    back (starts w rest word split end) = rw split (star_complete c here es whole d w rest word end)

one_sound :
    (c : ℕ) (here : List ℕ → Bool) (es : List Element) (whole : Bool)
    → Decides here es whole
    → (text : List ℕ) → match_one c here text ≡ true
    → Starts (one c ∷ es) whole text
unfolding match_one
one_sound c here es whole d [] h = ground arith
one_sound c here es whole d (t ∷ text) h =
    let fits : c == dot || c == t ≡ true = ground arith in
    let after : here text ≡ true = ground arith in first (test-Fits c t fits) ((d text).0 after)
  where
    first :
        {t : ℕ} {text : List ℕ}
        → Fits c t
        → Starts es whole text
        → Starts (one c ∷ es) whole (t ∷ text)
    first {t} f (starts w rest word split end) =
        starts (t ∷ w) rest (char f word) (ap (λ z. t ∷ z) split) end

one_complete :
    (c : ℕ) (here : List ℕ → Bool) (es : List Element) (whole : Bool)
    → Decides here es whole
    → (w rest : List ℕ) → Word (one c ∷ es) w
    → (whole ≡ true → rest ≡ [])
    → match_one c here (w ++ rest) ≡ true
unfolding match_one
one_complete c here es whole d [] rest word end = elim word [ ]
one_complete c here es whole d (t ∷ w) rest (char f word) end =
    rw (Fits-test c t f) ((d (w ++ rest)).1 (starts w rest word refl end))

pub match_one-Decides :
    (c : ℕ) (here : List ℕ → Bool) (es : List Element) (whole : Bool)
    → Decides here es whole
    → Decides (match_one c here) (one c ∷ es) whole
match_one-Decides c here es whole d text = (one_sound c here es whole d text, back)
  where
    back : Starts (one c ∷ es) whole text → match_one c here text ≡ true
    back (starts w rest word split end) = rw split (one_complete c here es whole d w rest word end)

nothing-Decides : Decides (matchhere []) [] false
unfolding matchhere
nothing-Decides text = ((λ h. starts [] text empty refl (λ e. ground arith)), λ s. refl)

end-Decides : Decides at_end [] true
end-Decides [] = ((λ h. starts [] [] empty refl (λ e. refl)), λ s. refl)
end-Decides (t ∷ text) = ((λ h. ground arith), back)
  where
    back : Starts [] true (t ∷ text) → at_end (t ∷ text) ≡ true
    back (starts [] rest empty split end) = ap at_end (split ∙ end refl)
    back (starts (u ∷ w) rest word split end) = elim word [ ]

-- `matchhere` decides whether the text starts with a word of the pattern.
pub matchhere-Decides : (re : List ℕ) → Decides (matchhere re) (elements re).0 (elements re).1
unfolding matchhere
matchhere-Decides [] = nothing-Decides
matchhere-Decides (c ∷ []) = elim (Bool-cases (c == dollar)) [
  | inl y ↦ rw y end-Decides
  | inr n ↦ rw n (match_one-Decides c (matchhere []) [] false nothing-Decides)
]
matchhere-Decides (c ∷ d ∷ re) = elim (Bool-cases (d == asterisk)) [
  | inl y ↦
      rw y
        (matchstar-Decides c (matchhere re) (elements re).0 (elements re).1 (matchhere-Decides re))
  | inr n ↦ rw n (
      match_one-Decides c (matchhere (d ∷ re)) (elements (d ∷ re)).0 (elements (d ∷ re)).1
        (matchhere-Decides (d ∷ re)))
]

-- The pattern without a '^' in front, and whether there is one.
abbrev pub body : List ℕ → List ℕ
body [] = []
body (c ∷ re) = if c == caret then re else c ∷ re

abbrev pub anchored : List ℕ → Bool
anchored [] = false
anchored (c ∷ re) = c == caret

-- A text with a word somewhere, in front where the pattern is anchored.
abbrev pub Contains : List Element → Bool → Bool → List ℕ → Type 0
Contains es whole front text =
    (before : List ℕ) × (rest : List ℕ) × (text ≡ before ++ rest)
    × (front ≡ true → before ≡ [])
    × Starts es whole rest

from_now : (here : List ℕ → Bool) (text : List ℕ) → here text ≡ true → match_from here text ≡ true
unfolding match_from
from_now here [] h = h
from_now here (t ∷ text) h = rw h refl

from_sound :
    (here : List ℕ → Bool) (es : List Element) (whole : Bool)
    → Decides here es whole
    → (text : List ℕ) → match_from here text ≡ true
    → Contains es whole false text
unfolding match_from
from_sound here es whole d [] h = ([], [], refl, (λ e. refl), (d []).0 h)
from_sound here es whole d (t ∷ text) h = elim (Bool-cases (here (t ∷ text))) [
  | inl y ↦ ([], t ∷ text, refl, (λ e. refl), (d (t ∷ text)).0 y)
  | inr n ↦
      let (before, rest, split, front, s) = from_sound here es whole d text (ground arith) in
      (t ∷ before, rest, ap (λ z. t ∷ z) split, (λ e. ground arith), s)
]

from_complete :
    (here : List ℕ → Bool) (es : List Element) (whole : Bool)
    → Decides here es whole
    → (before rest : List ℕ) → Starts es whole rest
    → match_from here (before ++ rest) ≡ true
unfolding match_from
from_complete here es whole d [] rest s = from_now here rest ((d rest).1 s)
from_complete here es whole d (t ∷ before) rest s =
    elim (Bool-cases (here (t ∷ (before ++ rest)))) [
      | inl y ↦ rw y refl
      | inr n ↦ rw n (from_complete here es whole d before rest s)
    ]

match_from-Contains :
    (re text : List ℕ)
    → (match_from (matchhere re) text ≡ true) ↔ Contains (elements re).0 (elements re).1 false text
match_from-Contains re text = (
  from_sound (matchhere re) (elements re).0 (elements re).1 (matchhere-Decides re) text,
  λ (before, rest, split, front, s). rw split (
      from_complete (matchhere re) (elements re).0 (elements re).1 (matchhere-Decides re) before
        rest s),
)

front_only :
    (re text : List ℕ)
    → (matchhere re text ≡ true) ↔ Contains (elements re).0 (elements re).1 true text
front_only re text = (
  λ h. ([], text, refl, (λ e. refl), (matchhere-Decides re text).0 h),
  λ (before, rest, split, front, s). (matchhere-Decides re text).1 (
      subst (Starts (elements re).0 (elements re).1)
        (sym (split ∙ ap (λ z. z ++ rest) (front refl))) s),
)

-- `match` is 1 exactly when the text contains a word of the pattern: there is a split of the text into what
-- stands before, a word and what follows, where the word is one of the elements that the pattern without its '^'
-- and '$' spells (a character fits itself, '.' every one, and one before '*' any run of what it fits), where
-- nothing stands before the word if the pattern starts with '^', and nothing follows it if it ends in '$'.
pub match_iff :
    (re text : List ℕ)
    → (match re text ≡ true)
      ↔ Contains (elements (body re)).0 (elements (body re)).1 (anchored re) text
unfolding match
match_iff [] text = match_from-Contains [] text
match_iff (c ∷ re) text = elim (Bool-cases (c == caret)) [
  | inl y ↦ rw y (front_only re text)
  | inr n ↦ rw n (match_from-Contains (c ∷ re) text)
]
