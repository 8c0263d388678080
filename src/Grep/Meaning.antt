-- ===== src/Grep/Meaning.antt =====
-- What a pattern of user/grep.c means: a list of elements, each for a character or for a run of them.
use intro2os_project.Prelude.{
  ℕ, Bool, true, false, ◌||◌, ◌==◌, if◌then◌else◌, List, [], ◌∷◌, ◌++◌, ◌≡◌, ◌⊎◌, ◌↔◌, inl, inr,
  refl, ap, arith, Bool-cases,
}
use intro2os_project.Grep.{dollar, asterisk, dot, matchstar}

pub data Element : Type 0 where
  one : ℕ → Element
  many : ℕ → Element

-- The elements of a pattern without its '^', and whether it ends in '$'.
abbrev pub elements : List ℕ → List Element × Bool
elements [] = ([], false)
elements (c ∷ []) = if c == dollar then ([], true) else (one c ∷ [], false)
elements (c ∷ d ∷ re) =
    let after_star = elements re in
    let after = elements (d ∷ re) in
    if d == asterisk then (many c ∷ after_star.0, after_star.1) else (one c ∷ after.0, after.1)

-- A character of the pattern stands for itself, and '.' for every character.
abbrev pub Fits : ℕ → ℕ → Type 0
Fits c t = (c ≡ dot) ⊎ (c ≡ t)

-- The words of a list of elements.
pub data Word : List Element → List ℕ → Type 0 where
  empty : Word [] []
  char :
      {c t : ℕ} {es : List Element} {w : List ℕ} → Fits c t → Word es w → Word (one c ∷ es) (t ∷ w)
  skip : {c : ℕ} {es : List Element} {w : List ℕ} → Word es w → Word (many c ∷ es) w
  more :
      {c t : ℕ} {es : List Element} {w : List ℕ}
      → Fits c t
      → Word (many c ∷ es) w
      → Word (many c ∷ es) (t ∷ w)

-- A text that starts with a word, and is one where the pattern ends in '$'.
pub data Starts (es : List Element) (whole : Bool) (text : List ℕ) : Type 0 where
  starts :
      (w rest : List ℕ)
      → Word es w
      → text ≡ w ++ rest
      → (whole ≡ true → rest ≡ [])
      → Starts es whole text

-- The loop of `match_one`, and of `matchstar`, against words.
pub test-Fits : (c t : ℕ) → c == dot || c == t ≡ true → Fits c t
test-Fits c t h = ground arith

Fits-run : (c t : ℕ) → Fits c t → t == c || c == dot ≡ true
Fits-run c t (inl e) = ground arith
Fits-run c t (inr e) = ground arith

pub Fits-test : (c t : ℕ) → Fits c t → c == dot || c == t ≡ true
Fits-test c t (inl e) = ground arith
Fits-test c t (inr e) = ground arith

-- A matcher that decides the texts that start with a word.
abbrev pub Decides : (List ℕ → Bool) → List Element → Bool → Type 0
Decides here es whole = (text : List ℕ) → (here text ≡ true) ↔ Starts es whole text

star_now :
    (c : ℕ) (here : List ℕ → Bool) (text : List ℕ) → here text ≡ true → matchstar c here text ≡ true
unfolding matchstar
star_now c here [] h = h
star_now c here (t ∷ text) h = rw h refl

star_later :
    (c t : ℕ) (here : List ℕ → Bool) (text : List ℕ)
    → Fits c t
    → matchstar c here text ≡ true
    → matchstar c here (t ∷ text) ≡ true
unfolding matchstar
star_later c t here text f h = elim (Bool-cases (here (t ∷ text))) [
  | inl y ↦ rw y refl
  | inr n ↦ rw (n, Fits-run c t f) h
]

skip_star :
    {c : ℕ} {es : List Element} {whole : Bool} {text : List ℕ}
    → Starts es whole text
    → Starts (many c ∷ es) whole text
skip_star (starts w rest word split end) = starts w rest (skip word) split end

more_star :
    {c t : ℕ} {es : List Element} {whole : Bool} {text : List ℕ}
    → Fits c t
    → Starts (many c ∷ es) whole text
    → Starts (many c ∷ es) whole (t ∷ text)
more_star {t = t} f (starts w rest word split end) =
    starts (t ∷ w) rest (more f word) (ap (λ z. t ∷ z) split) end

pub star_sound :
    (c : ℕ) (here : List ℕ → Bool) (es : List Element) (whole : Bool)
    → Decides here es whole
    → (text : List ℕ) → matchstar c here text ≡ true
    → Starts (many c ∷ es) whole text
unfolding matchstar
star_sound c here es whole d [] h = skip_star ((d []).0 h)
star_sound c here es whole d (t ∷ text) h = elim (Bool-cases (here (t ∷ text))) [
  | inl y ↦ skip_star ((d (t ∷ text)).0 y)
  | inr n ↦ more_star (ground arith) (star_sound c here es whole d text (ground arith))
]

pub star_complete :
    (c : ℕ) (here : List ℕ → Bool) (es : List Element) (whole : Bool)
    → Decides here es whole
    → (w rest : List ℕ) → Word (many c ∷ es) w
    → (whole ≡ true → rest ≡ [])
    → matchstar c here (w ++ rest) ≡ true
star_complete c here es whole d w rest (skip word) end =
    star_now c here (w ++ rest) ((d (w ++ rest)).1 (starts w rest word refl end))
star_complete c here es whole d (t ∷ w) rest (more f word) end =
    star_later c t here (w ++ rest) f (star_complete c here es whole d w rest word end)
