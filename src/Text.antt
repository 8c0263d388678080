-- ===== src/Text.antt =====
-- kernel/string.c: the byte loops of the kernel. A byte array is a function from its index; where two
-- areas may overlap, both lie in one memory.
pub mod Move
pub mod Compare
pub mod Copy
mod Tests
use intro2os_project.Prelude.{
  ℕ, zero, suc, ◌+◌, ◌-◌, ◌%◌, Bool, true, false, not, ◌&&◌, ◌||◌, Option, none, some, ◌==◌, ltb,
  leb, if◌then◌else◌, update,
}
use intro2os_project.Prelude.Int.{ℤ, pos, sub_ℕ}

abbrev pub Bytes : Type 0
Bytes = ℕ → ℕ

-- The loop of `memset` at `i`, with `k` bytes to go.
unfoldable pub memset_from : Bytes → ℕ → ℕ → ℕ → Bytes
memset_from dst c i zero = dst
memset_from dst c i (suc k) = memset_from (update dst i (c % 256)) c (i + 1) k

-- `memset`
unfoldable pub memset : Bytes → ℕ → ℕ → Bytes
memset dst c n = memset_from dst c 0 n

-- `memcmp` at `i`, with `k` bytes to go.
unfoldable pub memcmp_from : Bytes → Bytes → ℕ → ℕ → ℤ
memcmp_from s t i zero = pos 0
memcmp_from s t i (suc k) =
    let rest = memcmp_from s t (i + 1) k in if s i == t i then rest else sub_ℕ (s i) (t i)

unfoldable pub memcmp : Bytes → Bytes → ℕ → ℤ
memcmp s t n = memcmp_from s t 0 n

-- The two loops of `memmove` in one memory: upwards, and downwards from the ends.
unfoldable pub move_up : Bytes → ℕ → ℕ → ℕ → Bytes
move_up m d s zero = m
move_up m d s (suc k) = move_up (update m d (m s)) (d + 1) (s + 1) k

unfoldable pub move_down : Bytes → ℕ → ℕ → ℕ → Bytes
move_down m d s zero = m
move_down m d s (suc k) = move_down (update m (d + k) (m (s + k))) d s k

-- `memmove`, and `memcpy`, which is the same.
unfoldable pub memmove : Bytes → ℕ → ℕ → ℕ → Bytes
memmove m d s n =
    if n == 0 then m else if ltb s d && ltb d (s + n) then move_down m d s n else move_up m d s n

unfoldable pub memcpy : Bytes → ℕ → ℕ → ℕ → Bytes
memcpy m d s n = memmove m d s n

-- `strncmp` at `i`, with `k` characters to go.
unfoldable pub strncmp_from : Bytes → Bytes → ℕ → ℕ → ℤ
strncmp_from p q i zero = pos 0
strncmp_from p q i (suc k) =
    let rest = strncmp_from p q (i + 1) k in
    if not (p i == 0) && p i == q i then rest else sub_ℕ (p i) (q i)

unfoldable pub strncmp : Bytes → Bytes → ℕ → ℤ
strncmp p q n = strncmp_from p q 0 n

-- The second loop of `strncpy`, which pads with zeros.
unfoldable pub pad_from : Bytes → ℕ → ℕ → Bytes
pad_from s i zero = s
pad_from s i (suc k) = pad_from (update s i 0) (i + 1) k

-- The first loop of `strncpy`, which copies up to and with the terminator.
unfoldable pub strncpy_from : Bytes → Bytes → ℕ → ℕ → Bytes
strncpy_from s t i zero = s
strncpy_from s t i (suc k) =
    let copied = update s i (t i) in
    let rest = strncpy_from copied t (i + 1) k in
    if t i == 0 then pad_from copied (i + 1) k else rest

unfoldable pub strncpy : Bytes → Bytes → ℕ → Bytes
strncpy s t n = strncpy_from s t 0 n

-- The loop of `safestrcpy` at `i`, with `k` rounds left before `--n > 0` fails.
unfoldable pub safestrcpy_from : Bytes → Bytes → ℕ → ℕ → Bytes
safestrcpy_from s t i zero = update s i 0
safestrcpy_from s t i (suc k) =
    let copied = update s i (t i) in
    let rest = safestrcpy_from copied t (i + 1) k in
    if t i == 0 then update copied (i + 1) 0 else rest

unfoldable pub safestrcpy : Bytes → Bytes → ℕ → Bytes
safestrcpy s t zero = s
safestrcpy s t (suc n) = safestrcpy_from s t 0 n

-- `strlen` of an array of at most `fuel` characters.
unfoldable pub strlen_from : ℕ → Bytes → ℕ → ℕ
strlen_from zero s n = n
strlen_from (suc fuel) s n = let rest = strlen_from fuel s (n + 1) in if s n == 0 then n else rest
