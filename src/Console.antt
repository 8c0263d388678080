-- ===== src/Console.antt =====
-- kernel/console.c: the input buffer of the console, its line editing and its readers.
-- Every function runs with `cons.lock` held, so each is one step; what `consputc` sends to the
-- serial port is a list of characters, in order.
pub mod Editing
pub mod Keys
pub mod Reading
mod Tests
use intro2os_project.Prelude.{
  ℕ, zero, suc, ◌+◌, ◌-◌, ◌%◌, Bool, true, false, not, ◌&&◌, ◌||◌, Option, none, some, List, [],
  ◌∷◌, ◌++◌, ◌==◌, ltb, if◌then◌else◌, update, u32, sub32,
}

-- INPUT_BUF_SIZE, and BACKSPACE of `consputc`
abbrev pub input_buf_size : ℕ
input_buf_size = 128

abbrev pub backspace : ℕ
backspace = 0x100

-- The control characters: C('D'), C('H'), '\n', '\r', C('P'), C('U') and delete.
abbrev pub ctrl_d : ℕ
ctrl_d = 4

abbrev pub ctrl_h : ℕ
ctrl_h = 8

abbrev pub newline : ℕ
newline = 10

abbrev pub carriage_return : ℕ
carriage_return = 13

abbrev pub ctrl_p : ℕ
ctrl_p = 16

abbrev pub ctrl_u : ℕ
ctrl_u = 21

abbrev pub delete : ℕ
delete = 0x7f

-- `cons`, less its lock
pub record Cons : Type 0 where
  pub buf : ℕ → ℕ
  pub r : ℕ
  pub w : ℕ
  pub e : ℕ

-- `consputc`
abbrev pub consputc : ℕ → List ℕ
consputc c = if c == backspace then 8 ∷ 32 ∷ 8 ∷ [] else c ∷ []

-- The loop of the kill-line key, with fuel for its rounds.
unfoldable pub kill_line : ℕ → Cons → Cons × List ℕ
kill_line zero c = (c, [])
kill_line (suc fuel) c =
    let before = sub32 c.e 1 in
    elim (not (c.e == c.w) && not (c.buf (before % input_buf_size) == newline)) [
      | true ↦
          let rest = kill_line fuel (record c { e = before }) in
          (rest.0, consputc backspace ++ rest.1)
      | false ↦ (c, [])
    ]

-- What an interrupt leaves: the buffer, the echo, whether it wakes the readers, whether it calls `procdump`.
pub record Handled : Type 0 where
  pub cons : Cons
  pub echo : List ℕ
  pub wakes : Bool
  pub dumps : Bool

-- The backspace keys.
unfoldable pub erase : Cons → Handled
erase c =
    if c.e == c.w then record { cons = c; echo = []; wakes = false; dumps = false } else record {
      cons = record c { e = sub32 c.e 1 };
      echo = consputc backspace;
      wakes = false;
      dumps = false;
    }

-- A character goes into the buffer, and a whole line to the readers.
unfoldable pub accept : ℕ → Cons → Handled
accept ch c =
    let c1 = record c { buf = update c.buf (c.e % input_buf_size) ch; e = u32 (c.e + 1) } in
    if ch == newline || ch == ctrl_d || sub32 c1.e c1.r == input_buf_size
    then record { cons = record c1 { w = c1.e }; echo = consputc ch; wakes = true; dumps = false }
    else record { cons = c1; echo = consputc ch; wakes = false; dumps = false }

-- The default case of `consoleintr`.
unfoldable pub typed : ℕ → Cons → Handled
unfolding accept
typed ch c =
    if not (ch == 0) && ltb (sub32 c.e c.r) input_buf_size
    then accept (if ch == carriage_return then newline else ch) c
    else record { cons = c; echo = []; wakes = false; dumps = false }

-- `consoleintr`
unfoldable pub consoleintr : ℕ → Cons → Handled
unfolding kill_line erase typed
consoleintr ch c =
    if ch == ctrl_p
    then record { cons = c; echo = []; wakes = false; dumps = true }
    else if ch == ctrl_u
    then (let killed = kill_line input_buf_size c in
        record { cons = killed.0; echo = killed.1; wakes = false; dumps = false })
    else if ch == ctrl_h || ch == delete
    then erase c
    else typed ch c

-- How a turn of `consoleread` ends: in `sleep` with `n` bytes to go, or with the value returned (`none`: -1).
pub data End : Type 0 where
  asleep : ℕ → End
  returned : Option ℕ → End

-- What a turn meets outside: whether the process is killed, and whether the copy of the byte with `n`
-- to go reaches the reader.
pub record Reader : Type 0 where
  pub killed : Bool
  pub copyout : ℕ → Bool

-- `taken` are the bytes that left the buffer, `copied` those among them that reached the reader.
pub record Taken : Type 0 where
  pub end : End
  pub taken : List ℕ
  pub copied : List ℕ
  pub cons : Cons

-- The loop of `consoleread` for `target` bytes with `n` to go, from its start (`n = target`) or a wakeup.
unfoldable pub read_from : Reader → ℕ → ℕ → Cons → Taken
read_from rd target zero c = record {
  end = returned (some target);
  taken = [];
  copied = [];
  cons = c;
}
read_from rd target (suc k) c =
    let ch = c.buf (c.r % input_buf_size) in
    let c1 = record c { r = u32 (c.r + 1) } in
    elim (c.r == c.w) [
      | true ↦ record {
        end = if rd.killed then returned none else asleep (suc k);
        taken = [];
        copied = [];
        cons = c;
      }
      | false ↦ elim (ch == ctrl_d) [
        | true ↦
            if ltb (suc k) target
            then record {
              end = returned (some (target - suc k));
              taken = [];
              copied = [];
              cons = record c1 { r = sub32 c1.r 1 };
            }
            else record {
              end = returned (some (target - suc k));
              taken = ch ∷ [];
              copied = [];
              cons = c1;
            }
        | false ↦ elim (rd.copyout (suc k)) [
          | false ↦ record {
            end = returned (some (target - suc k));
            taken = ch ∷ [];
            copied = [];
            cons = c1;
          }
          | true ↦ elim (ch == newline) [
            | true ↦ record {
              end = returned (some (target - k));
              taken = ch ∷ [];
              copied = ch ∷ [];
              cons = c1;
            }
            | false ↦
                let rest = read_from rd target k c1 in
                record rest { taken = ch ∷ rest.taken; copied = ch ∷ rest.copied }
          ]
        ]
      ]
    ]

-- `consoleread`
unfoldable pub consoleread : Reader → ℕ → Cons → Taken
unfolding read_from
consoleread rd n c = read_from rd n n c

-- The loop of `consolewrite` at byte `i` with `k` to go: the bytes sent to `uartputc`, up to the first
-- that `either_copyin` cannot fetch. Its length is the value returned.
unfoldable pub consolewrite_from : (ℕ → Option ℕ) → ℕ → ℕ → List ℕ
consolewrite_from copyin i zero = []
consolewrite_from copyin i (suc k) =
    let rest = consolewrite_from copyin (i + 1) k in
    elim (copyin i) [ none ↦ [] | some ch ↦ ch ∷ rest ]

unfoldable pub consolewrite : (ℕ → Option ℕ) → ℕ → List ℕ
consolewrite copyin n = consolewrite_from copyin 0 n
