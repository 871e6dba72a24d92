-- ===== src/System/Main.antt =====
-- simctty/main.cc and simctty/main_web.cc as programs: the file that is loaded, the loop, the exit
-- status, and what is left of the terminal.
pub mod Outcomes
mod Tests
use simctty.Prelude.{
  ℕ, suc, zero, Bool, true, false, Option, none, some, List, [], ◌∷◌, if◌then◌else◌, Result, ok,
  ◌>>=◌,
}
use simctty.Ram.{Ram}
use simctty.Cpu.State.{Cpu, Machine}
use simctty.System.{Session, new_system, load_image_file, main_loop}

abbrev pub exit_success : ℕ
exit_success = 0

abbrev pub exit_failure : ℕ
exit_failure = 1

-- How a program stands: its exit status, or none while it runs, what it printed, and the
-- attributes of the terminal.
pub record Program (T : Type 0) : Type 0 where
  pub status : Option ℕ
  pub printed : List ℕ
  pub terminal : T

-- `argv[1]` if there is one.
unfoldable pub filename : {Name : Type 0} → Name → List Name → Name
filename default_filename (program ∷ name ∷ more) = name
filename default_filename _ = default_filename

-- `raw` stands for the changes of the attributes, which are saved before and set again at the end.
pub finish : {T : Type 0} → (T → T) → T → Session → Program T
finish raw saved s = record {
  status = if s.running then none else some exit_success;
  printed = s.printed;
  terminal = if s.running then raw saved else saved;
}

-- What follows the loading of the image.
pub run_loaded : {T : Type 0} → (T → T) → T → List (List ℕ) → Bool × Machine → Result (Program T)
unfolding finish
run_loaded raw terminal inputs (true, m) = do s ← main_loop inputs m; ok (finish raw terminal s)
run_loaded raw terminal inputs (false, m) =
    ok (record { status = some exit_failure; printed = []; terminal = terminal })

-- `main`: `files` are the files that can be opened, `ram`, `unset` and `buffer` what new memory
-- holds, and `inputs` the keys that `keychar` gives in each iteration.
module _ {T Name : Type 0} (raw : T → T) (files : Name → Option (List ℕ)) where
  pub main_program : Name → List Name → Ram → Cpu → List ℕ → T → List (List ℕ) → Result (Program T)
  unfolding run_loaded filename
  main_program default_filename argv ram unset buffer terminal inputs = do
    system ← new_system ram unset
    loaded ← load_image_file system (files (filename default_filename argv)) buffer 0x100
    run_loaded raw terminal inputs loaded

-- The web program takes no keys, and returns 1 in both cases.
abbrev pub no_keys : ℕ → List (List ℕ)
no_keys zero = []
no_keys (suc iterations) = [] ∷ no_keys iterations

web_finish : Session → Option ℕ × List ℕ
web_finish s = (if s.running then none else some 1, s.printed)

web_loaded : ℕ → Bool × Machine → Result (Option ℕ × List ℕ)
unfolding web_finish
web_loaded iterations (true, m) = do s ← main_loop (no_keys iterations) m; ok (web_finish s)
web_loaded iterations (false, m) = ok (some exit_failure, [])

-- `file` is vmlinux.bin, if it can be opened.
pub web_program : Option (List ℕ) → Ram → Cpu → List ℕ → ℕ → Result (Option ℕ × List ℕ)
unfolding web_loaded
web_program file ram unset buffer iterations = do
  system ← new_system ram unset
  loaded ← load_image_file system file buffer 0x100
  web_loaded iterations loaded
