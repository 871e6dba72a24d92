-- ===== src/System/Main/Outcomes.antt =====
-- simctty/main.cc from its start to its end, or as far as the iterations go.
use simctty.Prelude.{
  ℕ, ◌%◌, ◌≤◌, ◌≡◌, refl, arith, Bool, true, false, Option, none, some, List, [], length,
  if◌then◌else◌, Result, ok, exited, fault, ◌>>=◌, Returns, Returns-ok, Returns-at, get_or, ◌∷◌,
}
use simctty.Ram.{Ram, size}
use simctty.Ram.Bytes.{HasBytes}
use simctty.Ram.Guest.{guest}
use simctty.Ram.Image.{overlay}
use simctty.Uart.{new_uart}
use simctty.Uart.Valid.{AllBytes}
use simctty.Bus.{new_bus}
use simctty.Cpu.State.{Cpu, Machine}
use simctty.Cpu.Safety.Dispatch.{IsSound}
use simctty.System.{Session, new_system, load_image_file, main_loop}
use simctty.System.Start.{IsReset, new_system-IsReset, start-IsReset}
use simctty.System.Image.{load_image_file-overlay}
use simctty.System.Sound.{HasTypes, new_system-IsSound, load_image_file-IsSound}
use simctty.System.MainLoop.{AllKeys, is_tame_session, IsServed, main_loop-IsServed}
use simctty.System.Main.{Program, filename, finish, run_loaded, main_program}

-- The iterations after the image was loaded are tame. Where it was not, there are none.
unfoldable pub tame_loaded : List (List ℕ) → Result (Bool × Machine) → Bool
tame_loaded inputs (ok (true, m)) = is_tame_session inputs m
tame_loaded inputs (ok (false, m)) = true
tame_loaded inputs exited = false
tame_loaded inputs fault = false

-- The file that main has to load, at place 1 of the arguments or else the default.
abbrev pub chosen : {Name : Type 0} → Name → List Name → Name
chosen default_filename argv = get_or argv 1 default_filename

filename-chosen :
    {Name : Type 0} (default_filename : Name) (argv : List Name)
    → filename default_filename argv ≡ chosen default_filename argv
unfolding filename
filename-chosen default_filename [] = refl
filename-chosen default_filename (program ∷ []) = refl
filename-chosen default_filename (program ∷ name ∷ more) = refl

-- A file of bytes and whole words that fits in the memory.
abbrev pub IsImage : Option (List ℕ) → Type 0
IsImage none = Unit {0}
IsImage (some file) = AllBytes file × (length file % 4 ≡ 0) × (length file ≤ size)

-- A program that ran on an image: what the loop of main gives on the machine that the image was
-- loaded into.
pub record HasRun {T : Type 0} (raw : T → T) (terminal : T) (ram : Ram) (unset : Cpu)
    (buffer : List ℕ) (file : List ℕ) (inputs : List (List ℕ)) (p : Program T) : Type 0 where
  pub machine : Machine
  pub loads :
      (new_system ram unset >>= λ system. load_image_file system (some file) buffer 0x100)
      ≡ ok (true, machine)
  pub reset : IsReset machine.cpu 0x100
  pub memory : (x : ℕ) → guest machine.bus.ram x ≡ overlay (guest ram) file 0 (length file) x
  pub port : machine.bus.uart ≡ new_uart
  pub session : Session
  pub loops : main_loop inputs machine ≡ ok session
  pub served : IsServed inputs machine session
  pub printed : p.printed ≡ session.printed
  pub status : p.status ≡ (if session.running then none else some 0)
  pub attributes : p.terminal ≡ (if session.running then raw terminal else terminal)

-- How main ends, for the chosen file. Without one it fails and leaves the terminal.
abbrev pub Ends :
    {T : Type 0}
    → (T → T)
    → T
    → Ram
    → Cpu
    → List ℕ
    → List (List ℕ)
    → Option (List ℕ)
    → Program T
    → Type 0
Ends raw terminal ram unset buffer inputs none p =
    p ≡ record { status = some 1; printed = []; terminal = terminal }
Ends raw terminal ram unset buffer inputs (some file) p =
    HasRun raw terminal ram unset buffer file inputs p

module _ {T Name : Type 0} (raw : T → T) (files : Name → Option (List ℕ)) (default_filename : Name)
    (argv : List Name) (ram : Ram) (unset : Cpu) (buffer : List ℕ) (terminal : T)
    (inputs : List (List ℕ)) where
  -- main on a file that was chosen.
  abbrev opened : Option (List ℕ) → Result (Program T)
  opened file = new_system ram unset >>= λ system.
      (load_image_file system file buffer 0x100 >>= run_loaded raw terminal inputs)

  opened-none : Returns (Ends raw terminal ram unset buffer inputs none) (opened none)
  unfolding load_image_file run_loaded
  opened-none =
      let (c, made, _) = new_system-IsReset ram unset in
      let (c', starts, _) = start-IsReset (record { cpu = c; bus = new_bus ram }) 0x100 in
      rw (made, starts) (Returns-ok (Ends raw terminal ram unset buffer inputs none) _ refl)

  opened-some :
      (file : List ℕ)
      → HasBytes ram
      → HasTypes unset
      → IsImage (some file)
      → AllKeys inputs
      → tame_loaded inputs
          (new_system ram unset >>= λ system. load_image_file system (some file) buffer 0x100)
        ≡ true
      → Returns (HasRun raw terminal ram unset buffer file inputs) (opened (some file))
  unfolding tame_loaded run_loaded finish
  opened-some file bytes types (h, words, room) keys tame =
      let (c, made, _) = new_system-IsReset ram unset in
      let m : Machine = record { cpu = c; bus = new_bus ram } in
      let sound = Returns-at IsSound _ (new_system-IsSound ram unset bytes types) made in
      let (c', r, loads, reset, memory) = load_image_file-overlay m file buffer 0x100 words room in
      let l =
        Returns-at (λ (l : Bool × Machine). (l.0 ≡ true) × IsSound l.1) _
          (load_image_file-IsSound m file buffer 0x100 sound (omega arith) h words room) loads in
      let loaded : Machine = record { cpu = c'; bus = record (new_bus ram) { ram = r } } in
      let run = main_loop-IsServed loaded inputs l.1 keys (rw (made, loads) at tame) in
      record {
        value = finish raw terminal run.value;
        returns = rw (made, loads, run.returns) refl;
        holds = record {
          machine = loaded;
          loads = rw (made, loads) refl;
          reset = reset;
          memory = memory;
          port = refl;
          session = run.value;
          loops = run.returns;
          served = run.holds;
          printed = refl;
          status = refl;
          attributes = refl;
        };
      }

  opened-Ends :
      (file : Option (List ℕ))
      → HasBytes ram
      → HasTypes unset
      → IsImage file
      → AllKeys inputs
      → tame_loaded inputs
          (new_system ram unset >>= λ system. load_image_file system file buffer 0x100)
        ≡ true
      → Returns (Ends raw terminal ram unset buffer inputs file) (opened file)
  opened-Ends none bytes types image keys tame = opened-none
  opened-Ends (some file) bytes types image keys tame = opened-some file bytes types image keys tame

  -- Let the chosen file be the one named by the second argument or else by the default. It may be
  -- missing or consist of bytes and whole words that fit in the memory; new memory holds values of
  -- the types of the members, the keys are bytes, and the rounds of the processor that follow are
  -- tame. Where the file is missing, main ends with status 1, prints nothing of the guest, and
  -- leaves the terminal alone. Otherwise it loads the file over the memory of a new system, whose
  -- processor is reset at 0x100 and whose serial port is empty, and prints what the loop of main
  -- prints from that machine on, as it was described for that loop. If the processor stopped, the
  -- exit status is 0 and the terminal is as it was; otherwise there is none yet and the terminal
  -- is raw.
  pub main_program-Ends :
      let file = files (chosen default_filename argv) in
      HasBytes ram
      → HasTypes unset
      → IsImage file
      → AllKeys inputs
      → tame_loaded inputs
          (new_system ram unset >>= λ system. load_image_file system file buffer 0x100)
        ≡ true
      → Returns
          (Ends raw terminal ram unset buffer inputs file)
          (main_program raw files default_filename argv ram unset buffer terminal inputs)
  unfolding main_program
  main_program-Ends bytes types image keys tame =
      rw (filename-chosen default_filename argv)
        (opened-Ends (files (chosen default_filename argv)) bytes types image keys tame)
