-- ===== src/Syscall/Screen.antt =====
-- The graphics calls: the process that owns the screen draws on it, and the requests of any other
-- become messages to the owner. The frame buffer lies outside the memory of the processes.
use acky.Base.{
  ℕ, zero, suc, ◌+◌, if◌then◌else◌, ◌==◌, leb, not, ◌||◌, add32, Option, none, some, Bool, true,
  List, ◌∷◌,
}
use acky.Base.Int.{pos}
use acky.Ram.{Ram}
use acky.Process.{ProcMsg, send_message_to_process}
use acky.Console.{clear_scr, enable_cursor}
use acky.Gdt.{init_gdt}
use acky.Idt.{init_idt}
use acky.Pit.{set_process_ldt}
use acky.Graphics.{VbeReturn, PixelInfo, put_pixel, get_pixel, draw_line}
use acky.Syscall.{
  System, Environment, Reply, sret_success, sret_error, ram_of, with_ram, console_of, with_console,
  caller, user_address,
}
use acky.Syscall.Bytes.{
  word_at, bytes_at, store_bytes, over, pixel_info_at, pixel_info_bytes, vbe_return_at,
}

-- `initGDT(); initIDT();`
abbrev pub reset_tables : Environment → System → System
reset_tables env s = record s {
  segments = init_gdt s.segments env.ldt_addr env.tss_addr env.gdt_addr env.ebp;
  idt = init_idt env.address s.idt;
}

unfoldable pub enable_graphics : Environment → System → System
enable_graphics env s =
    let (return_val, m) = env.call_kfe_function 0 (ram_of s) in
    reset_tables env (record (with_ram s m) { vbe = vbe_return_at m return_val })

unfoldable pub enable_text : Environment → System → System
enable_text env s =
    let (return_val, m) = env.call_kfe_function 1 (ram_of s) in
    let s' = reset_tables env (with_ram s m) in
    with_console s'
      (enable_cursor (clear_scr (console_of s')) 9 11 env.cursor_start_in env.cursor_end_in)

-- The two `setLDTEntry` for the process that makes the call.
abbrev pub own_segments : System → System
own_segments s = record s {
  segments = record s.segments { current_ldt = set_process_ldt s.segments.current_ldt (caller s) };
}

-- The inner loop of a square, from column `j` on, and the outer one, from row `i` on.
unfoldable pub square_row : VbeReturn → PixelInfo → (y j left : ℕ) → Ram → Ram
square_row vbe p y j zero m = m
square_row vbe p y j (suc left) m =
    square_row vbe p y (j + 1) left (put_pixel vbe m (p.x + j) y p.r p.g p.b)

unfoldable pub square_rows : VbeReturn → PixelInfo → (width i left : ℕ) → Ram → Ram
square_rows vbe p width i zero m = m
square_rows vbe p width i (suc left) m =
    square_rows vbe p width (i + 1) left (square_row vbe p (p.y + i) 0 width m)

-- The calls that draw, at the address of their structure.
unfoldable pub owner_draw : ℕ → (ebx info : ℕ) → System → Option Reply
owner_draw fuel ebx info s =
    let m = ram_of s in
    let p = pixel_info_at m info in
    let x = word_at m (add32 info 7) in
    let y = word_at m (add32 info 9) in
    if ebx == 1
    then some (Reply.returned sret_success (with_ram s (put_pixel s.vbe m p.x p.y p.r p.g p.b)))
    else if ebx == 2
    then elim (draw_line fuel s.vbe m (pos p.x) (pos p.y) (pos x) (pos y) p.r p.g p.b) [
      | none ↦ none
      | some m' ↦ some (Reply.returned sret_success (with_ram s m'))
    ]
    else if ebx == 4
    then some (
        Reply.returned sret_success
          (with_ram s (store_bytes m info (pixel_info_bytes (get_pixel s.vbe m p.x p.y)))))
    else some (Reply.returned sret_success (with_ram s (square_rows s.vbe p x 0 y m)))

abbrev pub is_drawing : ℕ → Bool
is_drawing ebx = ebx == 1 || ebx == 2 || ebx == 4 || ebx == 5

unfoldable pub owner_graphics : ℕ → Environment → (ebx ecx : ℕ) → System → Option Reply
owner_graphics fuel env ebx ecx s =
    if ebx == 0
    then some (Reply.returned sret_success (own_segments (enable_graphics env s)))
    else if ebx == 3
    then some
        (Reply.returned sret_success (record s { owner_pid = (caller s).pid; owner_set = true }))
    else if ebx == 6
    then some (Reply.returned sret_success (own_segments (enable_text env s)))
    else if is_drawing ebx
    then (if leb (caller s).mem_size ecx
        then some (Reply.returned sret_error s)
        else owner_draw fuel ebx (user_address s ecx) s)
    else some (Reply.returned sret_success s)

-- The message that a request becomes: of a window, a pixel or a line.
unfoldable pub request : Ram → (ebx info : ℕ) → Option (List ℕ)
request m ebx info =
    if ebx == 0
    then some (b'C' ∷ b'W' ∷ b'I' ∷ b'N' ∷ bytes_at m (add32 info 4) 28)
    else if ebx == 1
    then some (b'D' ∷ b'R' ∷ b'E' ∷ b'Q' ∷ 0 ∷ bytes_at m info 7)
    else if ebx == 2
    then some (b'D' ∷ b'R' ∷ b'E' ∷ b'Q' ∷ 1 ∷ bytes_at m info 11)
    else none

unfoldable pub other_graphics : Environment → (ebx ecx : ℕ) → System → Reply
other_graphics env ebx ecx s =
    if leb (caller s).mem_size ecx
    then Reply.returned sret_error s
    else elim (request (ram_of s) ebx (user_address s ecx)) [
      | none ↦ Reply.returned sret_error s
      | some bytes ↦
          let message : ProcMsg = record {
            from_pid = (caller s).pid;
            msg = over bytes env.stale_msg;
          } in
          Reply.returned sret_success
            (record s { kernel = (send_message_to_process s.kernel s.owner_pid message).2 })
    ]

unfoldable pub sc_graphics : ℕ → Environment → (ebx ecx : ℕ) → System → Option Reply
sc_graphics fuel env ebx ecx s =
    if (caller s).pid == s.owner_pid || not s.owner_set
    then owner_graphics fuel env ebx ecx s
    else some (other_graphics env ebx ecx s)
