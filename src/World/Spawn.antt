-- ===== src/World/Spawn.antt =====
-- The start of a process, the files and the graphics calls leave the kernel healthy.
use acky.Base.{
  ℕ, ◌+◌, ◌<◌, ◌≡◌, refl, sym, ◌∙◌, ap, inl, inr, arith, u32, Option, none, some, Bool, ◌==◌, ◌||◌,
  add32, update, Bool-cases, Option-cases, List, Outcome, done, halted, Panic, ◌⊎◌, leb, not,
}
use acky.Base.Int.{pos}
use acky.Ram.{Ram}
use acky.Alloc.Inv.{top}
use acky.Process.{
  max_processes, Process, ProcMsg, Kernel, stack_size, send_message_to_process,
  create_process_entry,
}
use acky.Process.Entries.{Created, create_process_entry-Created}
use acky.Fs.{le32, text_at, fs_get_file_info, fs_read_file}
use acky.Graphics.{draw_line}
use acky.Loader.{copy_in, is_refused, start_process, spawn_process}
use acky.Syscall.{
  System, Environment, Reply, sret_success, ram_of, with_ram, caller, is_invalid, user_address,
}
use acky.Syscall.Tasks.{sc_spawn_proc}
use acky.Syscall.Screen.{
  enable_graphics, enable_text, own_segments, owner_draw, owner_graphics, other_graphics, request,
  sc_graphics, is_drawing,
}
use acky.Syscall.Files.{sc_load_file, sc_get_file_info}
use acky.Syscall.Bytes.{text_in, over, pixel_info_at, word_at}
use acky.World.{HasRoom}
use acky.World.Places.{
  IsHealthy, SamePlace-update, SamePlaces-refl, IsHealthy-same, send_message_to_process-SamePlaces,
}
use acky.World.Keyboard.{Every, Every-if, Every-some}
use acky.World.Calls.{Sound, with_ram-IsHealthy}

pub Outcome-cases {ℓ} :
    {A : Type ℓ} (o : Outcome A) → ((a : A) × (o ≡ done a)) ⊎ ((p : Panic) × (o ≡ halted p))
Outcome-cases (done a) = inl (a, refl)
Outcome-cases (halted p) = inr (p, refl)

-- The kernel that is left, if the machine does not halt, is healthy.
abbrev pub Survived : Outcome (ℕ × Kernel) → Type 0
Survived (done (pid, k)) = IsHealthy k
Survived (halted p) = Unit

pub Survived-done :
    (o : Outcome (ℕ × Kernel)) (pid : ℕ) (k : Kernel) → Survived o → o ≡ done (pid, k) → IsHealthy k
Survived-done (done (pid', k')) pid k h e = let same : k' ≡ k = ground arith in rw (sym same) h
Survived-done (halted p) pid k h e = absurd (ground arith)

Created-IsHealthy :
    (k : Kernel) (name : List ℕ) (size idx : ℕ) (k' : Kernel)
    → IsHealthy k
    → Created k name size idx k'
    → IsHealthy k'
Created-IsHealthy k name size idx k' h n = record {
  coherent = n.coherent;
  in_table = n.in_table;
  queues = λ j listed. elim (Bool-cases (j == idx)) [
    | inl new ↦
        let same : j ≡ idx = ground arith in
        let fresh : (k'.processes idx).ipc_queue_size ≡ 0 =
          ap (λ (p : Process). p.ipc_queue_size) n.entry in
        rw same (omega (arith, fresh))
    | inr old ↦
        let same : k'.processes j ≡ k.processes j = n.others j (ground arith) in
        rw same (h.queues j (ground (arith, n.grown, n.at_end)))
  ];
}

pub start_process-Survived :
    (k : Kernel) (b : ℕ → ℕ) (size : ℕ)
    → IsHealthy k
    → k.process_count < max_processes
    → top k.memory + size + stack_size < u32
    → Survived (start_process k b size)
unfolding start_process
start_process-Survived k b size h left fits =
    elim (Outcome-cases (create_process_entry k (text_at b 0 size) size)) [
      | inr (p, full) ↦ rw (start_process, full) tt
      | inl ((idx, k₁), made) ↦
          let n =
            create_process_entry-Created k (text_at b 0 size) size idx k₁ h.coherent left fits
              made in
          let h₁ = Created-IsHealthy k (text_at b 0 size) size idx k₁ h n in
          let p = record (k₁.processes idx) { pc_loc = le32 b 32 } in
          let ram = copy_in k₁.memory.ram p.mem_start b size in
          let k' : Kernel = record k₁ {
            processes = update k₁.processes idx p;
            memory = record k₁.memory { ram = ram };
          } in
          rw (start_process, made)
            (IsHealthy-same k₁ k'
              (record {
                list = refl;
                index = refl;
                count = refl;
                places = λ j.
                    SamePlace-update k₁.processes idx j p
                      (record { start = refl; size = refl; queue = λ q. q });
              })
              h₁)
    ]

pub spawn_process-Survived :
    (fuel : ℕ) (env : Environment) (s : System) (path : List ℕ)
    → IsHealthy s.kernel
    → HasRoom fuel env s
    → Every Survived
        (spawn_process fuel env.storage env.stale s.drives path env.stale_info s.kernel)
unfolding spawn_process
spawn_process-Survived fuel env s path h room =
    elim (Option-cases (fs_get_file_info fuel env.storage env.stale s.drives path env.stale_info)) [
      | inl runs ↦ rw (spawn_process, runs) tt
      | inr ((ok, info), found) ↦ elim (Bool-cases ok) [
        | inr missing ↦ rw (spawn_process, found, missing) h
        | inl there ↦
            let got = found ∙ ap (λ (b : Bool). some (b, info)) there in
            elim (Option-cases
              (fs_read_file fuel env.storage env.stale s.drives path env.stale.buffer info)) [
                | inl runs ↦ rw (spawn_process, got, runs) tt
                | inr ((ok', b, info'), read) ↦
                    rw (spawn_process, got, read)
                      (Every-if Survived (is_refused b) _ _ h (
                        start_process-Survived s.kernel b info'.size h room.0
                          (room.1 path ok' b info info' got read)))
              ]
      ]
    ]

module _ (fuel : ℕ) (env : Environment) (s : System) (h : IsHealthy s.kernel) where
  pub spawn_proc-Sound : (ebx : ℕ) → HasRoom fuel env s → Every Sound (sc_spawn_proc fuel env ebx s)
  unfolding sc_spawn_proc
  spawn_proc-Sound ebx room = elim (Bool-cases (is_invalid s ebx)) [
    | inl wild ↦ rw (sc_spawn_proc, wild) h
    | inr valid ↦ elim (Option-cases (text_in fuel (ram_of s) (user_address s ebx))) [
      | inl endless ↦ rw (sc_spawn_proc, valid, endless) tt
      | inr (path, text) ↦
          let spawn =
            spawn_process fuel env.storage env.stale s.drives path env.stale_info s.kernel in
          let ok = spawn_process-Survived fuel env s path h room in
          elim (Option-cases spawn) [
            | inl runs ↦ rw (sc_spawn_proc, valid, text, runs) tt
            | inr (result, ran) ↦
                let survived : Survived result = Every-some Survived spawn result ok ran in
                elim (Outcome-cases result) [
                  | inr (p, stops) ↦ rw (sc_spawn_proc, valid, text, ran, stops) tt
                  | inl ((pid, k), starts) ↦
                      rw (sc_spawn_proc, valid, text, ran, starts)
                        (Survived-done result pid k survived starts)
                ]
          ]
    ]
  ]

  pub load_file-Sound : (ebx ecx : ℕ) → Every Sound (sc_load_file fuel env ebx ecx s)
  unfolding sc_load_file
  load_file-Sound ebx ecx = elim (Bool-cases (is_invalid s ebx || is_invalid s ecx)) [
    | inl wild ↦ rw (sc_load_file, wild) h
    | inr valid ↦ elim (Option-cases (text_in fuel (ram_of s) (user_address s ebx))) [
      | inl endless ↦ rw (sc_load_file, valid, endless) tt
      | inr (path, text) ↦
          elim (Option-cases (
            fs_read_file fuel env.storage env.stale s.drives path
              (λ k. ram_of s (user_address s ecx + k)) env.stale_info)) [
                | inl runs ↦ rw (sc_load_file, valid, text, runs) tt
                | inr ((ok, out, info), read) ↦
                    rw (sc_load_file, valid, text, read) (with_ram-IsHealthy s.kernel _ h)
              ]
    ]
  ]

  pub get_file_info-Sound : (ebx ecx : ℕ) → Every Sound (sc_get_file_info fuel env ebx ecx s)
  unfolding sc_get_file_info
  get_file_info-Sound ebx ecx = elim (Bool-cases (is_invalid s ebx || is_invalid s ecx)) [
    | inl wild ↦ rw (sc_get_file_info, wild) h
    | inr valid ↦ elim (Option-cases (text_in fuel (ram_of s) (user_address s ebx))) [
      | inl endless ↦ rw (sc_get_file_info, valid, endless) tt
      | inr (path, text) ↦
          elim (Option-cases
            (fs_get_file_info fuel env.storage env.stale s.drives path env.stale_info)) [
              | inl runs ↦ rw (sc_get_file_info, valid, text, runs) tt
              | inr ((ok, info), found) ↦
                  rw (sc_get_file_info, valid, text, found)
                    (Every-if Sound ok _ _ (with_ram-IsHealthy s.kernel _ h) h)
            ]
    ]
  ]

  enable_graphics-IsHealthy : IsHealthy (own_segments (enable_graphics env s)).kernel
  unfolding enable_graphics
  enable_graphics-IsHealthy = with_ram-IsHealthy s.kernel _ h

  enable_text-IsHealthy : IsHealthy (own_segments (enable_text env s)).kernel
  unfolding enable_text
  enable_text-IsHealthy = with_ram-IsHealthy s.kernel _ h

  drawn-Sound :
      (o : Option Ram)
      → Every Sound
          (elim o [ none ↦ none | some m' ↦ some (Reply.returned sret_success (with_ram s m')) ])
  drawn-Sound none = tt
  drawn-Sound (some m') = with_ram-IsHealthy s.kernel m' h

  owner_draw-Sound : (ebx info : ℕ) → Every Sound (owner_draw fuel ebx info s)
  unfolding owner_draw
  owner_draw-Sound ebx info =
      let m = ram_of s in
      let p = pixel_info_at m info in
      let x = word_at m (add32 info 7) in
      let y = word_at m (add32 info 9) in
      let line = draw_line fuel s.vbe m (pos p.x) (pos p.y) (pos x) (pos y) p.r p.g p.b in
      let ok = λ (m' : Ram). with_ram-IsHealthy s.kernel m' h in
      Every-if (Every Sound) (ebx == 1) _ _ (ok _) (
        Every-if (Every Sound) (ebx == 2) _ _ (drawn-Sound line)
          (Every-if (Every Sound) (ebx == 4) _ _ (ok _) (ok _)))

  owner_graphics-Sound : (ebx ecx : ℕ) → Every Sound (owner_graphics fuel env ebx ecx s)
  unfolding owner_graphics
  owner_graphics-Sound ebx ecx =
      let P = Every Sound in
      Every-if P (ebx == 0) _ _ enable_graphics-IsHealthy (
        Every-if P (ebx == 3) _ _ (IsHealthy-same s.kernel s.kernel (SamePlaces-refl s.kernel) h) (
          Every-if P (ebx == 6) _ _ enable_text-IsHealthy (
            Every-if P (is_drawing ebx) _ _
              (Every-if P (leb (caller s).mem_size ecx) _ _ h
                (owner_draw-Sound ebx (user_address s ecx)))
              h)))

  other_graphics-Sound : (ebx ecx : ℕ) → Sound (other_graphics env ebx ecx s)
  unfolding other_graphics
  other_graphics-Sound ebx ecx = elim (Bool-cases (leb (caller s).mem_size ecx)) [
    | inl wild ↦ rw (other_graphics, wild) h
    | inr valid ↦ elim (Option-cases (request (ram_of s) ebx (user_address s ecx))) [
      | inl unknown ↦ rw (other_graphics, valid, unknown) h
      | inr (bytes, asked) ↦
          let message : ProcMsg = record {
            from_pid = (caller s).pid;
            msg = over bytes env.stale_msg;
          } in
          rw (other_graphics, valid, asked)
            (IsHealthy-same s.kernel (send_message_to_process s.kernel s.owner_pid message).2
              (send_message_to_process-SamePlaces s.kernel s.owner_pid message) h)
    ]
  ]

  pub graphics-Sound : (ebx ecx : ℕ) → Every Sound (sc_graphics fuel env ebx ecx s)
  unfolding sc_graphics
  graphics-Sound ebx ecx =
      Every-if (Every Sound) ((caller s).pid == s.owner_pid || not s.owner_set) _ _
        (owner_graphics-Sound ebx ecx) (other_graphics-Sound ebx ecx)
