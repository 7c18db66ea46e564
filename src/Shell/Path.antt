-- ===== src/Shell/Path.antt =====
-- What the path in front of a name becomes.
use acky.Base.{
  ℕ, zero, suc, ◌+◌, ◌-◌, ◌%◌, ◌<◌, ◌≤◌, ◌≡◌, ◌≢◌, refl, arith, ap, ◌∙◌, sym, ◌==◌, ltb, update,
  Bool-cases, inl, inr, leb, false, some, if◌then◌else◌, text, [], List, ◌∷◌, ◌++◌,
}
use acky.Fs.{text_at}
use acky.Fs.Text.{text_at-until}
use acky.Shell.{
  print, spawn_process, Answers, wait_for, run_typed, input_size, sret_error, input_buffer_size,
  move_up, put_path, append_path, progdat_path, typed,
}

-- The moved cells: the source is read behind its own copy, so it repeats with period 11.
move_up_cell :
    (u : ℕ → ℕ) (i left k : ℕ)
    → ((j : ℕ) → j < i + 11 → u j ≡ u (j % 11))
    → k < i + left + 11
    → move_up u i left k ≡ u (k % 11)
unfolding move_up
move_up_cell u i zero k repeats h = repeats k (omega (arith, h))
move_up_cell u i (suc left) k repeats h =
    let next = update u (i + 11) (u i) in
    let again : (j : ℕ) → j < i + 1 + 11 → next j ≡ next (j % 11) = λ j lt.
      elim (Bool-cases (j == (i + 11))) [
        | inl new ↦ let same : j % 11 ≡ i % 11 = ground arith in rw same (ground (arith, repeats i))
        | inr old ↦ ground (arith, repeats j)
      ] in
    let rest : move_up next (i + 1) left k ≡ next (k % 11) =
      move_up_cell next (i + 1) left k again (omega (arith, h)) in
    rest ∙ ground arith

-- A cell behind the path.
append_path_cell : (u : ℕ → ℕ) (size k : ℕ) → k ≤ size → append_path u size (k + 11) ≡ u (k % 11)
unfolding append_path put_path
append_path_cell u size k h =
    let moved : move_up u 0 (size + 1) (k + 11) ≡ u ((k + 11) % 11) =
      move_up_cell u 0 (size + 1) (k + 11) (λ j lt. ap u (omega (arith, lt))) (omega (arith, h)) in
    ground (arith, moved)

-- The path itself holds no NUL.
append_path_front : (u : ℕ → ℕ) (size j : ℕ) → j < 11 → append_path u size j ≢ 0
unfolding append_path put_path
append_path_front u size j h = ground arith

text_at-same :
    (v u : ℕ → ℕ) (size i n : ℕ)
    → ((k : ℕ) → i ≤ k → k ≤ size → v (k + 11) ≡ u k)
    → u size ≡ 0
    → i ≤ size
    → text_at v (i + 11) n ≡ text_at u i n
text_at-same v u size i zero same end within = refl
text_at-same v u size i (suc n) same end within =
    let here = same i (omega arith) within in
    elim (Bool-cases (u i == 0)) [
      | inl over ↦ rw (here, over) refl
      | inr more ↦
          let inside : i ≢ size = λ e. absurd (ground (arith, ap u e)) in
          let rest =
            text_at-same v u size (i + 1) n (λ k lo hi. same k (omega (arith, lo)) hi) end
              (omega (arith, within, inside)) in
          let index : i + 11 + 1 ≡ i + 1 + 11 = omega arith in
          rw (here, more, index) (ap (λ (cs : List ℕ). u i ∷ cs) rest)
    ]

-- A name of at most ten bytes is found behind the path.
pub append_path-typed :
    (fuel size : ℕ) (uinput : ℕ → ℕ)
    → size ≤ 10
    → uinput size ≡ 0
    → typed (11 + fuel) (append_path uinput size) ≡ progdat_path ++ typed fuel uinput
unfolding append_path put_path
append_path-typed fuel size uinput short end =
    let found = append_path uinput size in
    let eleven : 11 + fuel ≡ suc (suc (suc (suc (suc (suc (suc (suc (suc (suc (suc fuel)))))))))) =
      omega arith in
    let same : (k : ℕ) → 0 ≤ k → k ≤ size → found (k + 11) ≡ uinput k =
      λ k lo hi. append_path_cell uinput size k hi ∙ ap uinput (omega (arith, hi, short)) in
    rw eleven (
      ap (λ (cs : List ℕ). progdat_path ++ cs)
        (text_at-same found uinput size 0 fuel same end (omega arith)))

-- Of a name of eleven bytes or more the copy, which runs upwards over its own source, repeats the first eleven,
-- and its NUL is lost: no byte of the buffer up to the end of the copy is one.
pub append_path-garbled :
    (size : ℕ) (uinput : ℕ → ℕ)
    → 11 ≤ size
    → ((i : ℕ) → i < size → uinput i ≢ 0)
    → ((k : ℕ) → k ≤ size → append_path uinput size (k + 11) ≡ uinput (k % 11))
      × ((j : ℕ) → j ≤ size + 11 → append_path uinput size j ≢ 0)
append_path-garbled size uinput long name = (
  λ k h. append_path_cell uinput size k h,
  λ j h. elim (Bool-cases (ltb j 11)) [
    | inl front ↦ append_path_front uinput size j (ground arith)
    | inr behind ↦
        let cell : append_path uinput size j ≡ uinput ((j - 11) % 11) =
          ap (append_path uinput size) (ground arith)
          ∙ append_path_cell uinput size (j - 11) (ground arith) in
        λ e. name ((j - 11) % 11) (omega (arith, long)) (sym cell ∙ e)
  ],
)

input_size-found :
    (fuel : ℕ) (u : ℕ → ℕ) (i size : ℕ)
    → i ≤ size
    → size < i + fuel
    → u size ≡ 0
    → ((k : ℕ) → i ≤ k → k < size → u k ≢ 0)
    → input_size fuel u i ≡ some size
unfolding input_size
input_size-found zero u i size from to end name = absurd (omega arith)
input_size-found (suc fuel) u i size from to end name = elim (Bool-cases (u i == 0)) [
  | inl over ↦
      let last : i ≡ size = elim (Bool-cases (i == size)) [
        | inl same ↦ ground (arith, same)
        | inr before ↦ absurd (name i (omega arith) (ground arith) (ground arith))
      ] in
      rw (input_size, over) (ap some last)
  | inr more ↦
      let inside : i ≢ size = λ e. absurd (ground (arith, ap u e)) in
      rw (input_size, more)
        (input_size-found fuel u (i + 1) size (omega (arith, from, inside)) (omega (arith, to)) end
          (λ k lo hi. name k (omega (arith, lo)) hi))
]

-- When the kernel does not find what was typed, a name of at most ten bytes in front of its NUL, and the fuel
-- goes 12 bytes beyond it, the shell tries to start the program of
-- that name in `A:/PROGDAT/`: its calls are the two attempts, and then a text if the second one fails
-- too, or else the wait for the child; the buffer is empty at the next input.
pub run_typed-second :
    (fuel size : ℕ) (a : Answers) (uinput : ℕ → ℕ)
    → size ≤ 10
    → size < fuel
    → uinput size ≡ 0
    → ((k : ℕ) → k < size → uinput k ≢ 0)
    → a.first ≡ sret_error
    → (b : ℕ → ℕ) × (run_typed (11 + fuel) a uinput
        ≡ some (
          spawn_process (typed fuel uinput)
              ∷ spawn_process (text "A:/PROGDAT/" ++ typed fuel uinput)
              ∷ (if a.second == 1
                  then print (text "[!!]: Not found/Invalid executable\n") ∷ []
                  else wait_for a.second a.runs),
          b,
        ))
      × (b 0 ≡ 0)
unfolding run_typed
run_typed-second fuel size a uinput short enough end name failed =
    let found = append_path uinput size in
    let sized : input_size (11 + fuel) uinput 0 ≡ some size =
      input_size-found (11 + fuel) uinput 0 size (omega arith) (omega (arith, enough)) end
        (λ k lo hi. name k hi) in
    let fits : leb input_buffer_size (size + 11) ≡ false = ground (arith, short) in
    let once : typed (11 + fuel) uinput ≡ typed fuel uinput =
      text_at-until uinput uinput 0 0 size (11 + fuel) fuel (omega (arith, enough)) enough
        (λ k h. refl) (ap uinput (omega arith) ∙ end) in
    let second : typed (11 + fuel) found ≡ progdat_path ++ typed fuel uinput =
      append_path-typed fuel size uinput short end in
    (update found 0 0, rw (run_typed, failed, sized, fits, once, second) refl, refl)
