-- ===== src/Wm/Request.antt =====
-- The reaction to the other messages: the requests of the programs to open a window and to draw in it.
use acky.Base.{
  ℕ, zero, suc, ◌+◌, ◌%◌, ◌^◌, ◌≤◌, ◌<◌, ◌≡◌, ◌≢◌, ◌⊎◌, refl, if◌then◌else◌, ◌==◌, ltb, none, some,
  Bool, true, false, ◌||◌, List, [], ◌∷◌, arith, Bool-cases, inl, inr, Option-cases,
}
use acky.Wm.{
  Call, Window, Wm, wm_create_window, get_index_from_pid, index_from, draw_any, draw_window,
}
use acky.Wm.Image.{All}

-- `drawReq` behind its signature: the type, the first point, and the end of a line.
pub record DrawReq : Type 0 where
  pub type : ℕ
  pub x : ℕ
  pub y : ℕ
  pub r : ℕ
  pub g : ℕ
  pub b : ℕ
  pub end_x : ℕ
  pub end_y : ℕ

unfoldable pub draw_in : Window → DrawReq → List Call
draw_in w req =
    if req.type == 0
    then (if ltb w.width req.x || ltb w.height req.y
        then []
        else Call.pixel ((w.x + req.x) % 2 ^ 16) ((w.y + req.y) % 2 ^ 16) req.r req.g req.b ∷ [])
    else if req.type == 1
    then (if ltb w.width req.end_x
          || ltb w.height req.end_y
          || ltb w.width req.x
          || ltb w.height req.y
        then []
        else Call.line ((req.x + w.x) % 2 ^ 16) ((req.end_y + w.y) % 2 ^ 16)
            ((req.end_x + w.x) % 2 ^ 16) ((req.end_y + w.y) % 2 ^ 16) req.r req.g req.b
          ∷ [])
    else []

-- The message with the signature DREQ.
unfoldable pub draw_requested : (from_pid : ℕ) → DrawReq → Wm → List Call
draw_requested from_pid req s = elim (get_index_from_pid s from_pid) [
  | none ↦ []
  | some idx ↦ draw_in (s.windows idx) req
]

-- `windowDesc` behind its signature.
pub record WindowDesc : Type 0 where
  pub x : ℕ
  pub y : ℕ
  pub width : ℕ
  pub height : ℕ
  pub name : List ℕ

-- The message with the signature CWIN; the width and the height are passed in the other order. With a full
-- table `drawWindow` gets the index -1, which passes its test, and draws what lies in front of the array as a
-- window: `before`.
unfoldable pub window_requested :
    (font : ℕ → ℕ) → (before : Window) → (from_pid : ℕ) → WindowDesc → Wm → Wm × List Call
window_requested font before from_pid win s =
    let (created, s') =
      wm_create_window win.name win.x win.y win.height win.width true from_pid s in
    (s', elim created [ none ↦ draw_any font before | some idx ↦ draw_window font s' idx ])

abbrev pub InRange : ℕ → ℕ → ℕ → Type 0
InRange start size x = (start ≤ x) × (x ≤ start + size)

-- The call stays on the window: its points lie in it, its last column and row being one too many.
pub Within : Window → Call → Type 0
Within w (Call.pixel x y r g b) = InRange w.x w.width x × InRange w.y w.height y
Within w (Call.line x1 y1 x2 y2 r g b) =
    (InRange w.x w.width x1 × InRange w.y w.height y1)
    × (InRange w.x w.width x2 × InRange w.y w.height y2)
Within w c = ⊥

InRange-cut :
    (start size x : ℕ)
    → start + size < 2 ^ 16
    → ltb size x ≡ false
    → InRange start size ((start + x) % 2 ^ 16) × InRange start size ((x + start) % 2 ^ 16)
InRange-cut start size x h k = ((ground arith, ground arith), (ground arith, ground arith))

neither : (p q : Bool) → p || q ≡ false → (p ≡ false) × (q ≡ false)
neither p q h = (ground arith, ground arith)

draw_in-Within :
    (w : Window) (req : DrawReq)
    → w.x + w.width < 2 ^ 16
    → w.y + w.height < 2 ^ 16
    → All (Within w) (draw_in w req)
unfolding draw_in Within
draw_in-Within w req hx hy =
    let px = ltb w.width req.x in
    let py = ltb w.height req.y in
    let ex = ltb w.width req.end_x in
    let ey = ltb w.height req.end_y in
    elim (Bool-cases (req.type == 0)) [
      | inl pixel ↦ elim (Bool-cases (px || py)) [
        | inl outside ↦ rw (pixel, outside) tt
        | inr inside ↦
            let (fx, fy) = neither px py inside in
            let (in_x, in_x') = InRange-cut w.x w.width req.x hx fx in
            let (in_y, in_y') = InRange-cut w.y w.height req.y hy fy in
            rw (pixel, inside) ((in_x, in_y), tt)
      ]
      | inr other ↦ elim (Bool-cases (req.type == 1)) [
        | inl line ↦ elim (Bool-cases (ex || ey || px || py)) [
          | inl outside ↦ rw (other, line, outside) tt
          | inr inside ↦
              let (rest, fy) = neither (ex || ey || px) py inside in
              let (rest', fx) = neither (ex || ey) px rest in
              let (fex, fey) = neither ex ey rest' in
              let (in_x, in_x') = InRange-cut w.x w.width req.x hx fx in
              let (end_x, end_x') = InRange-cut w.x w.width req.end_x hx fex in
              let (end_y, end_y') = InRange-cut w.y w.height req.end_y hy fey in
              rw (other, line, inside) (((in_x', end_y'), (end_x', end_y')), tt)
        ]
        | inr rest ↦ rw (other, rest) tt
      ]
    ]

index_from-hit :
    (ws : ℕ → Window) (pid i left idx : ℕ)
    → index_from ws pid i left ≡ some idx
    → (idx < i + left) × ((ws idx).process_pid ≡ pid)
unfolding index_from
index_from-hit ws pid i zero idx h = absurd (ground (arith, h))
index_from-hit ws pid i (suc left) idx h = elim (Bool-cases ((ws i).process_pid == pid)) [
  | inl hit ↦ (ground arith, ground arith)
  | inr miss ↦
      let (below, same) = index_from-hit ws pid (i + 1) left idx (ground arith) in
      (omega (arith, below), same)
]

index_from-missing :
    (ws : ℕ → Window) (pid i left : ℕ)
    → ((j : ℕ) → j < i + left → (ws j).process_pid ≢ pid)
    → index_from ws pid i left ≡ none
unfolding index_from
index_from-missing ws pid i zero misses = refl
index_from-missing ws pid i (suc left) misses =
    let rest = index_from-missing ws pid (i + 1) left (λ j h. misses j (omega (arith, h))) in
    let here = misses i (omega arith) in
    let miss : ((ws i).process_pid == pid) ≡ false = ground (arith, here) in
    rw (index_from, miss) rest

-- A request to draw from a program without a window draws nothing. Any other one, as long as no window
-- reaches beyond the 16 bits of a coordinate, draws nothing, or draws in a window of the table that this program
-- opened, and only where the window is: from its corner to its width and its height, both included.
pub draw_requested-Within :
    (from_pid : ℕ) (req : DrawReq) (s : Wm)
    → ((j : ℕ)
        → j < s.window_count
        → ((s.windows j).x + (s.windows j).width < 2 ^ 16)
          × ((s.windows j).y + (s.windows j).height < 2 ^ 16))
    → (((j : ℕ) → j < s.window_count → (s.windows j).process_pid ≢ from_pid)
        → draw_requested from_pid req s ≡ [])
      × ((draw_requested from_pid req s ≡ [])
          ⊎ ((idx : ℕ) × (idx < s.window_count)
              × ((s.windows idx).process_pid ≡ from_pid)
              × All (Within (s.windows idx)) (draw_requested from_pid req s)))
unfolding draw_requested get_index_from_pid
draw_requested-Within from_pid req s fits = (
  λ without.
      let unknown =
        index_from-missing s.windows from_pid 0 s.window_count
          (λ j h. without j (omega (arith, h))) in
      rw (draw_requested, get_index_from_pid, unknown) refl,
  elim (Option-cases (get_index_from_pid s from_pid)) [
    | inl unknown ↦ inl (rw (draw_requested, unknown) refl)
    | inr (idx, found) ↦
        let (below, same) = index_from-hit s.windows from_pid 0 s.window_count idx found in
        let (hx, hy) = fits idx (omega (arith, below)) in
        inr (
          idx,
          omega (arith, below),
          same,
          rw (draw_requested, found) (draw_in-Within (s.windows idx) req hx hy),
        )
  ],
)
