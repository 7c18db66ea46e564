-- ===== src/Graphics/Steps.antt =====
-- The turns of the loop of `drawLine`: how far they go along and across, and how near to the straight line.
use acky.Base.{
  ℕ, zero, suc, ◌+◌, ◌*◌, ◌-◌, ◌≤◌, ◌<◌, ◌≡◌, ◌⊎◌, inl, inr, refl, arith, leb, ltb, Bool, true,
  false, ◌&&◌, Bool-cases, some, if◌then◌else◌,
}
use acky.Base.Int.{ℤ, pos, negsuc, sub_ℕ, ◌+ℤ◌, leb_ℤ, ltb_ℤ, eq_ℤ, to_word, add-sub_ℕ, leb_ℤ-sub_ℕ}
use acky.Ram.{Ram}
use acky.Graphics.{VbeReturn, Line, put_pixel, draw_from}

-- After `i` of the `n` steps from one coordinate to another, each by `s`.
pub Along : (s : ℤ) → (start end n i x : ℕ) → Type 0
Along s start end n i x =
    ((s ≡ pos 1) × (x ≡ start + i) × (end ≡ start + n))
    ⊎ ((s ≡ negsuc 0) × (x + i ≡ start) × (end + n ≡ start))

pub Along-next :
    (s : ℤ) (start end n i x : ℕ)
    → Along s start end n i x
    → i < n
    → (x' : ℕ) × (pos x +ℤ s ≡ pos x') × Along s start end n (i + 1) x'
unfolding Along ◌+ℤ◌
Along-next s start end n i x (inl (es, ex, en)) h =
    (x + 1, rw es (ground arith), inl (es, omega (arith, ex), en))
Along-next s start end n i x (inr (es, ex, en)) h =
    (x - 1, rw es (ground arith), inr (es, omega (arith, ex, en, h), en))

pub Along-last :
    (s : ℤ) (start end n i x : ℕ)
    → Along s start end n i x
    → i ≤ n
    → (eq_ℤ (pos x) (pos end) ≡ true → i ≡ n) × (i ≡ n → eq_ℤ (pos x) (pos end) ≡ true)
unfolding Along
Along-last s start end n i x (inl (es, ex, en)) h = (λ e. ground arith, λ e. ground arith)
Along-last s start end n i x (inr (es, ex, en)) h = (λ e. ground arith, λ e. ground arith)

pub times-le : (i b a : ℕ) → i ≤ b → i * a ≤ b * a
times-le i b zero h = omega arith
times-le i b (suc a) h = omega (arith, times-le i b a h)

-- The two tests of a turn, and what they say while the end is not reached.
pub along_test : (a b i j : ℕ) → Bool
along_test a b i j = leb (((i + 1) * b) + ((i + 1) * b)) ((((j + 1) * a) + ((j + 1) * a)) + b)

pub across_test : (a b i j : ℕ) → Bool
across_test a b i j = leb (((j + 1) * a) + ((j + 1) * a)) (a + (((i + 1) * b) + ((i + 1) * b)))

pub along_test-lt :
    (a b i j : ℕ) → i ≤ a → j ≤ b → ((i < a) ⊎ (j < b)) → along_test a b i j ≡ true → i < a
unfolding along_test
along_test-lt a b i j hi hj (inl h) e = h
along_test-lt a b i j hi hj (inr h) e =
    let p = times-le (j + 1) b a (omega (arith, h)) in
    let le : ((i + 1) * b) + ((i + 1) * b) ≤ (((j + 1) * a) + ((j + 1) * a)) + b = ground arith in
    let q = times-le a i b in
    elim (Bool-cases (ltb i a)) [
      | inl less ↦ ground arith
      | inr more ↦ let q' = q (ground arith) in absurd (omega (arith, p, le, q', h))
    ]

pub across_test-lt :
    (a b i j : ℕ) → i ≤ a → j ≤ b → ((i < a) ⊎ (j < b)) → across_test a b i j ≡ true → j < b
unfolding across_test
across_test-lt a b i j hi hj (inr h) e = h
across_test-lt a b i j hi hj (inl h) e =
    let p = times-le (i + 1) a b (omega (arith, h)) in
    let le : ((j + 1) * a) + ((j + 1) * a) ≤ a + (((i + 1) * b) + ((i + 1) * b)) = ground arith in
    let q = times-le b j a in
    elim (Bool-cases (ltb j b)) [
      | inl less ↦ ground arith
      | inr more ↦ let q' = q (ground arith) in absurd (omega (arith, p, le, q', h))
    ]

-- Twice the distances from the straight line differ by no more than the longer side.
pub Near : (a b i j : ℕ) → Type 0
Near a b i j =
    let side = if leb a b then b else a in
    ((j * a) + (j * a) ≤ ((i * b) + (i * b)) + side)
    × ((i * b) + (i * b) ≤ ((j * a) + (j * a)) + side)

pub count : Bool → ℕ
count true = 1
count false = 0

pub Near-next :
    (a b i j : ℕ)
    → Near a b i j
    → Near a b (i + count (along_test a b i j)) (j + count (across_test a b i j))
unfolding Near along_test across_test count
Near-next a b i j (above, below) = ground arith

-- A turn that does not end moves along one side at least.
pub moves : (a b i j : ℕ) → 0 < count (along_test a b i j) + count (across_test a b i j)
unfolding along_test across_test count
moves a b i j = ground arith

pub Along-turn :
    (s : ℤ) (start end n i x : ℕ) (c : Bool)
    → Along s start end n i x
    → (c ≡ true → i < n)
    → (x' : ℕ) × ((if c then pos x +ℤ s else pos x) ≡ pos x') × Along s start end n (i + count c) x'
unfolding count Along
Along-turn s start end n i x true along h = Along-next s start end n i x along (h refl)
Along-turn s start end n i x false (inl (es, ex, en)) h = (x, refl, inl (es, omega (arith, ex), en))
Along-turn s start end n i x false (inr (es, ex, en)) h = (x, refl, inr (es, omega (arith, ex), en))

-- The error after `i` steps along and `j` across.
pub err_at : (a b i j : ℕ) → ℤ
err_at a b i j = sub_ℕ ((j + 1) * a) ((i + 1) * b)

pub err_at-turn :
    (a b i j : ℕ) (al ac : Bool) (dx dy : ℤ)
    → dx ≡ sub_ℕ a 0
    → dy ≡ sub_ℕ 0 b
    → (let e = if al then err_at a b i j +ℤ dy else err_at a b i j in if ac then e +ℤ dx else e)
      ≡ err_at a b (i + count al) (j + count ac)
unfolding count err_at ◌+ℤ◌
err_at-turn a b i j al ac dx dy ex ey =
    rw (ex, ey)
      (elim (Bool-cases al) [
        | inl et ↦ elim (Bool-cases ac) [
          | inl ct ↦ rw (et, ct) (ground arith)
          | inr ct ↦ rw (et, ct) (ground arith)
        ]
        | inr et ↦ elim (Bool-cases ac) [
          | inl ct ↦ rw (et, ct) (ground arith)
          | inr ct ↦ rw (et, ct) (ground arith)
        ]
      ])

pub err_at-start :
    (a b : ℕ) (dx dy : ℤ) → dx ≡ sub_ℕ a 0 → dy ≡ sub_ℕ 0 b → dx +ℤ dy ≡ err_at a b 0 0
unfolding err_at ◌+ℤ◌
err_at-start a b dx dy ex ey = rw (ex, ey) (ground arith)

pub tests :
    (a b i j : ℕ) (dx dy : ℤ)
    → dx ≡ sub_ℕ a 0
    → dy ≡ sub_ℕ 0 b
    → (leb_ℤ dy (err_at a b i j +ℤ err_at a b i j) ≡ along_test a b i j)
      × (leb_ℤ (err_at a b i j +ℤ err_at a b i j) dx ≡ across_test a b i j)
unfolding err_at along_test across_test
tests a b i j dx dy ex ey =
    let p = (j + 1) * a in
    let q = (i + 1) * b in
    let twice : sub_ℕ p q +ℤ sub_ℕ p q ≡ sub_ℕ (p + p) (q + q) = add-sub_ℕ p q p q in
    (
      rw (ey, twice, leb_ℤ-sub_ℕ 0 b (p + p) (q + q)) (ground arith),
      rw (ex, twice, leb_ℤ-sub_ℕ (p + p) (q + q) a 0) (ground arith),
    )

pub draw_from-turn :
    (fuel : ℕ) (vbe : VbeReturn) (l : Line) (x y err : ℤ) (m : Ram) (al ac : Bool) (x' y' err' : ℤ)
    → leb_ℤ l.dy (err +ℤ err) ≡ al
    → leb_ℤ (err +ℤ err) l.dx ≡ ac
    → (if al then x +ℤ l.sx else x) ≡ x'
    → (if ac then y +ℤ l.sy else y) ≡ y'
    → (let e = if al then err +ℤ l.dy else err in if ac then e +ℤ l.dx else e) ≡ err'
    → draw_from (suc fuel) vbe l x y err m ≡ (
        let drawn = put_pixel vbe m (to_word x) (to_word y) l.r l.g l.b in
        if eq_ℤ x l.x1 && eq_ℤ y l.y1 then some drawn else draw_from fuel vbe l x' y' err' drawn)
unfolding draw_from
draw_from-turn fuel vbe l x y err m al ac x' y' err' eal eac ex ey ee =
    rw (eal, eac, ex, ey, ee) refl

abbrev pub distance : ℕ → ℕ → ℕ
distance p q = (p - q) + (q - p)

pub Along-within :
    (s : ℤ) (start end n i x width : ℕ)
    → Along s start end n i x
    → i ≤ n
    → start < width
    → end < width
    → x < width
unfolding Along
Along-within s start end n i x width (inl (es, ex, en)) h hs he = omega arith
Along-within s start end n i x width (inr (es, ex, en)) h hs he = omega arith

pub count-le : (c : Bool) (i a : ℕ) → i ≤ a → (c ≡ true → i < a) → i + count c ≤ a
unfolding count
count-le true i a h less = omega (arith, less refl)
count-le false i a h less = omega arith

pub Along-start :
    (p q : ℕ) → Along (if ltb_ℤ (pos p) (pos q) then pos 1 else negsuc 0) p q (distance p q) 0 p
unfolding Along
Along-start p q = elim (Bool-cases (ltb p q)) [
  | inl less ↦ inl (ground arith, omega arith, ground arith)
  | inr more ↦ inr (ground arith, omega arith, ground arith)
]

pub Near-start : (a b : ℕ) → Near a b 0 0
unfolding Near
Near-start a b = ground arith

pub fewer :
    (i j a b c d fuel : ℕ)
    → i + c ≤ a
    → j + d ≤ b
    → 0 < c + d
    → (a - i) + (b - j) < suc fuel
    → (a - (i + c)) + (b - (j + d)) < fuel
fewer i j a b c d fuel hi hj h enough = omega arith
