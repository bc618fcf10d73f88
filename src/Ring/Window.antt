-- ===== src/Ring/Window.antt =====
-- The buffer refines a window over the history: it holds the last `size` lines, oldest first.
use mathlib.Core.List.{append_assoc, append-nil}
use andaime.Base.{
  ℕ, zero, suc, ◌+◌, ◌-◌, ◌%◌, ◌<◌, ◌≤◌, ltb, ◌==◌, true, ◌&&◌, not, List, [], ◌∷◌, ◌++◌, some,
  length, set, take, drop, length-append, length-set, length-take, length-drop, length-replicate,
  if◌then◌else◌, ◌≡◌, refl, sym, ap, ap₂, ◌∙◌, inl, inr, Bool-cases, arith,
}
use andaime.Ring.{CircularBuffer, new_circular_buffer, add, get_lines, add_all}

mod_inside : (i n : ℕ) → suc i < n → (i + 1) % n ≡ suc i
mod_inside i n h = grind arith

mod_end : (i n : ℕ) → suc i ≡ n → (i + 1) % n ≡ 0
mod_end i n h = grind arith

module _ {ℓ} {A : Type ℓ} where
  -- The specification: the last `n` items of a history.
  abbrev pub keep : ℕ → List A → List A
  keep n xs = drop (length xs - n) xs

  pub record IsValid (cb : CircularBuffer A) : Type 0 where
    pub in_bounds : cb.cur < length cb.lines

  take-suc-set :
      (xs : List A) (i : ℕ) (v : A)
      → i < length xs
      → take (suc i) (set xs i v) ≡ take i xs ++ v ∷ []
  take-suc-set [] i v h = elim h [ ]
  take-suc-set (x ∷ xs) zero v h = refl
  take-suc-set (x ∷ xs) (suc i) v h = ap (◌∷◌ x) (take-suc-set xs i v (omega arith))

  drop-suc-set : (xs : List A) (i : ℕ) (v : A) → drop (suc i) (set xs i v) ≡ drop (suc i) xs
  drop-suc-set [] i v = refl
  drop-suc-set (x ∷ xs) zero v = refl
  drop-suc-set (x ∷ xs) (suc i) v = drop-suc-set xs i v

  drop_head : (xs : List A) (i : ℕ) → i < length xs → (y : A) × (drop i xs ≡ y ∷ drop (suc i) xs)
  drop_head [] i h = elim h [ ]
  drop_head (x ∷ xs) zero h = (x, refl)
  drop_head (x ∷ xs) (suc i) h = drop_head xs i (omega arith)

  take_all : (xs : List A) (n : ℕ) → length xs ≤ n → take n xs ≡ xs
  take_all [] zero h = refl
  take_all [] (suc n) h = refl
  take_all (x ∷ xs) zero h = absurd (omega arith)
  take_all (x ∷ xs) (suc n) h = ap (◌∷◌ x) (take_all xs n (omega arith))

  drop_all : (xs : List A) (n : ℕ) → length xs ≤ n → drop n xs ≡ []
  drop_all [] zero h = refl
  drop_all [] (suc n) h = refl
  drop_all (x ∷ xs) zero h = absurd (omega arith)
  drop_all (x ∷ xs) (suc n) h = drop_all xs n (omega arith)

  -- A write at the last index.
  set_last : (xs : List A) (i : ℕ) (v : A) → suc i ≡ length xs → set xs i v ≡ take i xs ++ v ∷ []
  set_last xs i v h =
      sym (take_all (set xs i v) (suc i) (omega (arith, length-set xs i v)))
      ∙ take-suc-set xs i v (omega arith)

  -- The buffer after a write.
  written : CircularBuffer A → A → CircularBuffer A
  written cb v = record {
    lines = set cb.lines cb.cur v;
    cur = (cb.cur + 1) % length cb.lines;
    full = if not cb.full && (cb.cur + 1) % length cb.lines == 0 then true else cb.full;
  }

  add-written : (cb : CircularBuffer A) (v : A) → IsValid cb → add cb v ≡ some (written cb v)
  unfolding add written
  add-written cb v w = ground arith

  keep_short : (n : ℕ) (xs : List A) → length xs ≤ n → keep n xs ≡ xs
  keep_short n xs h = let e : length xs - n ≡ 0 = omega arith in rw e

  keep_tail : (n : ℕ) (y : A) (xs : List A) → length xs ≡ n → keep n (y ∷ xs) ≡ xs
  keep_tail n y xs h = let e : suc (length xs) - n ≡ 1 = omega arith in rw e

  -- The last lines of a buffer that is full, and of one that is not, with one line more.
  keep_full :
      (xs : List A) (i : ℕ) (v : A)
      → i < length xs
      → keep (length xs) ((drop i xs ++ take i xs) ++ v ∷ [])
        ≡ drop (suc i) xs ++ (take i xs ++ v ∷ [])
  keep_full xs i v h =
      let (y, e) = drop_head xs i h in
      rw e (
        keep_tail (length xs) y ((drop (suc i) xs ++ take i xs) ++ v ∷ []) (
          omega (
            arith,
            length-append (drop (suc i) xs ++ take i xs) (v ∷ []),
            length-append (drop (suc i) xs) (take i xs),
            length-drop (suc i) xs,
            length-take i xs,
          ))
        ∙ append_assoc (drop (suc i) xs) (take i xs) (v ∷ []))

  keep_part :
      (xs : List A) (i : ℕ) (v : A)
      → i < length xs
      → keep (length xs) (take i xs ++ v ∷ []) ≡ take i xs ++ v ∷ []
  keep_part xs i v h =
      keep_short (length xs) (take i xs ++ v ∷ [])
        (omega (arith, length-append (take i xs) (v ∷ []), length-take i xs))

  -- What is read after a write that does not reach the end, and after one that does.
  read_inside :
      (cb : CircularBuffer A) (v : A)
      → suc cb.cur < length cb.lines
      → get_lines (written cb v) ≡ (
          if cb.full
          then drop (suc cb.cur) cb.lines ++ (take cb.cur cb.lines ++ v ∷ [])
          else take cb.cur cb.lines ++ v ∷ [])
  unfolding get_lines written
  read_inside cb v h = ground (
    arith,
    mod_inside cb.cur (length cb.lines) h,
    take-suc-set cb.lines cb.cur v,
    drop-suc-set cb.lines cb.cur v,
  )

  read_end :
      (cb : CircularBuffer A) (v : A)
      → suc cb.cur ≡ length cb.lines
      → get_lines (written cb v) ≡ take cb.cur cb.lines ++ v ∷ []
  unfolding get_lines written
  read_end cb v h = ground (
    arith,
    mod_end cb.cur (length cb.lines) h,
    append-nil (set cb.lines cb.cur v),
    set_last cb.lines cb.cur v h,
  )

  -- What the specification keeps, in the two states of the buffer.
  keep-get_lines :
      (cb : CircularBuffer A) (v : A)
      → IsValid cb
      → keep (length cb.lines) (get_lines cb ++ v ∷ []) ≡ (
          if cb.full
          then drop (suc cb.cur) cb.lines ++ (take cb.cur cb.lines ++ v ∷ [])
          else take cb.cur cb.lines ++ v ∷ [])
  unfolding get_lines
  keep-get_lines cb v w = elim (Bool-cases cb.full) [
    | inl e ↦ rw e (keep_full cb.lines cb.cur v w.in_bounds)
    | inr e ↦ rw e (keep_part cb.lines cb.cur v w.in_bounds)
  ]

  get_lines-written :
      (cb : CircularBuffer A) (v : A)
      → IsValid cb
      → get_lines (written cb v) ≡ keep (length cb.lines) (get_lines cb ++ v ∷ [])
  get_lines-written cb v w = elim (Bool-cases (ltb (suc cb.cur) (length cb.lines))) [
    | inl e ↦ read_inside cb v (ground arith) ∙ sym (keep-get_lines cb v w)
    | inr e ↦
        let last : suc cb.cur ≡ length cb.lines = ground (arith, w.in_bounds) in
        read_end cb v last
        ∙ ground
            (arith, keep-get_lines cb v w, drop_all cb.lines (suc cb.cur) (omega (arith, last)))
  ]

  written-IsValid : (cb : CircularBuffer A) (v : A) → IsValid cb → IsValid (written cb v)
  unfolding written
  written-IsValid cb v w = record { in_bounds = grind (arith, length-set cb.lines cb.cur v) }

  length-written : (cb : CircularBuffer A) (v : A) → length (written cb v).lines ≡ length cb.lines
  unfolding written
  length-written cb v = length-set cb.lines cb.cur v

  drop-append : (k : ℕ) (xs ys : List A) → k ≤ length xs → drop k xs ++ ys ≡ drop k (xs ++ ys)
  drop-append zero xs ys h = refl
  drop-append (suc k) [] ys h = absurd (omega arith)
  drop-append (suc k) (x ∷ xs) ys h = drop-append k xs ys (omega arith)

  drop-drop : (a b : ℕ) (xs : List A) → drop a (drop b xs) ≡ drop (b + a) xs
  drop-drop a zero xs = let e : 0 + a ≡ a = omega arith in rw e
  drop-drop zero (suc b) [] = let e : suc b + 0 ≡ suc b = omega arith in rw e
  drop-drop (suc a) (suc b) [] = let e : suc b + suc a ≡ suc (b + suc a) = omega arith in rw e
  drop-drop a (suc b) (x ∷ xs) =
      let e : suc b + a ≡ suc (b + a) = omega arith in rw e (drop-drop a b xs)

  -- Keeping the last lines of a history may be done line by line.
  keep-keep : (n : ℕ) (xs ys : List A) → keep n (keep n xs ++ ys) ≡ keep n (xs ++ ys)
  keep-keep n xs ys =
      let k = length xs - n in
      let e : k + (length (drop k (xs ++ ys)) - n) ≡ length (xs ++ ys) - n =
        omega (arith, length-drop k (xs ++ ys), length-append xs ys) in
      rw (drop-append k xs ys (omega arith)) (
        drop-drop (length (drop k (xs ++ ys)) - n) k (xs ++ ys)
        ∙ ap (λ (a : ℕ). drop a (xs ++ ys)) e)

  length-get_lines : (cb : CircularBuffer A) → IsValid cb → length (get_lines cb) ≤ length cb.lines
  unfolding get_lines
  length-get_lines cb w = elim (Bool-cases cb.full) [
    | inl e ↦ rw e (
        omega (
          arith,
          w.in_bounds,
          length-append (drop cb.cur cb.lines) (take cb.cur cb.lines),
          length-drop cb.cur cb.lines,
          length-take cb.cur cb.lines,
        ))
    | inr e ↦ rw e (omega (arith, w.in_bounds, length-take cb.cur cb.lines))
  ]

  add_all-cons :
      (cb : CircularBuffer A) (x : A) (xs : List A)
      → IsValid cb
      → add_all cb (x ∷ xs) ≡ add_all (written cb x) xs
  unfolding add_all
  add_all-cons cb x xs w = rw (add-written cb x w, add_all)

  keep-step :
      (cb : CircularBuffer A) (x : A) (xs : List A)
      → IsValid cb
      → keep (length (written cb x).lines) (get_lines (written cb x) ++ xs)
        ≡ keep (length cb.lines) (get_lines cb ++ x ∷ xs)
  keep-step cb x xs w =
      ap₂ (λ (k : ℕ) (ys : List A). keep k (ys ++ xs)) (length-written cb x)
        (get_lines-written cb x w)
      ∙ keep-keep (length cb.lines) (get_lines cb ++ x ∷ []) xs
      ∙ ap (keep (length cb.lines)) (append_assoc (get_lines cb) (x ∷ []) xs)

  pub add_all-keep :
      (cb : CircularBuffer A) (xs : List A)
      → IsValid cb
      → (cb' : CircularBuffer A) × (add_all cb xs ≡ some cb')
        × (get_lines cb' ≡ keep (length cb.lines) (get_lines cb ++ xs))
  add_all-keep cb [] w = (
    cb,
    unfold add_all in refl,
    sym (
        ap (keep (length cb.lines)) (append-nil (get_lines cb))
        ∙ keep_short (length cb.lines) (get_lines cb) (length-get_lines cb w)),
  )
  add_all-keep cb (x ∷ xs) w =
      let (cb', e, read) = add_all-keep (written cb x) xs (written-IsValid cb x w) in
      (cb', add_all-cons cb x xs w ∙ e, read ∙ keep-step cb x xs w)

  -- A new buffer of a positive size takes every history without a panic, and what it gives back
  -- then is the last `size` lines of the history, oldest first.
  pub get_lines-add_all :
      (size : ℕ) (zero_value : A) (xs : List A)
      → 0 < size
      → (cb : CircularBuffer A) × (add_all (new_circular_buffer size zero_value) xs ≡ some cb)
        × (get_lines cb ≡ keep size xs)
  unfolding new_circular_buffer get_lines
  get_lines-add_all size zero_value xs h =
      let n = length-replicate size zero_value in
      let new = new_circular_buffer size zero_value in
      let (cb, e, read) = add_all-keep new xs (record { in_bounds = omega (arith, n) }) in
      (cb, e, read ∙ ap (λ (k : ℕ). keep k xs) n)
