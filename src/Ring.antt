-- ===== src/Ring.antt =====
-- pkg/utils/circular_buffer.go: the buffer that keeps the last lines. Go fills a new slice with
-- the zero value of its type. `none` is the panic of a write out of range.
pub mod Window
pub mod Examples
use andaime.Base.{
  ℕ, ◌+◌, ◌%◌, ltb, ◌==◌, Bool, true, false, ◌&&◌, not, List, [], ◌∷◌, ◌++◌, Option, none, some,
  length, set, take, drop, replicate, if◌then◌else◌,
}

pub record CircularBuffer {ℓ} (A : Type ℓ) : Type ℓ where
  pub lines : List A
  pub cur : ℕ
  pub full : Bool

module _ {ℓ} {A : Type ℓ} where
  unfoldable pub new_circular_buffer : ℕ → A → CircularBuffer A
  new_circular_buffer size zero_value = record {
    lines = replicate size zero_value;
    cur = 0;
    full = false;
  }

  -- `Add`
  unfoldable pub add : CircularBuffer A → A → Option (CircularBuffer A)
  add cb line =
      let next = (cb.cur + 1) % length cb.lines in
      if ltb cb.cur (length cb.lines)
      then some (record {
        lines = set cb.lines cb.cur line;
        cur = next;
        full = if not cb.full && next == 0 then true else cb.full;
      })
      else none

  -- `GetLines`
  unfoldable pub get_lines : CircularBuffer A → List A
  get_lines cb =
      if cb.full then drop cb.cur cb.lines ++ take cb.cur cb.lines else take cb.cur cb.lines

  -- A run of calls of `Add`.
  unfoldable pub add_all : CircularBuffer A → List A → Option (CircularBuffer A)
  add_all cb [] = some cb
  add_all cb (x ∷ xs) = elim (add cb x) [ none ↦ none | some cb' ↦ add_all cb' xs ]
